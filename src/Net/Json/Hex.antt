-- ===== src/Net/Json/Hex.antt =====
-- Identifiers as text in JSON, and back.
use libgossip.Base.{
  ℕ, ◌/◌, ◌%◌, ◌<◌, ◌≡◌, refl, sym, ap, ◌∙◌, false, Option, some, [], ◌∷◌, map, arith, ℤ, length,
  All, ◌==◌, Bytes, pos,
}
use libgossip.Ids.{id_size, hex_char}
use libgossip.Ids.RoundTrip.{IsByte}
use libgossip.Net.Json.{
  write_id, split_commas, is_blank, trim_start, trim_end, read_piece, read_pieces,
  parse_node_id_from_hex,
}
use libgossip.Node.{NodeId}
use libgossip.Node.Codes.{int_mod}

abbrev pub pair : ℕ → Bytes
pair b = hex_char (b / 16) ∷ hex_char (b % 16) ∷ []

-- What std::stoi documents for two hexadecimal digits.
abbrev pub ReadsHex : (Bytes → Option ℤ) → Type 0
ReadsHex stoi = (b : ℕ) → IsByte b → stoi (pair b) ≡ some (pos b)

-- A digit is neither a comma nor a blank.
hex_char_plain : (d : ℕ) → d < 16 → ((hex_char d == b',') ≡ false) × (is_blank (hex_char d) ≡ false)
unfolding hex_char
hex_char_plain d h = (ground (arith, h), ground (arith, h))

split_last : (b : ℕ) → IsByte b → split_commas (pair b) ≡ pair b ∷ []
unfolding split_commas
split_last b h =
    let high = hex_char_plain (b / 16) (omega (arith, h)) in
    let low = hex_char_plain (b % 16) (omega arith) in rw (high.0, low.0) refl

split_next :
    (b : ℕ) (more : Bytes)
    → IsByte b
    → split_commas (hex_char (b / 16) ∷ hex_char (b % 16) ∷ b',' ∷ more)
      ≡ pair b ∷ split_commas more
unfolding split_commas
split_next b more h =
    let high = hex_char_plain (b / 16) (omega (arith, h)) in
    let low = hex_char_plain (b % 16) (omega arith) in rw (high.0, low.0) refl

split_commas-write_id :
    (b : ℕ) (rest : Bytes)
    → All IsByte (b ∷ rest)
    → split_commas (write_id (b ∷ rest)) ≡ map pair (b ∷ rest)
unfolding write_id
split_commas-write_id b [] h = split_last b h.0
split_commas-write_id b (c ∷ rest) h =
    split_next b (write_id (c ∷ rest)) h.0 ∙ ap (◌∷◌ (pair b)) (split_commas-write_id c rest h.1)

trim_pair : (b : ℕ) → IsByte b → trim_end (trim_start (pair b)) ≡ pair b
unfolding trim_start trim_end
trim_pair b h =
    let high = hex_char_plain (b / 16) (omega (arith, h)) in
    let low = hex_char_plain (b % 16) (omega arith) in rw (high.1, low.1) refl

read_pieces-map :
    (stoi : Bytes → Option ℤ) (id : Bytes)
    → ReadsHex stoi
    → All IsByte id
    → read_pieces stoi (length id) (map pair id) ≡ id
unfolding read_pieces
read_pieces-map stoi [] reads h = refl
read_pieces-map stoi (b ∷ id) reads h =
    let small : b % int_mod % 256 ≡ b = omega (arith, h) in
    rw (trim_pair b h.0)
      (rw (reads b h.0, read_piece) (rw (small, read_pieces-map stoi id reads h.1) refl))

-- An identifier of sixteen bytes is read as it was written.
pub parse_node_id_from_hex-write_id :
    (stoi : Bytes → Option ℤ) (id : NodeId)
    → ReadsHex stoi
    → length id ≡ id_size
    → All IsByte id
    → parse_node_id_from_hex stoi (write_id id) ≡ id
unfolding parse_node_id_from_hex
parse_node_id_from_hex-write_id stoi [] reads sized h = absurd (omega (arith, sized))
parse_node_id_from_hex-write_id stoi (b ∷ rest) reads sized h =
    ap (read_pieces stoi id_size) (split_commas-write_id b rest h)
    ∙ ap (λ (k : ℕ). read_pieces stoi k (map pair (b ∷ rest))) (sym sized)
    ∙ read_pieces-map stoi (b ∷ rest) reads h
