-- ===== src/Ids/RoundTrip.antt =====
-- An identifier that is printed and parsed again is the same.
use libgossip.Base.{
  ℕ, ◌*◌, ◌/◌, ◌%◌, ◌<◌, ◌≡◌, refl, ap, ◌∙◌, false, some, [], ◌∷◌, arith, length, All, Bytes,
}
use libgossip.Ids.{
  id_size, hex_char, node_id_to_string, hex_value, shift_in, parse_bytes, is_dash, clean_hex,
  parse_node_id,
}

abbrev pub IsByte : ℕ → Type 0
IsByte b = b < 256

pub hex_value-hex_char : (d : ℕ) → d < 16 → hex_value (hex_char d) ≡ some d
unfolding hex_value hex_char
hex_value-hex_char d h = ground arith

pub hex_char-ne-dash : (d : ℕ) → d < 16 → is_dash (hex_char d) ≡ false
unfolding hex_char
hex_char-ne-dash d h = ground arith

-- Both digits of a byte.
both_digits : (b : ℕ) → IsByte b → shift_in (shift_in 0 (b / 16)) (b % 16) ≡ b
both_digits b h = omega arith

pub length-node_id_to_string : (id : Bytes) → length (node_id_to_string id) ≡ 2 * length id
unfolding node_id_to_string
length-node_id_to_string [] = omega arith
length-node_id_to_string (b ∷ id) = omega (arith, length-node_id_to_string id)

parse_bytes_step :
    (c d : ℕ) (rest : Bytes) {x y : ℕ} {id : Bytes}
    → hex_value c ≡ some x
    → hex_value d ≡ some y
    → parse_bytes rest ≡ some id
    → parse_bytes (c ∷ d ∷ rest) ≡ some (shift_in (shift_in 0 x) y ∷ id)
unfolding parse_bytes
parse_bytes_step c d rest e f g = rw (e, f, g) refl

parse_bytes-node_id_to_string :
    (id : Bytes) → All IsByte id → parse_bytes (node_id_to_string id) ≡ some id
unfolding parse_bytes node_id_to_string
parse_bytes-node_id_to_string [] h = refl
parse_bytes-node_id_to_string (b ∷ id) h =
    parse_bytes_step (hex_char (b / 16)) (hex_char (b % 16)) (node_id_to_string id)
      (hex_value-hex_char (b / 16) (omega (arith, h.0))) (hex_value-hex_char (b % 16) (omega arith))
      (parse_bytes-node_id_to_string id h.1)
    ∙ ap (λ x. some (x ∷ id)) (both_digits b h.0)

clean_hex-node_id_to_string :
    (id : Bytes) → All IsByte id → clean_hex (node_id_to_string id) ≡ node_id_to_string id
unfolding clean_hex node_id_to_string
clean_hex-node_id_to_string [] h = refl
clean_hex-node_id_to_string (b ∷ id) h =
    rw
      (
        hex_char-ne-dash (b / 16) (omega (arith, h.0)),
        hex_char-ne-dash (b % 16) (omega arith),
        clean_hex-node_id_to_string id h.1,
      )
      refl

-- Parsing the text of an identifier of sixteen bytes gives the identifier back.
pub parse_node_id-node_id_to_string :
    (id : Bytes)
    → length id ≡ id_size
    → All IsByte id
    → parse_node_id (node_id_to_string id) ≡ some id
unfolding parse_node_id
parse_node_id-node_id_to_string id n h =
    rw (clean_hex-node_id_to_string id h)
      (ground (arith, length-node_id_to_string id, parse_bytes-node_id_to_string id h))
