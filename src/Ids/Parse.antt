-- ===== src/Ids/Parse.antt =====
-- What parse_node_id accepts, and what it makes of it.
use libgossip.Base.{
  ℕ, ◌+◌, ◌*◌, ◌/◌, ◌%◌, ◌<◌, ◌≡◌, refl, inl, inr, Bool, true, false, ◌&&◌, Option, none, some, [],
  ◌∷◌, ◌++◌, map, arith, length, All, leb, ◌==◌, if◌then◌else◌, Bytes, ==_iff, Option-cases,
}
use libgossip.Ids.{
  id_size, hex_char, node_id_to_string, hex_value, shift_in, parse_bytes, clean_hex, parse_node_id,
}
use libgossip.Ids.RoundTrip.{IsByte}
use libgossip.Manager.Phases.{after}

-- The lower-case form of a hexadecimal digit.
abbrev pub lower : ℕ → ℕ
lower c = if leb b'A' c && leb c b'F' then c + 32 else c

hex_value_lem : (c : ℕ) {v : ℕ} → hex_value c ≡ some v → (v < 16) × (hex_char v ≡ lower c)
unfolding hex_value hex_char
hex_value_lem c {v} e = ground arith

halves :
    (x y : ℕ)
    → x < 16
    → y < 16
    → (shift_in (shift_in 0 x) y / 16 ≡ x)
      × (shift_in (shift_in 0 x) y % 16 ≡ y)
      × (shift_in (shift_in 0 x) y < 256)
halves x y h k = (omega arith, omega arith, omega arith)

-- The parts of a successful parse of a first pair of digits.
parse_bytes_inv :
    (c d : ℕ) (rest : Bytes) {id : Bytes}
    → parse_bytes (c ∷ d ∷ rest) ≡ some id
    → (x y : ℕ) × (tail : Bytes) × (hex_value c ≡ some x)
      × (hex_value d ≡ some y)
      × (parse_bytes rest ≡ some tail)
      × (id ≡ shift_in (shift_in 0 x) y ∷ tail)
unfolding parse_bytes
parse_bytes_inv c d rest {id} e = elim (Option-cases (hex_value c)) [
  | inl f ↦ absurd (ground arith)
  | inr (x, f) ↦ elim (Option-cases (hex_value d)) [
    | inl g ↦ absurd (ground arith)
    | inr (y, g) ↦ elim (Option-cases (parse_bytes rest)) [
      | inl h ↦ absurd (ground arith)
      | inr (tail, h) ↦ (x, y, tail, f, g, h, ground arith)
    ]
  ]
]

-- What a successful parse says of the digits and of the bytes.
abbrev pub Spells : Bytes → Bytes → Type 0
Spells digits id =
    (node_id_to_string id ≡ map lower digits) × (length digits ≡ 2 * length id) × All IsByte id

parse_bytes-Spells : (digits : Bytes) {id : Bytes} → parse_bytes digits ≡ some id → Spells digits id
unfolding parse_bytes node_id_to_string
parse_bytes-Spells [] {id} e = ground arith
parse_bytes-Spells (c ∷ []) {id} e = absurd (ground arith)
parse_bytes-Spells (c ∷ d ∷ rest) {id} e =
    let (x, y, tail, f, g, h, same) = parse_bytes_inv c d rest e in
    let (text, long, bytes) = parse_bytes-Spells rest h in
    let (small_x, char_x) = hex_value_lem c f in
    let (small_y, char_y) = hex_value_lem d g in
    let (high, low, byte) = halves x y small_x small_y in
    rw same (rw (high, low, char_x, char_y, text) refl, omega (arith, long), (byte, bytes))

guarded :
    (b : Bool) (r : Option Bytes) {id : Bytes}
    → (if b then r else none) ≡ some id
    → (b ≡ true) × (r ≡ some id)
guarded true r e = (refl, e)
guarded false r e = cc

clean_hex_dash :
    (before after : Bytes) → clean_hex (before ++ b'-' ∷ after) ≡ clean_hex (before ++ after)
unfolding clean_hex
clean_hex_dash [] after = refl
clean_hex_dash (c ∷ before) after = rw (clean_hex_dash before after) refl

-- An accepted text has 32 characters besides its dashes, the identifier has sixteen bytes, all
-- below 256, and printing it gives these characters back in lower case.
parse_node_id-Spells :
    (hex : Bytes) {id : Bytes}
    → parse_node_id hex ≡ some id
    → (length (clean_hex hex) ≡ 32) × (length id ≡ id_size) × Spells (clean_hex hex) id
unfolding parse_node_id
parse_node_id-Spells hex {id} e =
    let (long, parsed) = guarded (length (clean_hex hex) == 32) (parse_bytes (clean_hex hex)) e in
    let spelled = parse_bytes-Spells (clean_hex hex) {id = id} parsed in
    let size : length (clean_hex hex) ≡ 32 = (==_iff (length (clean_hex hex)) 32).0 long in
    (size, omega (arith, spelled.1, size), spelled)
