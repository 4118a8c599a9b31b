-- ===== src/Ids.antt =====
-- src/core/node_id_utils.cpp: identifiers of nodes as text and as bytes. A `char` is its code, a
-- `uint8_t` a number below 256.
pub mod RoundTrip
use Prim.Native.Nat.{bit_xor}
pub mod Parse
pub mod Hashes
use libgossip.Base.{
  ℕ, zero, suc, ◌+◌, ◌-◌, ◌*◌, ◌/◌, ◌%◌, ◌^◌, Bool, true, false, not, ◌&&◌, Option, none, some, [],
  ◌∷◌, ◌++◌, length, take, drop, keep_if, ltb, leb, ◌==◌, if◌then◌else◌, Bytes,
}

abbrev pub id_size : ℕ
id_size = 16

-- `hex_chars[d]`, for d below 16.
unfoldable pub hex_char : ℕ → ℕ
hex_char d = if ltb d 10 then b'0' + d else b'a' + (d - 10)

unfoldable pub node_id_to_string : Bytes → Bytes
node_id_to_string [] = []
node_id_to_string (byte ∷ id) = hex_char (byte / 16) ∷ hex_char (byte % 16) ∷ node_id_to_string id

-- The value of one character, `none` if it is no hexadecimal digit.
unfoldable pub hex_value : ℕ → Option ℕ
hex_value c =
    if leb b'0' c && leb c b'9'
    then some (c - b'0')
    else if leb b'a' c && leb c b'f'
    then some (c - b'a' + 10)
    else if leb b'A' c && leb c b'F'
    then some (c - b'A' + 10)
    else none

-- `byte <<= 4; byte |= digit;` on a byte: the digit is below 16, so `|` adds.
abbrev pub shift_in : ℕ → ℕ → ℕ
shift_in byte digit = byte * 16 % 256 + digit

infixl 5 ◌>>=◌
abbrev pub ◌>>=◌ {ℓ κ} : {A : Type ℓ} {B : Type κ} → Option A → (A → Option B) → Option B
none >>= f = none
some a >>= f = f a

-- The outer loop, over what is left of the digits, which come in pairs.
unfoldable pub parse_bytes : Bytes → Option Bytes
parse_bytes [] = some []
parse_bytes (c ∷ []) = none
parse_bytes (c ∷ d ∷ rest) = do
  high ← hex_value c
  low ← hex_value d
  id ← parse_bytes rest
  some (shift_in (shift_in 0 high) low ∷ id)

abbrev pub is_dash : ℕ → Bool
is_dash c = c == b'-'

-- "Remove dashes if present".
unfoldable pub clean_hex : Bytes → Bytes
unfolding keep_if
clean_hex hex = keep_if (λ c. not (is_dash c)) hex

unfoldable pub parse_node_id : Bytes → Option Bytes
unfolding clean_hex parse_bytes
parse_node_id hex = if length (clean_hex hex) == 32 then parse_bytes (clean_hex hex) else none

-- `memcpy` of 16 bytes; the caller's buffer holds at least as many.
unfoldable pub node_id_from_bytes : Bytes → Bytes
node_id_from_bytes data_bytes = take id_size data_bytes

-- The 16 bytes at the front of the caller's buffer are overwritten.
unfoldable pub node_id_to_bytes : Bytes → Bytes → Bytes
node_id_to_bytes id buffer = id ++ drop id_size buffer

-- The bytes of a `uint64_t` in the memory of a little-endian machine.
unfoldable pub little_endian : ℕ → ℕ → Bytes
little_endian zero n = []
little_endian (suc k) n = n % 256 ∷ little_endian k (n / 256)

unfoldable pub node_id_from_hash : ℕ → Bytes
unfolding little_endian
node_id_from_hash hash = little_endian 8 hash ++ 0 ∷ 0 ∷ 0 ∷ 0 ∷ 0 ∷ 0 ∷ 0 ∷ 0 ∷ []

-- The draws of std::random_device, std::mt19937_64 and the clock are arguments.
unfoldable pub generate_node_id : ℕ → ℕ → ℕ → Bytes
unfolding little_endian
generate_node_id rand1 rand2 nanos =
    little_endian 8 (bit_xor rand1 (nanos % 2 ^ 64)) ++ little_endian 8 rand2

-- include/core/node_id_utils.hpp
abbrev pub null_node_id : Bytes
null_node_id = 0 ∷ 0 ∷ 0 ∷ 0 ∷ 0 ∷ 0 ∷ 0 ∷ 0 ∷ 0 ∷ 0 ∷ 0 ∷ 0 ∷ 0 ∷ 0 ∷ 0 ∷ 0 ∷ []

unfoldable pub is_null_node_id : Bytes → Bool
is_null_node_id [] = true
is_null_node_id (byte ∷ id) =
    let rest = is_null_node_id id in if not (byte == 0) then false else rest
