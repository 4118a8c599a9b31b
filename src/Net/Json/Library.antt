-- ===== src/Net/Json/Library.antt =====
-- The JSON library that src/net/json_serializer.cpp uses, as an interface, and the names of the
-- members that the serializer writes.
use libgossip.Base.{
  ℕ, ◌^◌, ◌<◌, ◌≡◌, Bool, true, false, not, ◌&&◌, ◌||◌, Option, none, some, List, [], ◌∷◌, map, ℤ,
  if◌then◌else◌, holds, Bytes, bytes_discrete, pos, negsuc,
}
use libgossip.Base.Map.{Dictionary}

-- A value is a `V`. `member` is contains and operator[] together, `none` where contains is false;
-- a get is `none` where it throws, dump where a text is no UTF-8, and parse where the result is
-- discarded.
pub record JsonLibrary (V : Type 0) : Type 0 where
  pub string : Bytes → V
  pub integer : ℤ → V
  pub unsigned : ℕ → V
  pub array : List V → V
  pub of_map : Dictionary → V
  pub object : List (Bytes × V) → V
  pub dump : V → Option Bytes
  pub parse : Bytes → Option V
  pub member : Bytes → V → Option V
  pub is_string : V → Bool
  pub is_number : V → Bool
  pub is_array : V → Bool
  pub is_object : V → Bool
  pub get_string : V → Option Bytes
  pub get_int : V → Option ℤ
  pub get_unsigned : V → Option ℕ
  pub get_map : V → Option Dictionary
  pub items : V → List V

unfoldable pub find_member : {V : Type 0} → Bytes → List (Bytes × V) → Option V
find_member k [] = none
find_member k ((j, v) ∷ ms) = if holds (bytes_discrete j k) then some v else find_member k ms

unfoldable pub has_key : Bytes → List Bytes → Bool
has_key k [] = false
has_key k (j ∷ js) = holds (bytes_discrete j k) || has_key k js

unfoldable pub distinct : List Bytes → Bool
unfolding has_key
distinct [] = true
distinct (k ∷ ks) = not (has_key k ks) && distinct ks

-- The range of an int.
abbrev pub IsInt : ℤ → Type 0
IsInt (pos n) = n < 2 ^ 31
IsInt (negsuc n) = n < 2 ^ 31

-- What the library documents of values that it has made itself.
pub record IsDocumented {V : Type 0} (lib : JsonLibrary V) : Type 0 where
  pub member-object :
      (k : Bytes) (ms : List (Bytes × V))
      → distinct (map (λ m. m.0) ms) ≡ true
      → lib.member k (lib.object ms) ≡ find_member k ms
  pub is_string-string : (text : Bytes) → lib.is_string (lib.string text) ≡ true
  pub get_string-string : (text : Bytes) → lib.get_string (lib.string text) ≡ some text
  pub is_number-integer : (z : ℤ) → lib.is_number (lib.integer z) ≡ true
  pub get_int-integer : (z : ℤ) → IsInt z → lib.get_int (lib.integer z) ≡ some z
  pub is_number-unsigned : (n : ℕ) → lib.is_number (lib.unsigned n) ≡ true
  pub get_unsigned-unsigned : (n : ℕ) → n < 2 ^ 64 → lib.get_unsigned (lib.unsigned n) ≡ some n
  pub is_array-array : (vs : List V) → lib.is_array (lib.array vs) ≡ true
  pub items-array : (vs : List V) → lib.items (lib.array vs) ≡ vs
  pub is_object-of_map : (d : Dictionary) → lib.is_object (lib.of_map d) ≡ true
  pub get_map-of_map : (d : Dictionary) → lib.get_map (lib.of_map d) ≡ some d

abbrev pub key_sender : Bytes
key_sender = b's' ∷ b'e' ∷ b'n' ∷ b'd' ∷ b'e' ∷ b'r' ∷ []

abbrev pub key_type : Bytes
key_type = b't' ∷ b'y' ∷ b'p' ∷ b'e' ∷ []

abbrev pub key_timestamp : Bytes
key_timestamp = b't' ∷ b'i' ∷ b'm' ∷ b'e' ∷ b's' ∷ b't' ∷ b'a' ∷ b'm' ∷ b'p' ∷ []

abbrev pub key_entries : Bytes
key_entries = b'e' ∷ b'n' ∷ b't' ∷ b'r' ∷ b'i' ∷ b'e' ∷ b's' ∷ []

abbrev pub key_id : Bytes
key_id = b'i' ∷ b'd' ∷ []

abbrev pub key_ip : Bytes
key_ip = b'i' ∷ b'p' ∷ []

abbrev pub key_port : Bytes
key_port = b'p' ∷ b'o' ∷ b'r' ∷ b't' ∷ []

abbrev pub key_config_epoch : Bytes
key_config_epoch =
    b'c' ∷ b'o' ∷ b'n' ∷ b'f' ∷ b'i' ∷ b'g' ∷ b'_' ∷ b'e' ∷ b'p' ∷ b'o' ∷ b'c' ∷ b'h' ∷ []

abbrev pub key_heartbeat : Bytes
key_heartbeat = b'h' ∷ b'e' ∷ b'a' ∷ b'r' ∷ b't' ∷ b'b' ∷ b'e' ∷ b'a' ∷ b't' ∷ []

abbrev pub key_version : Bytes
key_version = b'v' ∷ b'e' ∷ b'r' ∷ b's' ∷ b'i' ∷ b'o' ∷ b'n' ∷ []

abbrev pub key_status : Bytes
key_status = b's' ∷ b't' ∷ b'a' ∷ b't' ∷ b'u' ∷ b's' ∷ []

abbrev pub key_role : Bytes
key_role = b'r' ∷ b'o' ∷ b'l' ∷ b'e' ∷ []

abbrev pub key_region : Bytes
key_region = b'r' ∷ b'e' ∷ b'g' ∷ b'i' ∷ b'o' ∷ b'n' ∷ []

abbrev pub key_metadata : Bytes
key_metadata = b'm' ∷ b'e' ∷ b't' ∷ b'a' ∷ b'd' ∷ b'a' ∷ b't' ∷ b'a' ∷ []

abbrev pub key_suspicion_count : Bytes
key_suspicion_count =
    b's' ∷ b'u' ∷ b's' ∷ b'p' ∷ b'i' ∷ b'c' ∷ b'i' ∷ b'o' ∷ b'n' ∷ b'_' ∷ b'c' ∷ b'o' ∷ b'u' ∷ b'n'
    ∷ b't' ∷ []
