-- ===== src/Checks/SmallJson.antt =====
-- A small JSON library, and a reader of two hexadecimal digits.
use libgossip.Base.{
  ℕ, ◌+◌, ◌*◌, ◌/◌, ◌%◌, ◌≡◌, refl, ap, Bool, true, false, Option, none, some, List, [], ◌∷◌, arith,
  ℤ, Bytes, pos, negsuc,
}
use libgossip.Base.Map.{Dictionary}
use libgossip.Ids.{hex_value, ◌>>=◌}
use libgossip.Ids.RoundTrip.{hex_value-hex_char}
use libgossip.Net.Json.Hex.{ReadsHex}
use libgossip.Net.Json.Library.{find_member, JsonLibrary, IsDocumented}

mutual
  pub data Json : Type 0 where
    text : Bytes → Json
    number : ℤ → Json
    list : Jsons → Json
    texts : Dictionary → Json
    members : Fields → Json

  pub data Jsons : Type 0 where
    nil : Jsons
    next : Json → Jsons → Jsons

  pub data Fields : Type 0 where
    no_more : Fields
    field : Bytes → Json → Fields → Fields

of_list : List Json → Jsons
of_list [] = Jsons.nil
of_list (v ∷ vs) = Jsons.next v (of_list vs)

to_list : Jsons → List Json
to_list Jsons.nil = []
to_list (Jsons.next v vs) = v ∷ to_list vs

to_list-of_list : (vs : List Json) → to_list (of_list vs) ≡ vs
unfolding to_list of_list
to_list-of_list [] = refl
to_list-of_list (v ∷ vs) = ap (◌∷◌ v) (to_list-of_list vs)

of_fields : List (Bytes × Json) → Fields
of_fields [] = Fields.no_more
of_fields ((k, v) ∷ ms) = Fields.field k v (of_fields ms)

to_fields : Fields → List (Bytes × Json)
to_fields Fields.no_more = []
to_fields (Fields.field k v ms) = (k, v) ∷ to_fields ms

to_fields-of_fields : (ms : List (Bytes × Json)) → to_fields (of_fields ms) ≡ ms
unfolding to_fields of_fields
to_fields-of_fields [] = refl
to_fields-of_fields ((k, v) ∷ ms) = ap (◌∷◌ (k, v)) (to_fields-of_fields ms)

member_of : Bytes → Json → Option Json
unfolding to_fields find_member
member_of k (Json.members ms) = find_member k (to_fields ms)
member_of k _ = none

abbrev text_in : Json → Option Bytes
text_in (Json.text t) = some t
text_in _ = none

abbrev number_in : Json → Option ℤ
number_in (Json.number z) = some z
number_in _ = none

abbrev count_of : ℤ → Option ℕ
count_of (pos n) = some n
count_of (negsuc n) = none

abbrev count_in : Json → Option ℕ
count_in (Json.number z) = count_of z
count_in _ = none

abbrev texts_in : Json → Option Dictionary
texts_in (Json.texts d) = some d
texts_in _ = none

list_in : Json → List Json
unfolding to_list
list_in (Json.list vs) = to_list vs
list_in _ = []

abbrev is_list : Json → Bool
is_list (Json.list vs) = true
is_list _ = false

abbrev is_some : {A : Type 0} → Option A → Bool
is_some none = false
is_some (some x) = true

-- Every value has the text "{}", which stands for `known`.
unfoldable pub small_json : Option Json → JsonLibrary Json
unfolding member_of list_in of_list of_fields
small_json known = record {
  string = Json.text;
  integer = Json.number;
  unsigned = λ n. Json.number (pos n);
  array = λ vs. Json.list (of_list vs);
  of_map = Json.texts;
  object = λ ms. Json.members (of_fields ms);
  dump = λ v. some (b'{' ∷ b'}' ∷ []);
  parse = λ t. known;
  member = member_of;
  is_string = λ v. is_some (text_in v);
  is_number = λ v. is_some (number_in v);
  is_array = is_list;
  is_object = λ v. is_some (texts_in v);
  get_string = text_in;
  get_int = number_in;
  get_unsigned = count_in;
  get_map = texts_in;
  items = list_in;
}

pub small_json-IsDocumented : (known : Option Json) → IsDocumented (small_json known)
unfolding small_json member_of list_in
small_json-IsDocumented known = record {
  member-object = λ k ms h. ap (find_member k) (to_fields-of_fields ms);
  is_string-string = λ t. refl;
  get_string-string = λ t. refl;
  is_number-integer = λ z. refl;
  get_int-integer = λ z h. refl;
  is_number-unsigned = λ n. refl;
  get_unsigned-unsigned = λ n h. refl;
  is_array-array = λ vs. refl;
  items-array = to_list-of_list;
  is_object-of_map = λ d. refl;
  get_map-of_map = λ d. refl;
}

-- std::stoi for two digits.
unfoldable pub read_hex : Bytes → Option ℤ
unfolding hex_value
read_hex (c ∷ d ∷ []) =
    hex_value c >>= (λ high. hex_value d >>= (λ low. some (pos (high * 16 + low))))
read_hex _ = none

pub read_hex-ReadsHex : ReadsHex read_hex
unfolding read_hex
read_hex-ReadsHex b h =
    rw (hex_value-hex_char (b / 16) (omega (arith, h)), hex_value-hex_char (b % 16) (omega arith))
      (ap (λ n. some (pos n)) (omega arith))
