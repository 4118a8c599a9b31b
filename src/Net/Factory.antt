-- ===== src/Net/Factory.antt =====
-- src/net/serializer_factory.cpp: the registry of serializers, one for the whole program. Its mutex
-- makes each operation a single step.
pub mod Registration
use mathlib.Core.Option.{get_or}
use libgossip.Base.{
  Bool, true, false, Option, none, some, List, [], ◌∷◌, ◌++◌, map, if◌then◌else◌, holds, Bytes,
  bytes_discrete,
}
use libgossip.Net.{Serializer}

-- A creator_func, by what it creates: `none` is null.
abbrev pub Creator : Type 0
Creator = Option Serializer

-- The static members. The order of an unordered_map is not seen by any operation below.
pub record Factory : Type 0 where
  pub registry : List (Bytes × Creator)
  pub defaults_initialized : Bool

-- `registry.find(name)`
unfoldable pub find_creator : Bytes → List (Bytes × Creator) → Option Creator
find_creator name [] = none
find_creator name ((key, creator) ∷ rest) =
    let later = find_creator name rest in
    if holds (bytes_discrete key name) then some creator else later

-- `registry[name] = creator`, for a name that is not there.
unfoldable pub add_if_absent : Option Creator → Bytes → Creator → Factory → Bool × Factory
add_if_absent (some old) name creator f = (false, f)
add_if_absent none name creator f =
    (true, record f { registry = f.registry ++ (name, creator) ∷ [] })

unfoldable pub register_serializer : Bytes → Creator → Factory → Bool × Factory
unfolding find_creator add_if_absent
register_serializer name creator f = add_if_absent (find_creator name f.registry) name creator f

-- "json"
abbrev pub json_name : Bytes
json_name = b'j' ∷ b's' ∷ b'o' ∷ b'n' ∷ []

-- `json` is what create_json_serializer gives.
unfoldable pub init_defaults : Creator → Factory → Factory
unfolding register_serializer
init_defaults json f =
    if f.defaults_initialized
    then f
    else record (register_serializer json_name json f).1 { defaults_initialized = true }

unfoldable pub create : Creator → Bytes → Factory → Creator × Factory
unfolding init_defaults find_creator
create json name f =
    let f' = init_defaults json f in (get_or (find_creator name f'.registry) none, f')

unfoldable pub has_serializer : Creator → Bytes → Factory → Bool × Factory
unfolding init_defaults find_creator
has_serializer json name f =
    let f' = init_defaults json f in
    (elim (find_creator name f'.registry) [ none ↦ false | some c ↦ true ], f')

names : List (Bytes × Creator) → List Bytes
names registry = map (λ e. e.0) registry

-- `sort` is std::sort by the order of std::string.
unfoldable pub registered_names :
    Creator → (List Bytes → List Bytes) → Factory → List Bytes × Factory
unfolding init_defaults names
registered_names json sort f = let f' = init_defaults json f in (sort (names f'.registry), f')
