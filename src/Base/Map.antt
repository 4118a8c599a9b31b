-- ===== src/Base/Map.antt =====
-- `std::map<std::string, std::string>`: an association list that `insert` keeps in the order of
-- its keys, the order in which the program iterates over it.
pub mod Sorted
use Prim.Native.Nat.{ℕ}
use mathlib.Core.Path.{◌≡◌, refl}
use mathlib.Core.Bool.{Bool, true, false}
use mathlib.Core.List.{List, [], ◌∷◌}
use mathlib.Core.Option.{Option, none, some}
use native.Mathlib.Decide.{ℕ_discrete}
use native.Mathlib.Omega.{arith}
use libgossip.Base.{ltb, ◌==◌, if◌then◌else◌, holds, Bytes, bytes_discrete}

abbrev pub Dictionary : Type 0
Dictionary = List (List ℕ × List ℕ)

unfoldable pub dictionary_discrete : Discrete (List (List ℕ × List ℕ))
unfolding ℕ_discrete
dictionary_discrete = hlevel ℕ_discrete

-- `std::string::operator<`: lexicographic by bytes.
unfoldable pub string_less : Bytes → Bytes → Bool
string_less [] [] = false
string_less [] (b ∷ bs) = true
string_less (a ∷ as') [] = false
string_less (a ∷ as') (b ∷ bs) =
    let rest = string_less as' bs in if ltb a b then true else if a == b then rest else false

-- `m[k] = v`
unfoldable pub insert : Bytes → Bytes → Dictionary → Dictionary
unfolding string_less
insert k v [] = (k, v) ∷ []
insert k v ((j, w) ∷ m) =
    let later = (j, w) ∷ insert k v m in
    if holds (bytes_discrete k j)
    then (j, v) ∷ m
    else if string_less k j
    then (k, v) ∷ (j, w) ∷ m
    else later

-- `m.find(k)`
unfoldable pub lookup : Bytes → Dictionary → Option Bytes
lookup k [] = none
lookup k ((j, v) ∷ m) = if holds (bytes_discrete k j) then some v else lookup k m

pub lookup-insert :
    (k j v : Bytes) (m : Dictionary)
    → lookup j (insert k v m) ≡ (if holds (bytes_discrete j k) then some v else lookup j m)
unfolding lookup insert
lookup-insert k j v [] = refl
lookup-insert k j v ((i, w) ∷ m) = ground (arith, lookup-insert k j v m)
