-- ===== src/Base/Map/Sorted.antt =====
-- The order of keys in a `std::map`, kept by `insert`: no key stands twice.
use libgossip.Base.{
  ◌≡◌, refl, sym, subst, ◌≢◌, ◌⊎◌, inl, inr, true, false, none, [], ◌∷◌, arith, All, Bytes,
  bytes_discrete, Bool-cases,
}
use libgossip.Base.Map.{Dictionary, string_less, insert, lookup}
use libgossip.Version.{less}

string_less_irrefl : (a : Bytes) → string_less a a ≡ false
unfolding string_less
string_less_irrefl [] = refl
string_less_irrefl (x ∷ a) = ground (arith, string_less_irrefl a)

string_less_trans :
    (a b c : Bytes) → string_less a b ≡ true → string_less b c ≡ true → string_less a c ≡ true
unfolding string_less
string_less_trans [] [] [] h k = h
string_less_trans [] (y ∷ b) [] h k = k
string_less_trans [] b (z ∷ c) h k = refl
string_less_trans (x ∷ a) [] c h k = ground (arith, h)
string_less_trans (x ∷ a) (y ∷ b) [] h k = ground (arith, k)
string_less_trans (x ∷ a) (y ∷ b) (z ∷ c) h k = ground (arith, string_less_trans a b c)

string_less_total : (a b : Bytes) → a ≢ b → string_less a b ≡ false → string_less b a ≡ true
unfolding string_less
string_less_total [] [] h k = absurd (h refl)
string_less_total [] (y ∷ b) h k = ground (arith, k)
string_less_total (x ∷ a) [] h k = refl
string_less_total (x ∷ a) (y ∷ b) h k = ground (arith, string_less_total a b, h, k)

-- The keys grow strictly.
abbrev pub Below : Bytes → Dictionary → Type 0
Below k m = All (λ e. string_less k e.0 ≡ true) m

abbrev pub IsSorted : Dictionary → Type 0
IsSorted [] = Unit
IsSorted ((k, v) ∷ m) = Below k m × IsSorted m

Below-trans : (j k : Bytes) (m : Dictionary) → string_less j k ≡ true → Below k m → Below j m
Below-trans j k [] h b = tt
Below-trans j k ((i, v) ∷ m) h b = (string_less_trans j k i h b.0, Below-trans j k m h b.1)

Below-insert :
    (j k v : Bytes) (m : Dictionary) → string_less j k ≡ true → Below j m → Below j (insert k v m)
unfolding insert
Below-insert j k v [] h b = (h, tt)
Below-insert j k v ((i, w) ∷ m) h b = ground (arith, Below-insert j k v m h b.1, h, b)

insert_cases :
    (k v j w : Bytes) (m : Dictionary)
    → ((k ≡ j) × (insert k v ((j, w) ∷ m) ≡ (j, v) ∷ m))
      ⊎ ((string_less k j ≡ true) × (insert k v ((j, w) ∷ m) ≡ (k, v) ∷ (j, w) ∷ m))
      ⊎ ((string_less j k ≡ true) × (insert k v ((j, w) ∷ m) ≡ (j, w) ∷ insert k v m))
unfolding insert
insert_cases k v j w m = elim (bytes_discrete k j) [
  | yes same ↦ inl (same, ground (arith, same))
  | no apart ↦ elim (Bool-cases (string_less k j)) [
    | inl less ↦ inr (inl (less, ground (arith, less, apart)))
    | inr more ↦ inr (inr (string_less_total k j apart more, ground (arith, more, apart)))
  ]
]

pub insert-IsSorted : (k v : Bytes) (m : Dictionary) → IsSorted m → IsSorted (insert k v m)
unfolding insert
insert-IsSorted k v [] h = (tt, tt)
insert-IsSorted k v ((j, w) ∷ m) h = elim (insert_cases k v j w m) [
  | inl (_, e) ↦ subst IsSorted (sym e) h
  | inr (inl (less, e)) ↦ subst IsSorted (sym e) ((less, Below-trans k j m less h.0), h)
  | inr (inr (more, e)) ↦
      subst IsSorted (sym e) (Below-insert j k v m more h.0, insert-IsSorted k v m h.1)
]

-- A key that comes before all others is not found among them.
pub lookup-Below : (k : Bytes) (m : Dictionary) → Below k m → lookup k m ≡ none
unfolding lookup
lookup-Below k [] b = refl
lookup-Below k ((j, v) ∷ m) b = elim (bytes_discrete k j) [
  | yes same ↦ absurd (ground (arith, b.0, same, string_less_irrefl j))
  | no apart ↦ ground (arith, apart, lookup-Below k m b.1)
]
