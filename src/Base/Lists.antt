-- ===== src/Base/Lists.antt =====
-- Lists measured and indexed by native numbers, under the library's names, and the standard
-- algorithms that the program calls on its lists: `std::find_if`, `remove_if`, `copy_if`.
use Prim.Native.Nat.{ℕ, zero, suc, ◌+◌, ◌≤◌, ◌<◌, min}
use mathlib.Core.Path.{◌≡◌, refl, ap, subst}
use mathlib.Core.Logic.{inl, inr, ◌≢◌}
use mathlib.Core.Bool.{Bool, true, false}
use mathlib.Core.List.{List, [], ◌∷◌, ◌++◌}
use mathlib.Core.Option
use mathlib.Core.Option.{Option, none, some}
use native.Mathlib.Omega.{arith}
use libgossip.Base.Tests.{if◌then◌else◌, Bool-cases}

module _ {ℓ} {A : Type ℓ} where
  abbrev pub length : List A → ℕ
  length [] = 0
  length (x ∷ xs) = suc (length xs)

  abbrev pub get_elem? : List A → ℕ → Option A
  get_elem? [] i = none
  get_elem? (x ∷ xs) zero = some x
  get_elem? (x ∷ xs) (suc i) = get_elem? xs i

  abbrev pub take : ℕ → List A → List A
  take zero xs = []
  take (suc n) [] = []
  take (suc n) (x ∷ xs) = x ∷ take n xs

  abbrev pub drop : ℕ → List A → List A
  drop zero xs = xs
  drop (suc n) [] = []
  drop (suc n) (x ∷ xs) = drop n xs

  -- A write through a pointer to the element at an index.
  abbrev pub modify : ℕ → (A → A) → List A → List A
  modify i f [] = []
  modify zero f (x ∷ xs) = f x ∷ xs
  modify (suc i) f (x ∷ xs) = x ∷ modify i f xs

  -- `std::find_if`: the index of the first element that passes, `none` for the end iterator.
  unfoldable pub find_index : (A → Bool) → List A → Option ℕ
  find_index p [] = none
  find_index p (x ∷ xs) = if p x then some 0 else Option.map suc (find_index p xs)

  -- `std::copy_if`; `remove_if` keeps what does not pass.
  unfoldable pub keep_if : (A → Bool) → List A → List A
  keep_if p [] = []
  keep_if p (x ∷ xs) = let rest = keep_if p xs in if p x then x ∷ rest else rest

module _ {ℓ} {A : Type ℓ} where
  pub length-append : (xs ys : List A) → length (xs ++ ys) ≡ length xs + length ys
  length-append [] ys = omega arith
  length-append (x ∷ xs) ys = omega (arith, length-append xs ys)

  pub length-modify : (i : ℕ) (f : A → A) (xs : List A) → length (modify i f xs) ≡ length xs
  length-modify i f [] = refl
  length-modify zero f (x ∷ xs) = refl
  length-modify (suc i) f (x ∷ xs) = ap suc (length-modify i f xs)

  pub length-take : (n : ℕ) (xs : List A) → length (take n xs) ≡ min n (length xs)
  length-take zero xs = omega arith
  length-take (suc n) [] = omega arith
  length-take (suc n) (x ∷ xs) = omega (arith, length-take n xs)

  pub length-keep_if-le : (p : A → Bool) (xs : List A) → length (keep_if p xs) ≤ length xs
  unfolding keep_if
  length-keep_if-le p [] = omega arith
  length-keep_if-le p (x ∷ xs) = ground (arith, length-keep_if-le p xs)

  pub get_elem?-modify_self :
      (i : ℕ) (f : A → A) (xs : List A)
      → get_elem? (modify i f xs) i ≡ Option.map f (get_elem? xs i)
  get_elem?-modify_self i f [] = refl
  get_elem?-modify_self zero f (x ∷ xs) = refl
  get_elem?-modify_self (suc i) f (x ∷ xs) = get_elem?-modify_self i f xs

  pub modify-get_elem?_same :
      (i : ℕ) (f : A → A) (xs : List A) {x : A}
      → get_elem? xs i ≡ some x
      → f x ≡ x
      → modify i f xs ≡ xs
  modify-get_elem?_same i f [] e h = refl
  modify-get_elem?_same zero f (x ∷ xs) e h = ground arith
  modify-get_elem?_same (suc i) f (x ∷ xs) e h = ap (◌∷◌ x) (modify-get_elem?_same i f xs e h)

  pub modify-modify :
      (i : ℕ) (f g : A → A) (xs : List A) → modify i g (modify i f xs) ≡ modify i (λ x. g (f x)) xs
  modify-modify i f g [] = refl
  modify-modify zero f g (x ∷ xs) = refl
  modify-modify (suc i) f g (x ∷ xs) = ap (◌∷◌ x) (modify-modify i f g xs)

  -- The element that the search stops at is in the list and passes the test.
  pub find_index-get_elem? :
      (p : A → Bool) (xs : List A) {i : ℕ}
      → find_index p xs ≡ some i
      → (x : A) × (get_elem? xs i ≡ some x) × (p x ≡ true)
  unfolding find_index
  find_index-get_elem? p [] e = cc
  find_index-get_elem? p (x ∷ xs) {i = zero} e = elim (Bool-cases (p x)) [
    | inl t ↦ (x, refl, t)
    | inr f ↦ ground arith
  ]
  find_index-get_elem? p (x ∷ xs) {i = suc i} e = find_index-get_elem? p xs (ground arith)

  -- A predicate on every element, by recursion: it computes to tuples.
  abbrev pub All {κ} : (A → Type κ) → List A → Type κ
  All P [] = Unit {κ}
  All P (x ∷ xs) = P x × All P xs

module _ {ℓ κ} {A : Type ℓ} (P : A → Type κ) where
  pub All-append : (xs ys : List A) → All P xs → All P ys → All P (xs ++ ys)
  All-append [] ys hx hy = hy
  All-append (x ∷ xs) ys hx hy = (hx.0, All-append xs ys hx.1 hy)

  pub All-keep_if : (p : A → Bool) (xs : List A) → All P xs → All P (keep_if p xs)
  unfolding keep_if
  All-keep_if p [] h = tt
  All-keep_if p (x ∷ xs) h = ground (arith, All-keep_if p xs h.1)

  pub All-take : (n : ℕ) (xs : List A) → All P xs → All P (take n xs)
  All-take zero xs h = tt
  All-take (suc n) [] h = tt
  All-take (suc n) (x ∷ xs) h = (h.0, All-take n xs h.1)

  pub All-modify :
      (i : ℕ) (f : A → A) (xs : List A)
      → ((x : A) → get_elem? xs i ≡ some x → P x → P (f x))
      → All P xs
      → All P (modify i f xs)
  All-modify i f [] k h = tt
  All-modify zero f (x ∷ xs) k h = (k x refl h.0, h.1)
  All-modify (suc i) f (x ∷ xs) k h = (h.0, All-modify i f xs k h.1)

  pub All-get_elem? : (i : ℕ) (xs : List A) {x : A} → get_elem? xs i ≡ some x → All P xs → P x
  All-get_elem? i [] e h = cc
  All-get_elem? zero (x ∷ xs) e h = ground (arith, h.0)
  All-get_elem? (suc i) (x ∷ xs) e h = All-get_elem? i xs e h.1

module _ {ℓ} {A : Type ℓ} (p : A → Bool) where
  -- A write that keeps the test does not move the search.
  pub find_index-modify :
      (f : A → A)
      → ((x : A) → p x ≡ true → p (f x) ≡ true)
      → (xs : List A) {i : ℕ} → find_index p xs ≡ some i
      → find_index p (modify i f xs) ≡ some i
  unfolding find_index
  find_index-modify f keep [] e = cc
  find_index-modify f keep (x ∷ xs) {i = zero} e = elim (Bool-cases (p x)) [
    | inl t ↦ ground (arith, keep x t)
    | inr n ↦ ground arith
  ]
  find_index-modify f keep (x ∷ xs) {i = suc i} e = elim (Bool-cases (p x)) [
    | inl t ↦ ground arith
    | inr n ↦ ground (arith, find_index-modify f keep xs {i = i})
  ]

  pub find_index-append_new :
      (xs : List A) (y : A)
      → find_index p xs ≡ none
      → p y ≡ true
      → find_index p (xs ++ y ∷ []) ≡ some (length xs)
  unfolding find_index
  find_index-append_new [] y e h = ground arith
  find_index-append_new (x ∷ xs) y e h = elim (Bool-cases (p x)) [
    | inl t ↦ ground arith
    | inr n ↦ ground (arith, find_index-append_new xs y)
  ]

pub get_elem?-append_new {ℓ} :
    {A : Type ℓ} (xs : List A) (y : A) → get_elem? (xs ++ y ∷ []) (length xs) ≡ some y
get_elem?-append_new [] y = refl
get_elem?-append_new (x ∷ xs) y = get_elem?-append_new xs y

-- Two lists of one length, related element by element.
abbrev pub All2 {ℓ κ} : {A : Type ℓ} {B : Type κ} → (A → B → Type 0) → List A → List B → Type 0
All2 R [] [] = Unit
All2 R [] (y ∷ ys) = ⊥
All2 R (x ∷ xs) [] = ⊥
All2 R (x ∷ xs) (y ∷ ys) = R x y × All2 R xs ys

pub get_elem?-lt {ℓ} :
    {A : Type ℓ} (xs : List A) (i : ℕ) → i < length xs → (x : A) × (get_elem? xs i ≡ some x)
get_elem?-lt [] i h = absurd (omega arith)
get_elem?-lt (x ∷ xs) zero h = (x, refl)
get_elem?-lt (x ∷ xs) (suc i) h = get_elem?-lt xs i (omega arith)

pub get_elem?-some-lt {ℓ} :
    {A : Type ℓ} (xs : List A) (i : ℕ) {x : A} → get_elem? xs i ≡ some x → i < length xs
get_elem?-some-lt [] i e = cc
get_elem?-some-lt (x ∷ xs) zero e = omega arith
get_elem?-some-lt (x ∷ xs) (suc i) e = omega (arith, get_elem?-some-lt xs i e)

module _ {ℓ} {A : Type ℓ} where
  pub get_elem?-modify_ne :
      (i j : ℕ) (f : A → A) (xs : List A) → i ≢ j → get_elem? (modify i f xs) j ≡ get_elem? xs j
  get_elem?-modify_ne i j f [] h = refl
  get_elem?-modify_ne zero zero f (x ∷ xs) h = absurd (h refl)
  get_elem?-modify_ne zero (suc j) f (x ∷ xs) h = refl
  get_elem?-modify_ne (suc i) zero f (x ∷ xs) h = refl
  get_elem?-modify_ne (suc i) (suc j) f (x ∷ xs) h =
      get_elem?-modify_ne i j f xs (λ e. h (ap suc e))

  pub get_elem?-append :
      (xs ys : List A) (i : ℕ) {x : A} → get_elem? xs i ≡ some x → get_elem? (xs ++ ys) i ≡ some x
  get_elem?-append [] ys i e = cc
  get_elem?-append (x ∷ xs) ys zero e = e
  get_elem?-append (x ∷ xs) ys (suc i) e = get_elem?-append xs ys i e

  -- The search stops nowhere else than at elements that pass.
  pub find_index-ne :
      (p : A → Bool) (xs : List A) {i j : ℕ} {x : A}
      → find_index p xs ≡ some i
      → get_elem? xs j ≡ some x
      → p x ≡ false
      → i ≢ j
  find_index-ne p xs {i} {j} {x} e at fails same =
      let (y, found, passed) = find_index-get_elem? p xs e in
      let there : get_elem? xs j ≡ some y = subst (λ k. get_elem? xs k ≡ some y) same found in cc

pub find_index-none {ℓ} :
    {A : Type ℓ} (p : A → Bool) (xs : List A) → find_index p xs ≡ none → All (λ x. p x ≡ false) xs
unfolding find_index
find_index-none p [] e = tt
find_index-none p (x ∷ xs) e = elim (Bool-cases (p x)) [
  | inl t ↦ ground arith
  | inr f ↦ (f, find_index-none p xs (ground arith))
]

pub keep_if_idem {ℓ} :
    {A : Type ℓ} (p : A → Bool) (xs : List A) → keep_if p (keep_if p xs) ≡ keep_if p xs
unfolding keep_if
keep_if_idem p [] = refl
keep_if_idem p (x ∷ xs) = elim (Bool-cases (p x)) [
  | inl t ↦ ground (arith, keep_if_idem p xs)
  | inr f ↦ ground (arith, keep_if_idem p xs)
]
