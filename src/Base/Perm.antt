-- ===== src/Base/Perm.antt =====
-- Permutations, as std::shuffle makes them, over lists measured by native numbers.
use mathlib.Core.List.{Perm, Permᴰ, Mem, Mem-prop, mem-cons, not-mem-nil}
use mathlib.Core.Bool.{false≢true}
use mathlib.Core.Logic.Or
use mathlib.Core.Logic.{∥∥₁_elim}
use mathlib.Core.HLevel.{×_prop}
use native.Mathlib.Nat.{ℕ_set}
use libgossip.Base.{
  suc, ◌≡◌, refl, sym, ap, subst, ◌∙◌, ◌↔◌, inl, inr, Bool, true, List, [], ◌∷◌, length, keep_if,
  All, Bool-cases,
}

permuted-length {ℓ} : {A : Type ℓ} {xs ys : List A} → Permᴰ xs ys → length xs ≡ length ys
permuted-length Permᴰ.nil = refl
permuted-length (Permᴰ.cons e p) = ap suc (permuted-length p)
permuted-length (Permᴰ.swap e f) = refl
permuted-length (Permᴰ.trans p q) = permuted-length p ∙ permuted-length q

pub length-perm {ℓ} : {A : Type ℓ} {xs ys : List A} → Perm xs ys → length xs ≡ length ys
length-perm p = ∥∥₁_elim p (ℕ_set _ _) permuted-length

module _ {ℓ κ} {A : Type ℓ} (P : A → Type κ) where
  All-prop : ((a : A) → IsProp (P a)) → (xs : List A) → IsProp (All P xs)
  All-prop h [] = λ x y. refl
  All-prop h (x ∷ xs) = ×_prop (h x) (All-prop h xs)

  permuted-All : {xs ys : List A} → Permᴰ xs ys → All P ys → All P xs
  permuted-All Permᴰ.nil a = tt
  permuted-All (Permᴰ.cons e p) a = (subst P (sym e) a.0, permuted-All p a.1)
  permuted-All (Permᴰ.swap e f) a = (subst P (sym e) a.1.0, (subst P (sym f) a.0, a.1.1))
  permuted-All (Permᴰ.trans p q) a = permuted-All p (permuted-All q a)

  pub All-perm :
      ((a : A) → IsProp (P a)) → (xs : List A) {ys : List A} → Perm xs ys → All P ys → All P xs
  All-perm h xs p a = ∥∥₁_elim p (All-prop h xs) (λ q. permuted-All q a)

pub All-mono {ℓ κ μ} :
    {A : Type ℓ} (P : A → Type κ) (Q : A → Type μ) (xs : List A)
    → ((a : A) → P a → Q a)
    → All P xs
    → All Q xs
All-mono P Q [] f h = tt
All-mono P Q (x ∷ xs) f h = (f x h.0, All-mono P Q xs f h.1)

pub All-Mem {ℓ} : {A : Type ℓ} (xs : List A) → All (λ a. Mem a xs) xs
All-Mem [] = tt
All-Mem (x ∷ xs) =
    (mem-cons.1 (Or.inl refl), All-mono _ _ xs (λ a m. mem-cons.1 (Or.inr m)) (All-Mem xs))

pub All-keep_if_test {ℓ κ} :
    {A : Type ℓ} (P : A → Type κ) (p : A → Bool) (xs : List A)
    → All P xs
    → All (λ a. P a × (p a ≡ true)) (keep_if p xs)
unfolding keep_if
All-keep_if_test P p [] h = tt
All-keep_if_test P p (x ∷ xs) h = elim (Bool-cases (p x)) [
  | inl t ↦ rw t ((h.0, t), All-keep_if_test P p xs h.1)
  | inr n ↦ rw n (All-keep_if_test P p xs h.1)
]

pub All-of-Mem {ℓ κ} :
    {A : Type ℓ} (P : A → Type κ) {a : A} (xs : List A) → IsProp (P a) → All P xs → Mem a xs → P a
All-of-Mem P [] h all m = absurd (not-mem-nil m)
All-of-Mem P (x ∷ xs) h all m =
    Or.elim h (mem-cons.0 m) (λ e. subst P (sym e) all.0) (All-of-Mem P xs h all.1)

mem-keep_if_of_mem {ℓ} :
    {A : Type ℓ} (p : A → Bool) (xs : List A) {a : A} → p a ≡ true → Mem a xs → Mem a (keep_if p xs)
unfolding keep_if
mem-keep_if_of_mem p [] t m = m
mem-keep_if_of_mem p (x ∷ xs) {a} t m = elim (Bool-cases (p x)) [
  | inl u ↦ rw u (
      Or.elim Mem-prop (mem-cons.0 m) (λ e. mem-cons.1 (Or.inl e))
        (λ r. mem-cons.1 (Or.inr (mem-keep_if_of_mem p xs t r))))
  | inr u ↦ rw u (
      Or.elim Mem-prop (mem-cons.0 m) (λ e. absurd (false≢true (sym u ∙ ap p (sym e) ∙ t)))
        (mem-keep_if_of_mem p xs t))
]

-- What is left of a list is what passes.
pub mem-keep_if {ℓ} :
    {A : Type ℓ} (p : A → Bool) (xs : List A) {a : A}
    → Mem a (keep_if p xs) ↔ (Mem a xs × (p a ≡ true))
mem-keep_if p xs {a} = (
  λ m.
      All-of-Mem (λ b. Mem b xs × (p b ≡ true)) (keep_if p xs) (×_prop Mem-prop (hlevel))
        (All-keep_if_test (λ b. Mem b xs) p xs (All-Mem xs)) m,
  λ h. mem-keep_if_of_mem p xs h.1 h.0,
)
