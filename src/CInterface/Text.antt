-- ===== src/CInterface/Text.antt =====
-- Texts in the fields of fixed size.
use libgossip.Base.{
  ℕ, zero, suc, ◌-◌, ◌≤◌, ◌<◌, ◌≡◌, refl, ap, ◌∙◌, ◌≢◌, [], ◌∷◌, ◌++◌, arith, length, take,
  length-append, length-take, All, Bytes,
}
use libgossip.CInterface.{text_size, until_nul, zeros, store_text}

-- What is left of a text that goes through a field.
abbrev pub clip : Bytes → Bytes
clip text = take (text_size - 1) (until_nul text)

-- No character of it ends the text early.
abbrev pub IsText : Bytes → Type 0
IsText text = All (λ c. c ≢ 0) text

pub length-zeros : (n : ℕ) → length (zeros n) ≡ n
unfolding zeros
length-zeros zero = refl
length-zeros (suc n) = ap suc (length-zeros n)

-- A stored text fills its field exactly.
pub length-store_text : (text : Bytes) → length (store_text text) ≡ text_size
unfolding store_text
length-store_text text =
    let kept = take (text_size - 1) (until_nul text) in
    omega (
      arith,
      length-append kept (zeros (text_size - length kept)),
      length-zeros (text_size - length kept),
      length-take (text_size - 1) (until_nul text),
    )

IsText-until_nul : (text : Bytes) → IsText (until_nul text)
unfolding until_nul
IsText-until_nul [] = tt
IsText-until_nul (c ∷ cs) = ground (arith, IsText-until_nul cs)

IsText-take : (n : ℕ) (text : Bytes) → IsText text → IsText (take n text)
IsText-take zero text h = tt
IsText-take (suc n) [] h = tt
IsText-take (suc n) (c ∷ cs) h = (h.0, IsText-take n cs h.1)

until_nul-zeros : (text : Bytes) (k : ℕ) → IsText text → until_nul (text ++ zeros (suc k)) ≡ text
unfolding until_nul zeros
until_nul-zeros [] k h = refl
until_nul-zeros (c ∷ cs) k h = ground (arith, until_nul-zeros cs k h.1, h.0)

pub until_nul-store_text : (text : Bytes) → until_nul (store_text text) ≡ clip text
unfolding store_text
until_nul-store_text text =
    let kept = clip text in
    let some_left : text_size - length kept ≡ suc (text_size - 1 - length kept) =
      omega (arith, length-take (text_size - 1) (until_nul text)) in
    rw some_left (
      until_nul-zeros kept (text_size - 1 - length kept)
        (IsText-take (text_size - 1) (until_nul text) (IsText-until_nul text)))

until_nul_whole : (text : Bytes) → IsText text → until_nul text ≡ text
unfolding until_nul
until_nul_whole [] h = refl
until_nul_whole (c ∷ cs) h = ground (arith, until_nul_whole cs h.1, h.0)

pub take_whole : (n : ℕ) (text : Bytes) → length text ≤ n → take n text ≡ text
take_whole zero [] h = refl
take_whole zero (c ∷ cs) h = absurd (omega (arith, h))
take_whole (suc n) [] h = refl
take_whole (suc n) (c ∷ cs) h = ap (◌∷◌ c) (take_whole n cs (omega (arith, h)))

-- A text of fewer than 64 characters, none of them 0, is not clipped.
pub clip_whole : (text : Bytes) → IsText text → length text < text_size → clip text ≡ text
clip_whole text h short =
    ap (take (text_size - 1)) (until_nul_whole text h)
    ∙ take_whole (text_size - 1) text (omega (arith, short))
