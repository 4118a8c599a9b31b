-- ===== src/Net/Frame/Fuel.antt =====
-- The fuel of the loop over the packets of a read.
use libgossip.Base.{
  ℕ, zero, suc, ◌≤◌, ◌≡◌, refl, ap, List, [], ◌∷◌, arith, length, take, drop, ltb, if◌then◌else◌,
  Bytes,
}
use libgossip.Net.Frame.{prefix_value, split_packets, split_all}

length-drop_le : (n : ℕ) (xs : Bytes) → length (drop n xs) ≤ length xs
length-drop_le zero xs = omega arith
length-drop_le (suc n) [] = omega arith
length-drop_le (suc n) (x ∷ xs) = omega (arith, length-drop_le n xs)

-- Any fuel of at least one round for each byte gives the same packets.
split_packets-fuel :
    (f g : ℕ) (bytes : Bytes)
    → length bytes ≤ f
    → length bytes ≤ g
    → split_packets f bytes ≡ split_packets g bytes
unfolding split_packets
split_packets-fuel zero zero bytes h k = refl
split_packets-fuel zero (suc g) [] h k = refl
split_packets-fuel zero (suc g) (x ∷ xs) h k = absurd (omega (arith, h))
split_packets-fuel (suc f) zero [] h k = refl
split_packets-fuel (suc f) zero (x ∷ xs) h k = absurd (omega (arith, k))
split_packets-fuel (suc f) (suc g) [] h k = refl
split_packets-fuel (suc f) (suc g) (a ∷ []) h k = refl
split_packets-fuel (suc f) (suc g) (a ∷ b ∷ []) h k = refl
split_packets-fuel (suc f) (suc g) (a ∷ b ∷ c ∷ []) h k = refl
split_packets-fuel (suc f) (suc g) (a ∷ b ∷ c ∷ d ∷ body) h k =
    let size = prefix_value a b c d in
    ap (λ (later : List Bytes). if ltb (length body) size then [] else take size body ∷ later)
      (split_packets-fuel f g (drop size body) (omega (arith, h, length-drop_le size body))
        (omega (arith, k, length-drop_le size body)))

-- The loop over the packets of a read finds the same packets with any number of rounds that is at
-- least the number of bytes, so that the rounds it is given never run out.
pub split_all_enough_fuel :
    (bytes : Bytes) (fuel : ℕ) → length bytes ≤ fuel → split_packets fuel bytes ≡ split_all bytes
unfolding split_all
split_all_enough_fuel bytes fuel h = split_packets-fuel fuel (length bytes) bytes h (omega arith)
