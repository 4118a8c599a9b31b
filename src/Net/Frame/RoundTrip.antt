-- ===== src/Net/Frame/RoundTrip.antt =====
-- Packets come apart as they were put together.
use mathlib.Core.List.{append_assoc, append-nil}
use libgossip.Base.{
  ℕ, zero, suc, ◌+◌, ◌/◌, ◌%◌, ◌^◌, ◌≤◌, ◌<◌, ◌≡◌, refl, sym, ap, ◌∙◌, List, [], ◌∷◌, ◌++◌, arith,
  length, take, drop, length-append, length-take, All, Bytes,
}
use libgossip.Net.Frame.{u32_mod, make_packet, prefix_value, split_packets, split_all}

prefix-make_packet :
    (n : ℕ)
    → n < u32_mod
    → prefix_value
        (n % u32_mod / 2 ^ 24 % 256)
        (n % u32_mod / 2 ^ 16 % 256)
        (n % u32_mod / 2 ^ 8 % 256)
        (n % u32_mod % 256)
      ≡ n
unfolding prefix_value
prefix-make_packet n h = omega arith

-- The packets of a list of messages, one after the other.
unfoldable pub packets : List Bytes → Bytes
packets [] = []
packets (m ∷ ms) = make_packet m ++ packets ms

abbrev pub IsShort : Bytes → Type 0
IsShort m = length m < u32_mod

take-append : (m rest : Bytes) → take (length m) (m ++ rest) ≡ m
take-append [] rest = refl
take-append (x ∷ m) rest = ap (◌∷◌ x) (take-append m rest)

drop-append : (m rest : Bytes) → drop (length m) (m ++ rest) ≡ rest
drop-append [] rest = refl
drop-append (x ∷ m) rest = drop-append m rest

split_packets_cons :
    (fuel : ℕ) (m rest : Bytes)
    → IsShort m
    → split_packets (suc fuel) (make_packet m ++ rest) ≡ m ∷ split_packets fuel rest
unfolding split_packets make_packet
split_packets_cons fuel m rest h =
    rw (prefix-make_packet (length m) h, take-append m rest, drop-append m rest)
      (ground (arith, length-append m rest))

-- What is left over when no further message is whole.
abbrev pub IsCut : Bytes → Type 0
IsCut rest = (fuel : ℕ) → split_packets fuel rest ≡ []

split_packets-packets :
    (ms : List Bytes) (rest : Bytes) (fuel : ℕ)
    → All IsShort ms
    → IsCut rest
    → length ms ≤ fuel
    → split_packets fuel (packets ms ++ rest) ≡ ms
unfolding packets
split_packets-packets [] rest fuel h c k = c fuel
split_packets-packets (m ∷ ms) rest zero h c k = absurd (omega arith)
split_packets-packets (m ∷ ms) rest (suc fuel) h c k =
    ap (split_packets (suc fuel)) (append_assoc (make_packet m) (packets ms) rest)
    ∙ split_packets_cons fuel m (packets ms ++ rest) h.0
    ∙ ap (◌∷◌ m) (split_packets-packets ms rest fuel h.1 c (omega arith))

empty-IsCut : IsCut []
unfolding split_packets
empty-IsCut zero = refl
empty-IsCut (suc fuel) = refl

body_cut :
    (m : Bytes) (j fuel : ℕ)
    → IsShort m
    → j < length m
    → split_packets fuel (take (suc (suc (suc (suc j)))) (make_packet m)) ≡ []
unfolding split_packets make_packet
body_cut m j zero h k = refl
body_cut m j (suc fuel) h k = rw (prefix-make_packet (length m) h) (ground (arith, length-take j m))

packet-IsCut : (m : Bytes) (k : ℕ) → IsShort m → k < length m + 4 → IsCut (take k (make_packet m))
unfolding split_packets make_packet
packet-IsCut m k h b zero = refl
packet-IsCut m zero h b (suc fuel) = refl
packet-IsCut m (suc zero) h b (suc fuel) = refl
packet-IsCut m (suc (suc zero)) h b (suc fuel) = refl
packet-IsCut m (suc (suc (suc zero))) h b (suc fuel) = refl
packet-IsCut m (suc (suc (suc (suc j)))) h b (suc fuel) = body_cut m j (suc fuel) h (omega arith)

length-packets : (ms : List Bytes) → length ms ≤ length (packets ms)
unfolding packets make_packet
length-packets [] = ground arith
length-packets (m ∷ ms) =
    ground (arith, length-append (make_packet m) (packets ms), length-packets ms)

split_all_enough :
    (ms : List Bytes) (rest : Bytes)
    → All IsShort ms
    → IsCut rest
    → split_all (packets ms ++ rest) ≡ ms
unfolding split_all
split_all_enough ms rest h c =
    split_packets-packets ms rest (length (packets ms ++ rest)) h c
      (ground (arith, length-append (packets ms) rest, length-packets ms))

pub split_all-packets : (ms : List Bytes) → All IsShort ms → split_all (packets ms) ≡ ms
split_all-packets ms h =
    ap split_all (sym (append-nil (packets ms))) ∙ split_all_enough ms [] h empty-IsCut

-- A read that holds the packets of some messages and then only the first k bytes of one more
-- packet, k less than its length, each message shorter than 2^32 bytes, is taken apart into the
-- whole messages, and the incomplete packet is dropped.
pub split_all_cut :
    (ms : List Bytes) (m : Bytes) (k : ℕ)
    → All IsShort ms
    → IsShort m
    → k < length m + 4
    → split_all (packets ms ++ take k (make_packet m)) ≡ ms
split_all_cut ms m k hs h b = split_all_enough ms (take k (make_packet m)) hs (packet-IsCut m k h b)
