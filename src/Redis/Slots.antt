-- ===== src/Redis/Slots.antt =====
-- assign_hash_slots: which hash slots each master is given.
use native.Mathlib.Decide.{dec_lt}
use libgossip.Base.{
  ℕ, suc, ◌+◌, ◌*◌, ◌/◌, ◌%◌, ◌≤◌, ◌<◌, min, ◌≡◌, ◌⊎◌, inl, inr, not, ◌∷◌, ◌++◌, arith, ℕ_discrete,
  if◌then◌else◌, holds, bytes_discrete,
}
use libgossip.Base.Map.{insert}
use libgossip.Node.{NodeView}
use libgossip.Redis.{cluster_size, hash_slots, role_of, RedisEnv}
use libgossip.Redis.Words.{slots_key, master}

abbrev pub master_count : ℕ
master_count = cluster_size / 2

abbrev pub slots_per_node : ℕ
slots_per_node = hash_slots / master_count

unfoldable pub start_slot : ℕ → ℕ
start_slot index = (index / 2) * slots_per_node

unfoldable pub end_slot : ℕ → ℕ
unfolding start_slot
end_slot index = min (start_slot index + slots_per_node) hash_slots

unfoldable pub assign_hash_slots : RedisEnv → ℕ → NodeView → NodeView
unfolding start_slot end_slot
assign_hash_slots env index info =
    if not (holds (bytes_discrete info.role master)) then info else record info {
      metadata =
          insert slots_key
            (env.to_string (start_slot index) ++ b'-' ∷ env.to_string (end_slot index))
            info.metadata;
    }

role_of-even : (index : ℕ) → role_of index ≡ master → index % 2 ≡ 0
role_of-even index e = elim (ℕ_discrete (index % 2) 0) [
  | yes even ↦ even
  | no odd ↦ absurd (ground (arith, e, odd))
]

-- Of a slot in the range of a master the index is computed.
unique_master :
    (slot index : ℕ)
    → start_slot index ≤ slot
    → slot < end_slot index
    → role_of index ≡ master
    → index ≡ slot / slots_per_node * 2
unfolding start_slot end_slot
unique_master slot index low high role = omega (arith, low, high, role_of-even index role)

given :
    (slot k : ℕ)
    → k < 3
    → k * slots_per_node ≤ slot
    → slot < suc k * slots_per_node
    → (role_of (k * 2) ≡ master) × (start_slot (k * 2) ≤ slot) × (slot < end_slot (k * 2))
unfolding start_slot end_slot
given slot k h low high = (ground (arith, h), omega (arith, low), omega (arith, h, low, high))

-- In the Redis example: each hash slot below 16383 lies, from the start to before the end, in the
-- range of exactly one of the masters among the six nodes, and every further slot, the last of the
-- 16384 among them, lies in the range of no node.
pub slots_partition :
    (slot : ℕ)
    → ((slot < 16383)
        × ((index : ℕ) × (index < 6)
            × (role_of index ≡ master)
            × (start_slot index ≤ slot)
            × (slot < end_slot index)
            × ((other : ℕ)
                → other < 6
                → role_of other ≡ master
                → start_slot other ≤ slot
                → slot < end_slot other
                → other ≡ index)))
      ⊎ ((16383 ≤ slot) × ((index : ℕ) → index < 6 → end_slot index ≤ slot))
unfolding end_slot
slots_partition slot = elim (dec_lt slot (16383)) [
  | no none_left ↦ inr (omega (arith, none_left), λ index h. omega (arith, none_left, h))
  | yes h ↦
      let k = slot / slots_per_node in
      let found = given slot k (omega (arith, h)) (omega arith) (omega arith) in
      inl (
        h,
        (
          k * 2,
          omega (arith, h),
          found.0,
          found.1,
          found.2,
          λ other _ role low high. unique_master slot other low high role,
        ),
      )
]
