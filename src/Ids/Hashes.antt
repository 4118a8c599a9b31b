-- ===== src/Ids/Hashes.antt =====
-- The null identifier, and identifiers made of a hash.
use native.Mathlib.Numerals.{unary_clauses}
use libgossip.Base.{
  ℕ, zero, suc, ◌+◌, ◌*◌, ◌/◌, ◌%◌, ◌^◌, ◌<◌, ◌≡◌, refl, sym, ap, ◌∙◌, ◌↔◌, inl, inr, true, [], ◌∷◌,
  ◌++◌, arith, length, ◌==◌, Bytes, Bool-cases,
}
use libgossip.Ids.{id_size, little_endian, node_id_from_hash, null_node_id, is_null_node_id}

zero_bytes : ℕ → Bytes
zero_bytes zero = []
zero_bytes (suc n) = 0 ∷ zero_bytes n

is_null_node_id-eq : (id : Bytes) → is_null_node_id id ≡ true → id ≡ zero_bytes (length id)
unfolding is_null_node_id zero_bytes
is_null_node_id-eq [] h = refl
is_null_node_id-eq (byte ∷ id) h = elim (Bool-cases (byte == 0)) [
  | inl z ↦
      let same : byte ≡ 0 = ground (arith, z) in
      ap (λ b. b ∷ id) same ∙ ap (◌∷◌ 0) (is_null_node_id-eq id (ground (arith, h, z)))
  | inr p ↦ absurd (ground (arith, h, p))
]

-- An identifier of sixteen bytes is null by is_null_node_id exactly when it is null_node_id.
is_null_node_id_iff :
    (id : Bytes) → length id ≡ id_size → (is_null_node_id id ≡ true) ↔ (id ≡ null_node_id)
unfolding is_null_node_id zero_bytes
is_null_node_id_iff id sized =
    (λ h. is_null_node_id-eq id h ∙ ap zero_bytes sized, λ e. ap is_null_node_id e)

-- The number that the bytes are, the lowest first.
value_of : Bytes → ℕ
value_of [] = 0
value_of (b ∷ bs) = b + 256 * value_of bs

value_of-little_endian : (k n : ℕ) → n < 256 ^ k → value_of (little_endian k n) ≡ n
unfolding value_of little_endian
value_of-little_endian zero n h = omega (arith, h)
value_of-little_endian (suc k) n h =
    let split : 256 ^ suc k ≡ 256 ^ k * 256 = simp unary_clauses refl in
    let high : n / 256 < 256 ^ k = omega (arith, h, split) in
    ap (λ v. n % 256 + 256 * v) (value_of-little_endian k (n / 256) high) ∙ omega arith

value_of-zeros : (bs zs : Bytes) → value_of zs ≡ 0 → value_of (bs ++ zs) ≡ value_of bs
unfolding value_of
value_of-zeros [] zs h = h
value_of-zeros (b ∷ bs) zs h = ap (λ v. b + 256 * v) (value_of-zeros bs zs h)

-- Different hashes give different identifiers.
node_id_from_hash_distinct :
    (a b : ℕ) → a < 2 ^ 64 → b < 2 ^ 64 → node_id_from_hash a ≡ node_id_from_hash b → a ≡ b
unfolding node_id_from_hash value_of
node_id_from_hash_distinct a b ha hb e =
    let hash_of : (n : ℕ) → n < 2 ^ 64 → value_of (node_id_from_hash n) ≡ n = λ n h.
      value_of-zeros (little_endian 8 n) (0 ∷ 0 ∷ 0 ∷ 0 ∷ 0 ∷ 0 ∷ 0 ∷ 0 ∷ []) refl
      ∙ value_of-little_endian 8 n h in
    sym (hash_of a ha) ∙ ap value_of e ∙ hash_of b hb
