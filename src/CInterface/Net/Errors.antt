-- ===== src/CInterface/Net/Errors.antt =====
-- What the functions of src/net/gossip_net_c.cpp report, and what they leave allocated.
use mathlib.Core.Option
use libgossip.Base.{
  ℕ, ◌+◌, ◌≡◌, refl, sym, ap, ◌∙◌, ◌≢◌, ◌↔◌, ◌⊎◌, inl, inr, Bool, true, false, Option, none, some,
  arith, Bytes, Bool-cases, if_true, if_false,
}
use libgossip.CInterface.{until_nul, with_entries, CMessage}
use libgossip.CInterface.Memory.{malloc, Memory}
use libgossip.CInterface.Net.{
  obtain, guarded_entries, copied, hand_out, gossip_serializer_serialize, transport_type_of,
  wrap_transport, gossip_transport_create, wrap_created, gossip_transport_factory_create, Written,
}
use libgossip.Manager.{create_transport, create_json_transport, TransportType, Network}
use libgossip.Net.{SerializationError, ErrorCode, Serializer}

-- The pointers that gossip_serializer_serialize tests.
abbrev pub SomeNull : Option Serializer → Option CMessage → (block block_size : Bool) → Type 0
SomeNull ser c block block_size = (ser ≡ none) ⊎ (c ≡ none) ⊎ (block ≡ false) ⊎ (block_size ≡ false)

hand_out_valid :
    (grants : ℕ → Bool) (r : SerializationError × Bytes) (mem : Memory)
    → (hand_out grants r mem).0 ≢ ErrorCode.invalid_argument
unfolding hand_out copied malloc
hand_out_valid grants (SerializationError.success, bytes) mem =
    elim (Bool-cases (grants mem.asked)) [
      | inl h ↦ λ e. absurd (ground (arith, sym (ap (λ b. (copied bytes b).0) (if_true _ _ h)) ∙ e))
      | inr h ↦
          λ e. absurd (ground (arith, sym (ap (λ b. (copied bytes b).0) (if_false _ _ h)) ∙ e))
    ]
hand_out_valid grants (SerializationError.serialization_failed, bytes) mem = λ e. ground (arith, e)
hand_out_valid grants (SerializationError.deserialization_failed, bytes) mem =
    λ e. ground (arith, e)
hand_out_valid grants (SerializationError.invalid_input, bytes) mem = λ e. ground (arith, e)
hand_out_valid grants (SerializationError.unsupported_format, bytes) mem = λ e. ground (arith, e)
hand_out_valid grants (SerializationError.other n, bytes) mem = λ e. ground (arith, e)

abbrev code_in : Option (ErrorCode × Option Written × Memory) → ErrorCode
code_in none = ErrorCode.success
code_in (some r) = r.0

mapped_valid :
    {A : Type 0} (f : A → ErrorCode × Option Written × Memory) (o : Option A)
    {r : ErrorCode × Option Written × Memory}
    → ((x : A) → (f x).0 ≢ ErrorCode.invalid_argument)
    → Option.map f o ≡ some r
    → r.0 ≢ ErrorCode.invalid_argument
mapped_valid f none valid e = λ h. absurd (ground (arith, e))
mapped_valid f (some x) valid e = λ h. valid x (ap code_in e ∙ h)

-- When gossip_serializer_serialize returns, it reports an invalid argument exactly when one of its
-- four pointers is null.
gossip_serializer_serialize_invalid :
    (grants : ℕ → Bool) (ser : Option Serializer) (c : Option CMessage) (block block_size : Bool)
    (mem : Memory) {r : ErrorCode × Option Written × Memory}
    → gossip_serializer_serialize grants ser c block block_size mem ≡ some r
    → (r.0 ≡ ErrorCode.invalid_argument) ↔ SomeNull ser c block block_size
unfolding gossip_serializer_serialize
gossip_serializer_serialize_invalid grants none c b s mem e =
    (λ h. inl refl, λ h. sym (ap code_in e))
gossip_serializer_serialize_invalid grants (some ser) none b s mem e =
    (λ h. inr (inl refl), λ h. sym (ap code_in e))
gossip_serializer_serialize_invalid grants (some ser) (some c) false s mem e =
    (λ h. inr (inr (inl refl)), λ h. sym (ap code_in e))
gossip_serializer_serialize_invalid grants (some ser) (some c) true false mem e =
    (λ h. inr (inr (inr refl)), λ h. sym (ap code_in e))
gossip_serializer_serialize_invalid grants (some ser) (some c) true true mem e =
    let valid =
      mapped_valid
        (λ entries.
          hand_out grants (ser.serialize (with_entries c.sender c.type c.timestamp entries)) mem)
        (guarded_entries c) (λ entries. hand_out_valid grants _ mem) e in
    (λ h. absurd (valid h), λ h. absurd (ground (arith, h)))

-- When the constructor of a transport throws, gossip_transport_create leaves a wrapper allocated, and
-- the factory none.
gossip_transport_create_leaks :
    (net : Network) (type : ℕ) (host : Bytes) (port : ℕ) (mem : Memory) {kind : TransportType}
    → transport_type_of type ≡ some kind
    → net.construct kind (until_nul host) port ≡ none
    → (gossip_transport_create net type host port mem ≡ (none, record mem { live = mem.live + 1 }))
      × (gossip_transport_factory_create net type host port mem ≡ (none, mem))
unfolding gossip_transport_create wrap_transport obtain gossip_transport_factory_create wrap_created
    create_transport create_json_transport
gossip_transport_create_leaks net type host port mem known bad = (
  rw (known, gossip_transport_create) (rw bad refl),
  rw (known, gossip_transport_factory_create)
      (rw (bad, wrap_created, create_json_transport, create_transport) refl),
)
