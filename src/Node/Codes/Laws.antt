-- ===== src/Node/Codes/Laws.antt =====
-- A cast to a number and back gives the enumerator again.
use libgossip.Base.{ℕ, ◌%◌, ◌<◌, ◌≡◌, refl, arith, pos}
use libgossip.Node.{NodeStatus, MessageType}
use libgossip.Node.Codes.{
  u8_mod, int_mod, type_code, type_of_code, status_code, status_of_code, int_bits, int_of_bits,
}

-- A value of the enumeration, or one outside of it with the bits n: none of its enumerators.
abbrev pub IsType : MessageType → Type 0
IsType (MessageType.other n) = (5 < n) × (n < u8_mod)
IsType t = Unit

abbrev pub IsStatus : NodeStatus → Type 0
IsStatus (NodeStatus.other n) = (4 < n) × (n < int_mod)
IsStatus st = Unit

pub type_of_code-type_code : (t : MessageType) → IsType t → type_of_code (type_code t % u8_mod) ≡ t
unfolding type_of_code type_code
type_of_code-type_code MessageType.ping h = refl
type_of_code-type_code MessageType.pong h = refl
type_of_code-type_code MessageType.meet h = refl
type_of_code-type_code MessageType.join h = refl
type_of_code-type_code MessageType.leave h = refl
type_of_code-type_code MessageType.update h = refl
type_of_code-type_code (MessageType.other n) h = ground (arith, h)

pub status_code-lt : (st : NodeStatus) → IsStatus st → status_code st < int_mod
unfolding status_code
status_code-lt NodeStatus.unknown h = omega arith
status_code-lt NodeStatus.joining h = omega arith
status_code-lt NodeStatus.online h = omega arith
status_code-lt NodeStatus.suspect h = omega arith
status_code-lt NodeStatus.failed h = omega arith
status_code-lt (NodeStatus.other n) h = omega (arith, h)

pub status_of_code-status_code :
    (st : NodeStatus) → IsStatus st → status_of_code (status_code st) ≡ st
unfolding status_of_code status_code
status_of_code-status_code NodeStatus.unknown h = refl
status_of_code-status_code NodeStatus.joining h = refl
status_of_code-status_code NodeStatus.online h = refl
status_of_code-status_code NodeStatus.suspect h = refl
status_of_code-status_code NodeStatus.failed h = refl
status_of_code-status_code (NodeStatus.other n) h = ground (arith, h)

pub int_bits-int_of_bits : (n : ℕ) → n < int_mod → int_bits (int_of_bits n) ≡ n
unfolding int_bits int_of_bits
int_bits-int_of_bits n h = ground arith

pub type_code-lt : (t : MessageType) → IsType t → type_code t < u8_mod
unfolding type_code
type_code-lt MessageType.ping h = omega arith
type_code-lt MessageType.pong h = omega arith
type_code-lt MessageType.meet h = omega arith
type_code-lt MessageType.join h = omega arith
type_code-lt MessageType.leave h = omega arith
type_code-lt MessageType.update h = omega arith
type_code-lt (MessageType.other n) h = omega (arith, h)

pub int_bits-pos : (n : ℕ) → n < int_mod → int_bits (pos n) ≡ n
unfolding int_bits
int_bits-pos n h = omega (arith, h)
