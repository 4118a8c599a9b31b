-- ===== src/Node/Codes.antt =====
-- The enumerations as numbers, for the casts between enumerations and integers in
-- src/net/json_serializer.cpp, src/core/gossip_c.cpp and src/net/gossip_net_c.cpp.
pub mod Laws
use libgossip.Base.{ℕ, ◌-◌, ◌%◌, ◌^◌, ℤ, ltb, ◌==◌, if◌then◌else◌, pos, negsuc}
use libgossip.Node.{NodeStatus, MessageType}

abbrev pub u8_mod : ℕ
u8_mod = 2 ^ 8

abbrev pub int_mod : ℕ
int_mod = 2 ^ 32

-- message_type has the underlying type uint8_t.
unfoldable pub type_code : MessageType → ℕ
type_code MessageType.ping = 0
type_code MessageType.pong = 1
type_code MessageType.meet = 2
type_code MessageType.join = 3
type_code MessageType.leave = 4
type_code MessageType.update = 5
type_code (MessageType.other n) = n

unfoldable pub type_of_code : ℕ → MessageType
type_of_code n =
    if n == 0
    then MessageType.ping
    else if n == 1
    then MessageType.pong
    else if n == 2
    then MessageType.meet
    else if n == 3
    then MessageType.join
    else if n == 4
    then MessageType.leave
    else if n == 5
    then MessageType.update
    else MessageType.other n

-- node_status has the underlying type int; `other n` is the value with the bits of n.
unfoldable pub status_code : NodeStatus → ℕ
status_code NodeStatus.unknown = 0
status_code NodeStatus.joining = 1
status_code NodeStatus.online = 2
status_code NodeStatus.suspect = 3
status_code NodeStatus.failed = 4
status_code (NodeStatus.other n) = n

unfoldable pub status_of_code : ℕ → NodeStatus
status_of_code n =
    if n == 0
    then NodeStatus.unknown
    else if n == 1
    then NodeStatus.joining
    else if n == 2
    then NodeStatus.online
    else if n == 3
    then NodeStatus.suspect
    else if n == 4
    then NodeStatus.failed
    else NodeStatus.other n

-- The bits of an int as a number, and the int with given bits.
unfoldable pub int_bits : ℤ → ℕ
int_bits (pos n) = n % int_mod
int_bits (negsuc n) = int_mod - 1 - n % int_mod

unfoldable pub int_of_bits : ℕ → ℤ
int_of_bits n = if ltb n (2 ^ 31) then pos n else negsuc (int_mod - 1 - n)
