-- ===== src/Redis/Words.antt =====
-- The texts of examples/redis_cluster_gossip_example.cpp.
use libgossip.Base.{[], ◌∷◌, Bytes}

-- "redis_version"
abbrev pub redis_version_key : Bytes
redis_version_key =
    b'r' ∷ b'e' ∷ b'd' ∷ b'i' ∷ b's' ∷ b'_' ∷ b'v' ∷ b'e' ∷ b'r' ∷ b's' ∷ b'i' ∷ b'o' ∷ b'n' ∷ []

-- "6.2.0"
abbrev pub redis_version : Bytes
redis_version = b'6' ∷ b'.' ∷ b'2' ∷ b'.' ∷ b'0' ∷ []

-- "role"
abbrev pub role_key : Bytes
role_key = b'r' ∷ b'o' ∷ b'l' ∷ b'e' ∷ []

-- "created_at"
abbrev pub created_at_key : Bytes
created_at_key = b'c' ∷ b'r' ∷ b'e' ∷ b'a' ∷ b't' ∷ b'e' ∷ b'd' ∷ b'_' ∷ b'a' ∷ b't' ∷ []

-- "node_index"
abbrev pub node_index_key : Bytes
node_index_key = b'n' ∷ b'o' ∷ b'd' ∷ b'e' ∷ b'_' ∷ b'i' ∷ b'n' ∷ b'd' ∷ b'e' ∷ b'x' ∷ []

-- "slots"
abbrev pub slots_key : Bytes
slots_key = b's' ∷ b'l' ∷ b'o' ∷ b't' ∷ b's' ∷ []

-- "last_update"
abbrev pub last_update_key : Bytes
last_update_key = b'l' ∷ b'a' ∷ b's' ∷ b't' ∷ b'_' ∷ b'u' ∷ b'p' ∷ b'd' ∷ b'a' ∷ b't' ∷ b'e' ∷ []

-- "operation"
abbrev pub operation_key : Bytes
operation_key = b'o' ∷ b'p' ∷ b'e' ∷ b'r' ∷ b'a' ∷ b't' ∷ b'i' ∷ b'o' ∷ b'n' ∷ []

-- "periodic_update"
abbrev pub periodic_update : Bytes
periodic_update =
    b'p' ∷ b'e' ∷ b'r' ∷ b'i' ∷ b'o' ∷ b'd' ∷ b'i' ∷ b'c' ∷ b'_' ∷ b'u' ∷ b'p' ∷ b'd' ∷ b'a' ∷ b't'
    ∷ b'e' ∷ []

-- "last_migration"
abbrev pub last_migration_key : Bytes
last_migration_key =
    b'l' ∷ b'a' ∷ b's' ∷ b't' ∷ b'_' ∷ b'm' ∷ b'i' ∷ b'g' ∷ b'r' ∷ b'a' ∷ b't' ∷ b'i' ∷ b'o' ∷ b'n'
    ∷ []

-- "master"
abbrev pub master : Bytes
master = b'm' ∷ b'a' ∷ b's' ∷ b't' ∷ b'e' ∷ b'r' ∷ []

-- "slave"
abbrev pub slave : Bytes
slave = b's' ∷ b'l' ∷ b'a' ∷ b'v' ∷ b'e' ∷ []

-- "datacenter-1"
abbrev pub datacenter : Bytes
datacenter = b'd' ∷ b'a' ∷ b't' ∷ b'a' ∷ b'c' ∷ b'e' ∷ b'n' ∷ b't' ∷ b'e' ∷ b'r' ∷ b'-' ∷ b'1' ∷ []

-- "127.0.0.1"
abbrev pub loopback : Bytes
loopback = b'1' ∷ b'2' ∷ b'7' ∷ b'.' ∷ b'0' ∷ b'.' ∷ b'0' ∷ b'.' ∷ b'1' ∷ []
