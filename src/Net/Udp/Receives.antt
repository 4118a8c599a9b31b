-- ===== src/Net/Udp/Receives.antt =====
-- The receives of a UDP transport.
use libgossip.Base.{ℕ, ◌+◌, some, List, [], ◌∷◌, Bytes}
use libgossip.Core.State.{Core, Env}
use libgossip.Net.{Serializer}
use libgossip.Net.Frame.{receive_bytes}
use libgossip.Net.Lifecycle.{Endpoint}
use libgossip.Net.Udp.{on_receive, Udp, Completion}

-- The completions one after the other.
abbrev pub on_receives : Env → List Bytes → Udp → Udp
on_receives env [] u = u
on_receives env (bytes ∷ more) u =
    on_receives env more (on_receive env (Completion.datagram bytes) u)

-- The datagrams, handed one after the other to the core.
abbrev pub received : Env → Serializer → List Bytes → Core → Core
received env ser [] core = core
received env ser ([] ∷ more) core = received env ser more core
received env ser ((b ∷ bs) ∷ more) core =
    received env ser more (receive_bytes env ser (b ∷ bs) core)

-- The number of datagrams that are not empty.
abbrev pub filled : List Bytes → ℕ
filled [] = 0
filled ([] ∷ more) = filled more
filled ((b ∷ bs) ∷ more) = 1 + filled more

-- A transport with its core and its serializer set.
abbrev pub listening : Endpoint → ℕ → Core → Serializer → Udp
listening endpoint receives core ser = record {
  endpoint = endpoint;
  receives = receives;
  core = some core;
  serializer = some ser;
}
