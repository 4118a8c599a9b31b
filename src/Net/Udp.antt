-- ===== src/Net/Udp.antt =====
-- The state of udp_transport (src/net/udp_transport.cpp), and its completion handler.
pub mod Receives
use libgossip.Base.{ℕ, ◌+◌, ◌-◌, Bool, Option, none, some, [], ◌∷◌, Bytes}
use libgossip.Core.State.{Core, Env}
use libgossip.Net.{ErrorCode, Serializer}
use libgossip.Net.Frame.{receive_bytes}
use libgossip.Net.Lifecycle.{
  fresh_endpoint, start_endpoint, stop_endpoint, Endpoint, Setup, Started,
}

-- `receives` is the number of async_receive_from calls that have not completed.
pub record Udp : Type 0 where
  pub endpoint : Endpoint
  pub receives : ℕ
  pub core : Option Core
  pub serializer : Option Serializer

-- udp_transport::impl
abbrev pub fresh_udp : Udp
fresh_udp = record { endpoint = fresh_endpoint; receives = 0; core = none; serializer = none }

unfoldable pub start_receive : Udp → Udp
start_receive u = record u { receives = u.receives + 1 }

-- What start does after the thread runs.
udp_started : Udp → Started → Option (ErrorCode × Udp)
unfolding start_receive
udp_started u Started.terminates = none
udp_started u (Started.reported ErrorCode.success e) =
    some (ErrorCode.success, start_receive (record u { endpoint = e }))
udp_started u (Started.reported code e) = some (code, record u { endpoint = e })

-- `none`: the program is terminated.
unfoldable pub udp_start : Setup → Udp → Option (ErrorCode × Udp)
unfolding udp_started start_endpoint
udp_start setup u = udp_started u (start_endpoint setup u.endpoint)

unfoldable pub udp_stop : (ran : Bool) → Udp → ErrorCode × Udp
unfolding stop_endpoint
udp_stop ran u = (ErrorCode.success, record u { endpoint = stop_endpoint ran u.endpoint })

-- The body of `if (core_ && serializer_)`.
unfoldable pub hand_over : Env → Bytes → Option Core → Option Serializer → Option Core
unfolding receive_bytes
hand_over env bytes (some core) (some ser) = some (receive_bytes env ser bytes core)
hand_over env bytes core ser = core

unfoldable pub handle_receive : Env → Bytes → Udp → Udp
unfolding start_receive hand_over
handle_receive env bytes u =
    start_receive (record u { core = hand_over env bytes u.core u.serializer })

-- The completion of one receive: an error, or the bytes of a datagram.
pub data Completion : Type 0 where
  error : Completion
  datagram : Bytes → Completion

completed : Udp → Udp
completed u = record u { receives = u.receives - 1 }

-- The lambda of start_receive.
unfoldable pub on_receive : Env → Completion → Udp → Udp
unfolding start_receive handle_receive completed
on_receive env Completion.error u = completed u
on_receive env (Completion.datagram []) u = start_receive (completed u)
on_receive env (Completion.datagram (b ∷ bs)) u =
    start_receive (handle_receive env (b ∷ bs) (completed u))

unfoldable pub udp_set_gossip_core : Option Core → Udp → Udp
udp_set_gossip_core core u = record u { core = core }

unfoldable pub udp_set_serializer : Option Serializer → Udp → Udp
udp_set_serializer ser u = record u { serializer = ser }
