-- ===== src/Net/Lifecycle.antt =====
-- start and stop, which src/net/udp_transport.cpp and src/net/tcp_transport.cpp share: the socket or
-- acceptor, the thread and the io_context of asio.
pub mod Calls
use libgossip.Base.{Bool, true, false, not, ◌&&◌, if◌then◌else◌}
use libgossip.Net.{ErrorCode}

-- `joinable`: io_thread_ stands for a thread; `stopped`: io_context_ was stopped, and is never
-- restarted.
pub record Endpoint : Type 0 where
  pub opened : Bool
  pub joinable : Bool
  pub stopped : Bool

-- After the constructor.
abbrev pub fresh_endpoint : Endpoint
fresh_endpoint = record { opened = false; joinable = false; stopped = false }

-- How far open, bind and listen come before one of them throws.
pub data Setup : Type 0 where
  not_opened not_bound ready : Setup

-- `terminates`: a thread is assigned to io_thread_ while it stands for another.
pub data Started : Type 0 where
  reported : ErrorCode → Endpoint → Started
  terminates : Started

unfoldable pub run_thread : Endpoint → Started
run_thread e =
    if e.joinable
    then Started.terminates
    else Started.reported ErrorCode.success (record e { opened = true; joinable = true })

unfoldable pub set_up : Setup → Endpoint → Started
unfolding run_thread
set_up Setup.not_opened e = Started.reported ErrorCode.network_error e
set_up Setup.not_bound e = Started.reported ErrorCode.network_error (record e { opened = true })
set_up Setup.ready e = run_thread e

-- `open` throws for a socket that is open already.
unfoldable pub start_endpoint : Setup → Endpoint → Started
unfolding set_up
start_endpoint setup e =
    if e.opened then Started.reported ErrorCode.network_error e else set_up setup e

-- Whether a completion handler can run: the thread is in io_context_.run().
abbrev pub works : Endpoint → Bool
works e = e.joinable && not e.stopped

-- `ran` says whether the thread gets to the posted handler, which closes, before the context is
-- stopped; the thread is joined at the end.
unfoldable pub stop_endpoint : (ran : Bool) → Endpoint → Endpoint
stop_endpoint ran e = record {
  opened = e.opened && not (ran && works e);
  joinable = false;
  stopped = true;
}
