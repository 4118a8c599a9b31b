-- ===== src/Checks/Sockets.antt =====
-- Runs of the life of a transport and of its connections.
use libgossip.Base.{◌≡◌, refl, true, false, [], ◌∷◌, Bytes}
use libgossip.Checks.Samples.{sample_env, sample_message}
use libgossip.Net.{SerializationError, ErrorCode, Serializer}
use libgossip.Net.Lifecycle.{
  fresh_endpoint, run_thread, set_up, start_endpoint, works, stop_endpoint, Endpoint, Setup,
  Started,
}
use libgossip.Net.Lifecycle.Calls.{start_endpoint_stuck, stop_endpoint_final, Reaches}
use libgossip.Net.Send.{Answer}
use libgossip.Net.Tcp.{
  fresh_tcp, find_socket, create_socket, open_socket, get_or_create_socket, on_accept, on_read, Tcp,
  Got,
}
use libgossip.Net.Tcp.Dead.{dead_connection, Going}
use libgossip.Net.Tcp.Reads.{IsTidy, run-IsTidy, TcpStep, TcpRun}
use libgossip.Net.Udp.{Completion}
use libgossip.Node.{MessageType}

abbrev half_open : Endpoint
half_open = record fresh_endpoint { opened = true }

-- The port is taken at the first start; then stop, and start again.
start_endpoint_stuck_example :
    (ErrorCode.network_error ≡ ErrorCode.network_error)
    × (start_endpoint Setup.ready (record half_open { stopped = true })
        ≡ Started.reported ErrorCode.network_error (record half_open { stopped = true }))
unfolding start_endpoint set_up stop_endpoint
start_endpoint_stuck_example =
    start_endpoint_stuck Setup.ready (Reaches.here fresh_endpoint) refl refl
      (Reaches.stopped half_open half_open true (Reaches.here half_open))

abbrev working : Endpoint
working = record { opened = true; joinable = true; stopped = false }

abbrev restarted : Endpoint
restarted = record { opened = true; joinable = true; stopped = true }

stop_endpoint_final_example : works restarted ≡ false
unfolding start_endpoint set_up run_thread stop_endpoint
stop_endpoint_final_example = stop_endpoint_final true working (
    Reaches.started (stop_endpoint true working) (stop_endpoint true working) Setup.ready
      ErrorCode.success (Reaches.here (stop_endpoint true working)) refl)

abbrev silent_serializer : Serializer
silent_serializer = record {
  serialize = λ m. (SerializationError.success, []);
  deserialize = λ text. (SerializationError.success, sample_message MessageType.pong 1 []);
}

-- "h:1"
abbrev peer : Bytes
peer = b'h' ∷ b':' ∷ b'1' ∷ []

abbrev linked : Tcp
linked = (get_or_create_socket Answer.connected peer fresh_tcp).1

abbrev dead_link : Tcp
dead_link = on_read sample_env 0 Completion.error linked

-- Another connection is got and one is accepted.
abbrev gone_on : Tcp
gone_on = on_accept false (get_or_create_socket Answer.connected (b'g' ∷ []) dead_link).1

dead_connection_example :
    (gone_on.reading 0 ≡ 0)
    × ((answer : Answer) → get_or_create_socket answer peer gone_on ≡ (Got.socket 0, gone_on))
unfolding get_or_create_socket create_socket open_socket find_socket
dead_connection_example =
    dead_connection sample_env Answer.connected peer (TcpRun.here fresh_tcp) refl
      (Going.accepts false (Going.connects Answer.connected (b'g' ∷ []) Going.here))

run-IsTidy_example : IsTidy linked
run-IsTidy_example = run-IsTidy {env = sample_env} (
    TcpRun.then fresh_tcp fresh_tcp linked (TcpRun.here fresh_tcp)
      (TcpStep.connects Answer.connected peer fresh_tcp))
