-- ===== src/Net/Tcp.antt =====
-- The connections of tcp_transport (src/net/tcp_transport.cpp). A socket is a number.
pub mod Connections
pub mod Reads
pub mod Made
pub mod Dead
use libgossip.Base.{
  ℕ, ◌+◌, ◌-◌, Bool, true, false, ◌&&◌, Option, none, some, List, [], ◌∷◌, ◌++◌, ◌==◌,
  if◌then◌else◌, holds, Bytes, bytes_discrete,
}
use libgossip.Core.State.{Core, Env}
use libgossip.Net.{to_error_code, SerializationError, ErrorCode, Serializer}
use libgossip.Net.Lifecycle.{
  fresh_endpoint, start_endpoint, works, stop_endpoint, Endpoint, Setup, Started,
}
use libgossip.Net.Send.{tcp_write, SendResult, Answer}
use libgossip.Net.Udp.{hand_over, Completion}
use libgossip.Node.{GossipMessage}

abbrev pub at_put : {A : Type 0} → ℕ → A → (ℕ → A) → ℕ → A
at_put n x f k = if k == n then x else f k

-- `opened` says which sockets are open, `reading` how many async_read_some of each are pending,
-- `accepts` how many async_accept are; `sockets` are the accepted ones, `outbound` is the map by
-- "ip:port", and `next` is the socket that is made next.
pub record Tcp : Type 0 where
  pub endpoint : Endpoint
  pub accepts : ℕ
  pub sockets : List ℕ
  pub outbound : List (Bytes × ℕ)
  pub opened : ℕ → Bool
  pub reading : ℕ → ℕ
  pub next : ℕ
  pub core : Option Core
  pub serializer : Option Serializer

-- tcp_transport::impl
abbrev pub fresh_tcp : Tcp
fresh_tcp = record {
  endpoint = fresh_endpoint;
  accepts = 0;
  sockets = [];
  outbound = [];
  opened = λ n. false;
  reading = λ n. 0;
  next = 0;
  core = none;
  serializer = none;
}

-- `outbound_sockets_.find(key)`
unfoldable pub find_socket : Bytes → List (Bytes × ℕ) → Option ℕ
find_socket key [] = none
find_socket key ((k, n) ∷ rest) =
    let later = find_socket key rest in if holds (bytes_discrete k key) then some n else later

-- `outbound_sockets_[key] = socket`
unfoldable pub put_socket : Bytes → ℕ → List (Bytes × ℕ) → List (Bytes × ℕ)
put_socket key n [] = (key, n) ∷ []
put_socket key n ((k, m) ∷ rest) =
    let later = put_socket key n rest in
    if holds (bytes_discrete k key) then (k, n) ∷ rest else (k, m) ∷ later

unfoldable pub start_receive_from_socket : ℕ → Tcp → Tcp
start_receive_from_socket n t = record t { reading = at_put n (t.reading n + 1) t.reading }

pub data Got : Type 0 where
  socket : ℕ → Got
  null thrown : Got

-- From `auto socket = ...` on. A socket that is given up is closed.
unfoldable pub create_socket : Answer → Bytes → Tcp → Got × Tcp
unfolding put_socket start_receive_from_socket
create_socket Answer.no_address key t = (Got.thrown, record t { next = t.next + 1 })
create_socket Answer.refused key t = (Got.null, record t { next = t.next + 1 })
create_socket Answer.connected key t = (
  Got.socket t.next,
  start_receive_from_socket t.next (record t {
    next = t.next + 1;
    outbound = put_socket key t.next t.outbound;
    opened = at_put t.next true t.opened;
  }),
)

-- The socket that the map has for the key, if it is open.
unfoldable pub open_socket : Bytes → Tcp → Option ℕ
unfolding find_socket
open_socket key t = elim (find_socket key t.outbound) [
  | none ↦ none
  | some n ↦ if t.opened n then some n else none
]

-- `key` is ip + ":" + std::to_string(port).
unfoldable pub get_or_create_socket : Answer → Bytes → Tcp → Got × Tcp
unfolding open_socket create_socket
get_or_create_socket answer key t = elim (open_socket key t) [
  | none ↦ create_socket answer key t
  | some n ↦ (Got.socket n, t)
]

-- send_message from get_or_create_socket on.
unfoldable pub send_over : (taken : Option ℕ) → Bytes → Got × Tcp → SendResult × Tcp
unfolding tcp_write
send_over taken body (Got.socket n, t) = (tcp_write Answer.connected taken body, t)
send_over taken body (Got.null, t) = (tcp_write Answer.refused taken body, t)
send_over taken body (Got.thrown, t) = (SendResult.thrown, t)

send_written :
    Answer → (taken : Option ℕ) → Bytes → Tcp → SerializationError × Bytes → SendResult × Tcp
unfolding send_over get_or_create_socket to_error_code
send_written answer taken key t (SerializationError.success, body) =
    send_over taken body (get_or_create_socket answer key t)
send_written answer taken key t (se, body) = (SendResult.reported (to_error_code se) [], t)

unfoldable pub send_connected :
    Answer → (taken : Option ℕ) → Bytes → GossipMessage → Tcp → SendResult × Tcp
unfolding send_written
send_connected answer taken key msg t = elim t.serializer [
  | none ↦ (SendResult.reported ErrorCode.serialization_error [], t)
  | some ser ↦ send_written answer taken key t (ser.serialize msg)
]

unfoldable pub start_accept : Tcp → Tcp
start_accept t = record t { accepts = t.accepts + 1 }

unfoldable pub handle_accept : ℕ → Tcp → Tcp
unfolding start_receive_from_socket
handle_accept n t = start_receive_from_socket n (record t { sockets = t.sockets ++ n ∷ [] })

-- The lambda of start_accept; the socket is made with the accept.
unfoldable pub on_accept : (error : Bool) → Tcp → Tcp
unfolding handle_accept start_accept
on_accept error t =
    let new = record t { accepts = t.accepts - 1; next = t.next + 1 } in
    let taken = handle_accept t.next (record new { opened = at_put t.next true t.opened }) in
    if error then new else if t.endpoint.opened then start_accept taken else taken

-- `sockets_.erase(it)`, for the first that is the socket.
unfoldable pub erase_socket : ℕ → List ℕ → List ℕ
erase_socket n [] = []
erase_socket n (m ∷ ms) = let rest = erase_socket n ms in if m == n then ms else m ∷ rest

-- The lambda of start_receive_from_socket.
unfoldable pub on_read : Env → ℕ → Completion → Tcp → Tcp
unfolding hand_over start_receive_from_socket erase_socket
on_read env n Completion.error t = record t {
  reading = at_put n (t.reading n - 1) t.reading;
  sockets = erase_socket n t.sockets;
}
on_read env n (Completion.datagram []) t = record t {
  reading = at_put n (t.reading n - 1) t.reading;
}
on_read env n (Completion.datagram (b ∷ bs)) t = start_receive_from_socket n (record t {
  reading = at_put n (t.reading n - 1) t.reading;
  core = hand_over env (b ∷ bs) t.core t.serializer;
})

-- The lambda that stop posts.
unfoldable pub close_each : List ℕ → (ℕ → Bool) → ℕ → Bool
close_each [] opened = opened
close_each (n ∷ ns) opened = close_each ns (at_put n false opened)

unfoldable pub close_all : Tcp → Tcp
unfolding close_each
close_all t = record t { opened = close_each t.sockets t.opened; outbound = [] }

unfoldable pub tcp_stop : (ran : Bool) → Tcp → ErrorCode × Tcp
unfolding close_all stop_endpoint
tcp_stop ran t =
    let closed = if t.endpoint.opened && ran && works t.endpoint then close_all t else t in
    (ErrorCode.success, record closed { endpoint = stop_endpoint ran t.endpoint })

tcp_started : Tcp → Started → Option (ErrorCode × Tcp)
unfolding start_accept
tcp_started t Started.terminates = none
tcp_started t (Started.reported ErrorCode.success e) =
    some (ErrorCode.success, start_accept (record t { endpoint = e }))
tcp_started t (Started.reported code e) = some (code, record t { endpoint = e })

-- `none`: the program is terminated.
unfoldable pub tcp_start : Setup → Tcp → Option (ErrorCode × Tcp)
unfolding tcp_started start_endpoint
tcp_start setup t = tcp_started t (start_endpoint setup t.endpoint)

unfoldable pub tcp_set_gossip_core : Option Core → Tcp → Tcp
tcp_set_gossip_core core t = record t { core = core }

unfoldable pub tcp_set_serializer : Option Serializer → Tcp → Tcp
tcp_set_serializer ser t = record t { serializer = ser }
