-- ===== src/Net/Tcp/Reads.antt =====
-- The reads of a TCP transport.
use libgossip.Base.{
  ℕ, ◌+◌, ◌≤◌, ◌<◌, ◌≡◌, refl, sym, ap, inl, inr, Bool, true, false, ◌&&◌, Option, none, some, [],
  ◌∷◌, arith, Bytes, Bool-cases, Option-cases,
}
use libgossip.Core.State.{Env}
use libgossip.Net.{ErrorCode}
use libgossip.Net.Lifecycle.{start_endpoint, works, Setup, Started}
use libgossip.Net.Send.{Answer}
use libgossip.Net.Tcp.{
  tcp_started, at_put, fresh_tcp, start_receive_from_socket, create_socket, open_socket,
  get_or_create_socket, start_accept, handle_accept, on_accept, on_read, close_all, tcp_stop,
  tcp_start, Tcp,
}
use libgossip.Net.Udp.{Completion}

-- What can happen to a transport; a read completes only if one is pending.
pub data TcpStep (env : Env) : Tcp → Tcp → Type 0 where
  connects :
      (answer : Answer) (key : Bytes) (t : Tcp)
      → TcpStep env t (get_or_create_socket answer key t).1
  accepts : (error : Bool) (t : Tcp) → TcpStep env t (on_accept error t)
  reads : (n : ℕ) (c : Completion) (t : Tcp) → 0 < t.reading n → TcpStep env t (on_read env n c t)
  starts :
      (setup : Setup) (code : ErrorCode) (t : Tcp) {t' : Tcp}
      → tcp_start setup t ≡ some (code, t')
      → TcpStep env t t'
  stops : (ran : Bool) (t : Tcp) → TcpStep env t (tcp_stop ran t).1

pub data TcpRun (env : Env) : Tcp → Tcp → Type 0 where
  here : (t : Tcp) → TcpRun env t t
  then : (t t1 t2 : Tcp) → TcpRun env t t1 → TcpStep env t1 t2 → TcpRun env t t2

-- One pending read at most of each socket, and none of a socket that is not made yet.
abbrev pub IsTidy : Tcp → Type 0
IsTidy t = (n : ℕ) → (t.reading n ≤ 1) × (t.next ≤ n → t.reading n ≡ 0)

-- The two fields that count.
abbrev SameReads : Tcp → Tcp → Type 0
SameReads t t' = (t'.reading ≡ t.reading) × (t'.next ≡ t.next)

same-IsTidy : (t t' : Tcp) → SameReads t t' → IsTidy t → IsTidy t'
same-IsTidy t t' (r, m) tidy = rw (r, m) tidy

-- A read of a new socket.
fresh_read-IsTidy :
    (reading : ℕ → ℕ) (next : ℕ)
    → ((n : ℕ) → (reading n ≤ 1) × (next ≤ n → reading n ≡ 0))
    → (n : ℕ)
    → (at_put next (reading next + 1) reading n ≤ 1)
      × (next + 1 ≤ n → at_put next (reading next + 1) reading n ≡ 0)
fresh_read-IsTidy reading next tidy n = ground (arith, tidy n, tidy next)

creates-IsTidy :
    (answer : Answer) (key : Bytes) (t : Tcp) → IsTidy t → IsTidy (create_socket answer key t).1
unfolding create_socket start_receive_from_socket
creates-IsTidy Answer.no_address key t tidy = λ n. ground (arith, tidy n)
creates-IsTidy Answer.refused key t tidy = λ n. ground (arith, tidy n)
creates-IsTidy Answer.connected key t tidy = fresh_read-IsTidy t.reading t.next tidy

connects-IsTidy :
    (answer : Answer) (key : Bytes) (t : Tcp)
    → IsTidy t
    → IsTidy (get_or_create_socket answer key t).1
unfolding get_or_create_socket
connects-IsTidy answer key t tidy = elim (Option-cases (open_socket key t)) [
  | inl h ↦ rw (h, get_or_create_socket) (creates-IsTidy answer key t tidy)
  | inr (n, h) ↦ rw (h, get_or_create_socket) tidy
]

accepts-IsTidy : (error : Bool) (t : Tcp) → IsTidy t → IsTidy (on_accept error t)
unfolding on_accept handle_accept start_receive_from_socket start_accept
accepts-IsTidy true t tidy = λ n. ground (arith, tidy n)
accepts-IsTidy false t tidy = elim (Bool-cases t.endpoint.opened) [
  | inl h ↦ rw h (fresh_read-IsTidy t.reading t.next tidy)
  | inr h ↦ rw h (fresh_read-IsTidy t.reading t.next tidy)
]

reads-IsTidy :
    (env : Env) (n : ℕ) (c : Completion) (t : Tcp)
    → 0 < t.reading n
    → IsTidy t
    → IsTidy (on_read env n c t)
unfolding on_read start_receive_from_socket
reads-IsTidy env n Completion.error t pending tidy = λ k. ground (arith, tidy k, tidy n, pending)
reads-IsTidy env n (Completion.datagram []) t pending tidy =
    λ k. ground (arith, tidy k, tidy n, pending)
reads-IsTidy env n (Completion.datagram (b ∷ bs)) t pending tidy =
    λ k. ground (arith, tidy k, tidy n, pending)

tcp_of : Option (ErrorCode × Tcp) → Tcp
tcp_of none = fresh_tcp
tcp_of (some r) = r.1

started-SameReads :
    (r : Started) {code : ErrorCode} (t : Tcp) {t' : Tcp}
    → tcp_started t r ≡ some (code, t')
    → SameReads t t'
unfolding tcp_started start_accept tcp_of
started-SameReads Started.terminates t e = absurd (ground (arith, e))
started-SameReads (Started.reported ErrorCode.success x) t e =
    (sym (ap (λ r. (tcp_of r).reading) e), sym (ap (λ r. (tcp_of r).next) e))
started-SameReads (Started.reported ErrorCode.network_error x) t e =
    (sym (ap (λ r. (tcp_of r).reading) e), sym (ap (λ r. (tcp_of r).next) e))
started-SameReads (Started.reported ErrorCode.serialization_error x) t e =
    (sym (ap (λ r. (tcp_of r).reading) e), sym (ap (λ r. (tcp_of r).next) e))
started-SameReads (Started.reported ErrorCode.invalid_argument x) t e =
    (sym (ap (λ r. (tcp_of r).reading) e), sym (ap (λ r. (tcp_of r).next) e))
started-SameReads (Started.reported ErrorCode.operation_not_permitted x) t e =
    (sym (ap (λ r. (tcp_of r).reading) e), sym (ap (λ r. (tcp_of r).next) e))

started-SameSockets :
    (r : Started) {code : ErrorCode} (t : Tcp) {t' : Tcp}
    → tcp_started t r ≡ some (code, t')
    → (t'.opened ≡ t.opened) × (t'.outbound ≡ t.outbound)
unfolding tcp_started start_accept tcp_of
started-SameSockets Started.terminates t e = absurd (ground (arith, e))
started-SameSockets (Started.reported ErrorCode.success x) t e =
    (sym (ap (λ r. (tcp_of r).opened) e), sym (ap (λ r. (tcp_of r).outbound) e))
started-SameSockets (Started.reported ErrorCode.network_error x) t e =
    (sym (ap (λ r. (tcp_of r).opened) e), sym (ap (λ r. (tcp_of r).outbound) e))
started-SameSockets (Started.reported ErrorCode.serialization_error x) t e =
    (sym (ap (λ r. (tcp_of r).opened) e), sym (ap (λ r. (tcp_of r).outbound) e))
started-SameSockets (Started.reported ErrorCode.invalid_argument x) t e =
    (sym (ap (λ r. (tcp_of r).opened) e), sym (ap (λ r. (tcp_of r).outbound) e))
started-SameSockets (Started.reported ErrorCode.operation_not_permitted x) t e =
    (sym (ap (λ r. (tcp_of r).opened) e), sym (ap (λ r. (tcp_of r).outbound) e))

pub starts-SameSockets :
    (setup : Setup) (code : ErrorCode) (t : Tcp) {t' : Tcp}
    → tcp_start setup t ≡ some (code, t')
    → (t'.opened ≡ t.opened) × (t'.outbound ≡ t.outbound)
unfolding tcp_start
starts-SameSockets setup code t e = started-SameSockets (start_endpoint setup t.endpoint) t e

pub starts-SameReads :
    (setup : Setup) (code : ErrorCode) (t : Tcp) {t' : Tcp}
    → tcp_start setup t ≡ some (code, t')
    → SameReads t t'
unfolding tcp_start
starts-SameReads setup code t e = started-SameReads (start_endpoint setup t.endpoint) t e

stops-SameReads : (ran : Bool) (t : Tcp) → SameReads t (tcp_stop ran t).1
unfolding tcp_stop close_all
stops-SameReads ran t = elim (Bool-cases (t.endpoint.opened && ran && works t.endpoint)) [
  | inl h ↦ rw h (refl, refl)
  | inr h ↦ rw h (refl, refl)
]

step-IsTidy : {env : Env} {t t' : Tcp} → TcpStep env t t' → IsTidy t → IsTidy t'
step-IsTidy (TcpStep.connects answer key t) tidy = connects-IsTidy answer key t tidy
step-IsTidy (TcpStep.accepts error t) tidy = accepts-IsTidy error t tidy
step-IsTidy {env = env} (TcpStep.reads n c t pending) tidy = reads-IsTidy env n c t pending tidy
step-IsTidy (TcpStep.starts setup code t {t' = t'} e) tidy =
    same-IsTidy t t' (starts-SameReads setup code t e) tidy
step-IsTidy (TcpStep.stops ran t) tidy =
    same-IsTidy t (tcp_stop ran t).1 (stops-SameReads ran t) tidy

-- In every state that a TCP transport reaches by getting connections, accepting, reading, starting
-- and stopping, each socket has at most one pending read, and a socket that is not made yet has
-- none.
pub run-IsTidy : {env : Env} {t : Tcp} → TcpRun env fresh_tcp t → IsTidy t
run-IsTidy (TcpRun.here t) = λ n. (omega arith, λ h. refl)
run-IsTidy (TcpRun.then t t1 t2 run step) = step-IsTidy step (run-IsTidy run)
