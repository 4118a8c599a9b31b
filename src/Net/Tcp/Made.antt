-- ===== src/Net/Tcp/Made.antt =====
-- Which sockets of a TCP transport are open: only such as have been made.
use libgossip.Base.{
  ℕ, ◌<◌, ◌≡◌, inl, inr, Bool, true, false, ◌&&◌, List, [], ◌∷◌, arith, Bytes, Bool-cases,
  Option-cases,
}
use libgossip.Core.State.{Env}
use libgossip.Net.Lifecycle.{works}
use libgossip.Net.Send.{Answer}
use libgossip.Net.Tcp.{
  at_put, fresh_tcp, start_receive_from_socket, create_socket, open_socket, get_or_create_socket,
  start_accept, handle_accept, on_accept, on_read, close_each, close_all, tcp_stop, Tcp,
}
use libgossip.Net.Tcp.Reads.{starts-SameSockets, starts-SameReads, TcpStep, TcpRun}
use libgossip.Net.Udp.{Completion}

-- A socket that is open has been made.
abbrev pub IsMade : Tcp → Type 0
IsMade t = (n : ℕ) → t.opened n ≡ true → n < t.next

creates-IsMade :
    (answer : Answer) (key : Bytes) (t : Tcp) → IsMade t → IsMade (create_socket answer key t).1
unfolding create_socket start_receive_from_socket
creates-IsMade Answer.no_address key t made = λ n e. omega (arith, made n e)
creates-IsMade Answer.refused key t made = λ n e. omega (arith, made n e)
creates-IsMade Answer.connected key t made = λ n e. ground (arith, made n, e)

connects-IsMade :
    (answer : Answer) (key : Bytes) (t : Tcp)
    → IsMade t
    → IsMade (get_or_create_socket answer key t).1
unfolding get_or_create_socket
connects-IsMade answer key t made = elim (Option-cases (open_socket key t)) [
  | inl h ↦ rw (h, get_or_create_socket) (creates-IsMade answer key t made)
  | inr (n, h) ↦ rw (h, get_or_create_socket) made
]

accepts-IsMade : (error : Bool) (t : Tcp) → IsMade t → IsMade (on_accept error t)
unfolding on_accept handle_accept start_receive_from_socket start_accept
accepts-IsMade true t made = λ n e. omega (arith, made n e)
accepts-IsMade false t made = elim (Bool-cases t.endpoint.opened) [
  | inl h ↦ rw h (λ n e. ground (arith, made n, e))
  | inr h ↦ rw h (λ n e. ground (arith, made n, e))
]

reads-IsMade :
    (env : Env) (n : ℕ) (c : Completion) (t : Tcp) → IsMade t → IsMade (on_read env n c t)
unfolding on_read start_receive_from_socket
reads-IsMade env n Completion.error t made = made
reads-IsMade env n (Completion.datagram []) t made = made
reads-IsMade env n (Completion.datagram (b ∷ bs)) t made = made

close_each-opened :
    (ns : List ℕ) (opened : ℕ → Bool) (k : ℕ) → close_each ns opened k ≡ true → opened k ≡ true
unfolding close_each
close_each-opened [] opened k e = e
close_each-opened (n ∷ ns) opened k e =
    let later = close_each-opened ns (at_put n false opened) k e in ground (arith, later)

stops-IsMade : (ran : Bool) (t : Tcp) → IsMade t → IsMade (tcp_stop ran t).1
unfolding tcp_stop close_all
stops-IsMade ran t made = elim (Bool-cases (t.endpoint.opened && ran && works t.endpoint)) [
  | inl h ↦ rw h (λ n e. made n (close_each-opened t.sockets t.opened n e))
  | inr h ↦ rw h made
]

step-IsMade : {env : Env} {t t' : Tcp} → TcpStep env t t' → IsMade t → IsMade t'
step-IsMade (TcpStep.connects answer key t) made = connects-IsMade answer key t made
step-IsMade (TcpStep.accepts error t) made = accepts-IsMade error t made
step-IsMade {env = env} (TcpStep.reads n c t pending) made = reads-IsMade env n c t made
step-IsMade (TcpStep.starts setup code t {t' = t'} e) made =
    let (opened, _) = starts-SameSockets setup code t e in
    let (_, next) = starts-SameReads setup code t e in rw (opened, next) made
step-IsMade (TcpStep.stops ran t) made = stops-IsMade ran t made

pub run-IsMade : {env : Env} {t : Tcp} → TcpRun env fresh_tcp t → IsMade t
run-IsMade (TcpRun.here t) = λ n e. absurd (ground (arith, e))
run-IsMade (TcpRun.then t t1 t2 run step) = step-IsMade step (run-IsMade run)
