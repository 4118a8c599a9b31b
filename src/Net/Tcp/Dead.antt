-- ===== src/Net/Tcp/Dead.antt =====
-- A connection of a TCP transport whose read has ended, until the transport is stopped.
use libgossip.Base.{
  ℕ, ◌+◌, ◌<◌, ◌≡◌, refl, sym, ap, subst, ◌∙◌, ◌≢◌, inl, inr, Bool, true, false, Option, none, some,
  [], ◌∷◌, arith, Bytes, Bool-cases, Option-cases,
}
use libgossip.Core.State.{Env}
use libgossip.Net.{ErrorCode}
use libgossip.Net.Lifecycle.{Setup}
use libgossip.Net.Send.{Answer}
use libgossip.Net.Tcp.{
  at_put, fresh_tcp, find_socket, start_receive_from_socket, create_socket, open_socket,
  get_or_create_socket, start_accept, handle_accept, on_accept, on_read, tcp_start, Tcp, Got,
}
use libgossip.Net.Tcp.Connections.{
  find_socket-put_other, open_socket-open, open_socket-found, reused, IsGot,
  get_or_create_socket-IsGot,
}
use libgossip.Net.Tcp.Made.{run-IsMade}
use libgossip.Net.Tcp.Reads.{starts-SameSockets, starts-SameReads, run-IsTidy, TcpStep, TcpRun}
use libgossip.Net.Udp.{Completion}

none_ne : (n : ℕ) → ◌≢◌ {A = Option ℕ} none (some n)
none_ne n e = cc

-- What can happen to a transport from the state `t` on, a stop left out.
pub data Going (env : Env) (t : Tcp) : Tcp → Type 0 where
  here : Going env t t
  connects :
      (answer : Answer) (key : Bytes) {t1 : Tcp}
      → Going env t t1
      → Going env t (get_or_create_socket answer key t1).1
  accepts : (error : Bool) {t1 : Tcp} → Going env t t1 → Going env t (on_accept error t1)
  reads :
      (n : ℕ) (c : Completion) {t1 : Tcp}
      → 0 < t1.reading n
      → Going env t t1
      → Going env t (on_read env n c t1)
  starts :
      (setup : Setup) (code : ErrorCode) {t1 t2 : Tcp}
      → tcp_start setup t1 ≡ some (code, t2)
      → Going env t t1
      → Going env t t2

-- The socket is kept for the target as an open one, but nothing reads from it.
record IsDead (key : Bytes) (n : ℕ) (t : Tcp) : Type 0 where
  kept : find_socket key t.outbound ≡ some n
  opened : t.opened n ≡ true
  silent : t.reading n ≡ 0
  made : n < t.next

creates-IsDead :
    (answer : Answer) (key2 key : Bytes) (n : ℕ) (t : Tcp)
    → key ≢ key2
    → IsDead key n t
    → IsDead key n (create_socket answer key2 t).1
unfolding create_socket start_receive_from_socket
creates-IsDead Answer.no_address key2 key n t apart dead = record {
  kept = dead.kept;
  opened = dead.opened;
  silent = dead.silent;
  made = omega (arith, dead.made);
}
creates-IsDead Answer.refused key2 key n t apart dead = record {
  kept = dead.kept;
  opened = dead.opened;
  silent = dead.silent;
  made = omega (arith, dead.made);
}
creates-IsDead Answer.connected key2 key n t apart dead = record {
  kept = find_socket-put_other key key2 t.next t.outbound apart ∙ dead.kept;
  opened = ground (arith, dead.opened);
  silent = ground (arith, dead.silent, dead.made);
  made = omega (arith, dead.made);
}

connects-IsDead :
    (answer : Answer) (key2 key : Bytes) (n : ℕ) (t : Tcp)
    → IsDead key n t
    → IsDead key n (get_or_create_socket answer key2 t).1
unfolding get_or_create_socket
connects-IsDead answer key2 key n t dead = elim (Option-cases (open_socket key2 t)) [
  | inr (m, h) ↦ rw (h, get_or_create_socket) dead
  | inl h ↦
      let apart : key ≢ key2 = λ e. none_ne n (
        sym h ∙ ap (λ k. open_socket k t) (sym e) ∙ open_socket-open key t dead.kept dead.opened) in
      rw (h, get_or_create_socket) (creates-IsDead answer key2 key n t apart dead)
]

accepted-IsDead :
    (key : Bytes) (n : ℕ) (t t' : Tcp)
    → t'.outbound ≡ t.outbound
    → t'.opened ≡ at_put t.next true t.opened
    → t'.reading ≡ at_put t.next (t.reading t.next + 1) t.reading
    → t'.next ≡ t.next + 1
    → IsDead key n t
    → IsDead key n t'
accepted-IsDead key n t t' out opened reading next dead = record {
  kept = rw out dead.kept;
  opened = rw opened (ground (arith, dead.opened));
  silent = rw reading (ground (arith, dead.silent, dead.made));
  made = rw next (omega (arith, dead.made));
}

accepts-IsDead :
    (error : Bool) (key : Bytes) (n : ℕ) (t : Tcp)
    → IsDead key n t
    → IsDead key n (on_accept error t)
unfolding on_accept handle_accept start_receive_from_socket start_accept
accepts-IsDead true key n t dead = record {
  kept = dead.kept;
  opened = dead.opened;
  silent = dead.silent;
  made = omega (arith, dead.made);
}
accepts-IsDead false key n t dead = elim (Bool-cases t.endpoint.opened) [
  | inl h ↦ rw h (accepted-IsDead key n t _ refl refl refl refl dead)
  | inr h ↦ rw h (accepted-IsDead key n t _ refl refl refl refl dead)
]

reads-IsDead :
    (env : Env) (m : ℕ) (c : Completion) (key : Bytes) (n : ℕ) (t : Tcp)
    → 0 < t.reading m
    → IsDead key n t
    → IsDead key n (on_read env m c t)
unfolding on_read start_receive_from_socket
reads-IsDead env m Completion.error key n t pending dead = record {
  kept = dead.kept;
  opened = dead.opened;
  silent = ground (arith, dead.silent, pending);
  made = dead.made;
}
reads-IsDead env m (Completion.datagram []) key n t pending dead = record {
  kept = dead.kept;
  opened = dead.opened;
  silent = ground (arith, dead.silent, pending);
  made = dead.made;
}
reads-IsDead env m (Completion.datagram (b ∷ bs)) key n t pending dead = record {
  kept = dead.kept;
  opened = dead.opened;
  silent = ground (arith, dead.silent, pending);
  made = dead.made;
}

Going-IsDead :
    (key : Bytes) (n : ℕ) {env : Env} {t t' : Tcp}
    → Going env t t'
    → IsDead key n t
    → IsDead key n t'
Going-IsDead key n Going.here dead = dead
Going-IsDead key n (Going.connects answer key2 {t1} going) dead =
    connects-IsDead answer key2 key n t1 (Going-IsDead key n going dead)
Going-IsDead key n (Going.accepts error {t1} going) dead =
    accepts-IsDead error key n t1 (Going-IsDead key n going dead)
Going-IsDead key n {env} (Going.reads m c {t1} pending going) dead =
    reads-IsDead env m c key n t1 pending (Going-IsDead key n going dead)
Going-IsDead key n (Going.starts setup code {t1} {t2} e going) dead =
    let was = Going-IsDead key n going dead in
    let (opened, out) = starts-SameSockets setup code t1 e in
    let (reading, next) = starts-SameReads setup code t1 e in
    record {
      kept = rw out was.kept;
      opened = rw opened was.opened;
      silent = rw reading was.silent;
      made = rw next was.made;
    }

-- In every state that a TCP transport reaches: when a connection for a target has been got and its
-- read then ends with an error, then, whatever connections are got, accepted, read or started
-- afterwards, as long as the transport is not stopped, nothing more is read from it, and
-- get_or_create_socket for the target gives this same socket and changes nothing, whatever the
-- network would answer to a new connection.
pub dead_connection :
    (env : Env) (answer : Answer) (key : Bytes) {t t1 t3 : Tcp} {n : ℕ}
    → TcpRun env fresh_tcp t
    → get_or_create_socket answer key t ≡ (Got.socket n, t1)
    → Going env (on_read env n Completion.error t1) t3
    → (t3.reading n ≡ 0)
      × ((answer2 : Answer) → get_or_create_socket answer2 key t3 ≡ (Got.socket n, t3))
unfolding on_read
dead_connection env answer key {t} {t1} {t3} {n} run e going =
    let (open_now, _) = subst (IsGot key t) e (get_or_create_socket-IsGot answer key t) in
    let after = TcpRun.then fresh_tcp t _ run (TcpStep.connects answer key t) in
    let reached = subst (λ (r : Got × Tcp). TcpRun env fresh_tcp r.1) e after in
    let (kept, opened) = open_socket-found key t1 open_now in
    let tidy = run-IsTidy reached n in
    let dead = Going-IsDead key n going (record {
      kept = kept;
      opened = opened;
      silent = ground (arith, tidy);
      made = run-IsMade reached n opened;
    }) in
    (dead.silent, λ answer2. reused answer2 key t3 (open_socket-open key t3 dead.kept dead.opened))
