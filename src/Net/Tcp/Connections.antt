-- ===== src/Net/Tcp/Connections.antt =====
-- Which connection of a TCP transport a message goes over.
use libgossip.Base.{
  ℕ, ◌≡◌, refl, subst, ◌≢◌, inl, inr, true, some, List, [], ◌∷◌, arith, Bytes, Option-cases,
}
use libgossip.Net.Send.{Answer}
use libgossip.Net.Tcp.{
  find_socket, put_socket, start_receive_from_socket, create_socket, open_socket,
  get_or_create_socket, Tcp, Got,
}

find_socket-put_socket :
    (key : Bytes) (n : ℕ) (ms : List (Bytes × ℕ)) → find_socket key (put_socket key n ms) ≡ some n
unfolding find_socket put_socket
find_socket-put_socket key n [] = ground arith
find_socket-put_socket key n ((k, m) ∷ ms) = ground (arith, find_socket-put_socket key n ms)

pub find_socket-put_other :
    (j key : Bytes) (n : ℕ) (ms : List (Bytes × ℕ))
    → j ≢ key
    → find_socket j (put_socket key n ms) ≡ find_socket j ms
unfolding find_socket put_socket
find_socket-put_other j key n [] apart = ground (arith, apart)
find_socket-put_other j key n ((k, m) ∷ ms) apart =
    ground (arith, apart, find_socket-put_other j key n ms apart)

pub open_socket-open :
    (key : Bytes) (t : Tcp) {n : ℕ}
    → find_socket key t.outbound ≡ some n
    → t.opened n ≡ true
    → open_socket key t ≡ some n
unfolding open_socket
open_socket-open key t found opened = rw (found, open_socket) (rw opened refl)

pub open_socket-found :
    (key : Bytes) (t : Tcp) {n : ℕ}
    → open_socket key t ≡ some n
    → (find_socket key t.outbound ≡ some n) × (t.opened n ≡ true)
unfolding open_socket
open_socket-found key t {n} e = elim (Option-cases (find_socket key t.outbound)) [
  | inl h ↦ absurd (ground (arith, e, h))
  | inr (m, h) ↦ (ground (arith, e, h), ground (arith, e, h))
]

-- With an open connection nothing is made.
pub reused :
    (answer : Answer) (key : Bytes) (t : Tcp) {n : ℕ}
    → open_socket key t ≡ some n
    → get_or_create_socket answer key t ≡ (Got.socket n, t)
unfolding get_or_create_socket
reused answer key t e = rw (e, get_or_create_socket) refl

-- A socket that was got is the open one of its key, and the other keys keep theirs.
abbrev pub IsGot : Bytes → Tcp → Got × Tcp → Type 0
IsGot key t (Got.socket n, t1) =
    (open_socket key t1 ≡ some n)
    × ((j : Bytes) → j ≢ key → find_socket j t1.outbound ≡ find_socket j t.outbound)
IsGot key t (Got.null, t1) = Unit
IsGot key t (Got.thrown, t1) = Unit

create_socket-IsGot :
    (answer : Answer) (key : Bytes) (t : Tcp) → IsGot key t (create_socket answer key t)
unfolding create_socket start_receive_from_socket
create_socket-IsGot Answer.no_address key t = tt
create_socket-IsGot Answer.refused key t = tt
create_socket-IsGot Answer.connected key t = (
  open_socket-open key _ (find_socket-put_socket key t.next t.outbound) (ground arith),
  λ j apart. find_socket-put_other j key t.next t.outbound apart,
)

pub get_or_create_socket-IsGot :
    (answer : Answer) (key : Bytes) (t : Tcp) → IsGot key t (get_or_create_socket answer key t)
unfolding get_or_create_socket
get_or_create_socket-IsGot answer key t = elim (Option-cases (open_socket key t)) [
  | inl h ↦ rw (h, get_or_create_socket) (create_socket-IsGot answer key t)
  | inr (n, h) ↦ rw (h, get_or_create_socket) (h, λ j apart. refl)
]

-- Getting a connection again gives the same socket and changes nothing, whatever the network would
-- answer, and no other target's entry has changed.
get_or_create_socket_again :
    (answer answer2 : Answer) (key : Bytes) (t : Tcp) {n : ℕ} {t1 : Tcp}
    → get_or_create_socket answer key t ≡ (Got.socket n, t1)
    → (get_or_create_socket answer2 key t1 ≡ (Got.socket n, t1))
      × ((j : Bytes) → j ≢ key → find_socket j t1.outbound ≡ find_socket j t.outbound)
get_or_create_socket_again answer answer2 key t {n} {t1} e =
    let (open_now, others) = subst (IsGot key t) e (get_or_create_socket-IsGot answer key t) in
    (reused answer2 key t1 open_now, others)
