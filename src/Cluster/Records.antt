-- ===== src/Cluster/Records.antt =====
-- Records and timestamps that are not newer than the nodes they name, as the nodes move on.
use native.Mathlib.Bridge.{le_prop}
use libgossip.Base.{ℕ, ◌≤◌, ◌<◌, ◌≡◌, refl, sym, ◌∙◌, fun_ext, inl, inr, arith}
use libgossip.Base.Perm.{All-mono}
use libgossip.Cluster.{Cluster, Names, NotNewer, Fits}
use libgossip.Cluster.Handles.{Honest, IsTold}
use libgossip.Cluster.Ledger.{IsLedger}
use libgossip.Core.Members.{size}
use libgossip.Core.State.{Effect, Core}
use libgossip.Node.{NodeId, NodeView}

-- Every message of a sender carries a timestamp that the sender's heartbeat has reached.
abbrev pub NotAhead : ℕ → Cluster → NodeId → ℕ → Type 0
NotAhead size c id ts =
    ((j : ℕ) × (j < size) × ((c j).self.id ≡ id))
    × ((j : ℕ) → j < size → (c j).self.id ≡ id → ts ≤ (c j).self.heartbeat)

Fits-prop : (n : NodeView) (s : Core) → IsProp (Fits n s)
Fits-prop n s = hlevel (le_prop)

NotNewer-prop : (size : ℕ) (c : Cluster) (n : NodeView) → IsProp (NotNewer size c n)
NotNewer-prop size c n f g = fun_ext (λ j. fun_ext (λ lt. fun_ext (λ m. Fits-prop n (c j) _ _)))

-- A record with another id is one of the node with that id if its address is.
renamed :
    (size : ℕ) (c : Cluster) (remote n : NodeView)
    → NotNewer size c remote
    → NotNewer size c n
    → n.ip ≡ remote.ip
    → n.port ≡ remote.port
    → NotNewer size c (record n { id = remote.id })
renamed size c remote n r p a b j lt (inl id) =
    let there = r j lt (inl id) in
    let here = p j lt (inr (there.ip ∙ sym a, there.port ∙ sym b)) in
    record {
      id = id;
      ip = here.ip;
      port = here.port;
      heartbeat = here.heartbeat;
      config_epoch = here.config_epoch;
    }
renamed size c remote n r p a b j lt (inr (ip, port)) =
    let here = p j lt (inr (ip, port)) in
    record {
      id = (r j lt (inr (ip ∙ a, port ∙ b))).id;
      ip = here.ip;
      port = here.port;
      heartbeat = here.heartbeat;
      config_epoch = here.config_epoch;
    }

Fits-same :
    (n n' : NodeView) (s : Core)
    → n'.id ≡ n.id
    → n'.ip ≡ n.ip
    → n'.port ≡ n.port
    → n'.heartbeat ≤ s.self.heartbeat
    → n'.config_epoch ≡ n.config_epoch
    → Fits n s
    → Fits n' s
Fits-same n n' s a b d e f p = record {
  id = p.id ∙ sym a;
  ip = p.ip ∙ sym b;
  port = p.port ∙ sym d;
  heartbeat = e;
  config_epoch = omega (arith, f, p.config_epoch);
}

Names-same :
    (n n' : NodeView) (s : Core)
    → n'.id ≡ n.id
    → n'.ip ≡ n.ip
    → n'.port ≡ n.port
    → Names n' s
    → Names n s
Names-same n n' s a b d (inl id) = inl (id ∙ a)
Names-same n n' s a b d (inr (ip, port)) = inr (ip ∙ b, port ∙ d)

pub NotNewer-IsLedger : (size : ℕ) (c : Cluster) → IsLedger (NotNewer size c) (NotAhead size c)
NotNewer-IsLedger size c = record {
  prop = NotNewer-prop size c;
  same = λ n n' a b d e f p j lt names.
      let here = p j lt (Names-same n n' (c j) a b d names) in
      Fits-same n n' (c j) a b d (omega (arith, e, here.heartbeat)) f here;
  renamed = renamed size c;
  spoken = λ n n' q a b d f p j lt names.
      let here = p j lt (Names-same n n' (c j) a b d names) in
      Fits-same n n' (c j) a b d (q.1 j lt here.id) f here;
  settled = λ remote n {ts} q r p a b.
      let (j, lt, id) = q.0 in
      let here = p j lt (inl id) in sym (r j lt (inr (here.ip ∙ a, here.port ∙ b))).id ∙ here.id;
}

-- The same node later: nothing goes back.
pub record Follows (s s' : Core) : Type 0 where
  pub id : s'.self.id ≡ s.self.id
  pub ip : s'.self.ip ≡ s.self.ip
  pub port : s'.self.port ≡ s.self.port
  pub heartbeat : s.self.heartbeat ≤ s'.self.heartbeat
  pub config_epoch : s.self.config_epoch ≤ s'.self.config_epoch

pub Follows-refl : (s : Core) → Follows s s
Follows-refl s = record {
  id = refl;
  ip = refl;
  port = refl;
  heartbeat = omega arith;
  config_epoch = omega arith;
}

abbrev pub Grows : ℕ → Cluster → Cluster → Type 0
Grows size c d = (j : ℕ) → j < size → Follows (c j) (d j)

pub NotNewer-Grows :
    (size : ℕ) (c d : Cluster) (n : NodeView)
    → Grows size c d
    → NotNewer size c n
    → NotNewer size d n
NotNewer-Grows size c d n g p j lt names =
    let here = p j lt (before names) in
    record {
      id = (g j lt).id ∙ here.id;
      ip = (g j lt).ip ∙ here.ip;
      port = (g j lt).port ∙ here.port;
      heartbeat = omega (arith, here.heartbeat, (g j lt).heartbeat);
      config_epoch = omega (arith, here.config_epoch, (g j lt).config_epoch);
    }
  where
    before : Names n (d j) → Names n (c j)
    before (inl id) = inl (sym ((g j lt).id) ∙ id)
    before (inr (ip, port)) = inr (sym ((g j lt).ip) ∙ ip, sym ((g j lt).port) ∙ port)

NotAhead-Grows :
    (size : ℕ) (c d : Cluster) (id : NodeId) (ts : ℕ)
    → Grows size c d
    → NotAhead size c id ts
    → NotAhead size d id ts
NotAhead-Grows size c d id ts g q =
    let (j, lt, same) = q.0 in
    (
      (j, lt, (g j lt).id ∙ same),
      λ k below e. omega (arith, q.1 k below (sym ((g k below).id) ∙ e), (g k below).heartbeat),
    )

pub IsTold-Grows :
    (size : ℕ) (c d : Cluster) (s : Core)
    → Grows size c d
    → IsTold (NotNewer size c) (NotAhead size c) s
    → IsTold (NotNewer size d) (NotAhead size d) s
IsTold-Grows size c d s g h = record {
  nodes = All-mono _ _ s.nodes (λ n. NotNewer-Grows size c d n g) h.nodes;
  trace = All-mono _ _ s.trace effect h.trace;
}
  where
    effect :
        (e : Effect)
        → Honest (NotNewer size c) (NotAhead size c) e
        → Honest (NotNewer size d) (NotAhead size d) e
    effect (Effect.sent msg target) (q, p) = (
      NotAhead-Grows size c d msg.sender msg.timestamp g q,
      All-mono _ _ msg.entries (λ n. NotNewer-Grows size c d n g) p,
    )
    effect (Effect.event node st) h = tt
