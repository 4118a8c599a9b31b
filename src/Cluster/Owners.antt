-- ===== src/Cluster/Owners.antt =====
-- In every cluster that is reached no record is newer than the node it names.
use libgossip.Base.{
  ℕ, ◌≤◌, ◌<◌, ◌≡◌, refl, sym, subst, ◌∙◌, ◌≢◌, inl, inr, false, some, arith, ℕ_discrete, get_elem?,
  All, All-get_elem?, Bool-cases,
}
use libgossip.Cluster.{
  takes, begins, goes_on, Cluster, replace, Names, NotNewer, IsFair, Fits, Turn, IsStart, Reach,
}
use libgossip.Cluster.Calls.{IsGiven, step_told}
use libgossip.Cluster.Clocks.{step-Beats}
use libgossip.Cluster.Handles.{Honest, IsTold}
use libgossip.Cluster.Ledger.{ledger_update_node}
use libgossip.Cluster.Records.{
  NotAhead, NotNewer-IsLedger, Follows-refl, Grows, IsTold-Grows, Follows,
}
use libgossip.Core.Handle.{same_address}
use libgossip.Core.Members.{size}
use libgossip.Core.Run.{step, Call}
use libgossip.Core.Run.Identity.{step-SameSelf}
use libgossip.Core.State.{Effect, Core, Env, IsStd}
use libgossip.Core.Update.{update_node}
use libgossip.Core.Update.Laws.{get_elem?-update_node}
use libgossip.Node.{can_replace, NodeView, GossipMessage}

-- The records of the nodes and the messages that they sent, and who the nodes are.
pub record IsSound (size : ℕ) (c : Cluster) : Type 0 where
  pub told : (i : ℕ) → i < size → IsTold (NotNewer size c) (NotAhead size c) (c i)
  pub apart : (i j : ℕ) → i < size → j < size → Names (c i).self (c j) → i ≡ j

own-NotNewer :
    (size : ℕ) (c : Cluster) (i : ℕ) → i < size → IsSound size c → NotNewer size c (c i).self
own-NotNewer size c i lt sound j below names =
    subst (λ k. Fits (c i).self (c k)) (sound.apart i j lt below names)
      (record {
        id = refl;
        ip = refl;
        port = refl;
        heartbeat = omega arith;
        config_epoch = omega arith;
      })

pub own-NotAhead :
    (size : ℕ) (c : Cluster) (i : ℕ)
    → i < size
    → IsSound size c
    → NotAhead size c (c i).self.id (c i).self.heartbeat
own-NotAhead size c i lt sound = (
  (i, lt, refl),
  λ j below e.
      subst (λ k. (c i).self.heartbeat ≤ (c k).self.heartbeat) (sound.apart i j lt below (inl e))
        (omega arith),
)

IsGiven-IsFair :
    (size : ℕ) (env : ℕ → Env) (c : Cluster) (i : ℕ) (call : Call)
    → IsSound size c
    → IsFair size env c i call
    → IsGiven (NotNewer size c) (NotAhead size c) call
IsGiven-IsFair size env c i (Call.handles msg recv) sound (j, k, target, lt, at) =
    All-get_elem? (Honest (NotNewer size c) (NotAhead size c)) k (c j).trace at
      (sound.told j lt).trace
IsGiven-IsFair size env c i (Call.meets node) sound fair = fair
IsGiven-IsFair size env c i (Call.joins node) sound fair = fair
IsGiven-IsFair size env c i Call.resets sound fair = absurd fair
IsGiven-IsFair size env c i _ sound fair = tt

-- What holds of the new node and of all the old ones holds in the cluster with the new node.
replace_all :
    (R : ℕ → Core → Type 0) (size : ℕ) (c : Cluster) (i : ℕ) (s : Core)
    → R i s
    → ((j : ℕ) → j < size → R j (c j))
    → (j : ℕ) → j < size
    → R j (replace c i s j)
replace_all R size c i s here others j lt = elim (ℕ_discrete i j) [
  | yes e ↦
      let replaced : replace c i s j ≡ s = ground arith in rw replaced (subst (λ k. R k s) e here)
  | no n ↦ let kept : replace c i s j ≡ c j = ground arith in rw kept (others j lt)
]

step-Grows :
    (size : ℕ) (env : ℕ → Env) (c : Cluster) (i : ℕ) (call : Call)
    → IsFair size env c i call
    → Grows size c (replace c i (step (env i) call (c i)))
step-Grows size env c i call fair =
    replace_all (λ j s. Follows (c j) s) size c i (step (env i) call (c i)) now
      (λ j lt. Follows-refl (c j))
  where
    now : Follows (c i) (step (env i) call (c i))
    now =
        let same = step-SameSelf (env i) call (c i) in
        let beats = step-Beats size env c i call fair in
        record {
          id = same.id;
          ip = same.ip;
          port = same.port;
          heartbeat = beats.heartbeat;
          config_epoch = beats.config_epoch;
        }

Names-Follows : (s t s' t' : Core) → Follows s s' → Follows t t' → Names s'.self t' → Names s.self t
Names-Follows s t s' t' f g (inl id) = inl (sym g.id ∙ id ∙ f.id)
Names-Follows s t s' t' f g (inr (ip, port)) =
    inr (sym g.ip ∙ ip ∙ f.ip, sym g.port ∙ port ∙ f.port)

Turn-IsSound :
    (size : ℕ) (env : ℕ → Env) (c d : Cluster)
    → ((i : ℕ) → IsStd (env i))
    → Turn size env c d
    → IsSound size c
    → IsSound size d
Turn-IsSound size env c d std (takes i call lt fair) sound =
    let grows = step-Grows size env c i call fair in
    record {
      told =
          replace_all (λ j s. IsTold (NotNewer size d) (NotAhead size d) s) size c i _
            (IsTold-Grows size c d _ grows (
              step_told (NotNewer size c) (NotAhead size c) (NotNewer-IsLedger size c) (env i) call
                (c i) (std i) (own-NotNewer size c i lt sound) (own-NotAhead size c i lt sound)
                (IsGiven-IsFair size env c i call sound fair) (sound.told i lt)))
            (λ j below. IsTold-Grows size c d (c j) grows (sound.told j below));
      apart = λ j k a b names.
          sound.apart j k a b (Names-Follows (c j) (c k) (d j) (d k) (grows j a) (grows k b) names);
    }

IsStart-IsSound : (size : ℕ) (c : Cluster) → IsStart size c → IsSound size c
IsStart-IsSound size c fresh = record {
  told = λ i lt. record {
    nodes = subst (All (NotNewer size c)) (sym (fresh.nodes i lt)) tt;
    trace = subst (All (Honest (NotNewer size c) (NotAhead size c))) (sym (fresh.trace i lt)) tt;
  };
  apart = fresh.apart;
}

pub Reach-IsSound :
    (size : ℕ) (env : ℕ → Env) {c : Cluster}
    → ((i : ℕ) → IsStd (env i))
    → Reach size env c
    → IsSound size c
Reach-IsSound size env std (begins fresh) = IsStart-IsSound size _ fresh
Reach-IsSound size env std (goes_on {c} {d} r s) =
    Turn-IsSound size env c d std s (Reach-IsSound size env std r)

-- In every state that a cluster of nodes reaches, where messages may be lost, doubled, delayed and
-- reordered at will, provided that the standard libraries are as documented, that the nodes start
-- empty, no two with one id or one address, that no node resets, wraps its heartbeat around or
-- lowers its epoch, and that a record given to meet or join which has the id or the address of a
-- node of the cluster has both and neither a heartbeat nor an epoch above the node's own at the
-- time (a contact without an id, at the address of a node, is thus left out): any record of a
-- node's list and any entry of a message it has sent that names a node of the cluster, by id or by
-- address, still has the id and the address of that node and neither a heartbeat nor an epoch above
-- the node's own; and every message it has sent has a node of the cluster as its sender, whose
-- heartbeat has reached the timestamp.
pub Reach-NotNewer :
    (size : ℕ) (env : ℕ → Env) {c : Cluster}
    → ((i : ℕ) → IsStd (env i))
    → Reach size env c
    → (i : ℕ) → i < size
    → All (NotNewer size c) (c i).nodes
      × All (Honest (NotNewer size c) (NotAhead size c)) (c i).trace
Reach-NotNewer size env std r i lt =
    let told = (Reach-IsSound size env std r).told i lt in (told.nodes, told.trace)

-- In every state that a cluster reaches (Cluster.Reach), with standard libraries as documented:
-- when a node updates its list by the present record of any node of the cluster, then its record of
-- that node, the one that update_node refers to, has the heartbeat and the epoch of the node
-- itself, whatever it had heard and recorded before.
pub hears_owner :
    (size : ℕ) (env : ℕ → Env) {c : Cluster}
    → ((i : ℕ) → IsStd (env i))
    → Reach size env c
    → (i j recv : ℕ) → i < size
    → j < size
    → let r = update_node (c j).self recv (c i) in
      (n : NodeView) × (get_elem? r.0.nodes r.1 ≡ some n)
      × (n.id ≡ (c j).self.id)
      × (n.heartbeat ≡ (c j).self.heartbeat)
      × (n.config_epoch ≡ (c j).self.config_epoch)
unfolding can_replace
hears_owner size env {c} std r i j recv here there =
    let sound = Reach-IsSound size env std r in
    let own = own-NotNewer size c j there sound in
    let (n, at, same, newest, _) = get_elem?-update_node (c j).self recv (c i) in
    let after =
      ledger_update_node (NotNewer size c) (NotAhead size c) (NotNewer-IsLedger size c) (c j).self
        recv (c i) own (sound.told i here).nodes in
    let fits = All-get_elem? (NotNewer size c) _ _ at after j there (inl (sym same)) in
    (
      n,
      at,
      same,
      ground (arith, newest, fits.heartbeat, fits.config_epoch),
      ground (arith, newest, fits.heartbeat, fits.config_epoch),
    )

-- In every state that a cluster reaches, with standard libraries as documented: an entry of a message
-- that a node has sent never passes for the node of a record, by having its address and another id,
-- when the record names a node of the cluster; so handle_message does not rename it.
adopt_never :
    (size : ℕ) (env : ℕ → Env) {c : Cluster}
    → ((i : ℕ) → IsStd (env i))
    → Reach size env c
    → (i j k m p q : ℕ) {n remote target : NodeView} {msg : GossipMessage} → i < size
    → j < size
    → m < size
    → get_elem? (c i).nodes k ≡ some n
    → Names n (c j)
    → get_elem? (c m).trace p ≡ some (Effect.sent msg target)
    → get_elem? msg.entries q ≡ some remote
    → same_address remote n ≡ false
unfolding same_address
adopt_never size env {c} std r i j k m p q {n} {remote} here there from at names spoken entry =
    let sound = Reach-IsSound size env std r in
    let known = All-get_elem? (NotNewer size c) k (c i).nodes at (sound.told i here).nodes in
    let sent =
      All-get_elem? (Honest (NotNewer size c) (NotAhead size c)) p (c m).trace spoken
        (sound.told m from).trace in
    let honest = All-get_elem? (NotNewer size c) q _ entry sent.1 in
    let fits = known j there names in
    elim (Bool-cases (same_address remote n)) [
      | inr f ↦ f
      | inl t ↦
          let same : (n.ip ≡ remote.ip) × (n.port ≡ remote.port) × (n.id ≢ remote.id) =
            ground (arith, t) in
          absurd (
            same.2 (sym fits.id ∙ (honest j there (inr (fits.ip ∙ same.0, fits.port ∙ same.1))).id))
    ]
