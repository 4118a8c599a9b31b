-- ===== src/Large/Starts.antt =====
-- A node that starts gives its own core a join of its own, and waits for itself.
use libgossip.Base.{
  ℕ, suc, ◌≡◌, refl, sym, ap, subst, ◌∙◌, inl, inr, true, none, some, List, [], ◌∷◌, arith,
  get_elem?, All, Bool-cases, Option-cases,
}
use libgossip.Core.Handle.{is_greeting, handle_message}
use libgossip.Core.State.{Effect, Core}
use libgossip.Direct.{◌then◌, is_held, find_port, Nested, play, depth, unheld_trace, Course}
use libgossip.Direct.Ends.{Ends, Reached, inner, play_sent, play-Ends, IsDirect}
use libgossip.Direct.Greetings.{Knows, greeting_answered}
use libgossip.Large.{node_event_callback, LargeStatistics, LargeEnv, LargeNode, LargeCluster}
use libgossip.Large.Node.{
  put_core, one_sent, handle_at, large_send_callback, large_perform, operate, at_ms, read_system,
  stamped_message, process_locally, large_broadcast_join, large_start,
}
use libgossip.Net.{ErrorCode}
use libgossip.Node.{MessageType, NodeView, GossipMessage}

-- Only the statistics differ.
abbrev pub SameStates : LargeCluster → LargeCluster → Type 0
SameStates c d = (g : LargeStatistics) × (d ≡ record c { stats = g })

perform_unknown :
    (nested : Nested LargeCluster) (env : LargeEnv) (held : List ℕ) (msg : GossipMessage)
    (target : NodeView) (c : LargeCluster)
    → find_port target.port c.registry ≡ none
    → large_perform env nested held (Effect.sent msg target) c ≡ Course.returns (one_sent c)
unfolding large_perform
perform_unknown nested env held msg target c e = rw (e, large_send_callback) refl

perform_known :
    (nested : Nested LargeCluster) (env : LargeEnv) (held : List ℕ) (msg : GossipMessage)
    (target : NodeView) (c : LargeCluster) {j : ℕ}
    → find_port target.port c.registry ≡ some j
    → large_perform env nested held (Effect.sent msg target) c
      ≡ handle_at env nested held j msg
          (env.now c.reads)
          (record (one_sent c) { reads = suc c.reads })
unfolding large_perform
perform_known nested env held msg target c e = rw (e, large_send_callback) refl

handle_at-Ends :
    (nested : Nested LargeCluster) (env : LargeEnv) (held : List ℕ) (j : ℕ) (msg : GossipMessage)
    (recv : ℕ) (c : LargeCluster)
    → ((es : List Effect) (h : List ℕ) (d : LargeCluster) → Reached msg es → Ends (nested h es d))
    → Ends (handle_at env nested held j msg recv c)
unfolding handle_at unheld_trace
handle_at-Ends nested env held j msg recv c h = elim (Bool-cases (is_held j held)) [
  | inl t ↦ rw t tt
  | inr f ↦ elim (Option-cases (get_elem? c.nodes j)) [
    | inl e ↦ rw f (rw e tt)
    | inr (node, e) ↦
        rw f (rw e (h _ _ _ (env.core_env j, recv, unheld_trace node.core, refl, refl)))
  ]
]

large_send-Ends :
    (env : LargeEnv) (nested : Nested LargeCluster) (held : List ℕ) (msg : GossipMessage)
    (target : NodeView) (c : LargeCluster)
    → ((es : List Effect) (h : List ℕ) (d : LargeCluster) → Reached msg es → Ends (nested h es d))
    → Ends (large_perform env nested held (Effect.sent msg target) c)
large_send-Ends env nested held msg target c h =
    elim (Option-cases (find_port target.port c.registry)) [
      | inl e ↦ subst Ends (sym (perform_unknown nested env held msg target c e)) tt
      | inr (j, e) ↦ subst Ends (sym (perform_known nested env held msg target c e)) (
          handle_at-Ends nested env held j msg (env.now c.reads)
            (record (one_sent c) { reads = suc c.reads }) h)
    ]

pub large_perform-IsDirect : (env : LargeEnv) → IsDirect (large_perform env) SameStates
unfolding large_perform
large_perform-IsDirect env = record {
  same_refl = λ c. (c.stats, refl);
  same_trans =
      λ c d e (g, p) (g', q). (g', q ∙ ap {A = LargeCluster} (λ x. record x { stats = g' }) p);
  event = λ nested held n st c. (
    record c { stats = node_event_callback n.status st c.stats },
    (node_event_callback n.status st c.stats, refl),
    refl,
  );
  send = large_send-Ends env;
}

-- In the large example an operation of a core, whatever it calls, does not reach the bound on nested
-- calls.
operate-Ends :
    (env : LargeEnv) (i : ℕ) (operation : Core → Core) (c : LargeCluster)
    → Ends (operate env i operation c)
unfolding operate
operate-Ends env i operation c = elim (Option-cases (get_elem? c.nodes i)) [
  | inl e ↦ rw (e, operate) tt
  | inr (node, e) ↦
      let s = operation (unheld_trace node.core) in
      rw (e, operate)
        (play-Ends (large_perform env) SameStates (large_perform-IsDirect env) (i ∷ []) s.trace
          (put_core i s c))
]

handle_at_held :
    (nested : Nested LargeCluster) (env : LargeEnv) (held : List ℕ) (j : ℕ) (msg : GossipMessage)
    (recv : ℕ) (c : LargeCluster)
    → is_held j held ≡ true
    → handle_at env nested held j msg recv c ≡ Course.blocks
unfolding handle_at
handle_at_held nested env held j msg recv c e = rw e refl

operate_free :
    (env : LargeEnv) (i : ℕ) (operation : Core → Core) (c : LargeCluster) {a : LargeNode}
    → get_elem? c.nodes i ≡ some a
    → let s = operation (unheld_trace a.core) in
      operate env i operation c ≡ play (large_perform env) depth (i ∷ []) s.trace (put_core i s c)
unfolding operate
operate_free env i operation c at = rw (at, operate) refl

-- A node that handles its own greeting waits for itself.
own_greeting_blocks :
    (env : LargeEnv) (i : ℕ) (msg : GossipMessage) (recv : ℕ) (info : NodeView) (c : LargeCluster)
    {a : LargeNode}
    → get_elem? c.nodes i ≡ some a
    → find_port info.port c.registry ≡ some i
    → is_greeting msg ≡ true
    → msg.sender ≡ info.id
    → msg.entries ≡ info ∷ []
    → All (Knows info) a.core.nodes
    → operate env i (handle_message (env.core_env i) msg recv) c ≡ Course.blocks
unfolding unheld_trace is_held
own_greeting_blocks env i msg recv info c {a} here port g is_self single known =
    let (pong, target, before, same, events, trace) =
      greeting_answered (env.core_env i) msg recv info (unheld_trace a.core) g is_self single
        known in
    let s = handle_message (env.core_env i) msg recv (unheld_trace a.core) in
    let (d, (stats, same_d), course) =
      play_sent (large_perform env) SameStates (large_perform-IsDirect env) depth (i ∷ []) pong
        target before (put_core i s c) events in
    let routed : find_port target.port d.registry ≡ some i =
      rw same_d (ap (λ p. find_port p c.registry) same ∙ port) in
    operate_free env i (handle_message (env.core_env i) msg recv) c here
    ∙ ap (λ t. play (large_perform env) depth (i ∷ []) t (put_core i s c)) trace
    ∙ course
    ∙ perform_known (inner (large_perform env) depth) env (i ∷ []) pong target d routed
    ∙ handle_at_held (inner (large_perform env) depth) env (i ∷ []) i pong (env.now d.reads) _
        (ground arith)

join_free :
    (env : LargeEnv) (i : ℕ) (c : LargeCluster) {a : LargeNode}
    → get_elem? c.nodes i ≡ some a
    → large_broadcast_join env i c
      ≡ process_locally env i
          (stamped_message env MessageType.join a.node_info a.node_info c)
          (read_system c)
unfolding large_broadcast_join
join_free env i c at = rw (at, large_broadcast_join) refl

-- In the large example: when the transport of a node has started, the registry has the node for its
-- own port, and the records of its core that name it by id or address name it by both, then the
-- start of the node never returns: its core handles the join that the node sends to itself and
-- answers it, and the answer waits for the mutex that the same thread holds.
pub start_blocks :
    (env : LargeEnv) (i : ℕ) (c : LargeCluster) {a : LargeNode}
    → get_elem? c.nodes i ≡ some a
    → find_port a.node_info.port c.registry ≡ some i
    → All (Knows a.node_info) a.core.nodes
    → (large_start env ErrorCode.success i c).1 ≡ Course.blocks
unfolding large_start process_locally
start_blocks env i c {a} here port known =
    let msg = stamped_message env MessageType.join a.node_info a.node_info c in
    join_free env i c here
    ∙ ap (λ m. m then (λ d. Course.returns (one_sent d)))
        (own_greeting_blocks env i msg (at_ms msg) a.node_info (read_system c) here port
          (ground arith) refl refl known)
