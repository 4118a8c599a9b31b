-- ===== src/Redis/Course/Ends.antt =====
-- The callbacks of the Redis example in their two cases.
use libgossip.Base.{
  ℕ, ◌≡◌, refl, sym, ap, subst, ◌∙◌, inl, inr, none, some, List, [], ◌∷◌, get_elem?, Bool-cases,
  Option-cases,
}
use libgossip.Core.State.{Effect, Core}
use libgossip.Core.State.Frame.{OnlyEvents}
use libgossip.Direct.{is_held, find_port, Nested, play, unheld_trace, Course}
use libgossip.Direct.Ends.{Ends, Reached, inner, play_sent, play-Ends, IsDirect}
use libgossip.Node.{NodeView, GossipMessage}
use libgossip.Redis.{redis_node_event_callback, ClusterStatistics, RedisEnv, RedisCluster}
use libgossip.Redis.Course.{set_core, count_sent, receive_message, send_callback, perform, locked}

-- Only the statistics differ.
abbrev pub SameNodes : RedisCluster → RedisCluster → Type 0
SameNodes c d = (g : ClusterStatistics) × (d ≡ record c { stats = g })

perform_unrouted :
    (nested : Nested RedisCluster) (env : RedisEnv) (held : List ℕ) (msg : GossipMessage)
    (target : NodeView) (c : RedisCluster)
    → find_port target.port c.registry ≡ none
    → perform env nested held (Effect.sent msg target) c ≡ Course.returns (count_sent c)
unfolding perform
perform_unrouted nested env held msg target c e = rw (e, send_callback) refl

pub perform_routed :
    (nested : Nested RedisCluster) (env : RedisEnv) (held : List ℕ) (msg : GossipMessage)
    (target : NodeView) (c : RedisCluster) {j : ℕ}
    → find_port target.port c.registry ≡ some j
    → perform env nested held (Effect.sent msg target) c
      ≡ receive_message env nested held j msg (count_sent c)
unfolding perform
perform_routed nested env held msg target c e = rw (e, send_callback) refl

receive_message-Ends :
    (nested : Nested RedisCluster) (env : RedisEnv) (held : List ℕ) (j : ℕ) (msg : GossipMessage)
    (c : RedisCluster)
    → ((es : List Effect) (h : List ℕ) (d : RedisCluster) → Reached msg es → Ends (nested h es d))
    → Ends (receive_message env nested held j msg c)
unfolding receive_message unheld_trace
receive_message-Ends nested env held j msg c h = elim (Bool-cases (is_held j held)) [
  | inl t ↦ rw t tt
  | inr f ↦ elim (Option-cases (get_elem? c.nodes j)) [
    | inl e ↦ rw f (rw e tt)
    | inr (node, e) ↦
        rw f (rw e (h _ _ _ (env.core_env j, env.now c.reads, unheld_trace node.core, refl, refl)))
  ]
]

send-Ends :
    (env : RedisEnv) (nested : Nested RedisCluster) (held : List ℕ) (msg : GossipMessage)
    (target : NodeView) (c : RedisCluster)
    → ((es : List Effect) (h : List ℕ) (d : RedisCluster) → Reached msg es → Ends (nested h es d))
    → Ends (perform env nested held (Effect.sent msg target) c)
send-Ends env nested held msg target c h = elim (Option-cases (find_port target.port c.registry)) [
  | inl e ↦ subst Ends (sym (perform_unrouted nested env held msg target c e)) tt
  | inr (j, e) ↦
      subst Ends (sym (perform_routed nested env held msg target c e))
        (receive_message-Ends nested env held j msg (count_sent c) h)
]

pub perform-IsDirect : (env : RedisEnv) → IsDirect (perform env) SameNodes
unfolding perform
perform-IsDirect env = record {
  same_refl = λ c. (c.stats, refl);
  same_trans =
      λ c d e (g, p) (g', q). (g', q ∙ ap {A = RedisCluster} (λ x. record x { stats = g' }) p);
  event = λ nested held n st c. (
    record c { stats = redis_node_event_callback n.status st c.stats },
    (redis_node_event_callback n.status st c.stats, refl),
    refl,
  );
  send = send-Ends env;
}

-- After events a message goes to the node that the registry has for the target's port.
pub play_routed :
    (fuel : ℕ) (env : RedisEnv) (held : List ℕ) (msg : GossipMessage) (target : NodeView)
    (es : List Effect) (c : RedisCluster) {j : ℕ}
    → OnlyEvents [] es
    → find_port target.port c.registry ≡ some j
    → (g : ClusterStatistics) × (play (perform env) fuel held (Effect.sent msg target ∷ es) c
        ≡ receive_message env
            (inner (perform env) fuel)
            held
            j
            msg
            (count_sent (record c { stats = g })))
play_routed fuel env held msg target es c h e =
    let (d, (g, same), course) =
      play_sent (perform env) SameNodes (perform-IsDirect env) fuel held msg target es c h in
    (
      g,
      course
          ∙ ap (perform env (inner (perform env) fuel) held (Effect.sent msg target)) same
          ∙ perform_routed (inner (perform env) fuel) env held msg target (record c { stats = g })
              e,
    )

-- In the Redis example: an operation of a core, whatever it is, never reaches the bound of two on
-- the depth of handled messages: what its sends and events call nests no deeper, whatever the other
-- nodes answer, so that the operation returns, or waits for a mutex of its own thread, or finds no
-- node.
pub operation_ends :
    (env : RedisEnv) (i : ℕ) (operation : Core → Core) (c : RedisCluster)
    → Ends (locked env i operation c)
unfolding locked
operation_ends env i operation c = elim (Option-cases (get_elem? c.nodes i)) [
  | inl e ↦ rw (e, locked) tt
  | inr (node, e) ↦
      let s = operation (unheld_trace node.core) in
      rw (e, locked)
        (play-Ends (perform env) SameNodes (perform-IsDirect env) (i ∷ []) s.trace (set_core i s c))
]
