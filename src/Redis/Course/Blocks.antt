-- ===== src/Redis/Course/Blocks.antt =====
-- A node that meets another one waits for itself.
use libgossip.Base.{
  ℕ, ◌≡◌, refl, ap, ◌∙◌, ◌≢◌, inl, inr, true, false, some, List, [], ◌∷◌, arith, get_elem?, All,
  get_elem?-modify_ne,
}
use libgossip.Core.Handle.{is_greeting, handle_message}
use libgossip.Core.Members.{meet}
use libgossip.Core.Members.Contacts.{meet-Contacted}
use libgossip.Core.State.{Core}
use libgossip.Core.Tick.{own_message}
use libgossip.Direct.{is_held, find_port, Nested, play, depth, unheld_trace, Course}
use libgossip.Direct.Ends.{inner}
use libgossip.Direct.Greetings.{Knows, greeting_answered}
use libgossip.Node.{MessageType, NodeView, GossipMessage}
use libgossip.Redis.{RedisEnv, RedisNode, RedisCluster}
use libgossip.Redis.Course.{set_core, count_sent, count_received, receive_message, perform, locked}
use libgossip.Redis.Course.Ends.{play_routed}

receive_message_held :
    (nested : Nested RedisCluster) (env : RedisEnv) (held : List ℕ) (j : ℕ) (msg : GossipMessage)
    (c : RedisCluster)
    → is_held j held ≡ true
    → receive_message env nested held j msg c ≡ Course.blocks
unfolding receive_message
receive_message_held nested env held j msg c e = rw e refl

receive_message_free :
    (nested : Nested RedisCluster) (env : RedisEnv) (held : List ℕ) (j : ℕ) (msg : GossipMessage)
    (c : RedisCluster) {b : RedisNode}
    → is_held j held ≡ false
    → get_elem? c.nodes j ≡ some b
    → let s = handle_message (env.core_env j) msg (env.now c.reads) (unheld_trace b.core) in
      receive_message env nested held j msg c
      ≡ nested (j ∷ held) s.trace (set_core j s (count_received c))
unfolding receive_message
receive_message_free nested env held j msg c {b} free at = rw free (rw at refl)

-- A node `j` that hears a greeting of the node `i`, while `i` holds its mutex, waits for `i`.
greeting_blocks :
    (env : RedisEnv) (i j : ℕ) (msg : GossipMessage) (self : NodeView) (c : RedisCluster)
    {b : RedisNode}
    → i ≢ j
    → get_elem? c.nodes j ≡ some b
    → find_port self.port c.registry ≡ some i
    → is_greeting msg ≡ true
    → msg.sender ≡ self.id
    → msg.entries ≡ self ∷ []
    → All (Knows self) b.core.nodes
    → receive_message env (play (perform env) 1) (i ∷ []) j msg c ≡ Course.blocks
unfolding unheld_trace is_held
greeting_blocks env i j msg self c {b} apart at port g is_self single known =
    let (pong, target, before, same, events, trace) =
      greeting_answered (env.core_env j) msg (env.now c.reads) self (unheld_trace b.core) g is_self
        single known in
    let s = handle_message (env.core_env j) msg (env.now c.reads) (unheld_trace b.core) in
    let (g', course) =
      play_routed 1 env (j ∷ i ∷ []) pong target before (set_core j s (count_received c)) {j = i}
        events (ap (λ p. find_port p c.registry) same ∙ port) in
    receive_message_free (play (perform env) 1) env (i ∷ []) j msg c (ground (arith, apart)) at
    ∙ ap (λ t. play (perform env) 1 (j ∷ i ∷ []) t (set_core j s (count_received c))) trace
    ∙ course
    ∙ receive_message_held (inner (perform env) 1) env (j ∷ i ∷ []) i pong _ (ground arith)

locked_free :
    (env : RedisEnv) (i : ℕ) (operation : Core → Core) (c : RedisCluster) {a : RedisNode}
    → get_elem? c.nodes i ≡ some a
    → let s = operation (unheld_trace a.core) in
      locked env i operation c ≡ play (perform env) depth (i ∷ []) s.trace (set_core i s c)
unfolding locked
locked_free env i operation c at = rw (at, locked) refl

-- In the Redis example: when a node meets another node by a record with another id and with the
-- port of that node in the registry, its own port leads to itself, and the other node's records
-- that name it by id or address name it by both, then the call never returns: the other node
-- answers by a direct call of handle_message of the first, which waits for the mutex that its own
-- thread holds.
pub meet_blocks :
    (env : RedisEnv) (i j : ℕ) (node : NodeView) (c : RedisCluster) {a b : RedisNode}
    → i ≢ j
    → get_elem? c.nodes i ≡ some a
    → get_elem? c.nodes j ≡ some b
    → node.id ≢ a.core.self.id
    → find_port node.port c.registry ≡ some j
    → find_port a.core.self.port c.registry ≡ some i
    → All (Knows a.core.self) b.core.nodes
    → locked env i (meet (env.core_env i) node) c ≡ Course.blocks
unfolding unheld_trace
meet_blocks env i j node c {a} {b} apart here there other port own known =
    elim (meet-Contacted (env.core_env i) node (unheld_trace a.core)) [
      | inl (same, _) ↦ absurd (other same)
      | inr (_, contacted) ↦
          let s = meet (env.core_env i) node (unheld_trace a.core) in
          let (before, events, trace) = contacted.message in
          let msg = own_message MessageType.meet [] a.core in
          let (g, course) =
            play_routed 2 env (i ∷ []) msg node before (set_core i s c) {j = j} events port in
          let at : get_elem? (set_core i s c).nodes j ≡ some b =
            get_elem?-modify_ne i j _ c.nodes apart ∙ there in
          locked_free env i (meet (env.core_env i) node) c here
          ∙ ap (λ t. play (perform env) depth (i ∷ []) t (set_core i s c)) trace
          ∙ course
          ∙ greeting_blocks env i j msg a.core.self
              (count_sent (record (set_core i s c) { stats = g })) apart at own (ground arith) refl
              refl known
    ]
