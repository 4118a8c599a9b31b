-- ===== src/Checks/Messages.antt =====
-- Runs of gossip_core::handle_message.
use libgossip.Base.{
  ℕ, ◌≡◌, refl, ◌≢◌, some, List, [], ◌∷◌, arith, ℕ_discrete, int_discrete, get_elem?, find_index,
  bytes_discrete,
}
use libgossip.Checks.Samples.{
  id_of, sample_node, sample_env, sample_env-IsStd, sample_core, sample_message,
}
use libgossip.Core.Handle.{same_address, learn, touch, handle_message}
use libgossip.Core.Handle.Entries.{leave_blames_sender, learn_twins}
use libgossip.Core.Handle.Reply.{handle_message-IsPong, IsPong}
use libgossip.Core.Handle.Sender.{touch-Touched, Touched}
use libgossip.Core.State.{inc64, Effect, Core}
use libgossip.Core.State.Frame.{OnlyEvents}
use libgossip.Node.{type_discrete, NodeStatus, MessageType, NodeView, GossipMessage}

abbrev ping : GossipMessage
ping = sample_message MessageType.ping 2 (sample_node 2 NodeStatus.online ∷ [])

abbrev pong : GossipMessage
pong = sample_message MessageType.pong 2 (sample_node 4 NodeStatus.online ∷ [])

abbrev gone : NodeView
gone = sample_node 3 NodeStatus.online

-- Node 1 announces that node 3 leaves.
abbrev leaving : GossipMessage
leaving = sample_message MessageType.leave 1 (gone ∷ [])

touch-Touched_example :
    Touched ping 50
      (sample_node 2 NodeStatus.joining)
      (touch ping 50 (sample_node 2 NodeStatus.joining) sample_core).0
touch-Touched_example = touch-Touched ping 50 (sample_node 2 NodeStatus.joining) sample_core

handle_message-IsPong_example :
    let s' = handle_message sample_env ping 50 sample_core in
    (answer : GossipMessage) × (target : NodeView) × (earlier : List Effect) × IsPong ping s' answer
    × (get_elem? s'.nodes 1 ≡ some target)
    × (s'.trace ≡ Effect.sent answer target ∷ earlier)
    × OnlyEvents sample_core.trace earlier
    × (s'.self ≡ sample_core.self)
    × (s'.sync_nodes ≡ sample_core.sync_nodes)
    × (s'.sent_messages ≡ inc64 sample_core.sent_messages)
unfolding find_index bytes_discrete ℕ_discrete type_discrete
handle_message-IsPong_example =
    handle_message-IsPong sample_env ping 50 sample_core {i = 1} sample_env-IsStd refl refl

leave_blames_sender_example :
    let s' = handle_message sample_env leaving 50 sample_core in
    ((n' : NodeView) × (get_elem? s'.nodes 0 ≡ some n')
      × (n'.id ≡ id_of 1)
      × (n'.status ≡ NodeStatus.failed))
    × ((m' : NodeView) × (get_elem? s'.nodes 2 ≡ some m') × (m'.status ≢ NodeStatus.failed))
unfolding find_index same_address bytes_discrete ℕ_discrete int_discrete
leave_blames_sender_example =
    leave_blames_sender sample_env leaving gone 50 sample_core {i = 0} {j = 2}
      {n = sample_node 1 NodeStatus.online} {m = gone} refl refl (λ e. ground (arith, e)) refl refl
      (λ e. ground (arith, e)) refl (λ e. ground (arith, e)) refl (λ e. ground (arith, e))

-- Node 5 is known at the address of node 1, and node 1 by its own id elsewhere.
abbrev doubled : Core
doubled = record sample_core {
  nodes =
      record (sample_node 1 NodeStatus.joining) { id = id_of 5 }
      ∷ record (sample_node 1 NodeStatus.online) { ip = b'g' ∷ [] }
      ∷ [];
}

learn_twins_example :
    (a b : NodeView) × (◌≢◌ {A = ℕ} 0 1)
    × (get_elem? (learn (sample_node 1 NodeStatus.online) 50 doubled).nodes 0 ≡ some a)
    × (get_elem? (learn (sample_node 1 NodeStatus.online) 50 doubled).nodes 1 ≡ some b)
    × (a.id ≡ id_of 1)
    × (b.id ≡ id_of 1)
unfolding find_index same_address bytes_discrete ℕ_discrete int_discrete
learn_twins_example =
    learn_twins (sample_node 1 NodeStatus.online) 50 doubled {i = 0} {j = 1} refl refl refl
