-- ===== src/Core/State.antt =====
-- The members of gossip_core, its effects on the outside, and its private helpers
-- select_random_peers and notify (src/core/gossip_core.cpp).
pub mod Frame
pub mod Peers
use mathlib.Core.List.{Perm}
use libgossip.Base.{
  ℕ, suc, ◌+◌, ◌-◌, ◌/◌, ◌%◌, ◌^◌, ◌≤◌, ◌<◌, min, ◌≡◌, Bool, true, not, Option, none, some, List,
  [], ◌∷◌, length, take, keep_if, if◌then◌else◌, holds, Bytes, bytes_discrete,
}
use libgossip.Node.{NodeId, NodeStatus, NodeView, GossipMessage}

-- A call of `send_fn_`, or of `event_fn_`.
pub data Effect : Type 0 where
  sent : GossipMessage → NodeView → Effect
  event : NodeView → NodeStatus → Effect

-- The class gossip_core. The members are the first ten; `event_fn` says whether the event callback
-- is set. The last three are the outside: how often the clock was read for a time that is kept or
-- compared, how often random peers were drawn, and the calls of the two callbacks, the latest
-- first.
pub record Core : Type 0 where
  pub self : NodeView
  pub nodes : List NodeView
  pub event_fn : Bool
  pub heartbeat_interval : ℕ
  pub failure_timeout : ℕ
  pub gossip_nodes : ℕ
  pub sync_nodes : ℕ
  pub sent_messages : ℕ
  pub received_messages : ℕ
  pub last_tick_duration : ℕ
  pub reads : ℕ
  pub draws : ℕ
  pub trace : List Effect

-- What the standard library supplies: the readings of std::chrono::steady_clock in nanoseconds, the
-- outcome of each std::shuffle, and std::stoull, `none` where it throws.
pub record Env : Type 0 where
  pub now : ℕ → ℕ
  pub shuffle : ℕ → List NodeView → List NodeView
  pub stoull : Bytes → Option ℕ

-- What the standard library documents of these: the clock never goes back, a shuffle permutes, and
-- std::stoull returns an unsigned long long.
pub record IsStd (env : Env) : Type 0 where
  pub steady : (j k : ℕ) → j ≤ k → env.now j ≤ env.now k
  pub shuffled : (k : ℕ) (xs : List NodeView) → Perm (env.shuffle k xs) xs
  pub bounded : (text : Bytes) (n : ℕ) → env.stoull text ≡ some n → n < 2 ^ 64

abbrev pub u64_mod : ℕ
u64_mod = 2 ^ 64

-- `x++` on a uint64_t or a size_t.
abbrev pub inc64 : ℕ → ℕ
inc64 x = (x + 1) % u64_mod

-- `duration_cast<duration_ms>(now - t)`; where `t` lies ahead of `now` the difference is negative
-- and fails every test of the program against a timeout, as 0 does against a positive one.
abbrev pub elapsed_ms : ℕ → ℕ → ℕ
elapsed_ms now t = (now - t) / 1000000

abbrev pub same_id : NodeId → NodeId → Bool
same_id a b = holds (bytes_discrete a b)

-- `clock::now()`
abbrev pub tick_clock : Core → Core
tick_clock s = record s { reads = suc s.reads }

unfoldable pub notify : NodeView → NodeStatus → Core → Core
notify node old_status s =
    if s.event_fn then record s { trace = Effect.event node old_status ∷ s.trace } else s

-- `send_fn_(msg, target); sent_messages_++;`
unfoldable pub send : GossipMessage → NodeView → Core → Core
send msg target s = record s {
  trace = Effect.sent msg target ∷ s.trace;
  sent_messages = inc64 s.sent_messages;
}

abbrev pub not_excluded : Option NodeId → NodeView → Bool
not_excluded none n = true
not_excluded (some e) n = not (same_id n.id e)

pick : Env → ℕ → List NodeView → Core → List NodeView
pick env k [] s = []
pick env k (c ∷ cs) s = take (min k (length (c ∷ cs))) (env.shuffle s.draws (c ∷ cs))

-- The peers of one call of select_random_peers, in a state that has made `s.draws` calls.
unfoldable pub select_random_peers : Env → ℕ → Option NodeId → Core → List NodeView
unfolding pick keep_if
select_random_peers env k exclude s = pick env k (keep_if (not_excluded exclude) s.nodes) s

abbrev pub draw : Core → Core
draw s = record s { draws = suc s.draws }
