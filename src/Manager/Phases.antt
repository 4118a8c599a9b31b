-- ===== src/Manager/Phases.antt =====
-- The life of a gossip_manager: it is set up once, runs once, and never runs again.
use libgossip.Base.{
  ℕ, ◌≡◌, refl, sym, ap, subst, ◌∙◌, ◌⊎◌, inl, inr, Bool, true, false, none, some, arith,
  if◌then◌else◌, Bytes, Bool-cases, Option-cases, if_true, if_false,
}
use libgossip.Base.Map.{Dictionary}
use libgossip.Core.Members.{meet, join, leave, update_self_metadata}
use libgossip.Core.State.{Core, Env}
use libgossip.Core.Tick.{tick, tick_full_broadcast}
use libgossip.Manager.{
  create_transport, transport_type, connect, init, started, start_with, start, stop, sends_end,
  performed, call, with_core, on_core, manager_tick, broadcast_config, contact, meet_node,
  join_cluster, leave_cluster, update_metadata, set_event_callback, GossipConfig, Outcome,
  TransportType, Transport, Created, Network, Manager,
}
use libgossip.Manager.Sends.{Misdirects, sends_end-IsMisdirected}
use libgossip.Net.{ErrorCode}
use libgossip.Node.{NodeId}

-- What a manager can be in.
pub data Phase : Type 0 where
  new ready active stopped : Phase

-- The members that tell the phases apart.
abbrev pub IsIn : Phase → Manager → Type 0
IsIn Phase.new m = (m.initialized ≡ false) × (m.running ≡ false)
IsIn Phase.ready m =
    (m.initialized ≡ true)
    × (m.running ≡ false)
    × ((c : Core) × (m.gossip_core ≡ some c))
    × ((t : Transport) × (m.transport ≡ some t))
IsIn Phase.active m =
    (m.initialized ≡ true)
    × (m.running ≡ true)
    × ((c : Core) × (m.gossip_core ≡ some c))
    × ((t : Transport) × (m.transport ≡ some t))
IsIn Phase.stopped m =
    (m.initialized ≡ true) × (m.running ≡ false) × (m.gossip_core ≡ none) × (m.transport ≡ none)

-- A call of a public operation that may change the manager.
pub data Request : Type 0 where
  inits : NodeId → GossipConfig → Request
  starts stops ticks broadcasts leaves : Request
  meets joins : Bytes → ℕ → Request
  updates : Dictionary → Request
  listens : Bool → Request

unfoldable pub answer : Env → Network → Request → Manager → Outcome (Bool × Manager)
answer env net (Request.inits fresh config) m = init env net fresh config m
answer env net Request.starts m = start net m
answer env net Request.stops m = Outcome.returns (true, stop m)
answer env net Request.ticks m = manager_tick env net m
answer env net Request.broadcasts m = broadcast_config env net m
answer env net Request.leaves m = leave_cluster net m
answer env net (Request.meets ip port) m = meet_node env net ip port m
answer env net (Request.joins ip port) m = join_cluster env net ip port m
answer env net (Request.updates md) m = update_metadata env net md m
answer env net (Request.listens has) m = Outcome.returns (true, set_event_callback has m)

-- The phase after a request that was answered with `b`.
pub after : Request → Bool → Phase → Phase
after (Request.inits fresh config) true Phase.new = Phase.ready
after Request.starts true Phase.ready = Phase.active
after Request.stops b Phase.active = Phase.stopped
after _ b p = p

-- When a request may end the program: a host that is no address, a null transport, or a message to
-- a node whose ip is no address.
pub IsFatal : Env → Network → Request → Manager → Type 0
IsFatal env net (Request.inits fresh config) m =
    net.construct (transport_type config.use_tcp) config.bind_ip config.gossip_port ≡ none
IsFatal env net Request.starts m = m.transport ≡ none
IsFatal env net Request.stops m = ⊥
IsFatal env net Request.ticks m = Misdirects net (tick env) m
IsFatal env net Request.broadcasts m = Misdirects net (tick_full_broadcast env) m
IsFatal env net Request.leaves m = Misdirects net (leave m.self_id) m
IsFatal env net (Request.meets ip port) m = Misdirects net (meet env (contact ip port)) m
IsFatal env net (Request.joins ip port) m = Misdirects net (join env (contact ip port)) m
IsFatal env net (Request.updates md) m = Misdirects net (update_self_metadata env md) m
IsFatal env net (Request.listens has) m = ⊥

abbrev Returned : Phase → Outcome (Bool × Manager) → Type 0
Returned p o = (b : Bool) × (m' : Manager) × (o ≡ Outcome.returns (b, m')) × IsIn p m'

abbrev pub IsAnswered :
    Env → Network → Request → Phase → Manager → Outcome (Bool × Manager) → Type 0
IsAnswered env net r p m o =
    ((o ≡ Outcome.crashes) × IsFatal env net r m)
    ⊎ ((b : Bool) × (m' : Manager) × (o ≡ Outcome.returns (b, m')) × IsIn (after r b p) m')

-- A manager with a core keeps its phase whatever core it gets.
keeps_phase :
    (p : Phase) (m : Manager) (old core : Core)
    → m.gossip_core ≡ some old
    → IsIn p m
    → IsIn p (record m { gossip_core = some core })
keeps_phase Phase.new m old core e h = h
keeps_phase Phase.ready m old core e (i, r, c, t) = (i, r, (core, refl), t)
keeps_phase Phase.active m old core e (i, r, c, t) = (i, r, (core, refl), t)
keeps_phase Phase.stopped m old core e (i, r, c, t) = absurd (ground (arith, c, e))

-- An operation of the core either ends the program by a message or answers and keeps the phase.
abbrev IsKept : Network → (Core → Core) → Phase → Manager → Outcome (Bool × Manager) → Type 0
IsKept net f p m o = ((o ≡ Outcome.crashes) × Misdirects net f m) ⊎ Returned p o

performed-IsKept :
    (net : Network) (f : Core → Core) (p : Phase) (m : Manager) (core : Core)
    → m.gossip_core ≡ some core
    → IsIn p m
    → IsKept net f p m (performed net (call f core) m)
unfolding performed
performed-IsKept net f p m core e h =
    elim (Bool-cases (sends_end net m.transport (call f core).trace)) [
      | inl ends ↦ inl (if_true _ _ ends, (core, e, sends_end-IsMisdirected net m.transport _ ends))
      | inr goes_on ↦ inr (true, _, if_false _ _ goes_on, keeps_phase p m core (call f core) e h)
    ]

with_core-IsKept :
    (net : Network) (f : Core → Core) (p : Phase) (m : Manager)
    → IsIn p m
    → IsKept net f p m (with_core net m.gossip_core f m)
unfolding with_core
with_core-IsKept net f p m h = elim (Option-cases m.gossip_core) [
  | inl e ↦ inr (true, m, ap (λ o. with_core net o f m) e, h)
  | inr (core, e) ↦
      subst (λ o. IsKept net f p m (with_core net o f m)) (sym e)
        (performed-IsKept net f p m core e h)
]

listen-IsIn : (has : Bool) (p : Phase) (m : Manager) → IsIn p m → IsIn p (set_event_callback has m)
unfolding set_event_callback
listen-IsIn has Phase.new m h = h
listen-IsIn has Phase.ready m h = h
listen-IsIn has Phase.active m h = h
listen-IsIn has Phase.stopped m h = h

-- A call that does nothing unless the manager runs.
while_running :
    (net : Network) (f : Core → Core) (b : Bool) (p : Phase) (m : Manager)
    {o : Outcome (Bool × Manager)}
    → IsIn p m
    → (m.running ≡ true → IsKept net f p m o)
    → IsKept net f p m (if m.running then o else Outcome.returns (b, m))
while_running net f b p m h kept = elim (Bool-cases m.running) [
  | inl runs ↦ subst (IsKept net f p m) (sym (if_true _ _ runs)) (kept runs)
  | inr idle ↦ inr (b, m, if_false _ _ idle, h)
]

-- A running manager has a core.
greets :
    (net : Network) (f : Core → Core) (p : Phase) (m : Manager)
    → IsIn p m
    → m.running ≡ true
    → IsKept net f p m (on_core net m.gossip_core f m)
unfolding on_core
greets net f Phase.new m h runs = absurd (ground (arith, h.1, runs))
greets net f Phase.ready m h runs = absurd (ground (arith, h.1, runs))
greets net f Phase.active m (i, r, (core, e), t) runs =
    subst (λ o. IsKept net f Phase.active m (on_core net o f m)) (sym e)
      (performed-IsKept net f Phase.active m core e (i, r, (core, e), t))
greets net f Phase.stopped m h runs = absurd (ground (arith, h.1, runs))

stop-IsIn : (p : Phase) (m : Manager) → IsIn p m → IsIn (after Request.stops true p) (stop m)
unfolding after stop
stop-IsIn Phase.new m h = subst (IsIn Phase.new) (sym (if_false _ m h.1)) h
stop-IsIn Phase.ready m h = subst (IsIn Phase.ready) (sym (if_false _ m h.1)) h
stop-IsIn Phase.active m h =
    subst (IsIn Phase.stopped) (sym (if_true _ m h.1)) (h.0, refl, refl, refl)
stop-IsIn Phase.stopped m h = subst (IsIn Phase.stopped) (sym (if_false _ m h.1)) h

started_cases :
    (code : ErrorCode) (m : Manager)
    → (started code m ≡ (true, record m { running = true })) ⊎ (started code m ≡ (false, m))
unfolding started
started_cases ErrorCode.success m = inl refl
started_cases ErrorCode.network_error m = inr refl
started_cases ErrorCode.serialization_error m = inr refl
started_cases ErrorCode.invalid_argument m = inr refl
started_cases ErrorCode.operation_not_permitted m = inr refl

start_ready :
    (net : Network) (m : Manager) {t : Transport}
    → m.initialized ≡ true
    → m.running ≡ false
    → m.transport ≡ some t
    → start net m ≡ Outcome.returns (started (net.start_transport t.socket) m)
unfolding start
start_ready net m i r e = rw (i, r, e, start_with) refl

start_given_up :
    (net : Network) (m : Manager) → IsIn Phase.stopped m → start net m ≡ Outcome.crashes
unfolding start
start_given_up net m (i, r, c, e) = rw (i, r, e, start_with) refl

start-IsAnswered :
    (env : Env) (net : Network) (p : Phase) (m : Manager)
    → IsIn p m
    → IsAnswered env net Request.starts p m (start net m)
unfolding after start IsFatal
start-IsAnswered env net Phase.new m h = inr (false, m, rw h.0 refl, h)
start-IsAnswered env net Phase.ready m (i, r, c, (t, e)) =
    elim (started_cases (net.start_transport t.socket) m) [
      | inl ok ↦ inr (
        true,
        record m { running = true },
        start_ready net m i r e ∙ ap Outcome.returns ok,
        (i, refl, c, (t, e)),
      )
      | inr refused ↦
          inr (false, m, start_ready net m i r e ∙ ap Outcome.returns refused, (i, r, c, (t, e)))
    ]
start-IsAnswered env net Phase.active m h = inr (false, m, rw (h.0, h.1) refl, h)
start-IsAnswered env net Phase.stopped m h = inl (start_given_up net m h, h.3)

connect-IsAnswered :
    (env : Env) (net : Network) (fresh : NodeId) (config : GossipConfig) (made : Created)
    (core : Core) (m m0 : Manager)
    → (made ≡ Created.thrown
        → net.construct (transport_type config.use_tcp) config.bind_ip config.gossip_port ≡ none)
    → IsIn Phase.new m
    → IsAnswered env net (Request.inits fresh config) Phase.new m0 (connect made core m)
unfolding after connect IsFatal
connect-IsAnswered env net fresh config (Created.made t) core m m0 why h = inr (
  true,
  record m { gossip_core = some core; transport = some t; initialized = true },
  refl,
  (refl, h.1, (core, refl), (t, refl)),
)
connect-IsAnswered env net fresh config Created.null core m m0 why h =
    inr (false, record m { gossip_core = none; transport = none }, refl, h)
connect-IsAnswered env net fresh config Created.thrown core m m0 why h = inl (refl, why refl)

thrown-construct :
    (net : Network) (type : TransportType) (host : Bytes) (port : ℕ) (name : Bytes)
    → create_transport net type host port name ≡ Created.thrown
    → net.construct type host port ≡ none
unfolding create_transport
thrown-construct net type host port name e = elim (Option-cases (net.construct type host port)) [
  | inl refused ↦ refused
  | inr (socket, opened) ↦ absurd (ground (arith, e, opened))
]

after_init :
    (fresh : NodeId) (config : GossipConfig) (p : Phase) (m : Manager)
    → IsIn p m
    → IsIn (after (Request.inits fresh config) false p) m
unfolding after
after_init fresh config Phase.new m h = h
after_init fresh config Phase.ready m h = h
after_init fresh config Phase.active m h = h
after_init fresh config Phase.stopped m h = h

init-IsAnswered :
    (env : Env) (net : Network) (fresh : NodeId) (config : GossipConfig) (p : Phase) (m : Manager)
    → IsIn p m
    → IsAnswered env net (Request.inits fresh config) p m (init env net fresh config m)
unfolding init
init-IsAnswered env net fresh config Phase.new m h =
    subst (IsAnswered env net (Request.inits fresh config) Phase.new m) (sym (if_false _ _ h.0))
      (connect-IsAnswered env net fresh config _ _ _ m (thrown-construct net _ _ _ _) h)
init-IsAnswered env net fresh config Phase.ready m h =
    inr (false, m, if_true _ _ h.0, after_init fresh config Phase.ready m h)
init-IsAnswered env net fresh config Phase.active m h =
    inr (false, m, if_true _ _ h.0, after_init fresh config Phase.active m h)
init-IsAnswered env net fresh config Phase.stopped m h =
    inr (false, m, if_true _ _ h.0, after_init fresh config Phase.stopped m h)

-- A manager that is new, ready, active or stopped answers every request, and is afterwards in the
-- phase that the request leads to: init may make a new one ready, start a ready one active, and
-- stop an active one stopped, and nothing else changes the phase; or the program ends, and then the
-- transport's constructor has refused the host that init was given, or start has used a null
-- transport, or the request made the core send a message to a node whose ip is no address.
pub answer-IsAnswered :
    (env : Env) (net : Network) (r : Request) (p : Phase) (m : Manager)
    → IsIn p m
    → IsAnswered env net r p m (answer env net r m)
unfolding answer manager_tick broadcast_config meet_node join_cluster leave_cluster update_metadata
    after IsFatal
answer-IsAnswered env net (Request.inits fresh config) p m h =
    init-IsAnswered env net fresh config p m h
answer-IsAnswered env net Request.starts p m h = start-IsAnswered env net p m h
answer-IsAnswered env net Request.stops p m h = inr (true, stop m, refl, stop-IsIn p m h)
answer-IsAnswered env net Request.ticks p m h =
    while_running net (tick env) true p m h (λ _. with_core-IsKept net (tick env) p m h)
answer-IsAnswered env net Request.broadcasts p m h =
    while_running net (tick_full_broadcast env) true p m h
      (λ _. with_core-IsKept net (tick_full_broadcast env) p m h)
answer-IsAnswered env net Request.leaves p m h = with_core-IsKept net (leave m.self_id) p m h
answer-IsAnswered env net (Request.meets ip port) p m h =
    while_running net (meet env (contact ip port)) false p m h
      (greets net (meet env (contact ip port)) p m h)
answer-IsAnswered env net (Request.joins ip port) p m h =
    while_running net (join env (contact ip port)) false p m h
      (greets net (join env (contact ip port)) p m h)
answer-IsAnswered env net (Request.updates md) p m h =
    with_core-IsKept net (update_self_metadata env md) p m h
answer-IsAnswered env net (Request.listens has) p m h =
    inr (true, set_event_callback has m, refl, listen-IsIn has p m h)

-- Starting an active manager again after it was stopped uses a null pointer.
pub start_stopped :
    (net : Network) (m : Manager) → IsIn Phase.active m → start net (stop m) ≡ Outcome.crashes
unfolding after
start_stopped net m h = start_given_up net (stop m) (stop-IsIn Phase.active m h)
