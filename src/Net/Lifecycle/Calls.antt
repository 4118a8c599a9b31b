-- ===== src/Net/Lifecycle/Calls.antt =====
-- Any sequence of calls of start and stop.
use libgossip.Base.{◌≡◌, refl, sym, ap, subst, ◌∙◌, ◌≢◌, Bool, true, false, arith, if_true}
use libgossip.Manager.Phases.{after}
use libgossip.Net.{ErrorCode}
use libgossip.Net.Lifecycle.{
  fresh_endpoint, run_thread, set_up, start_endpoint, works, stop_endpoint, Endpoint, Setup,
  Started,
}

-- The calls that return.
pub data Reaches : Endpoint → Endpoint → Type 0 where
  here : (e : Endpoint) → Reaches e e
  started :
      (e e1 : Endpoint) (setup : Setup) (code : ErrorCode) {e2 : Endpoint}
      → Reaches e e1
      → start_endpoint setup e1 ≡ Started.reported code e2
      → Reaches e e2
  stopped : (e e1 : Endpoint) (ran : Bool) → Reaches e e1 → Reaches e (stop_endpoint ran e1)

-- A thread has its socket open.
abbrev pub IsOwned : Endpoint → Type 0
IsOwned e = e.joinable ≡ true → e.opened ≡ true

start_endpoint-IsOwned :
    (setup : Setup) (e : Endpoint) {code : ErrorCode} {e' : Endpoint}
    → start_endpoint setup e ≡ Started.reported code e'
    → IsOwned e
    → IsOwned e'
unfolding start_endpoint set_up run_thread
start_endpoint-IsOwned Setup.not_opened e h owned = ground (arith, h, owned)
start_endpoint-IsOwned Setup.not_bound e h owned = ground (arith, h, owned)
start_endpoint-IsOwned Setup.ready e h owned = ground (arith, h, owned)

pub reaches-IsOwned : {e e' : Endpoint} → Reaches e e' → IsOwned e → IsOwned e'
unfolding stop_endpoint
reaches-IsOwned (Reaches.here e) owned = owned
reaches-IsOwned (Reaches.started e e1 setup code r h) owned =
    start_endpoint-IsOwned setup e1 h (reaches-IsOwned r owned)
reaches-IsOwned (Reaches.stopped e e1 ran r) owned = λ h. absurd (ground (arith, h))

-- No start assigns a thread to io_thread_ while it stands for another.
start_endpoint_returns :
    (setup : Setup) {e : Endpoint}
    → Reaches fresh_endpoint e
    → start_endpoint setup e ≢ Started.terminates
unfolding start_endpoint set_up run_thread
start_endpoint_returns Setup.not_opened {e} r h = ground (arith, h)
start_endpoint_returns Setup.not_bound {e} r h = ground (arith, h)
start_endpoint_returns Setup.ready {e} r h =
    let owned = reaches-IsOwned r (λ c. c) in ground (arith, h, owned)

-- Open, but without a thread that could close it.
abbrev pub IsStuck : Endpoint → Type 0
IsStuck e = (e.opened ≡ true) × (e.joinable ≡ false)

start_endpoint-IsStuck :
    (setup : Setup) (e : Endpoint)
    → IsStuck e
    → start_endpoint setup e ≡ Started.reported ErrorCode.network_error e
unfolding start_endpoint
start_endpoint-IsStuck setup e stuck = if_true _ _ stuck.0

endpoint_of : Started → Endpoint
endpoint_of (Started.reported code e) = e
endpoint_of Started.terminates = fresh_endpoint

reaches-IsStuck : {e e' : Endpoint} → Reaches e e' → IsStuck e → IsStuck e'
unfolding stop_endpoint endpoint_of
reaches-IsStuck (Reaches.here e) stuck = stuck
reaches-IsStuck (Reaches.started e e1 setup code r h) stuck =
    let before = reaches-IsStuck r stuck in
    subst IsStuck (ap endpoint_of (sym (start_endpoint-IsStuck setup e1 before) ∙ h)) before
reaches-IsStuck (Reaches.stopped e e1 ran r) stuck =
    let before = reaches-IsStuck r stuck in (ground (arith, before), refl)

-- When a transport, in a state that it reaches with its socket closed, is started and fails at
-- binding, then this start reports a network error, and every later one reports a network error and
-- changes nothing, whatever calls of start and stop lie between and however far the setup would
-- come.
pub start_endpoint_stuck :
    {e e1 e2 : Endpoint} {code : ErrorCode} (setup : Setup)
    → Reaches fresh_endpoint e
    → e.opened ≡ false
    → start_endpoint Setup.not_bound e ≡ Started.reported code e1
    → Reaches e1 e2
    → (code ≡ ErrorCode.network_error)
      × (start_endpoint setup e2 ≡ Started.reported ErrorCode.network_error e2)
unfolding start_endpoint set_up
start_endpoint_stuck {e} {e1} {e2} {code} setup before closed failed after =
    let owned = reaches-IsOwned before (λ c. c) in
    let stuck : IsStuck e1 =
      (ground (arith, failed, closed, owned), ground (arith, failed, closed, owned)) in
    (ground (arith, failed, closed), start_endpoint-IsStuck setup e2 (reaches-IsStuck after stuck))

start_endpoint_stopped :
    (setup : Setup) (e : Endpoint) {code : ErrorCode} {e' : Endpoint}
    → start_endpoint setup e ≡ Started.reported code e'
    → e.stopped ≡ true
    → e'.stopped ≡ true
unfolding start_endpoint set_up run_thread
start_endpoint_stopped Setup.not_opened e h over = ground (arith, h, over)
start_endpoint_stopped Setup.not_bound e h over = ground (arith, h, over)
start_endpoint_stopped Setup.ready e h over = ground (arith, h, over)

reaches_stopped : {e e' : Endpoint} → Reaches e e' → e.stopped ≡ true → e'.stopped ≡ true
unfolding stop_endpoint
reaches_stopped (Reaches.here e) over = over
reaches_stopped (Reaches.started e e1 setup code r h) over =
    start_endpoint_stopped setup e1 h (reaches_stopped r over)
reaches_stopped (Reaches.stopped e e1 ran r) over = refl

-- After a stop, no sequence of calls of start and stop, whatever they report, brings the transport
-- to a state in which a handler can run.
pub stop_endpoint_final :
    (ran : Bool) (e : Endpoint) {e' : Endpoint}
    → Reaches (stop_endpoint ran e) e'
    → works e' ≡ false
unfolding stop_endpoint
stop_endpoint_final ran e {e'} r =
    let over : e'.stopped ≡ true = reaches_stopped r refl in ground (arith, over)
