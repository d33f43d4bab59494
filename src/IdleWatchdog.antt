-- ===== src/IdleWatchdog.antt =====
-- src/server/worker_idle.py: the watchdog that shuts an idle worker down.
use bilive.Base.{
  ℕ, ◌+◌, ◌-◌, ◌≤◌, ◌<◌, ◌≡◌, ◌≢◌, refl, Bool, true, false, not, ◌||◌, Option, none, some, List, [],
  ◌∷◌, ◌++◌, inl, inr, arith, ◌==◌, ltb, if◌then◌else◌, Bool-cases, ◌⊎◌, ap, All, sym, ◌∙◌,
}

-- What `worker_is_busy` reads of the worker's state, and the counts of the upload queue that block.
pub record WorkerState : Type 0 where
  pub watcher_running : Bool
  pub lock_owner_running : Bool
  pub pending_tasks : ℕ
  pub llm_requesting : Bool
  pub upload_active : Bool
  pub queued : ℕ
  pub uploading : ℕ
  pub uploaded : ℕ
  pub publishing : ℕ

unfoldable pub worker_is_busy : WorkerState → Bool
worker_is_busy s =
    s.watcher_running
    || s.lock_owner_running
    || ltb 0 s.pending_tasks
    || s.llm_requesting
    || s.upload_active
    || ltb 0 s.queued
    || ltb 0 s.uploading
    || ltb 0 s.uploaded
    || ltb 0 s.publishing

-- One round of the loop: the first reading, `none` where it raised, the times of the clock after it and
-- after the second one, and the second reading.
pub record Round : Type 0 where
  pub state : Option WorkerState
  pub now : ℕ
  pub confirmed : Option WorkerState
  pub later : ℕ

-- Either the last activity, or the request to shut down.
pub data Watch : Type 0 where
  watching : ℕ → Watch
  shut_down : Watch

-- The second reading; with a failed one or a busy one, the activity is now.
unfoldable pub confirm : Round → Watch
unfolding worker_is_busy
confirm round = elim round.confirmed [
  | none ↦ watching round.later
  | some state ↦ if worker_is_busy state then watching round.later else shut_down
]

unfoldable pub check : ℕ → ℕ → Round → Watch
unfolding confirm
check timeout last_activity round = elim round.state [
  | none ↦ watching round.now
  | some state ↦
      if worker_is_busy state
      then watching round.now
      else if ltb (round.now - last_activity) timeout
      then watching last_activity
      else confirm round
]

-- What happens between the sleeps of the loop: a request that the worker serves calls `touch` at a time,
-- or the loop makes a round. Both run on one event loop, and a round does not give way to a request.
pub data Event : Type 0 where
  touch : ℕ → Event
  wake : Round → Event

-- `IdleWatchdog.run` over the events, from the last activity.
unfoldable pub run_events : ℕ → ℕ → List Event → Watch
unfolding check
run_events timeout last_activity [] = watching last_activity
run_events timeout last_activity (touch now ∷ events) = run_events timeout now events
run_events timeout last_activity (wake round ∷ events) = elim (check timeout last_activity round) [
  | watching last ↦ run_events timeout last events
  | shut_down ↦ shut_down
]

unfoldable pub watch : ℕ → ℕ → List Event → Watch
unfolding run_events
watch timeout start events =
    if timeout == 0 then watching start else run_events timeout start events

abbrev pub is_idle : Option WorkerState → Bool
is_idle none = false
is_idle (some state) = not (worker_is_busy state)

check-shut_down :
    (timeout last : ℕ) (round : Round)
    → check timeout last round ≡ shut_down
    → (is_idle round.state ≡ true)
      × (is_idle round.confirmed ≡ true)
      × ((timeout ≡ 0) ⊎ (last + timeout ≤ round.now))
unfolding check confirm
check-shut_down timeout last round e = ground arith

-- The times of the activities among some events: the requests, and the rounds whose first reading fails
-- or finds the worker busy.
unfoldable pub activities : List Event → List ℕ
unfolding worker_is_busy
activities [] = []
activities (touch now ∷ events) = now ∷ activities events
activities (wake round ∷ events) =
    let rest = activities events in if is_idle round.state then rest else round.now ∷ rest

-- The clock does not go back, from a time on.
unfoldable pub Ascends : ℕ → List Event → Type 0
Ascends lo [] = Unit
Ascends lo (touch now ∷ events) = (lo ≤ now) × Ascends now events
Ascends lo (wake round ∷ events) =
    ((lo ≤ round.now) × (round.now ≤ round.later)) × Ascends round.later events

earlier_Ascends : (a b : ℕ) (events : List Event) → a ≤ b → Ascends b events → Ascends a events
unfolding Ascends
earlier_Ascends a b [] h k = tt
earlier_Ascends a b (touch now ∷ events) h k = let first = k.0 in (omega arith, k.1)
earlier_Ascends a b (wake round ∷ events) h k = let first = k.0.0 in ((omega arith, k.0.1), k.1)

-- A shutdown after some events that leave the last activity at some time: both readings of the round are
-- idle, and at least the timeout has passed since that activity, since every activity among those events
-- and since the start.
pub record IsShutDown (timeout start : ℕ) (events : List Event) : Type 0 where
  pub earlier : List Event
  pub round : Round
  pub rest : List Event
  pub last : ℕ
  pub split : events ≡ earlier ++ wake round ∷ rest
  pub known : run_events timeout start earlier ≡ watching last
  pub idle : is_idle round.state ≡ true
  pub confirmed_idle : is_idle round.confirmed ≡ true
  pub waited : last + timeout ≤ round.now
  pub since_start : start + timeout ≤ round.now
  pub quiet : All (λ t. t + timeout ≤ round.now) (activities earlier)

Watch-cases : (w : Watch) → (w ≡ shut_down) ⊎ ((last : ℕ) × (w ≡ watching last))
Watch-cases shut_down = inl refl
Watch-cases (watching last) = inr (last, refl)

never : (start : ℕ) → watching start ≢ shut_down
never start e = cc

check_not_before :
    (timeout start last : ℕ) (round : Round)
    → start ≤ round.now
    → round.now ≤ round.later
    → check timeout start round ≡ watching last
    → (start ≤ last) × (last ≤ round.later) × ((is_idle round.state ≡ true) ⊎ (round.now ≤ last))
unfolding check confirm
check_not_before timeout start last round a b e = ground arith

quiet_round :
    (round : Round) (ts : List ℕ) (last timeout end : ℕ)
    → ((is_idle round.state ≡ true) ⊎ (round.now ≤ last))
    → last + timeout ≤ end
    → All (λ t. t + timeout ≤ end) ts
    → All (λ t. t + timeout ≤ end) (if is_idle round.state then ts else round.now ∷ ts)
quiet_round round ts last timeout end order first others = elim (Bool-cases (is_idle round.state)) [
  | inl t ↦ rw t others
  | inr f ↦ rw f (elim order [
    | inl t ↦ let both : false ≡ true = sym f ∙ t in absurd cc
    | inr le ↦ (omega arith, others)
  ])
]

run_events-IsShutDown :
    (timeout start : ℕ) (events : List Event)
    → 0 < timeout
    → Ascends start events
    → run_events timeout start events ≡ shut_down
    → IsShutDown timeout start events
unfolding run_events activities Ascends
run_events-IsShutDown timeout start [] h a e = absurd cc
run_events-IsShutDown timeout start (touch now ∷ events) h a e =
    let found = run_events-IsShutDown timeout now events h a.1 e in
    let first = found.since_start in
    let early = a.0 in
    record {
      earlier = touch now ∷ found.earlier;
      round = found.round;
      rest = found.rest;
      last = found.last;
      split = ap (λ l. touch now ∷ l) found.split;
      known = found.known;
      idle = found.idle;
      confirmed_idle = found.confirmed_idle;
      waited = found.waited;
      since_start = omega arith;
      quiet = (first, found.quiet);
    }
run_events-IsShutDown timeout start (wake round ∷ events) h a e =
    elim (Watch-cases (check timeout start round)) [
      | inl down ↦
          let facts = check-shut_down timeout start round down in
          record {
            earlier = [];
            round = round;
            rest = events;
            last = start;
            split = refl;
            known = refl;
            idle = facts.0;
            confirmed_idle = facts.1;
            waited = ground arith;
            since_start = ground arith;
            quiet = tt;
          }
      | inr (last, on) ↦
          let order = check_not_before timeout start last round a.0.0 a.0.1 on in
          let found =
            run_events-IsShutDown timeout last events h
              (earlier_Ascends last round.later events order.1 a.1) (rw (on, run_events) at e) in
          let first = found.since_start in
          let early = order.0 in
          record {
            earlier = wake round ∷ found.earlier;
            round = found.round;
            rest = found.rest;
            last = found.last;
            split = ap (λ l. wake round ∷ l) found.split;
            known = rw (on, run_events) found.known;
            idle = found.idle;
            confirmed_idle = found.confirmed_idle;
            waited = found.waited;
            since_start = omega arith;
            quiet =
                quiet_round round (activities found.earlier) last timeout found.round.now order.2
                  first found.quiet;
          }
    ]

-- Where the clock does not go back, the watchdog requests a shutdown only in a round in which both
-- readings find the worker idle and at least the timeout, which is not 0, has passed since the last
-- activity that the events before it left, since the start, and since every request and every busy or
-- failed first reading before that round.
pub watch-IsShutDown :
    (timeout start : ℕ) (events : List Event)
    → Ascends start events
    → watch timeout start events ≡ shut_down
    → IsShutDown timeout start events
unfolding watch
watch-IsShutDown timeout start events a e = elim (Bool-cases (timeout == 0)) [
  | inl t ↦ absurd (never start (rw t at e))
  | inr f ↦ run_events-IsShutDown timeout start events (ground arith) a (rw f at e)
]
