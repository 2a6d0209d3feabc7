-- ===== src/Monitor/Loop.antt =====
-- p2p/libp2p/connectionMonitor/libp2pConnectionMonitorSimple.go: `processLoop` and `doReconn`.
use drt_go_chain_communicati.Prelude.{
  ℕ, ◌+◌, ◌≤◌, Bool, true, false, List, [], ◌∷◌, if◌then◌else◌, arith,
}

-- Where the goroutine is: at its `select`, in `checkConnectionsBlocking`, in `reconnectToNetwork`,
-- or past its return.
pub data Phase : Type 0 where
  at_select checking reconnecting stopped : Phase

-- `armed` tells that timerBetweenReconnectAttempts runs, `tick_waits` that its channel, which has
-- room for one value, holds one.
pub record LoopState : Type 0 where
  pub phase : Phase
  pub can_reconnect : Bool
  pub armed : Bool
  pub tick_waits : Bool

pub data LoopEvent : Type 0 where
  check_starts check_ends reconnect_starts reconnect_ends : LoopEvent
  request_too_early request_dropped timer_fires tick_received context_done : LoopEvent

abbrev pub initial_loop : LoopState
initial_loop = record { phase = at_select; can_reconnect = true; armed = true; tick_waits = false }

-- A value is sent on `chDoReconnect` only while the loop is at its `select`; `doReconn` drops it
-- otherwise. `Reset` starts the timer again and leaves a value that waits in its channel, as timers
-- do under the `go 1.20` of go.mod.
pub data Step : LoopState → LoopEvent → LoopState → Type 0 where
  step_check :
      (c a t : Bool)
      → Step
          (record { phase = at_select; can_reconnect = c; armed = a; tick_waits = t })
          check_starts
          (record { phase = checking; can_reconnect = c; armed = a; tick_waits = t })
  step_checked :
      (c a t : Bool)
      → Step
          (record { phase = checking; can_reconnect = c; armed = a; tick_waits = t })
          check_ends
          (record { phase = at_select; can_reconnect = c; armed = a; tick_waits = t })
  step_reconnect :
      (a t : Bool)
      → Step
          (record { phase = at_select; can_reconnect = true; armed = a; tick_waits = t })
          reconnect_starts
          (record { phase = reconnecting; can_reconnect = true; armed = a; tick_waits = t })
  step_reconnected :
      (c a t : Bool)
      → Step
          (record { phase = reconnecting; can_reconnect = c; armed = a; tick_waits = t })
          reconnect_ends
          (record { phase = at_select; can_reconnect = false; armed = true; tick_waits = t })
  step_too_early :
      (a t : Bool)
      → Step
          (record { phase = at_select; can_reconnect = false; armed = a; tick_waits = t })
          request_too_early
          (record { phase = at_select; can_reconnect = false; armed = a; tick_waits = t })
  step_dropped_checking :
      (c a t : Bool)
      → Step
          (record { phase = checking; can_reconnect = c; armed = a; tick_waits = t })
          request_dropped
          (record { phase = checking; can_reconnect = c; armed = a; tick_waits = t })
  step_dropped_reconnecting :
      (c a t : Bool)
      → Step
          (record { phase = reconnecting; can_reconnect = c; armed = a; tick_waits = t })
          request_dropped
          (record { phase = reconnecting; can_reconnect = c; armed = a; tick_waits = t })
  step_fires :
      (p : Phase) (c t : Bool)
      → Step
          (record { phase = p; can_reconnect = c; armed = true; tick_waits = t })
          timer_fires
          (record { phase = p; can_reconnect = c; armed = false; tick_waits = true })
  step_tick :
      (c a : Bool)
      → Step
          (record { phase = at_select; can_reconnect = c; armed = a; tick_waits = true })
          tick_received
          (record { phase = at_select; can_reconnect = true; armed = a; tick_waits = false })
  step_done :
      (c a t : Bool)
      → Step
          (record { phase = at_select; can_reconnect = c; armed = a; tick_waits = t })
          context_done
          (record { phase = stopped; can_reconnect = c; armed = a; tick_waits = t })

-- A run of the loop from its start, the last event first.
pub data Run : List LoopEvent → LoopState → Type 0 where
  run_start : Run [] initial_loop
  run_step :
      {es : List LoopEvent} {l m : LoopState} {e : LoopEvent}
      → Run es l
      → Step l e m
      → Run (e ∷ es) m

-- Counts of three events in a run.
abbrev pub starts : List LoopEvent → ℕ
starts [] = 0
starts (reconnect_starts ∷ es) = 1 + starts es
starts (_ ∷ es) = starts es

abbrev pub ticks : List LoopEvent → ℕ
ticks [] = 0
ticks (tick_received ∷ es) = 1 + ticks es
ticks (_ ∷ es) = ticks es

abbrev pub ends : List LoopEvent → ℕ
ends [] = 0
ends (reconnect_ends ∷ es) = 1 + ends es
ends (_ ∷ es) = ends es

-- What the loop may still start before the next tick, and what the timer may still deliver.
abbrev free_in : Phase → Bool → ℕ
free_in reconnecting c = 0
free_in at_select c = if c then 1 else 0
free_in checking c = if c then 1 else 0
free_in stopped c = if c then 1 else 0

abbrev free : LoopState → ℕ
free l = free_in l.phase l.can_reconnect

abbrev due : LoopState → ℕ
due l = (if l.armed then 1 else 0) + (if l.tick_waits then 1 else 0)

-- Attempts to reconnect are throttled: in a run of the loop there is at most one more start of an
-- attempt than ticks of the timer received, and no more than one tick for each attempt that ended
-- besides the first.
pub Run-throttled :
    (es : List LoopEvent) (l : LoopState)
    → Run es l
    → (starts es ≤ ticks es + 1) × (ticks es ≤ ends es + 1)
Run-throttled es l run = let (a, b) = counts run in (omega (arith, a), omega (arith, b))
  where
    counts :
        {es : List LoopEvent} {l : LoopState}
        → Run es l
        → (starts es + free l ≤ ticks es + 1) × (ticks es + due l ≤ ends es + 1)
    counts run_start = (omega arith, omega arith)
    counts (run_step r (step_check c a t)) = counts r
    counts (run_step r (step_checked c a t)) = counts r
    counts (run_step r (step_reconnect a t)) = let (f, d) = counts r in (omega (arith, f), d)
    counts (run_step r (step_reconnected c a t)) =
        let (f, d) = counts r in (omega (arith, f), ground (arith, d))
    counts (run_step r (step_too_early a t)) = counts r
    counts (run_step r (step_dropped_checking c a t)) = counts r
    counts (run_step r (step_dropped_reconnecting c a t)) = counts r
    counts (run_step r (step_fires p c t)) = let (f, d) = counts r in (f, ground (arith, d))
    counts (run_step r (step_tick c a)) =
        let (f, d) = counts r in (ground (arith, f), ground (arith, d))
    counts (run_step r (step_done c a t)) = counts r
