-- ===== src/Node/Dispatcher.antt =====
-- pkg/nodenetwork/dispatcher.go: the node's dispatcher as a system of interleaved steps. A step is what
-- one goroutine does between two points at which others can interfere: `Start` up to its unlock, its two
-- writes of the context, the launch for one target, its deferred write of the status; `Stop`; and in a
-- health loop, which takes no lock, the read of the field `generalCtx`, the test of the context read, and
-- the report. `Start` calls, contexts and loops are named by numbers.
pub mod Single
pub mod Due
pub mod Quiet
pub mod Drain
pub mod Races
pub mod Names
pub mod Session
mod Tests
use gale_lb.Prelude.{
  ℕ, ◌+◌, ◌/◌, ◌≡◌, inl, inr, arith, Option-cases, suc, List, [], ◌∷◌, Option, none, some, Bool,
  ◌||◌, if◌then◌else◌, nat_beq,
}
use gale_lb.Prelude.Int.{ℤ, pos, negsuc}
use gale_lb.Prelude.Equality.{nat_eq}
use gale_lb.Prelude.Map.{Map, lookup, insert, delete}
use gale_lb.Node.Targets.{Target}

pub data Status : Type 0 where
  running stopped : Status

-- Where a health loop stands: at the head of a round, with the context that it has read, or in the
-- `default` case, before its report.
pub data At : Type 0 where
  head : At
  testing : ℕ → At
  sending : At

-- `reportHealthLoop`: the call of `Start` that waits for it, its target, and its two durations.
pub record Loop : Type 0 where
  pub owner : ℕ
  pub target : Target
  pub timeout : ℤ
  pub period : ℤ
  pub at : At

-- A call of `Start` behind its first unlock: before the context is made, or with targets to launch.
pub data Phase : Type 0 where
  created : Phase
  launching : List Target → Phase

-- `contexts` says of each context whether it was canceled.
pub record Dispatcher : Type 0 where
  pub targets : List Target
  pub status : Status
  pub general_ctx : Option ℕ
  pub contexts : Map ℕ Bool
  pub calls : Map ℕ Phase
  pub loops : Map ℕ Loop
  pub next_id : ℕ

unfoldable pub new_dispatcher : List Target → Dispatcher
new_dispatcher targets = record {
  targets = targets;
  status = stopped;
  general_ctx = none;
  contexts = [];
  calls = [];
  loops = [];
  next_id = 0;
}

abbrev pub health_check_interval_divisor : ℕ
health_check_interval_divisor = 2

-- `normalizedTime / HealthCheckIntervalDivisor`; Go's division drops the fraction on both sides of 0.
unfoldable pub health_period : ℤ → ℤ
health_period (pos n) = pos (n / health_check_interval_divisor)
health_period (negsuc n) = elim (suc n / health_check_interval_divisor) [
  | ℕ.zero ↦ pos 0
  | suc m ↦ negsuc m
]

-- What `NewClient` and `fetchConfig` come to for one target.
pub data Launch : Type 0 where
  client_fails config_fails : Launch
  configured : ℤ → Launch

-- What the caller, or the load balancer, sees of a step.
pub data Effect : Type 0 where
  silent : Effect
  start_refused start_failed start_returned : Effect
  stop_refused stop_returned : Effect
  reported : Target → Effect
  loop_returned : Effect
  panicked : Effect

pub data Action : Type 0 where
  begins : Action
  makes_context : ℕ → Action
  launches : ℕ → Launch → Action
  finishes : ℕ → Action
  stops : Action
  reads : ℕ → Action
  tests : ℕ → Action
  sends : ℕ → Action

-- The status check of `Start`, under the lock.
unfoldable pub start : Dispatcher → Dispatcher × Effect
start d = elim d.status [
  | running ↦ (d, start_refused)
  | stopped ↦ (
    record d {
      status = running;
      calls = insert d.next_id created d.calls;
      next_id = d.next_id + 1;
    },
    silent,
  )
]

-- `context.WithCancel`, and the writes of the two fields.
unfoldable pub make_context : ℕ → Dispatcher → Dispatcher
make_context call d = record d {
  general_ctx = some d.next_id;
  contexts = insert d.next_id Bool.false d.contexts;
  calls = insert call (launching d.targets) d.calls;
  next_id = d.next_id + 1;
}

-- The deferred write as `Start` returns.
unfoldable pub leave : ℕ → Dispatcher → Dispatcher
leave call d = record d { status = stopped; calls = delete call d.calls }

-- One round of `startDispatchers`.
unfoldable pub launch : ℕ → Target → List Target → Launch → Dispatcher → Dispatcher × Effect
unfolding health_period leave
launch call target rest client_fails d = (leave call d, start_failed)
launch call target rest config_fails d = (leave call d, start_failed)
launch call target rest (configured timeout) d = (
  record d {
    loops =
        insert d.next_id
          (record {
            owner = call;
            target = target;
            timeout = timeout;
            period = health_period timeout;
            at = head;
          })
          d.loops;
    calls = insert call (launching rest) d.calls;
    next_id = d.next_id + 1;
  },
  silent,
)

-- Does a loop run for this call of `Start`? Its WaitGroup counts them.
unfoldable pub has_loop : ℕ → Map ℕ Loop → Bool
has_loop call [] = Bool.false
has_loop call ((i, l) ∷ loops) = nat_beq l.owner call || has_loop call loops

-- `d.generalCancel()` of a context, and the status; before the first context there is no function to
-- call.
unfoldable pub stop : Dispatcher → Dispatcher × Effect
stop d = elim d.status [
  | stopped ↦ (d, stop_refused)
  | running ↦ elim d.general_ctx [
    | none ↦ (d, panicked)
    | some ctx ↦
        (record d { status = stopped; contexts = insert ctx Bool.true d.contexts }, stop_returned)
  ]
]

unfoldable pub is_canceled : Map ℕ Bool → ℕ → Bool
is_canceled contexts ctx = elim (lookup ctx contexts) [ none ↦ Bool.false | some b ↦ b ]

-- `d.generalCtx.Done()`: each round reads the field anew.
unfoldable pub read_context : ℕ → Loop → Dispatcher → Dispatcher × Effect
read_context i l d = elim d.general_ctx [
  | none ↦ (d, panicked)
  | some ctx ↦ (record d { loops = insert i (record l { at = testing ctx }) d.loops }, silent)
]

-- The choice of the `select`.
unfoldable pub test_context : ℕ → ℕ → Loop → Dispatcher → Dispatcher × Effect
unfolding is_canceled
test_context ctx i l d =
    if is_canceled d.contexts ctx
    then (record d { loops = delete i d.loops }, loop_returned)
    else (record d { loops = insert i (record l { at = sending }) d.loops }, silent)

-- `client.ReportHealthStatus`; what it answers is only logged. After the wait the next round begins.
unfoldable pub send_report : ℕ → Loop → Dispatcher → Dispatcher × Effect
send_report i l d =
    (record d { loops = insert i (record l { at = head }) d.loops }, reported l.target)

-- `none` where the action is not possible.
unfoldable pub step : Action → Dispatcher → Option (Dispatcher × Effect)
unfolding start make_context launch leave stop read_context test_context send_report
step begins d = some (start d)
step (makes_context call) d = elim (lookup call d.calls) [
  | some created ↦ some (make_context call d, silent)
  | _ ↦ none
]
step (launches call result) d = elim (lookup call d.calls) [
  | some (launching (target ∷ rest)) ↦ some (launch call target rest result d)
  | _ ↦ none
]
step (finishes call) d = elim (lookup call d.calls) [
  | some (launching []) ↦
      if has_loop call d.loops then none else some (leave call d, start_returned)
  | _ ↦ none
]
step stops d = some (stop d)
step (reads i) d = elim (lookup i d.loops) [
  | none ↦ none
  | some l ↦ elim l.at [ head ↦ some (read_context i l d) | _ ↦ none ]
]
step (tests i) d = elim (lookup i d.loops) [
  | none ↦ none
  | some l ↦ elim l.at [ testing ctx ↦ some (test_context ctx i l d) | _ ↦ none ]
]
step (sends i) d = elim (lookup i d.loops) [
  | none ↦ none
  | some l ↦ elim l.at [ sending ↦ some (send_report i l d) | _ ↦ none ]
]

-- A schedule, and the effects that it had; `none` if an action was not possible.
unfoldable pub run : List Action → Dispatcher → Option (Dispatcher × List Effect)
run [] d = some (d, [])
run (a ∷ rest) d = elim (step a d) [
  | none ↦ none
  | some (d', e) ↦ elim (run rest d') [ none ↦ none | some (d'', es) ↦ some (d'', e ∷ es) ]
]

-- What a schedule that is possible begins with.
pub run_cons :
    (a : Action) (rest : List Action) (d t : Dispatcher) (es : List Effect)
    → run (a ∷ rest) d ≡ some (t, es)
    → (m : Dispatcher) × (e : Effect) × (later : List Effect) × (step a d ≡ some (m, e))
      × (run rest m ≡ some (t, later))
      × (es ≡ e ∷ later)
unfolding run
run_cons a rest d t es h = elim (Option-cases (step a d)) [
  | inl stuck ↦ absurd (ground arith)
  | inr ((m, e), first) ↦ elim (Option-cases (run rest m)) [
    | inl stuck ↦ absurd (ground arith)
    | inr ((u, later), others) ↦ (m, e, later, first, ground arith, ground arith)
  ]
]
