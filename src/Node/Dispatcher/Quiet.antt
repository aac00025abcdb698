-- ===== src/Node/Dispatcher/Quiet.antt =====
-- dispatcher.go from a call of `Stop` on: how much is still reported.
use gale_lb.Prelude.{
  ℕ, ◌+◌, ◌≤◌, ◌≡◌, refl, sym, ap, ◌∙◌, inl, inr, List, [], ◌∷◌, none, some, Bool, true, false,
  arith, All, Option-cases, Bool-cases,
}
use mathlib.Core.Path.{subst}
use gale_lb.Prelude.Equality.{nat_eq, eq_refl}
use gale_lb.Prelude.Map.{lookup, insert, lookup-insert}
use gale_lb.Node.Targets.{Target}
use gale_lb.Node.Dispatcher.{
  running, stopped, Loop, At, head, testing, sending, created, launching, Dispatcher, Effect,
  stop_returned, reported, Action, begins, makes_context, launches, finishes, stops, reads, tests,
  sends, Launch, client_fails, config_fails, configured, leave, launch, stop, is_canceled,
  read_context, test_context, send_report, health_period, step, run, run_cons,
}
use gale_lb.Node.Dispatcher.Due.{
  rounds_begun, total, total-insert, total-insert_le, total-delete_le, total-cancel,
  total-rounds_begun,
}

abbrev pub is_new_context : Action → Bool
is_new_context (makes_context call) = true
is_new_context _ = false

-- How many health checks are reported.
abbrev pub reports_in : Effect → ℕ
reports_in (reported target) = 1
reports_in _ = 0

abbrev pub reports : List Effect → ℕ
reports [] = 0
reports (e ∷ es) = reports_in e + reports es

-- Is the context that the field holds canceled?
unfoldable pub is_done : Dispatcher → Bool
is_done d = elim d.general_ctx [ none ↦ false | some ctx ↦ is_canceled d.contexts ctx ]

-- A canceled context stays canceled, and every report was due.
abbrev Calm : Dispatcher → Dispatcher → Effect → Type 0
Calm d t e =
    (is_done t ≡ true) × (reports_in e + total t.contexts t.loops ≤ total d.contexts d.loops)

launch-Calm :
    (call : ℕ) (target : Target) (targets : List Target) (r : Launch) (d t : Dispatcher)
    (e : Effect)
    → is_done d ≡ true
    → launch call target targets r d ≡ (t, e)
    → Calm d t e
unfolding launch leave is_done
launch-Calm call target targets client_fails d t e over h = ground arith
launch-Calm call target targets config_fails d t e over h = ground arith
launch-Calm call target targets (configured timeout) d t e over h = ground (
  arith,
  total-insert_le d.contexts d.next_id
      (record {
        owner = call;
        target = target;
        timeout = timeout;
        period = health_period timeout;
        at = head;
      })
      d.loops,
)

pub canceled :
    (d : Dispatcher) (ctx : ℕ)
    → d.general_ctx ≡ some ctx
    → is_done (record d { status = stopped; contexts = insert ctx true d.contexts }) ≡ true
unfolding is_done is_canceled
canceled d ctx e = ground (arith, lookup-insert ctx ctx true d.contexts, eq_refl ctx)

reads-Calm :
    (i : ℕ) (l : Loop) (d t : Dispatcher) (e : Effect)
    → is_done d ≡ true
    → lookup i d.loops ≡ some l
    → l.at ≡ head
    → read_context i l d ≡ (t, e)
    → Calm d t e
unfolding read_context is_done
reads-Calm i l d t e over found here h = elim (Option-cases d.general_ctx) [
  | inl missing ↦ absurd (ground arith)
  | inr (ctx, held) ↦
      let moved = total-insert d.contexts i l (record l { at = testing ctx }) d.loops found in
      (ground arith, ground arith)
]

tests-Calm :
    (i ctx : ℕ) (l : Loop) (d t : Dispatcher) (e : Effect)
    → is_done d ≡ true
    → lookup i d.loops ≡ some l
    → l.at ≡ testing ctx
    → test_context ctx i l d ≡ (t, e)
    → Calm d t e
unfolding test_context is_done
tests-Calm i ctx l d t e over found here h = elim (Bool-cases (is_canceled d.contexts ctx)) [
  | inl gone ↦ let fewer = total-delete_le d.contexts i d.loops in (ground arith, ground arith)
  | inr goes_on ↦
      let moved = total-insert d.contexts i l (record l { at = sending }) d.loops found in
      (ground arith, ground arith)
]

sends-Calm :
    (i : ℕ) (l : Loop) (d t : Dispatcher) (e : Effect)
    → is_done d ≡ true
    → lookup i d.loops ≡ some l
    → l.at ≡ sending
    → send_report i l d ≡ (t, e)
    → Calm d t e
unfolding send_report is_done
sends-Calm i l d t e over found here h =
    let moved = total-insert d.contexts i l (record l { at = head }) d.loops found in
    (ground arith, ground arith)

step-Calm :
    (a : Action) (d t : Dispatcher) (e : Effect)
    → is_new_context a ≡ false
    → is_done d ≡ true
    → step a d ≡ some (t, e)
    → Calm d t e
unfolding step is_done
step-Calm (makes_context call) d t e n over h = absurd (cc)
step-Calm begins d t e n over h = ground arith
step-Calm (launches call r) d t e n over h = elim (Option-cases (lookup call d.calls)) [
  | inl missing ↦ absurd (ground arith)
  | inr (created, found) ↦ absurd (ground arith)
  | inr (launching [], found) ↦ absurd (ground arith)
  | inr (launching (target ∷ targets), found) ↦
      launch-Calm call target targets r d t e over (ground arith)
]
step-Calm (finishes call) d t e n over h = ground arith
step-Calm stops d t e n over h = elim (Option-cases d.general_ctx) [
  | inl missing ↦ absurd (ground arith)
  | inr (ctx, held) ↦ ground (arith, canceled d ctx held, total-cancel d.contexts ctx d.loops)
]
step-Calm (reads i) d t e n over h = elim (Option-cases (lookup i d.loops)) [
  | inl missing ↦ absurd (ground arith)
  | inr (l, found) ↦ by_place l found l.at refl
]
  where
    by_place : (l : Loop) → lookup i d.loops ≡ some l → (a : At) → l.at ≡ a → Calm d t e
    by_place l found head here = reads-Calm i l d t e over found here (ground arith)
    by_place l found (testing ctx) here = absurd (ground arith)
    by_place l found sending here = absurd (ground arith)
step-Calm (tests i) d t e n over h = elim (Option-cases (lookup i d.loops)) [
  | inl missing ↦ absurd (ground arith)
  | inr (l, found) ↦ by_place l found l.at refl
]
  where
    by_place : (l : Loop) → lookup i d.loops ≡ some l → (a : At) → l.at ≡ a → Calm d t e
    by_place l found head here = absurd (ground arith)
    by_place l found (testing ctx) here = tests-Calm i ctx l d t e over found here (ground arith)
    by_place l found sending here = absurd (ground arith)
step-Calm (sends i) d t e n over h = elim (Option-cases (lookup i d.loops)) [
  | inl missing ↦ absurd (ground arith)
  | inr (l, found) ↦ by_place l found l.at refl
]
  where
    by_place : (l : Loop) → lookup i d.loops ≡ some l → (a : At) → l.at ≡ a → Calm d t e
    by_place l found head here = absurd (ground arith)
    by_place l found (testing ctx) here = absurd (ground arith)
    by_place l found sending here = sends-Calm i l d t e over found here (ground arith)

run-reports :
    (actions : List Action) (d t : Dispatcher) (es : List Effect)
    → All (λ a. is_new_context a ≡ false) actions
    → is_done d ≡ true
    → run actions d ≡ some (t, es)
    → reports es ≤ total d.contexts d.loops
unfolding run
run-reports [] d t es n over h =
    let nothing : [] ≡ es = ground arith in
    subst (λ x. reports x ≤ total d.contexts d.loops) nothing (omega arith)
run-reports (a ∷ rest) d t es (n, ns) over h =
    let (m, e, later, first, others, split) = run_cons a rest d t es h in
    let (over', fewer) = step-Calm a d m e n over first in
    subst (λ x. reports x ≤ total d.contexts d.loops) (sym split)
      (omega (arith, fewer, run-reports rest m t later ns over' others))

pub stop_now :
    (d : Dispatcher) (ctx : ℕ)
    → d.status ≡ running
    → d.general_ctx ≡ some ctx
    → stop d ≡ (record d { status = stopped; contexts = insert ctx true d.contexts }, stop_returned)
unfolding stop
stop_now d ctx busy held = ground arith

-- If the dispatcher runs and has a context, `Stop` succeeds; and until a call of `Start` makes a new
-- context, whatever else happens, at most as many health checks are reported behind it as there are loops
-- that had begun a round, by reading their context, before it.
pub run-stops_reports :
    (actions : List Action) (d t : Dispatcher) (es : List Effect) (ctx : ℕ)
    → d.status ≡ running
    → d.general_ctx ≡ some ctx
    → All (λ a. is_new_context a ≡ false) actions
    → run (stops ∷ actions) d ≡ some (t, es)
    → (later : List Effect) × (es ≡ stop_returned ∷ later) × (reports later ≤ rounds_begun d.loops)
unfolding step
run-stops_reports actions d t es ctx busy held n h =
    let (m, e, later, first, others, split) = run_cons stops actions d t es h in
    let now = stop_now d ctx busy held in
    let halted : record d { status = stopped; contexts = insert ctx true d.contexts } ≡ m =
      ground arith in
    let returned : e ≡ stop_returned = ground arith in
    (later, split ∙ ap (λ x. x ∷ later) returned, bound m later others halted)
  where
    bound :
        (m : Dispatcher) (later : List Effect)
        → run actions m ≡ some (t, later)
        → record d { status = stopped; contexts = insert ctx true d.contexts } ≡ m
        → reports later ≤ rounds_begun d.loops
    bound m later ran halted = omega (
      arith,
      run-reports actions m t later n (ap is_done (sym halted) ∙ canceled d ctx held) ran,
      ap (λ (x : Dispatcher). total x.contexts x.loops) halted,
      total-rounds_begun (insert ctx true d.contexts) d.loops,
    )
