-- ===== src/Node/Dispatcher/Single.antt =====
-- dispatcher.go as long as nobody calls `Stop`.
use mathlib.Core.Path.{subst}
use gale_lb.Prelude.{
  ℕ, ◌≡◌, refl, sym, ap, ◌∙◌, Option-cases, All, ◌⊎◌, inl, inr, List, [], ◌∷◌, some, Bool, true,
  false, arith,
}
use gale_lb.Prelude.Equality.{nat_eq, eq_iff, eq_refl}
use gale_lb.Prelude.Map.{lookup, insert, delete}
use gale_lb.Node.Targets.{Target}
use gale_lb.Node.Dispatcher.{
  running, stopped, Phase, created, launching, Dispatcher, new_dispatcher, Effect, Action, begins,
  makes_context, launches, finishes, stops, reads, tests, sends, Launch, client_fails, config_fails,
  configured, launch, step, run, run_cons,
}

-- Either no call of `Start` is under way and the status is stopped, or just one is and it is running.
abbrev pub IsAlone : Dispatcher → Type 0
IsAlone d =
    ((d.status ≡ stopped) × (d.calls ≡ []))
    ⊎ ((d.status ≡ running) × ((c : ℕ) × (p : Phase) × (d.calls ≡ (c, p) ∷ [])))

abbrev pub is_stop : Action → Bool
is_stop stops = true
is_stop _ = false

only_call :
    (c call : ℕ) (p found : Phase)
    → lookup call ((c, p) ∷ []) ≡ some found
    → (c ≡ call) × (p ≡ found)
unfolding lookup
only_call c call p found e = ground (arith, eq_iff c call)

insert_only : (c : ℕ) (p q : Phase) → insert c q ((c, p) ∷ []) ≡ (c, q) ∷ []
unfolding insert
insert_only c p q = ground (arith, eq_refl c)

delete_only : (c : ℕ) (p : Phase) → delete c ((c, p) ∷ []) ≡ []
unfolding delete
delete_only c p = ground (arith, eq_refl c)

-- A call that is found is the only one.
under_way :
    (d : Dispatcher) (call : ℕ) (p : Phase)
    → IsAlone d
    → lookup call d.calls ≡ some p
    → (d.status ≡ running) × (d.calls ≡ (call, p) ∷ [])
unfolding lookup
under_way d call p (inl (e, none_there)) h = absurd (ground (arith, none_there))
under_way d call p (inr (e, (c, q, there))) h =
    let (same, same') = only_call c call q p (ap (lookup call) (sym there) ∙ h) in
    (e, there ∙ (λ i. (same i, same' i) ∷ []))

inserted :
    (d : Dispatcher) (call : ℕ) (p q : Phase)
    → IsAlone d
    → lookup call d.calls ≡ some p
    → (d.status ≡ running) × (insert call q d.calls ≡ (call, q) ∷ [])
inserted d call p q alone h =
    let (e, there) = under_way d call p alone h in
    (e, ap (insert call q) there ∙ insert_only call p q)

left :
    (d : Dispatcher) (call : ℕ) (p : Phase)
    → IsAlone d
    → lookup call d.calls ≡ some p
    → delete call d.calls ≡ []
left d call p alone h = ap (delete call) (under_way d call p alone h).1 ∙ delete_only call p

-- Each action, called with what it found.
begins-IsAlone :
    (d t : Dispatcher) (e : Effect) → IsAlone d → step begins d ≡ some (t, e) → IsAlone t
unfolding step insert
begins-IsAlone d t e (inl (idle, no_calls)) h =
    inr (ground arith, (d.next_id, created, ground arith))
begins-IsAlone d t e (inr (busy, (c, p, there))) h = inr (ground arith, (c, p, ground arith))

makes_context-IsAlone :
    (call : ℕ) (d t : Dispatcher) (e : Effect)
    → IsAlone d
    → step (makes_context call) d ≡ some (t, e)
    → IsAlone t
unfolding step
makes_context-IsAlone call d t e alone h = elim (Option-cases (lookup call d.calls)) [
  | inl missing ↦ absurd (ground arith)
  | inr (launching ts, found) ↦ absurd (ground arith)
  | inr (created, found) ↦
      let (busy, there) = inserted d call created (launching d.targets) alone found in
      inr (ground arith, (call, launching d.targets, ground arith))
]

launch-IsAlone :
    (call : ℕ) (target : Target) (targets : List Target) (r : Launch) (d t : Dispatcher)
    (e : Effect)
    → IsAlone d
    → lookup call d.calls ≡ some (launching (target ∷ targets))
    → launch call target targets r d ≡ (t, e)
    → IsAlone t
unfolding launch
launch-IsAlone call target targets client_fails d t e alone found h =
    let none_left = left d call (launching (target ∷ targets)) alone found in
    inl (ground arith, ground arith)
launch-IsAlone call target targets config_fails d t e alone found h =
    let none_left = left d call (launching (target ∷ targets)) alone found in
    inl (ground arith, ground arith)
launch-IsAlone call target targets (configured timeout) d t e alone found h =
    let (busy, there) =
      inserted d call (launching (target ∷ targets)) (launching targets) alone found in
    inr (ground arith, (call, launching targets, ground arith))

launches-IsAlone :
    (call : ℕ) (r : Launch) (d t : Dispatcher) (e : Effect)
    → IsAlone d
    → step (launches call r) d ≡ some (t, e)
    → IsAlone t
unfolding step
launches-IsAlone call r d t e alone h = elim (Option-cases (lookup call d.calls)) [
  | inl missing ↦ absurd (ground arith)
  | inr (created, found) ↦ absurd (ground arith)
  | inr (launching [], found) ↦ absurd (ground arith)
  | inr (launching (target ∷ targets), found) ↦
      launch-IsAlone call target targets r d t e alone found (ground arith)
]

finishes-IsAlone :
    (call : ℕ) (d t : Dispatcher) (e : Effect)
    → IsAlone d
    → step (finishes call) d ≡ some (t, e)
    → IsAlone t
unfolding step
finishes-IsAlone call d t e alone h = elim (Option-cases (lookup call d.calls)) [
  | inl missing ↦ absurd (ground arith)
  | inr (created, found) ↦ absurd (ground arith)
  | inr (launching (target ∷ targets), found) ↦ absurd (ground arith)
  | inr (launching [], found) ↦
      let none_left = left d call (launching []) alone found in inl (ground arith, ground arith)
]

-- The steps of a health loop leave status and calls alone.
abbrev Same : Dispatcher → Dispatcher → Type 0
Same d t = (t.status ≡ d.status) × (t.calls ≡ d.calls)

Same-IsAlone : (d t : Dispatcher) → Same d t → IsAlone d → IsAlone t
Same-IsAlone d t (same, same') (inl (idle, no_calls)) = inl (same ∙ idle, same' ∙ no_calls)
Same-IsAlone d t (same, same') (inr (busy, (c, p, there))) =
    inr (same ∙ busy, (c, p, same' ∙ there))

reads-Same : (i : ℕ) (d t : Dispatcher) (e : Effect) → step (reads i) d ≡ some (t, e) → Same d t
unfolding step
reads-Same i d t e h = ground arith

tests-Same : (i : ℕ) (d t : Dispatcher) (e : Effect) → step (tests i) d ≡ some (t, e) → Same d t
unfolding step
tests-Same i d t e h = ground arith

sends-Same : (i : ℕ) (d t : Dispatcher) (e : Effect) → step (sends i) d ≡ some (t, e) → Same d t
unfolding step
sends-Same i d t e h = ground arith

step-IsAlone :
    (a : Action) (d t : Dispatcher) (e : Effect)
    → is_stop a ≡ false
    → IsAlone d
    → step a d ≡ some (t, e)
    → IsAlone t
step-IsAlone stops d t e n alone h = absurd (cc)
step-IsAlone begins d t e n alone h = begins-IsAlone d t e alone h
step-IsAlone (makes_context call) d t e n alone h = makes_context-IsAlone call d t e alone h
step-IsAlone (launches call r) d t e n alone h = launches-IsAlone call r d t e alone h
step-IsAlone (finishes call) d t e n alone h = finishes-IsAlone call d t e alone h
step-IsAlone (reads i) d t e n alone h = Same-IsAlone d t (reads-Same i d t e h) alone
step-IsAlone (tests i) d t e n alone h = Same-IsAlone d t (tests-Same i d t e h) alone
step-IsAlone (sends i) d t e n alone h = Same-IsAlone d t (sends-Same i d t e h) alone

pub new_dispatcher-IsAlone : (targets : List Target) → IsAlone (new_dispatcher targets)
unfolding new_dispatcher
new_dispatcher-IsAlone targets = inl (refl, refl)

-- If at most one call of `Start` is under way and the status is running exactly while one is, that
-- stays so as long as `Stop` is not called.
pub run-IsAlone :
    (actions : List Action) (d t : Dispatcher) (es : List Effect)
    → All (λ a. is_stop a ≡ false) actions
    → IsAlone d
    → run actions d ≡ some (t, es)
    → IsAlone t
unfolding run
run-IsAlone [] d t es n alone h = let done : d ≡ t = ground arith in subst IsAlone done alone
run-IsAlone (a ∷ rest) d t es (n, ns) alone h =
    let (m, e, later, first, others, _) = run_cons a rest d t es h in
    run-IsAlone rest m t later ns (step-IsAlone a d m e n alone first) others
