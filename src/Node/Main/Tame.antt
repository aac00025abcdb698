-- ===== src/Node/Main/Tame.antt =====
-- What other goroutines can do to a dispatcher that belongs to one call of `Start`.
use gale_lb.Prelude.{
  ℕ, ◌≡◌, refl, ap, ◌∙◌, ◌⊎◌, inl, inr, List, [], ◌∷◌, some, Bool, true, false, arith, Option-cases,
  Bool-cases,
}
use gale_lb.Prelude.Equality.{nat_eq, ◌==◌}
use gale_lb.Prelude.Map.{lookup, insert, lookup-insert}
use gale_lb.Node.Targets.{Target}
use gale_lb.Node.Dispatcher.{
  stopped, Phase, created, launching, Dispatcher, Effect, Action, begins, makes_context, launches,
  finishes, stops, reads, tests, sends, Launch, client_fails, config_fails, configured, stop,
  launch, leave, make_context, step,
}
use gale_lb.Node.Main.{Move, others}

-- The API has not begun a call of `Start`.
abbrev pub is_start : Move → Bool
is_start (others begins) = true
is_start _ = false

abbrev pub IsHeld : ℕ → Dispatcher → Type 0
IsHeld call d = (p : Phase) × (lookup call d.calls ≡ some p)

-- A dispatcher that runs belongs to the call.
abbrev pub IsOwned : ℕ → Dispatcher → Type 0
IsOwned call d = (d.status ≡ stopped) ⊎ IsHeld call d

held_insert :
    (call other : ℕ) (q : Phase) (d : Dispatcher)
    → IsHeld call d
    → (p : Phase) × (lookup call (insert other q d.calls) ≡ some p)
held_insert call other q d (p, e) = elim (Bool-cases (other == call)) [
  | inl same ↦ (q, rw (lookup-insert other call q d.calls, same) refl)
  | inr apart ↦ (p, rw (lookup-insert other call q d.calls, apart) e)
]

-- What any action but a new call of `Start` can do to status and calls.
abbrev pub IsTame : Dispatcher → Dispatcher → Type 0
IsTame d t =
    (t.status ≡ stopped)
    ⊎ ((t.status ≡ d.status)
        × ((t.calls ≡ d.calls) ⊎ ((other : ℕ) × (q : Phase) × (t.calls ≡ insert other q d.calls))))

launch-IsTame :
    (call : ℕ) (target : Target) (rest : List Target) (r : Launch) (d t : Dispatcher) (e : Effect)
    → launch call target rest r d ≡ (t, e)
    → IsTame d t
unfolding launch leave
launch-IsTame call target rest client_fails d t e h = inl (ground arith)
launch-IsTame call target rest config_fails d t e h = inl (ground arith)
launch-IsTame call target rest (configured timeout) d t e h =
    inr (ground arith, inr (call, launching rest, ground arith))

pub step-IsTame :
    (a : Action) (d t : Dispatcher) (e : Effect)
    → is_start (others a) ≡ false
    → step a d ≡ some (t, e)
    → IsTame d t
unfolding step make_context leave stop
step-IsTame begins d t e n h = absurd (cc)
step-IsTame (makes_context call) d t e n h = elim (Option-cases (lookup call d.calls)) [
  | inl missing ↦ absurd (ground arith)
  | inr (launching ts, found) ↦ absurd (ground arith)
  | inr (created, found) ↦ inr (ground arith, inr (call, launching d.targets, ground arith))
]
step-IsTame (launches call r) d t e n h = elim (Option-cases (lookup call d.calls)) [
  | inl missing ↦ absurd (ground arith)
  | inr (created, found) ↦ absurd (ground arith)
  | inr (launching [], found) ↦ absurd (ground arith)
  | inr (launching (target ∷ targets), found) ↦
      launch-IsTame call target targets r d t e (ground arith)
]
step-IsTame (finishes call) d t e n h = elim (Option-cases (lookup call d.calls)) [
  | inl missing ↦ absurd (ground arith)
  | inr (created, found) ↦ absurd (ground arith)
  | inr (launching (target ∷ targets), found) ↦ absurd (ground arith)
  | inr (launching [], found) ↦ inl (ground arith)
]
step-IsTame stops d t e n h = elim (Option-cases d.general_ctx) [
  | inl missing ↦ inr (ground arith, inl (ground arith))
  | inr (ctx, made) ↦ inl (ground arith)
]
step-IsTame (reads i) d t e n h = inr (ground arith, inl (ground arith))
step-IsTame (tests i) d t e n h = inr (ground arith, inl (ground arith))
step-IsTame (sends i) d t e n h = inr (ground arith, inl (ground arith))

pub tame_stopped : (d t : Dispatcher) → IsTame d t → d.status ≡ stopped → t.status ≡ stopped
tame_stopped d t (inl e) s = e
tame_stopped d t (inr (e, calls)) s = e ∙ s

pub tame-IsOwned : (call : ℕ) (d t : Dispatcher) → IsTame d t → IsOwned call d → IsOwned call t
tame-IsOwned call d t (inl e) o = inl e
tame-IsOwned call d t (inr (e, calls)) (inl s) = inl (e ∙ s)
tame-IsOwned call d t (inr (e, inl same)) (inr held) = inr (held.0, ap (lookup call) same ∙ held.1)
tame-IsOwned call d t (inr (e, inr (other, q, there))) (inr held) =
    let (p, found) = held_insert call other q d held in inr (p, ap (lookup call) there ∙ found)
