-- ===== src/Node/Dispatcher/Session.antt =====
-- dispatcher.go from a first call of `Start` to its return.
use gale_lb.Prelude.{
  IsUnique, ℕ, ◌+◌, ◌<◌, ◌≡◌, refl, sym, ap, ◌∙◌, List, [], ◌∷◌, ◌++◌, map, some, true, false,
  arith, All,
}
use mathlib.Core.List.{append-nil, append_assoc}
use gale_lb.Prelude.Int.{ℤ}
use gale_lb.Prelude.Equality.{nat_eq}
use gale_lb.Prelude.Map.{Map, keys, lookup, insert, delete}
use gale_lb.Node.Targets.{Target}
use gale_lb.Node.Dispatcher.{
  running, stopped, Loop, launching, Dispatcher, new_dispatcher, health_period, Effect, silent,
  start_returned, stop_returned, Action, begins, makes_context, launches, finishes, stops, head,
  configured, launch, step, run, run_cons, has_loop, leave, make_context, start,
}
use gale_lb.Node.Dispatcher.Drain.{AtHead, last_rounds, last_effects, run-stops_drain}
use gale_lb.Node.Dispatcher.Names.{
  IsFresh, targets_of, insert_new, append-All, append-IsUnique, targets_of-append,
}

run-first :
    (a : Action) (rest : List Action) (d m t : Dispatcher) (e : Effect) (es : List Effect)
    → step a d ≡ some (m, e)
    → run rest m ≡ some (t, es)
    → run (a ∷ rest) d ≡ some (t, e ∷ es)
unfolding run
run-first a rest d m t e es h g = rw (run, h, g) refl

append-AtHead :
    (n : ℕ) (l : Loop) (m : Map ℕ Loop) → l.at ≡ head → AtHead m → AtHead (m ++ (n, l) ∷ [])
append-AtHead n l [] new h = (new, tt)
append-AtHead n l ((i, k) ∷ m) new (here, h) = (here, append-AtHead n l m new h)

module _ (timeout : Target → ℤ) where
  abbrev pub launch_each : List Target → List Action
  launch_each targets = map (λ t. launches 0 (configured (timeout t))) targets

  abbrev pub launched : Target → List Target → Dispatcher → Dispatcher
  launched target rest d = record d {
    loops =
        d.loops
        ++ (
          d.next_id,
          record {
            owner = 0;
            target = target;
            timeout = timeout target;
            period = health_period (timeout target);
            at = head;
          },
        )
          ∷ [];
    calls = (0, launching rest) ∷ [];
    next_id = d.next_id + 1;
  }

  step-launched :
      (target : Target) (rest : List Target) (d : Dispatcher)
      → d.calls ≡ (0, launching (target ∷ rest)) ∷ []
      → All (λ k. k < d.next_id) (keys d.loops)
      → step (launches 0 (configured (timeout target))) d ≡ some (launched target rest d, silent)
  unfolding step launch lookup insert
  step-launched target rest d e h = rw (e, insert_new d.next_id _ d.loops h) refl

  -- Where the launches for the targets lead.
  abbrev pub Launched : List Target → Dispatcher → Dispatcher → Type 0
  Launched ts d m =
      (run (launch_each ts) d ≡ some (m, map (λ _. silent) ts))
      × (m.status ≡ d.status)
      × (m.general_ctx ≡ d.general_ctx)
      × (m.calls ≡ (0, launching []) ∷ [])
      × IsUnique (keys m.loops)
      × (targets_of m.loops ≡ targets_of d.loops ++ ts)
      × AtHead m.loops

  run-Launched :
      (ts : List Target) (d : Dispatcher)
      → d.calls ≡ (0, launching ts) ∷ []
      → IsFresh d.next_id d.loops
      → AtHead d.loops
      → (m : Dispatcher) × Launched ts d m
  unfolding run
  run-Launched [] d e (u, h) here =
      (d, (refl, refl, refl, e, u, sym (append-nil (targets_of d.loops)), here))
  run-Launched (t ∷ ts) d e (u, h) here =
      let (m, (ran, status, ctx, calls, u', found, here')) =
        run-Launched ts (launched t ts d) refl
          (append-IsUnique d.next_id _ d.loops u h, append-All d.next_id _ d.loops h)
          (append-AtHead d.next_id _ d.loops refl here) in
      (
        m,
        (
          run-first (launches 0 (configured (timeout t))) (launch_each ts) d (launched t ts d) m
              silent (map (λ _. silent) ts) (step-launched t ts d e h) ran,
          status,
          ctx,
          calls,
          u',
          found
              ∙ ap (λ x. x ++ ts) (targets_of-append d.next_id _ d.loops)
              ∙ append_assoc (targets_of d.loops) (t ∷ []) ts,
          here',
        ),
      )

pub run-append :
    (xs ys : List Action) (d m t : Dispatcher) (es fs : List Effect)
    → run xs d ≡ some (m, es)
    → run ys m ≡ some (t, fs)
    → run (xs ++ ys) d ≡ some (t, es ++ fs)
unfolding run
run-append [] ys d m t es fs h g = ground (arith, h, g)
run-append (a ∷ xs) ys d m t es fs h g =
    let (u, e, later, first, others, split) = run_cons a xs d m es h in
    run-first a (xs ++ ys) d u t e (later ++ fs) first (run-append xs ys u m t later fs others g)
    ∙ ap (λ x. some (t, x ++ fs)) (sym split)

step-finishes :
    (d : Dispatcher)
    → d.calls ≡ (0, launching []) ∷ []
    → d.loops ≡ []
    → step (finishes 0) d ≡ some (leave 0 d, start_returned)
unfolding step lookup has_loop
step-finishes d e none_left = rw (e, none_left) refl

abbrev pub under_way : List Target → Dispatcher
under_way targets = record (new_dispatcher targets) {
  status = running;
  general_ctx = some 1;
  contexts = (1, false) ∷ [];
  calls = (0, launching targets) ∷ [];
  next_id = 2;
}

-- `Stop`, then a round of each loop, then the end of `Start`.
abbrev pub shut_down : Dispatcher → List Action
shut_down m = (stops ∷ last_rounds (keys m.loops)) ++ finishes 0 ∷ []

abbrev pub shut_down_effects : Dispatcher → List Effect
shut_down_effects m = (stop_returned ∷ last_effects (keys m.loops)) ++ start_returned ∷ []

shuts_down :
    (m : Dispatcher)
    → m.status ≡ running
    → m.general_ctx ≡ some 1
    → m.calls ≡ (0, launching []) ∷ []
    → IsUnique (keys m.loops)
    → AtHead m.loops
    → (t : Dispatcher) × (run (shut_down m) m ≡ some (t, shut_down_effects m))
      × (t.status ≡ stopped)
      × (t.calls ≡ [])
      × (t.loops ≡ [])
unfolding run leave delete
shuts_down m busy held calls u here =
    let halted = record m { status = stopped; contexts = insert 1 true m.contexts; loops = [] } in
    (
      leave 0 halted,
      run-append (stops ∷ last_rounds (keys m.loops)) (finishes 0 ∷ []) m halted (leave 0 halted)
          (stop_returned ∷ last_effects (keys m.loops)) (start_returned ∷ [])
          (run-stops_drain m 1 busy held u here)
          (run-first (finishes 0) [] halted (leave 0 halted) (leave 0 halted) start_returned []
            (step-finishes halted calls refl) refl),
      refl,
      ap (delete 0) calls,
      refl,
    )

-- A new dispatcher whose load balancers all answer, with whatever timeouts: a first call of `Start`
-- launches one health loop for each target, in their order; `Stop` and one round of each loop behind
-- it let the call of `Start` return, and leave the dispatcher stopped, without calls and without loops.
pub run-session_returns :
    (timeout : Target → ℤ) (targets : List Target)
    → (m : Dispatcher) × (run
          (begins ∷ makes_context 0 ∷ launch_each timeout targets)
          (new_dispatcher targets)
        ≡ some (m, silent ∷ silent ∷ map (λ _. silent) targets))
      × (targets_of m.loops ≡ targets)
      × ((t : Dispatcher) × (run (shut_down m) m ≡ some (t, shut_down_effects m))
          × (t.status ≡ stopped)
          × (t.calls ≡ [])
          × (t.loops ≡ []))
unfolding run step start make_context new_dispatcher lookup insert keys
run-session_returns timeout targets =
    let (m, (ran, status, ctx, calls, u, found, here)) =
      run-Launched timeout targets (under_way targets) refl (tt, tt) tt in
    (m, rw (run, ran) refl, found, shuts_down m status ctx calls u here)
