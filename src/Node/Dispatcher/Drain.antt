-- ===== src/Node/Dispatcher/Drain.antt =====
-- One more round of each health loop of dispatcher.go behind a call of `Stop`.
use gale_lb.Prelude.{ℕ, ◌≡◌, refl, ap, ◌∙◌, List, [], ◌∷◌, some, true, arith, Occurs, IsUnique}
use gale_lb.Prelude.Equality.{nat_eq, eq_iff, eq_refl}
use gale_lb.Prelude.Map.{Map, keys, lookup, insert, delete, lookup-insert}
use gale_lb.Node.Dispatcher.{
  running, stopped, Loop, head, testing, Dispatcher, Effect, silent, stop_returned, loop_returned,
  Action, stops, reads, tests, is_canceled, read_context, test_context, step, run,
}
use gale_lb.Node.Dispatcher.Quiet.{stop_now}

-- One more round of each loop: it reads its context, finds it canceled, and returns.
abbrev pub last_rounds : List ℕ → List Action
last_rounds [] = []
last_rounds (i ∷ is) = reads i ∷ tests i ∷ last_rounds is

abbrev pub last_effects : List ℕ → List Effect
last_effects [] = []
last_effects (i ∷ is) = silent ∷ loop_returned ∷ last_effects is

-- Each loop stands at the head of a round.
abbrev pub AtHead : Map ℕ Loop → Type 0
AtHead [] = Unit {0}
AtHead ((i, l) ∷ loops) = (l.at ≡ head) × AtHead loops

delete_absent : (i : ℕ) (m : Map ℕ Loop) → ¬ Occurs i (keys m) → delete i m ≡ m
unfolding delete keys
delete_absent i [] n = refl
delete_absent i ((j, l) ∷ m) n = ground (arith, delete_absent i m, eq_iff j i)

abbrev looked : ℕ → ℕ → Loop → Map ℕ Loop → Dispatcher → Dispatcher
looked ctx i l loops d = record d { loops = (i, record l { at = testing ctx }) ∷ loops }

first_found : (i : ℕ) (l : Loop) (loops : Map ℕ Loop) → lookup i ((i, l) ∷ loops) ≡ some l
unfolding lookup
first_found i l loops = ground (arith, eq_refl i)

first_replaced :
    (i : ℕ) (l k : Loop) (loops : Map ℕ Loop) → insert i k ((i, l) ∷ loops) ≡ (i, k) ∷ loops
unfolding insert
first_replaced i l k loops = ground (arith, eq_refl i)

first_gone :
    (i : ℕ) (l : Loop) (loops : Map ℕ Loop)
    → ¬ Occurs i (keys loops)
    → delete i ((i, l) ∷ loops) ≡ loops
unfolding delete
first_gone i l loops new = ground (arith, eq_refl i, delete_absent i loops new)

reads_first :
    (ctx i : ℕ) (l : Loop) (loops : Map ℕ Loop) (d : Dispatcher)
    → d.general_ctx ≡ some ctx
    → d.loops ≡ (i, l) ∷ loops
    → l.at ≡ head
    → step (reads i) d ≡ some (looked ctx i l loops d, silent)
unfolding step read_context
reads_first ctx i l loops d held e here =
    let found : lookup i d.loops ≡ some l = ap (lookup i) e ∙ first_found i l loops in
    let placed : insert i (record l { at = testing ctx }) d.loops
        ≡ (i, record l { at = testing ctx }) ∷ loops =
      ap (insert i (record l { at = testing ctx })) e
      ∙ first_replaced i l (record l { at = testing ctx }) loops in
    ground (arith, found, placed, held, here)

tests_first :
    (ctx i : ℕ) (l : Loop) (loops : Map ℕ Loop) (d : Dispatcher)
    → is_canceled d.contexts ctx ≡ true
    → ¬ Occurs i (keys loops)
    → step (tests i) (looked ctx i l loops d) ≡ some (record d { loops = loops }, loop_returned)
unfolding step test_context
tests_first ctx i l loops d over new =
    let found = first_found i (record l { at = testing ctx }) loops in
    let gone = first_gone i (record l { at = testing ctx }) loops new in
    ground (arith, found, gone, over)

drain :
    (ctx : ℕ) (loops : Map ℕ Loop) (d : Dispatcher)
    → d.general_ctx ≡ some ctx
    → d.loops ≡ loops
    → is_canceled d.contexts ctx ≡ true
    → IsUnique (keys loops)
    → AtHead loops
    → run (last_rounds (keys loops)) d ≡ some (record d { loops = [] }, last_effects (keys loops))
unfolding run keys
drain ctx [] d held e over u here = ap (λ x. some (record d { loops = x }, [])) e
drain ctx ((i, l) ∷ loops) d held e over (new, u) (here, rest) =
    rw
      (
        run,
        reads_first ctx i l loops d held e here,
        tests_first ctx i l loops d over new,
        drain ctx loops (record d { loops = loops }) held refl over u rest,
      )
      refl

-- If the dispatcher runs, has a context and names each health loop once, and each stands at the head of a
-- round, `Stop` succeeds, and one round of each loop behind it ends them all.
pub run-stops_drain :
    (d : Dispatcher) (ctx : ℕ)
    → d.status ≡ running
    → d.general_ctx ≡ some ctx
    → IsUnique (keys d.loops)
    → AtHead d.loops
    → run (stops ∷ last_rounds (keys d.loops)) d
      ≡ some (
        record d { status = stopped; contexts = insert ctx true d.contexts; loops = [] },
        stop_returned ∷ last_effects (keys d.loops),
      )
unfolding run step is_canceled
run-stops_drain d ctx busy held u here =
    let halted = record d { status = stopped; contexts = insert ctx true d.contexts } in
    rw (run, step, stop_now d ctx busy held, drain ctx d.loops halted held refl over u here)
      (rw (stop_now d ctx busy held) refl)
  where
    over : is_canceled (insert ctx true d.contexts) ctx ≡ true
    over = ground (arith, lookup-insert ctx ctx true d.contexts, eq_refl ctx)
