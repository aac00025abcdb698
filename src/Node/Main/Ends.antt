-- ===== src/Node/Main/Ends.antt =====
-- How cmd/node ends.
use mathlib.Core.Path.{subst}
use gale_lb.Prelude.{
  ℕ, ◌≡◌, refl, inl, inr, All, List, [], ◌∷◌, none, some, false, arith, Option-cases, Result-cases,
  ◌+◌,
}
use gale_lb.Prelude.Equality.{nat_eq, eq_refl}
use gale_lb.Prelude.Map.{lookup, insert, lookup-insert}
use gale_lb.Util.Dns.{Resolver}
use gale_lb.Node.Targets.{retrieve_ip_and_ports}
use gale_lb.Node.Dispatcher.{
  running, stopped, created, Dispatcher, new_dispatcher, Effect, stop_refused, stop_returned,
  Action, start, stop, step,
}
use gale_lb.Node.Main.{
  process, At, starting, stopping, waiting, over, Process, Move, main_starts, main_wakes,
  main_stops, others, start_main, stop_main, move, run, targets_of, Execution, execute, begin,
}
use gale_lb.Node.Main.Tame.{is_start, IsOwned, IsTame, step-IsTame, tame_stopped, tame-IsOwned}

-- What holds of the dispatcher wherever `main` is.
abbrev pub IsFine : At → Dispatcher → Type 0
IsFine starting d = d.status ≡ stopped
IsFine (waiting call) d = IsOwned call d
IsFine stopping d = d.status ≡ stopped
IsFine (over e) d = e ≡ stop_refused

others-IsFine : (at : At) (d t : Dispatcher) → IsTame d t → IsFine at d → IsFine at t
others-IsFine starting d t tame f = tame_stopped d t tame f
others-IsFine (waiting call) d t tame f = tame-IsOwned call d t tame f
others-IsFine stopping d t tame f = tame_stopped d t tame f
others-IsFine (over e) d t tame f = f

abbrev pub IsSound : Process → Type 0
IsSound p = IsFine p.at p.dispatcher

starts-IsSound :
    (d : Dispatcher) (q : Process)
    → d.status ≡ stopped
    → move main_starts (process d starting) ≡ some q
    → IsSound q
unfolding move start_main start
starts-IsSound d q f h = subst IsSound begun (inr (created, own))
  where
    own : lookup d.next_id (insert d.next_id created d.calls) ≡ some created
    own = rw (lookup-insert d.next_id d.next_id created d.calls, eq_refl d.next_id) refl

    begun :
        process
          (record d {
            status = running;
            calls = insert d.next_id created d.calls;
            next_id = d.next_id + 1;
          })
          (waiting d.next_id)
        ≡ q
    begun = ground (arith, f, h)

wakes-IsSound :
    (call : ℕ) (d : Dispatcher) (q : Process)
    → IsOwned call d
    → move main_wakes (process d (waiting call)) ≡ some q
    → IsSound q
unfolding move
wakes-IsSound call d q (inr (p, held)) h = absurd (ground arith)
wakes-IsSound call d q (inl idle) h = elim (Option-cases (lookup call d.calls)) [
  | inr (p, held) ↦ absurd (ground arith)
  | inl gone ↦ let awake : process d stopping ≡ q = ground arith in subst IsSound awake idle
]

stops-IsSound :
    (d : Dispatcher) (q : Process)
    → d.status ≡ stopped
    → move main_stops (process d stopping) ≡ some q
    → IsSound q
unfolding move stop_main stop
stops-IsSound d q f h =
    let refused : process d (over stop_refused) ≡ q = ground (arith, f, h) in
    subst IsSound refused refl

acts-IsSound :
    (a : Action) (d : Dispatcher) (at : At) (q : Process)
    → is_start (others a) ≡ false
    → IsFine at d
    → elim (step a d) [ none ↦ none | some (t, e) ↦ some (process t at) ] ≡ some q
    → IsSound q
acts-IsSound a d at q n f h = elim (Option-cases (step a d)) [
  | inl stuck ↦ absurd (ground arith)
  | inr ((t, e), done) ↦
      let reached : process t at ≡ q = ground arith in
      subst IsSound reached (others-IsFine at d t (step-IsTame a d t e n done) f)
]

-- A move of a process that is given by its fields.
fields-IsSound :
    (m : Move) (d : Dispatcher) (at : At) (q : Process)
    → is_start m ≡ false
    → IsFine at d
    → move m (process d at) ≡ some q
    → IsSound q
unfolding move
fields-IsSound main_starts d starting q n f h = starts-IsSound d q f h
fields-IsSound main_starts d (waiting call) q n f h = absurd (cc)
fields-IsSound main_starts d stopping q n f h = absurd (cc)
fields-IsSound main_starts d (over e) q n f h = absurd (cc)
fields-IsSound main_wakes d starting q n f h = absurd (cc)
fields-IsSound main_wakes d (waiting call) q n f h = wakes-IsSound call d q f h
fields-IsSound main_wakes d stopping q n f h = absurd (cc)
fields-IsSound main_wakes d (over e) q n f h = absurd (cc)
fields-IsSound main_stops d starting q n f h = absurd (cc)
fields-IsSound main_stops d (waiting call) q n f h = absurd (cc)
fields-IsSound main_stops d stopping q n f h = stops-IsSound d q f h
fields-IsSound main_stops d (over e) q n f h = absurd (cc)
fields-IsSound (others a) d (over e) q n f h = absurd (cc)
fields-IsSound (others a) d starting q n f h = acts-IsSound a d starting q n f h
fields-IsSound (others a) d (waiting call) q n f h = acts-IsSound a d (waiting call) q n f h
fields-IsSound (others a) d stopping q n f h = acts-IsSound a d stopping q n f h

run-IsSound :
    (moves : List Move) (p q : Process)
    → All (λ m. is_start m ≡ false) moves
    → IsSound p
    → run moves p ≡ some q
    → IsSound q
unfolding run
run-IsSound [] p q n f h = let same : p ≡ q = cc in subst IsSound same f
run-IsSound (m ∷ rest) p q (n, others_too) f h = elim (Option-cases (move m p)) [
  | inl stuck ↦ absurd (ground arith)
  | inr (r, e) ↦
      run-IsSound rest r q others_too (fields-IsSound m p.dispatcher p.at r n f e) (ground arith)
]

begins-IsSound :
    (net : Resolver) (execution : Execution) (p : Process)
    → begin net execution ≡ some p
    → IsSound p
unfolding begin new_dispatcher
begins-IsSound net execution p b = elim (Option-cases (execute execution)) [
  | inl missing ↦ absurd (ground arith)
  | inr (cfg, made) ↦ elim (Result-cases (retrieve_ip_and_ports net cfg.addresses)) [
    | inr (e, failed) ↦ absurd (ground arith)
    | inl (targets, found) ↦
        let begun : process (new_dispatcher (targets_of targets)) starting ≡ p = ground arith in
        subst IsSound begun refl
  ]
]

-- If `main` comes to its call of `Start`, no request begins another call of it, and the process is over,
-- then the deferred `Stop` was refused.
pub run-deferred_stop_refused :
    (net : Resolver) (execution : Execution) (p : Process) (moves : List Move) (q : Process)
    (e : Effect)
    → begin net execution ≡ some p
    → All (λ m. is_start m ≡ false) moves
    → run moves p ≡ some q
    → q.at ≡ over e
    → e ≡ stop_refused
run-deferred_stop_refused net execution p moves q e b n h o =
    subst (λ at. IsFine at q.dispatcher) o
      (run-IsSound moves p q n (begins-IsSound net execution p b) h)

-- If the dispatcher runs, with a context, before `main` has come to its call of `Start`, as behind a
-- request for it, then `main` is refused, its deferred `Stop` succeeds, and the process is over with two
-- moves of `main`.
pub run-api_start_first :
    (d : Dispatcher) (ctx : ℕ)
    → d.status ≡ running
    → d.general_ctx ≡ some ctx
    → run (main_starts ∷ main_stops ∷ []) (process d starting)
      ≡ some (process (stop d).0 (over stop_returned))
unfolding run move start_main stop_main start stop
run-api_start_first d ctx busy made = ground (arith, busy, made)
