-- ===== src/Node/Dispatcher/Races.antt =====
-- Schedules of dispatcher.go in which `Start` and `Stop` get in each other's way.
use gale_lb.Prelude.{
  ℕ, ◌+◌, ◌<◌, nat_beq, ◌≡◌, ◌∙◌, ap, ◌⊎◌, refl, List, [], ◌∷◌, Option, none, some, true, false,
  arith,
}
use gale_lb.Prelude.Int.{ℤ}
use gale_lb.Prelude.Equality.{nat_eq, eq_iff, eq_refl}
use gale_lb.Prelude.Map.{Map, lookup, insert, delete, lookup-insert}
use gale_lb.Node.Targets.{Target}
use gale_lb.Node.Dispatcher.Session.{run-append}
use gale_lb.Node.Dispatcher.{
  running, stopped, Loop, head, testing, sending, created, launching, start, make_context, launch,
  leave, stop, health_period, is_canceled, read_context, test_context, send_report, Dispatcher,
  new_dispatcher, Effect, silent, start_failed, start_returned, stop_returned, stop_refused,
  reported, panicked, Action, begins, makes_context, launches, finishes, stops, reads, tests, sends,
  Launch, client_fails, config_fails, configured, has_loop, step, run,
}

-- What a schedule shows to the outside.
abbrev pub effects : List Action → Dispatcher → Option (List Effect)
effects actions d = elim (run actions d) [ none ↦ none | some (t, es) ↦ some es ]

-- `Stop` between the first unlock of the first `Start` and its `context.WithCancel` panics: it calls a nil
-- function.
effects-stops_early :
    (targets : List Target)
    → effects (begins ∷ stops ∷ []) (new_dispatcher targets) ≡ some (silent ∷ panicked ∷ [])
unfolding run step new_dispatcher
effects-stops_early targets = refl

-- If the second of the load balancers cannot be reached, or gives no configuration, `Start` fails and
-- `Stop` is refused, yet the loop of the first one goes on to report.
pub effects-failed_start :
    (first second : Target) (rest : List Target) (timeout : ℤ) (failure : Launch)
    → (failure ≡ client_fails) ⊎ (failure ≡ config_fails)
    → effects
        (begins
          ∷ makes_context 0
          ∷ launches 0 (configured timeout)
          ∷ launches 0 failure
          ∷ stops
          ∷ reads 2
          ∷ tests 2
          ∷ sends 2
          ∷ [])
        (new_dispatcher (first ∷ second ∷ rest))
      ≡ some (
          silent
          ∷ silent
          ∷ silent
          ∷ start_failed
          ∷ stop_refused
          ∷ silent
          ∷ silent
          ∷ reported first
          ∷ [])
unfolding run step new_dispatcher lookup insert delete is_canceled
effects-failed_start first second rest timeout client_fails h = refl
effects-failed_start first second rest timeout config_fails h = refl
effects-failed_start first second rest timeout (configured other) h = absurd (ground arith)

-- In a dispatcher that runs with a context: a loop at the head of a round, which reads its context only
-- behind `Stop` and the new context of the next `Start`, goes on to report.
pub effects-restart :
    (d : Dispatcher) (ctx i : ℕ) (l : Loop)
    → d.status ≡ running
    → d.general_ctx ≡ some ctx
    → lookup i d.loops ≡ some l
    → l.at ≡ head
    → effects (stops ∷ begins ∷ makes_context d.next_id ∷ reads i ∷ tests i ∷ sends i ∷ []) d
      ≡ some (stop_returned ∷ silent ∷ silent ∷ silent ∷ silent ∷ reported l.target ∷ [])
unfolding run step stop read_context test_context send_report is_canceled
effects-restart d ctx i l busy held found here = ground (
  arith,
  lookup-insert d.next_id d.next_id created d.calls,
  eq_refl d.next_id,
  lookup-insert (d.next_id + 1) (d.next_id + 1) false (insert ctx true d.contexts),
  eq_refl (d.next_id + 1),
  lookup-insert i i (record l { at = testing (d.next_id + 1) }) d.loops,
  lookup-insert i i (record l { at = sending })
      (insert i (record l { at = testing (d.next_id + 1) }) d.loops),
  eq_refl i,
)

-- A loop of another call does not hold a call of `Start` back.
has_loop-insert :
    (call i : ℕ) (l : Loop) (loops : Map ℕ Loop)
    → nat_beq l.owner call ≡ false
    → has_loop call loops ≡ false
    → has_loop call (insert i l loops) ≡ false
unfolding has_loop insert
has_loop-insert call i l [] other h = ground (arith, other)
has_loop-insert call i l ((j, k) ∷ loops) other h =
    ground (arith, other, has_loop-insert call i l loops)

module _ (d : Dispatcher) (old : ℕ) (target : Target) (rest : List Target) (timeout : ℤ)
    (idle : d.status ≡ stopped) (configured_for : d.targets ≡ target ∷ rest)
    (ends : lookup old d.calls ≡ some (launching [])) (no_loop : has_loop old d.loops ≡ false)
    (before : old < d.next_id) where
  abbrev n : ℕ
  n = d.next_id

  abbrev fresh : Loop
  fresh = record {
    owner = n;
    target = target;
    timeout = timeout;
    period = health_period timeout;
    at = head;
  }

  -- Behind the new `Start` and its first launch.
  abbrev renewed : Dispatcher
  renewed = record d {
    status = running;
    general_ctx = some (n + 1);
    contexts = insert (n + 1) false d.contexts;
    calls =
        insert n (launching rest) (insert n (launching (target ∷ rest)) (insert n created d.calls));
    loops = insert ((n + 1) + 1) fresh d.loops;
    next_id = ((n + 1) + 1) + 1;
  }

  -- Behind the end of the old one.
  abbrev marked : Dispatcher
  marked = leave old renewed

  renews :
      run (begins ∷ makes_context n ∷ launches n (configured timeout) ∷ []) d
      ≡ some (renewed, silent ∷ silent ∷ silent ∷ [])
  unfolding run step start make_context launch
  renews = ground (
    arith,
    idle,
    configured_for,
    eq_refl n,
    lookup-insert n n created d.calls,
    lookup-insert n n (launching (target ∷ rest)) (insert n created d.calls),
  )

  still_there : lookup old renewed.calls ≡ some (launching [])
  still_there =
      lookup-insert n old (launching rest)
        (insert n (launching (target ∷ rest)) (insert n created d.calls))
      ∙ ground (
        arith,
        eq_iff n old,
        lookup-insert n old (launching (target ∷ rest)) (insert n created d.calls),
        lookup-insert n old created d.calls,
        ends,
      )

  ends_old :
      run (finishes old ∷ stops ∷ []) renewed ≡ some (marked, start_returned ∷ stop_refused ∷ [])
  unfolding run step leave stop
  ends_old =
      ground
        (arith, still_there, has_loop-insert old ((n + 1) + 1) fresh d.loops (ground arith) no_loop)

  reports_on :
      (t : Dispatcher) × (run
          (reads ((n + 1) + 1) ∷ tests ((n + 1) + 1) ∷ sends ((n + 1) + 1) ∷ [])
          marked
        ≡ some (t, silent ∷ silent ∷ reported target ∷ []))
  unfolding run step leave read_context test_context send_report is_canceled
  reports_on =
      let i = (n + 1) + 1 in
      let m1 = insert i fresh d.loops in
      let m2 = insert i (record fresh { at = testing (n + 1) }) m1 in
      let m3 = insert i (record fresh { at = sending }) m2 in
      (
        record marked { loops = insert i fresh m3 },
        ground (
          arith,
          eq_refl i,
          eq_refl (n + 1),
          lookup-insert i i fresh d.loops,
          lookup-insert i i (record fresh { at = testing (n + 1) }) m1,
          lookup-insert i i (record fresh { at = sending }) m2,
          lookup-insert (n + 1) (n + 1) false d.contexts,
        ),
      )

  -- In a stopped dispatcher with targets, in which an earlier call of `Start` has launched all its loops and
  -- none of them is left, but has not returned yet: if a new call of `Start` launches its first loop before
  -- the earlier one returns, that marks the dispatcher stopped; `Stop` is then refused, while the loop of the
  -- new call goes on to report.
  pub effects-second_start :
      effects
        (begins
          ∷ makes_context d.next_id
          ∷ launches d.next_id (configured timeout)
          ∷ finishes old
          ∷ stops
          ∷ reads (d.next_id + 1 + 1)
          ∷ tests (d.next_id + 1 + 1)
          ∷ sends (d.next_id + 1 + 1)
          ∷ [])
        d
      ≡ some (
          silent
          ∷ silent
          ∷ silent
          ∷ start_returned
          ∷ stop_refused
          ∷ silent
          ∷ silent
          ∷ reported target
          ∷ [])
  effects-second_start =
      let i = (n + 1) + 1 in
      let (t, reports) = reports_on in
      let last = reads i ∷ tests i ∷ sends i ∷ [] in
      let shown = silent ∷ silent ∷ reported target ∷ [] in
      ap
        (λ (r : Option (Dispatcher × List Effect)). elim r [ none ↦ none | some (u, es) ↦ some es ])
        (run-append (begins ∷ makes_context n ∷ launches n (configured timeout) ∷ [])
          (finishes old ∷ stops ∷ last) d renewed t (silent ∷ silent ∷ silent ∷ [])
          (start_returned ∷ stop_refused ∷ shown) renews
          (run-append (finishes old ∷ stops ∷ []) last renewed marked t
            (start_returned ∷ stop_refused ∷ []) shown ends_old reports))
