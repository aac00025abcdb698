-- ===== src/Node/Dispatcher/Tests.antt =====
-- The theorems on dispatcher.go at concrete schedules.
use gale_lb.Prelude.{◌≡◌, ◌≤◌, arith, refl, inl, List, [], ◌∷◌, map, some, true, false}
use gale_lb.Prelude.Int.{ℤ, pos}
use gale_lb.Prelude.Equality.{nat_eq}
use gale_lb.Prelude.Map.{lookup, insert, delete}
use gale_lb.Prelude.Text.{codes}
use gale_lb.Node.Targets.{Target}
use gale_lb.Node.Dispatcher.{
  running, stopped, Loop, launching, Dispatcher, new_dispatcher, health_period, Effect, silent,
  start_failed, start_returned, stop_returned, stop_refused, loop_returned, reported, Action,
  begins, makes_context, launches, finishes, stops, reads, tests, sends, head, sending, is_canceled,
  client_fails, configured, has_loop, step, run,
}
use gale_lb.Node.Dispatcher.Single.{IsAlone, new_dispatcher-IsAlone, run-IsAlone}
use gale_lb.Node.Dispatcher.Due.{rounds_begun}
use gale_lb.Node.Dispatcher.Quiet.{reports, run-stops_reports}
use gale_lb.Node.Dispatcher.Names.{targets_of}
use gale_lb.Node.Dispatcher.Session.{launch_each, shut_down, shut_down_effects, run-session_returns}
use gale_lb.Node.Dispatcher.Races.{
  effects, effects-failed_start, effects-restart, effects-second_start,
}

abbrev lb : Target
lb = record { ip = codes "10.0.0.7"; port = pos 7070 }

abbrev lb_loop : Loop
lb_loop = record { owner = 0; target = lb; timeout = pos 10; period = pos 5; at = head }

-- One load balancer, to which the health loop 2 reports.
abbrev busy : Dispatcher
busy = record (new_dispatcher (lb ∷ [])) {
  status = running;
  general_ctx = some 1;
  contexts = (1, false) ∷ [];
  calls = (0, launching []) ∷ [];
  loops = (2, lb_loop) ∷ [];
  next_id = 3;
}

abbrev starting : List Action
starting =
    begins ∷ makes_context 0 ∷ launches 0 (configured (pos 10)) ∷ reads 2 ∷ tests 2 ∷ sends 2 ∷ []

busy-run :
    run starting (new_dispatcher (lb ∷ []))
    ≡ some (busy, silent ∷ silent ∷ silent ∷ silent ∷ silent ∷ reported lb ∷ [])
unfolding run step new_dispatcher lookup insert delete health_period
busy-run = refl

run-IsAlone_example : IsAlone busy
run-IsAlone_example =
    run-IsAlone starting (new_dispatcher (lb ∷ [])) busy
      (silent ∷ silent ∷ silent ∷ silent ∷ silent ∷ reported lb ∷ [])
      (refl, (refl, (refl, (refl, (refl, (refl, tt)))))) (new_dispatcher-IsAlone (lb ∷ [])) busy-run

-- The loop is about to report as `Stop` is called.
abbrev late : Dispatcher
late = record busy { loops = (2, record lb_loop { at = sending }) ∷ [] }

abbrev idle : Dispatcher
idle = record busy { status = stopped; contexts = (1, true) ∷ []; calls = []; loops = [] }

abbrev late_actions : List Action
late_actions = sends 2 ∷ reads 2 ∷ tests 2 ∷ finishes 0 ∷ []

abbrev late_effects : List Effect
late_effects = stop_returned ∷ reported lb ∷ silent ∷ loop_returned ∷ start_returned ∷ []

idle-run : run (stops ∷ late_actions) late ≡ some (idle, late_effects)
unfolding run step lookup insert delete has_loop is_canceled
idle-run = refl

run-stops_reports_example :
    (later : List Effect) × (late_effects ≡ stop_returned ∷ later)
    × (reports later ≤ rounds_begun late.loops)
run-stops_reports_example =
    run-stops_reports late_actions late idle late_effects 1 refl refl
      (refl, (refl, (refl, (refl, tt)))) idle-run

effects-failed_start_example :
    effects
      (begins
        ∷ makes_context 0
        ∷ launches 0 (configured (pos 10))
        ∷ launches 0 client_fails
        ∷ stops
        ∷ reads 2
        ∷ tests 2
        ∷ sends 2
        ∷ [])
      (new_dispatcher (lb ∷ lb ∷ []))
    ≡ some (
        silent ∷ silent ∷ silent ∷ start_failed ∷ stop_refused ∷ silent ∷ silent ∷ reported lb ∷ [])
effects-failed_start_example = effects-failed_start lb lb [] (pos 10) client_fails (inl refl)

lb_loop-found : lookup 2 busy.loops ≡ some lb_loop
unfolding lookup
lb_loop-found = refl

effects-restart_example :
    effects (stops ∷ begins ∷ makes_context 3 ∷ reads 2 ∷ tests 2 ∷ sends 2 ∷ []) busy
    ≡ some (stop_returned ∷ silent ∷ silent ∷ silent ∷ silent ∷ reported lb ∷ [])
effects-restart_example = effects-restart busy 1 2 lb_loop refl refl lb_loop-found refl

-- `Stop` was called and the loop has returned, the call of `Start` not yet.
abbrev ending : Dispatcher
ending = record idle { calls = (0, launching []) ∷ [] }

ending-found : lookup 0 ending.calls ≡ some (launching [])
unfolding lookup
ending-found = refl

ending_alone : has_loop 0 ending.loops ≡ false
unfolding has_loop
ending_alone = refl

effects-second_start_example :
    effects
      (begins
        ∷ makes_context 3
        ∷ launches 3 (configured (pos 4))
        ∷ finishes 0
        ∷ stops
        ∷ reads 5
        ∷ tests 5
        ∷ sends 5
        ∷ [])
      ending
    ≡ some (
        silent
        ∷ silent
        ∷ silent
        ∷ start_returned
        ∷ stop_refused
        ∷ silent
        ∷ silent
        ∷ reported lb
        ∷ [])
unfolding new_dispatcher
effects-second_start_example =
    effects-second_start ending 0 lb [] (pos 4) refl refl ending-found ending_alone (omega arith)

-- Every load balancer answers with the same timeout.
abbrev ten : Target → ℤ
ten target = pos 10

abbrev two : List Target
two = lb ∷ record lb { port = pos 7071 } ∷ []

run-session_returns_example :
    (m : Dispatcher) × (run (begins ∷ makes_context 0 ∷ launch_each ten two) (new_dispatcher two)
      ≡ some (m, silent ∷ silent ∷ map (λ _. silent) two))
    × (targets_of m.loops ≡ two)
    × ((t : Dispatcher) × (run (shut_down m) m ≡ some (t, shut_down_effects m))
        × (t.status ≡ stopped)
        × (t.calls ≡ [])
        × (t.loops ≡ []))
run-session_returns_example = run-session_returns ten two
