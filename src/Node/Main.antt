-- ===== src/Node/Main.antt =====
-- `main` of cmd/node/main.go, from its call of `Start` on, beside the requests of the HTTP API: a system in
-- which the steps of `main` and those of other goroutines on the shared dispatcher interleave.
-- The seconds that the last deferred call, the shutdown of the API, may take are left out.
pub mod Tame
pub mod Ends
mod Tests
use gale_lb.Prelude.{
  ℕ, ◌+◌, List, [], ◌∷◌, Option, none, some, Bool, Result, ok, err, not, if◌then◌else◌,
}
use gale_lb.Prelude.Equality.{nat_eq}
use gale_lb.Prelude.Text.{Str}
use gale_lb.Prelude.Map.{Map, lookup}
use gale_lb.Config.Load.{Settings}
use gale_lb.Config.NodeConfig.{Config, init_config}
use gale_lb.Util.Dns.{Resolver}
use gale_lb.Node.Targets.{Target, retrieve_ip_and_ports}
use gale_lb.Node.Dispatcher.{
  Dispatcher, Effect, silent, start_refused, Action, new_dispatcher, start, stop,
}
use gale_lb.Node.Dispatcher

-- Before `dispatcher.Start`, inside the call of the given name, before the deferred `dispatcher.Stop`, and
-- behind it, with what it came to: the process is over.
pub data At : Type 0 where
  starting stopping : At
  waiting : ℕ → At
  over : Effect → At

pub record Process : Type 0 where
  pub dispatcher : Dispatcher
  pub at : At

abbrev pub process : Dispatcher → At → Process
process d at = record { dispatcher = d; at = at }

pub data Move : Type 0 where
  main_starts main_wakes main_stops : Move
  others : Action → Move

-- The refusal of a second call is logged, and `main` goes on.
unfoldable pub start_main : Process → Process
unfolding start
start_main p = record {
  dispatcher = (start p.dispatcher).0;
  at = elim (start p.dispatcher).1 [ silent ↦ waiting p.dispatcher.next_id | _ ↦ stopping ];
}

unfoldable pub stop_main : Process → Process
unfolding stop
stop_main p = record { dispatcher = (stop p.dispatcher).0; at = over (stop p.dispatcher).1 }

-- `none` where the move is not possible; nothing moves once the process is over.
unfoldable pub move : Move → Process → Option Process
unfolding start_main stop_main Dispatcher.step
move main_starts p = elim p.at [ starting ↦ some (start_main p) | _ ↦ none ]
move main_wakes p = elim p.at [
  | waiting call ↦ elim (lookup call p.dispatcher.calls) [
    | none ↦ some (record p { at = stopping })
    | some phase ↦ none
  ]
  | _ ↦ none
]
move main_stops p = elim p.at [ stopping ↦ some (stop_main p) | _ ↦ none ]
move (others a) p = elim p.at [
  | over e ↦ none
  | _ ↦ elim (Dispatcher.step a p.dispatcher) [
    | none ↦ none
    | some (d, e) ↦ some (record p { dispatcher = d })
  ]
]

unfoldable pub run : List Move → Process → Option Process
run [] p = some p
run (m ∷ rest) p = elim (move m p) [ none ↦ none | some q ↦ run rest q ]

abbrev targets_of : Map Str Target → List Target
targets_of [] = []
targets_of ((k, t) ∷ rest) = t ∷ targets_of rest

-- What executing the command comes to: it fails, it only prints its help (`--help`), or it runs with its
-- settings.
pub data Execution : Type 0 where
  fails helps : Execution
  runs : Settings Config → Execution

-- The configuration behind `Execute`; without one `main` is over, ended by log.Fatalf or, behind the help,
-- by its use of the nil pointer.
unfoldable pub execute : Execution → Option Config
unfolding init_config
execute fails = none
execute helps = none
execute (runs settings) = elim (init_config settings) [ err e ↦ none | ok cfg ↦ some cfg ]

-- `main` up to its call of `Start`; `none` where it ends before, also for want of a target.
unfoldable pub begin : Resolver → Execution → Option Process
unfolding execute retrieve_ip_and_ports new_dispatcher
begin net execution = elim (execute execution) [
  | none ↦ none
  | some cfg ↦ elim (retrieve_ip_and_ports net cfg.addresses) [
    | err e ↦ none
    | ok targets ↦ some (process (new_dispatcher (targets_of targets)) starting)
  ]
]
