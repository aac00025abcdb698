-- ===== src/Node/Main/Tests.antt =====
-- The theorems on cmd/node and its API at concrete schedules.
use gale_lb.Prelude.{◌≡◌, refl, List, [], ◌∷◌, none, some, true, false, All}
use gale_lb.Prelude.Int.{pos, int_beq}
use gale_lb.Prelude.Equality.{bytes_beq}
use gale_lb.Prelude.Text.{codes}
use gale_lb.Prelude.Map.{lookup, insert, delete}
use gale_lb.Config.Load.{Settings, load_config, get_config_file_path}
use gale_lb.Config.NodeConfig.{Config, apply_flags_to_config, init_config}
use gale_lb.Util.Dns.{Resolver}
use gale_lb.Node.Targets.{Target, retrieve_ip_and_ports, retrieve_from, target_of, target_string}
use gale_lb.Node.Dispatcher.{
  Dispatcher, running, new_dispatcher, stop_refused, stop_returned, makes_context, launches,
  finishes, stops, reads, tests, sends, configured, has_loop, stop,
}
use gale_lb.Node.Api.{get_status, post_start, post_stop}
use gale_lb.Node.Api.Commands.{expect_all, handle_all, handle_all-expect_all}
use gale_lb.Node.Main.{
  Process, process, Move, starting, over, main_starts, main_wakes, main_stops, others, move, run,
  begin, execute, runs,
}
use gale_lb.Node.Main.Tame.{is_start}
use gale_lb.Node.Main.Ends.{run-deferred_stop_refused, run-api_start_first}

abbrev lb : Target
lb = record { ip = codes "10.0.0.7"; port = pos 7070 }

abbrev dead : Resolver
dead = record {
  listens = false;
  sets_deadline = false;
  events = λ query. [];
  dials = λ server. false;
  lookup_host = λ host. none;
  parse_ip = λ s. none;
}

-- A configuration file with one load balancer.
abbrev given : Settings Config
given = record {
  changed = λ key. bytes_beq key (codes "config");
  readable = λ path. true;
  unmarshal = λ told cfg. some (record {
    addresses = record { hostname = codes "lb"; ip = codes "10.0.0.7"; port = pos 7070 } ∷ [];
  });
  get_string = λ key. codes "node.toml";
  get_int = λ key. pos 0;
  get_uint = λ key. 0;
  get_duration = λ key. pos 0;
  get_string_slice = λ key. [];
}

abbrev begun : Process
begun = process (new_dispatcher (lb ∷ [])) starting

given-begins : begin dead (runs given) ≡ some begun
unfolding begin execute init_config load_config get_config_file_path apply_flags_to_config
    retrieve_ip_and_ports retrieve_from target_of target_string insert bytes_beq int_beq
given-begins = refl

-- The API stops the dispatcher while `main` waits.
abbrev moves : List Move
moves =
    main_starts
    ∷ others (makes_context 0)
    ∷ others (launches 0 (configured (pos 10)))
    ∷ others (reads 2)
    ∷ others (tests 2)
    ∷ others (sends 2)
    ∷ others stops
    ∷ others (reads 2)
    ∷ others (tests 2)
    ∷ others (finishes 0)
    ∷ main_wakes
    ∷ main_stops
    ∷ []

abbrev ended : Process
ended =
    process
      (record (new_dispatcher (lb ∷ [])) {
        general_ctx = some 1;
        contexts = (1, true) ∷ [];
        next_id = 3;
      })
      (over stop_refused)

moves-end : run moves begun ≡ some ended
unfolding run move new_dispatcher lookup insert has_loop delete
moves-end = refl

untouched : All (λ m. is_start m ≡ false) moves
untouched = (
  refl,
  (refl, (refl, (refl, (refl, (refl, (refl, (refl, (refl, (refl, (refl, (refl, tt))))))))))),
)

run-deferred_stop_refused_example : stop_refused ≡ stop_refused
run-deferred_stop_refused_example =
    run-deferred_stop_refused dead (runs given) begun moves ended stop_refused given-begins
      untouched moves-end refl

abbrev started_by_api : Dispatcher
started_by_api = record (new_dispatcher (lb ∷ [])) {
  status = running;
  general_ctx = some 1;
  contexts = (1, false) ∷ [];
}

run-api_start_first_example :
    run (main_starts ∷ main_stops ∷ []) (process started_by_api starting)
    ≡ some (process (stop started_by_api).0 (over stop_returned))
run-api_start_first_example = run-api_start_first started_by_api 1 refl refl

handle_all-expect_all_example :
    handle_all (post_start ∷ post_stop ∷ get_status ∷ []) started_by_api
    ≡ expect_all (post_start ∷ post_stop ∷ get_status ∷ []) running
handle_all-expect_all_example =
    handle_all-expect_all (post_start ∷ post_stop ∷ get_status ∷ []) 1 started_by_api refl
