-- ===== src/NodeManager/Stream/Alive.antt =====
-- A stream of node_manager.go whose node reports in time.
use gale_lb.Prelude.{
  ℕ, ◌+◌, ◌%◌, ◌<◌, ◌≡◌, ◌≢◌, refl, ◌∙◌, List, [], ◌∷◌, ◌++◌, none, some, arith, All, length,
}
use gale_lb.Prelude.Equality.{bytes_eq, eq_refl}
use gale_lb.Prelude.Map.{lookup}
use gale_lb.Prelude.Text.{Str}
use gale_lb.Consensus.{Rpc, RpcLaws, HealthStatus, not_serving, shutting_down}
use gale_lb.Registry.{Node, uint_mod, report_new_health_check}
use gale_lb.Registry.History.{lookup-report_new_health_check}
use gale_lb.NodeManager.Stream.{
  running, receiving, System, Action, waits, receives, sends, takes_message, takes_timer, step, run,
}
use gale_lb.NodeManager.Stream.Effects.{nil_recoverable}

module _ (rpc : Rpc) (laws : RpcLaws rpc) (node_key : Str) (timeout : ℕ) (m : HealthStatus)
    (awake : m.status ≢ not_serving) (alive : m.status ≢ shutting_down) where
  open rpc use {RpcError}

  -- The stream waits for the next message, with its whole timeout ahead, and counts `v` for its node.
  pub record Awaits (v : Node) (s : System RpcError) : Type 0 where
    pub at_receive : s.listener ≡ receiving
    pub runs : s.handler ≡ running
    pub free : s.msg_chan ≡ none
    pub fresh : s.deadline ≡ s.now + timeout
    pub held : lookup node_key s.registry.registry ≡ some v

  -- The message arrives after a while, and is handled at once.
  abbrev pub round : ℕ → List (Action RpcError)
  round gap = waits gap ∷ receives (some m) none ∷ sends ∷ takes_message ∷ []

  abbrev pub rounds : List ℕ → List (Action RpcError)
  rounds [] = []
  rounds (gap ∷ gaps) = round gap ++ rounds gaps

  abbrev pub after : ℕ → System RpcError → System RpcError
  after gap s = record s {
    registry = report_new_health_check s.registry node_key (s.now + gap);
    now = s.now + gap;
    deadline = s.now + gap + timeout;
  }

  abbrev pub counted : Node → ℕ → Node
  counted v now = record {
    continuous_health_checks = (v.continuous_health_checks + 1) % uint_mod;
    last_health_check = now;
  }

  after-Awaits :
      (gap : ℕ) (v : Node) (s : System RpcError)
      → Awaits v s
      → Awaits (counted v (s.now + gap)) (after gap s)
  after-Awaits gap v s w = record {
    at_receive = w.at_receive;
    runs = w.runs;
    free = w.free;
    fresh = refl;
    held =
        lookup-report_new_health_check s.registry node_key node_key (s.now + gap)
        ∙ rw (eq_refl node_key, w.held) refl;
  }

  run-round :
      (gap : ℕ) (rest : List (Action RpcError)) (v : Node) (s : System RpcError)
      → Awaits v s
      → run rpc node_key timeout (round gap ++ rest) s ≡ run rpc node_key timeout rest (after gap s)
  unfolding run step
  run-round gap rest v s w = ground (
    arith,
    w.at_receive,
    w.runs,
    w.free,
    nil_recoverable rpc laws,
    laws.get_status_some m,
    awake,
    alive,
  )

  too_early :
      (gap : ℕ) (v : Node) (s : System RpcError)
      → gap < timeout
      → Awaits v s
      → step rpc node_key timeout takes_timer (record s { now = s.now + gap }) ≡ none
  unfolding step
  too_early gap v s early w = ground (arith, w.at_receive, w.runs, w.fresh)

  -- At no message has the timer fired before it arrives.
  abbrev pub IsPunctual : List ℕ → System RpcError → Type 0
  IsPunctual [] s = Unit {0}
  IsPunctual (gap ∷ gaps) s =
      (step rpc node_key timeout takes_timer (record s { now = s.now + gap }) ≡ none)
      × IsPunctual gaps (after gap s)

  -- A node whose stream waits for a message, with the whole timeout ahead, and which reports again and
  -- again within less than the timeout, with a status that is neither NotServing nor ShuttingDown: the
  -- timer can never fire before a report arrives, each report is counted, modulo 2 ^ 64, and behind the
  -- last one the handler runs with the whole timeout ahead.
  pub keep_alive :
      (gaps : List ℕ) (v : Node) (s : System RpcError)
      → All (λ gap. gap < timeout) gaps
      → v.continuous_health_checks < uint_mod
      → Awaits v s
      → IsPunctual gaps s
        × ((t : System RpcError) × (w : Node) × (run rpc node_key timeout (rounds gaps) s ≡ some t)
            × Awaits w t
            × (w.continuous_health_checks ≡ (v.continuous_health_checks + length gaps) % uint_mod))
  keep_alive [] v s early small w = (tt, (s, v, unfold run in refl, w, omega arith))
  keep_alive (gap ∷ gaps) v s (early, earlier) small w =
      let next = after-Awaits gap v s w in
      let (punctual, (t, u, reached, end, count)) =
        keep_alive gaps (counted v (s.now + gap)) (after gap s) earlier (omega arith) next in
      (
        (too_early gap v s early w, punctual),
        (t, u, run-round gap (rounds gaps) v s w ∙ reached, end, omega arith),
      )
