-- ===== src/NodeManager/Process/Silence.antt =====
-- A node that stays silent for a timeout is noticed by the process of node_manager.go.
use gale_lb.Prelude.{ℕ, ◌+◌, ◌≤◌, ◌≡◌, refl, List, [], ◌∷◌, some, false, arith, IsUnique}
use gale_lb.Prelude.Equality.{nat_eq, bytes_eq}
use gale_lb.Prelude.Map.{lookup}
use gale_lb.Prelude.Text.{Str}
use gale_lb.Consensus.{Rpc}
use gale_lb.Registry.{Node, register_node}
use gale_lb.NodeManager.{Network}
use gale_lb.NodeManager.Stream.Due.{Reach-IsDue}
use gale_lb.NodeManager.Stream.{
  returned, timed_out, running, Listener, receiving, sending_last, sending_error, sending_message,
  done, panicked, System, takes_timer, select, on_timer, act, step,
}
use gale_lb.NodeManager.Process.{
  Stream, Process, view, own, has_panicked, has_crashed, passes, acts, move, run, key_brought,
  Reach, next,
}
use gale_lb.NodeManager.Process.Rule.{with_action}
use gale_lb.NodeManager.Process.Others.{has_panicked-lookup}
use gale_lb.NodeManager.Process.Outage.{act_move, act_found, run-first}
use gale_lb.NodeManager.Process.Refinement.{Reach-Opened, process_timed_out_late}

module _ (net : Network) (rpc : Rpc) (iface : Str) (timeout : ℕ) (now : ℕ) where
  open rpc use {RpcError}

  act-timer :
      (node_key : Str) (l : Listener RpcError) (s : System RpcError)
      → has_panicked l ≡ false
      → s.handler ≡ running
      → s.deadline ≤ s.now
      → act rpc node_key timeout l takes_timer s ≡ some (on_timer rpc node_key timeout s)
  unfolding act select
  act-timer node_key receiving s sane runs late = ground (arith, runs, late)
  act-timer node_key (sending_last e) s sane runs late = ground (arith, runs, late)
  act-timer node_key (sending_error e req) s sane runs late = ground (arith, runs, late)
  act-timer node_key (sending_message req) s sane runs late = ground (arith, runs, late)
  act-timer node_key done s sane runs late = ground (arith, runs, late)
  act-timer node_key panicked s sane runs late = absurd (cc (sane))

  module _ {keys : List Str} {p : Process RpcError} (r : Reach net rpc iface timeout now keys p)
      (unique : IsUnique keys) (sane : has_crashed p.streams ≡ false) (i : ℕ) (st : Stream RpcError)
      (found : lookup i p.streams ≡ some st) (runs : st.handler ≡ running) where
    abbrev waited : Process RpcError
    waited = record p { now = p.now + timeout }

    abbrev ended : System RpcError
    ended = on_timer rpc st.node_key timeout (view waited st)

    abbrev closed : Process RpcError
    closed = with_action net rpc iface timeout i st ended waited

    waits_move : move net rpc iface timeout (passes timeout) p ≡ some waited
    unfolding move
    waits_move = ground (arith, sane)

    timer_move : move net rpc iface timeout (acts i takes_timer) waited ≡ some closed
    unfolding step
    timer_move = act_move net rpc iface timeout waited i takes_timer st ended sane refl found (
        act-timer st.node_key st.listener (view waited st)
          (has_panicked-lookup i st p.streams sane found) runs
          (let o = Reach-Opened net rpc iface timeout now r unique i st found in
            Reach-IsDue rpc st.node_key timeout (register_node o.registry st.node_key) o.since
              o.reached))

    closed-Reach : Reach net rpc iface timeout now keys closed
    unfolding key_brought
    closed-Reach = next (acts i takes_timer) (next (passes timeout) r waits_move) timer_move

    -- In a process to which any number of nodes have connected, each over an address of its own, and which has
    -- not crashed: whatever a stream whose handler runs has come to, after a wait of one timeout its timer can
    -- fire, which ends its handler, and leaves its node with a count of 0.
    pub silence_noticed :
        (q : Process RpcError) × (run net rpc iface timeout
            (passes timeout ∷ acts i takes_timer ∷ [])
            p
          ≡ some q)
        × (lookup i q.streams ≡ some (record st { handler = returned timed_out }))
        × (w : Node) × (lookup st.node_key q.registry.registry ≡ some w)
        × (w.continuous_health_checks ≡ 0)
    unfolding run on_timer
    silence_noticed =
        let there = act_found net rpc iface timeout waited i st ended in
        let (w, held, zero, late) =
          process_timed_out_late net rpc iface timeout now closed-Reach unique i
            (own st.node_key ended) there refl in
        (
          closed,
          run-first net rpc iface timeout (passes timeout) (acts i takes_timer ∷ []) p waited
              waits_move
              (run-first net rpc iface timeout (acts i takes_timer) [] waited closed timer_move
                refl),
          there,
          w,
          held,
          zero,
        )
