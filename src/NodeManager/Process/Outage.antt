-- ===== src/NodeManager/Process/Outage.antt =====
-- How one node brings down the process of node_manager.go.
use gale_lb.Prelude.{
  ℕ, ◌+◌, ◌≤◌, ◌≡◌, refl, ap, ◌∙◌, List, [], ◌∷◌, Option, none, some, true, false, arith,
}
use gale_lb.Prelude.Equality.{nat_eq, eq_refl}
use gale_lb.Prelude.Map.{Map, lookup, insert, lookup-insert}
use gale_lb.Prelude.Text.{Str}
use gale_lb.Consensus.{Rpc}
use gale_lb.NodeManager.{Network}
use gale_lb.NodeManager.Stream.{
  timed_out, returned, running, receiving, panicked, System, Action, receives, sends, takes_timer,
  received, send, select, on_timer, act, step,
}
use gale_lb.NodeManager.Process.{
  Stream, Process, view, own, has_panicked, has_crashed, is_local, Move, connects, passes, acts,
  act_of, move, run,
}
use gale_lb.NodeManager.Process.Rule.{with_action}

sane-insert :
    {E : Type 0} (i : ℕ) (st : Stream E) (streams : Map ℕ (Stream E))
    → has_panicked st.listener ≡ false
    → has_crashed streams ≡ false
    → has_crashed (insert i st streams) ≡ false
unfolding has_crashed insert
sane-insert i st [] live sane = ground arith
sane-insert i st ((j, su) ∷ streams) live sane = ground (arith, sane-insert i st streams live)

crashed-insert :
    {E : Type 0} (i : ℕ) (st : Stream E) (streams : Map ℕ (Stream E))
    → has_panicked st.listener ≡ true
    → has_crashed (insert i st streams) ≡ true
unfolding has_crashed insert
crashed-insert i st [] dead = ground arith
crashed-insert i st ((j, su) ∷ streams) dead = ground (arith, crashed-insert i st streams dead)

module _ (net : Network) (rpc : Rpc) (iface : Str) (timeout : ℕ) where
  open rpc use {RpcError}
  open net use {TcpAddr}

  pub act_move :
      (p : Process RpcError) (i : ℕ) (a : Action RpcError) (st : Stream RpcError)
      (s : System RpcError)
      → has_crashed p.streams ≡ false
      → is_local a ≡ true
      → lookup i p.streams ≡ some st
      → step rpc st.node_key timeout a (view p st) ≡ some s
      → move net rpc iface timeout (acts i a) p ≡ some (with_action net rpc iface timeout i st s p)
  unfolding move act_of
  act_move p i a st s sane loc found stepped = ground (arith, sane, loc, found, stepped)

  pub act_found :
      (p : Process RpcError) (i : ℕ) (st : Stream RpcError) (s : System RpcError)
      → lookup i (with_action net rpc iface timeout i st s p).streams ≡ some (own st.node_key s)
  act_found p i st s = lookup-insert i i (own st.node_key s) p.streams ∙ rw (eq_refl i) refl

  pub run-first :
      (m : Move TcpAddr RpcError) (rest : List (Move TcpAddr RpcError)) (p q : Process RpcError)
      {t : Option (Process RpcError)}
      → move net rpc iface timeout m p ≡ some q
      → run net rpc iface timeout rest q ≡ t
      → run net rpc iface timeout (m ∷ rest) p ≡ t
  unfolding run
  run-first m rest p q e f = rw (run, e) f

  -- Nothing is left to do in a process that has crashed.
  crash_stops :
      (m : Move TcpAddr RpcError) (p : Process RpcError)
      → has_crashed p.streams ≡ true
      → move net rpc iface timeout m p ≡ none
  unfolding move
  crash_stops (connects peer) p crashed = ground arith
  crash_stops (passes d) p crashed = ground arith
  crash_stops (acts i a) p crashed = ground arith

  module _ (node_key : Str) where
    abbrev step_of : Action RpcError → System RpcError → Option (System RpcError)
    step_of = step rpc node_key timeout

    step-timer :
        (s : System RpcError)
        → s.listener ≡ receiving
        → s.handler ≡ running
        → s.deadline ≤ s.now
        → step_of takes_timer s ≡ some (on_timer rpc node_key timeout s)
    unfolding step act select
    step-timer s idle runs late = ground (arith, idle, runs, late)

    step-receives :
        (e : RpcError) (s : System RpcError)
        → s.listener ≡ receiving
        → step_of (receives none (some e)) s
          ≡ some (record s { listener = received rpc node_key timeout none (some e) })
    unfolding step act
    step-receives e s idle = ground (arith, idle)

    received-sane :
        (e : RpcError) → has_panicked (received rpc node_key timeout none (some e)) ≡ false
    unfolding received
    received-sane e = ground arith

    step-panics :
        (e : RpcError) (s : System RpcError)
        → s.listener ≡ received rpc node_key timeout none (some e)
        → s.handler ≡ returned timed_out
        → step_of sends s ≡ some (record s { listener = panicked })
    unfolding step act send received
    step-panics e s waits gone = ground (arith, waits, gone)

  module _ (p : Process RpcError) (i d : ℕ) (st : Stream RpcError) (e : RpcError) where
    abbrev waited : Process RpcError
    waited = record p { now = p.now + d }

    abbrev ended : System RpcError
    ended = on_timer rpc st.node_key timeout (view waited st)

    abbrev timed : Process RpcError
    timed = with_action net rpc iface timeout i st ended waited

    abbrev failed : System RpcError
    failed = record (view timed (own st.node_key ended)) {
      listener = received rpc st.node_key timeout none (some e);
    }

    abbrev told : Process RpcError
    told = with_action net rpc iface timeout i (own st.node_key ended) failed timed

    abbrev broken : System RpcError
    broken = record (view told (own st.node_key failed)) { listener = panicked }

    abbrev crashed : Process RpcError
    crashed = with_action net rpc iface timeout i (own st.node_key failed) broken told

    module _ (sane : has_crashed p.streams ≡ false) (found : lookup i p.streams ≡ some st)
        (runs : st.handler ≡ running) (idle : st.listener ≡ receiving)
        (late : st.deadline ≤ p.now + d) where
      first_move : move net rpc iface timeout (passes d) p ≡ some waited
      unfolding move
      first_move = ground (arith, sane)

      second_move : move net rpc iface timeout (acts i takes_timer) waited ≡ some timed
      second_move =
          act_move waited i takes_timer st ended sane refl found
            (step-timer st.node_key (view waited st) idle runs late)

      timed-sane : has_crashed timed.streams ≡ false
      unfolding on_timer
      timed-sane = sane-insert i (own st.node_key ended) p.streams (ap has_panicked idle) sane

      third_move : move net rpc iface timeout (acts i (receives none (some e))) timed ≡ some told
      unfolding on_timer
      third_move =
          act_move timed i (receives none (some e)) (own st.node_key ended) failed timed-sane refl
            (act_found waited i st ended)
            (step-receives st.node_key e (view timed (own st.node_key ended)) idle)

      fourth_move : move net rpc iface timeout (acts i sends) told ≡ some crashed
      unfolding on_timer
      fourth_move =
          act_move told i sends (own st.node_key failed) broken
            (sane-insert i (own st.node_key failed) timed.streams (received-sane st.node_key e)
              timed-sane)
            refl (act_found timed i (own st.node_key ended) failed)
            (step-panics st.node_key e (view told (own st.node_key failed)) refl refl)

  -- In a process that has not crashed, with a stream whose handler runs and whose listener waits for its
  -- node: once the time of the stream is up, its timeout and whatever error then ends it leave a process
  -- in which no stream can move any more, and no node can connect.
  pub silent_node_ends_all :
      (p : Process RpcError) (i d : ℕ) (st : Stream RpcError) (e : RpcError)
      → has_crashed p.streams ≡ false
      → lookup i p.streams ≡ some st
      → st.handler ≡ running
      → st.listener ≡ receiving
      → st.deadline ≤ p.now + d
      → (q : Process RpcError) × (run net rpc iface timeout
            (passes d ∷ acts i takes_timer ∷ acts i (receives none (some e)) ∷ acts i sends ∷ [])
            p
          ≡ some q)
        × ((m : Move TcpAddr RpcError) → move net rpc iface timeout m q ≡ none)
  unfolding run
  silent_node_ends_all p i d st e sane found runs idle late = (
    crashed p i d st e,
    run-first (passes d) (acts i takes_timer ∷ acts i (receives none (some e)) ∷ acts i sends ∷ [])
        p (waited p i d st e) (first_move p i d st e sane found runs idle late)
        (run-first (acts i takes_timer) (acts i (receives none (some e)) ∷ acts i sends ∷ [])
          (waited p i d st e) (timed p i d st e) (second_move p i d st e sane found runs idle late)
          (run-first (acts i (receives none (some e))) (acts i sends ∷ []) (timed p i d st e)
            (told p i d st e) (third_move p i d st e sane found runs idle late)
            (run-first (acts i sends) [] (told p i d st e) (crashed p i d st e)
              (fourth_move p i d st e sane found runs idle late) refl))),
    λ m.
        crash_stops m (crashed p i d st e)
          (crashed-insert i (own st.node_key (broken p i d st e)) (told p i d st e).streams refl),
  )
