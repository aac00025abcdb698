-- ===== src/Util/Icmp.antt =====
-- pkg/util/icmp.go: `Ping`, its two goroutines and its two selects as one system. An action is what a
-- goroutine does to the channel, the end of the context, or the case that a select takes.
pub mod Consistent
pub mod Finished
mod Tests
use gale_lb.Prelude.{
  ℕ, List, [], ◌∷◌, Option, none, some, Bool, nat_beq, if◌then◌else◌, Result, ok, err,
}
use gale_lb.Prelude.Text.{Str}

pub data PingError : Type 0 where
  listen_failed resolve_failed marshal_failed write_failed read_failed parse_failed : PingError
  unexpected : ℕ → PingError
  context_ended : PingError

-- ipv4.ICMPTypeEchoReply
abbrev pub icmp_type_echo_reply : ℕ
icmp_type_echo_reply = 0

-- What `sendICMPEchoRequest` meets.
pub data Sent : Type 0 where
  not_marshalled not_written written : Sent

unfoldable pub send_icmp_echo_request : Sent → Option PingError
send_icmp_echo_request not_marshalled = some marshal_failed
send_icmp_echo_request not_written = some write_failed
send_icmp_echo_request written = none

-- What `receiveICMPEchoReply` meets: the host that a packet comes from, and the type and the identifier
-- of its message.
pub data Received : Type 0 where
  not_read not_parsed : Received
  parsed : Str → ℕ → ℕ → Received

-- The goroutine around it; host and identifier are not looked at.
unfoldable pub receive_icmp_echo_reply : Received → Option PingError
receive_icmp_echo_reply not_read = some read_failed
receive_icmp_echo_reply not_parsed = some parse_failed
receive_icmp_echo_reply (parsed host icmp_type id) =
    if nat_beq icmp_type icmp_type_echo_reply then none else some (unexpected icmp_type)

pub data Sender : Type 0 where
  sending : Sender
  sent : Sent → Sender

pub data Receiver : Type 0 where
  not_started receiving : Receiver
  received : Received → Receiver

-- At the first select, at the second, or back with a result; `none` is success.
pub data Caller : Type 0 where
  first_select second_select : Caller
  returned : Option PingError → Caller

pub record System : Type 0 where
  -- `errChan`, of capacity 1
  pub err_chan : Option (Option PingError)
  pub sender : Sender
  pub receiver : Receiver
  pub caller : Caller
  pub context_done : Bool

abbrev pub start : System
start = record {
  err_chan = none;
  sender = sending;
  receiver = not_started;
  caller = first_select;
  context_done = Bool.false;
}

pub data Action : Type 0 where
  sends : Sent → Action
  receives : Received → Action
  ends_context : Action
  takes_context takes_result : Action

-- The case `<-ctx.Done()` of either select.
unfoldable pub take_context : Caller → System → Option System
take_context (returned e) s = none
take_context _ s =
    if s.context_done then some (record s { caller = returned (some context_ended) }) else none

-- The case `<-errChan`: the first one goes on without an error, and starts the receiver.
unfoldable pub take_result : Caller → Option PingError → System → Option System
take_result first_select none s =
    some (record s { err_chan = none; receiver = receiving; caller = second_select })
take_result first_select (some e) s =
    some (record s { err_chan = none; caller = returned (some e) })
take_result second_select e s = some (record s { err_chan = none; caller = returned e })
take_result (returned r) e s = none

-- A send on the channel waits, `none`, as long as the channel is full.
unfoldable pub step : Action → System → Option System
unfolding send_icmp_echo_request receive_icmp_echo_reply take_context take_result
step (sends r) s = elim s.sender [
  | sent _ ↦ none
  | sending ↦ elim s.err_chan [
    | some _ ↦ none
    | none ↦ some (record s { err_chan = some (send_icmp_echo_request r); sender = sent r })
  ]
]
step (receives r) s = elim s.receiver [
  | receiving ↦ elim s.err_chan [
    | some _ ↦ none
    | none ↦ some (record s { err_chan = some (receive_icmp_echo_reply r); receiver = received r })
  ]
  | _ ↦ none
]
step ends_context s = some (record s { context_done = Bool.true })
step takes_context s = take_context s.caller s
step takes_result s = elim s.err_chan [ none ↦ none | some e ↦ take_result s.caller e s ]

unfoldable pub run : List Action → System → Option System
run [] s = some s
run (a ∷ rest) s = elim (step a s) [ none ↦ none | some t ↦ run rest t ]

-- What precedes the goroutines: the raw connection, and the address.
unfoldable pub ping : Bool → Bool → Result PingError System
ping listens resolves =
    if listens then if resolves then ok start else err resolve_failed else err listen_failed
