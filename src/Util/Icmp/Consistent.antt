-- ===== src/Util/Icmp/Consistent.antt =====
-- What channel, goroutines and caller of icmp.go have in common in every state.
use mathlib.Core.Path.{subst}
use gale_lb.Prelude.{
  ℕ, ◌≡◌, refl, ap, ◌⊎◌, inl, inr, List, [], ◌∷◌, Option, none, some, Bool, true, false, arith,
  Option-cases,
}
use gale_lb.Prelude.Text.{Str}
use gale_lb.Util.Icmp.{
  PingError, context_ended, Sent, written, Received, not_read, not_parsed, parsed,
  send_icmp_echo_request, receive_icmp_echo_reply, Sender, sending, sent, Receiver, not_started,
  receiving, received, Caller, first_select, second_select, returned, System, Action, sends,
  receives, take_result, take_context, ends_context, takes_context, takes_result, step, run,
}

-- What the channel holds fits what the goroutines have done, as seen from each place of the caller.
abbrev pub Fits : Caller → Sender → Receiver → Option (Option PingError) → Type 0
Fits first_select sending r c = (r ≡ not_started) × (c ≡ none)
Fits first_select (sent x) r c = (r ≡ not_started) × (c ≡ some (send_icmp_echo_request x))
Fits second_select s not_started c = ⊥
Fits second_select s receiving c = (s ≡ sent written) × (c ≡ none)
Fits second_select s (received x) c = (s ≡ sent written) × (c ≡ some (receive_icmp_echo_reply x))
Fits (returned none) s r c =
    (s ≡ sent written) × ((host : Str) × (id : ℕ) × (r ≡ received (parsed host 0 id)))
Fits (returned (some e)) sending r c = (r ≡ not_started) × (c ≡ none)
Fits (returned (some e)) (sent x) receiving c = c ≡ none
Fits (returned (some e)) (sent x) r c = Unit {0}

abbrev pub IsConsistent : System → Type 0
IsConsistent s = Fits s.caller s.sender s.receiver s.err_chan

sent_fully : (x : Sent) → send_icmp_echo_request x ≡ none → x ≡ written
unfolding send_icmp_echo_request
sent_fully x e = ground arith

answered :
    (x : Received)
    → receive_icmp_echo_reply x ≡ none
    → (host : Str) × (id : ℕ) × (x ≡ parsed host 0 id)
unfolding receive_icmp_echo_reply
answered not_read e = absurd (cc)
answered not_parsed e = absurd (cc)
answered (parsed host icmp_type id) e = (host, id, ground arith)

from_some : {A : Type 0} {a b : A} → some a ≡ some b → a ≡ b
from_some e = cc

abbrev system : Caller → Sender → Receiver → Option (Option PingError) → Bool → System
system caller sender receiver err_chan context_done = record {
  err_chan = err_chan;
  sender = sender;
  receiver = receiver;
  caller = caller;
  context_done = context_done;
}

sends-Fits :
    (c : Caller) (r : Receiver) (x : Sent)
    → Fits c sending r none
    → Fits c (sent x) r (some (send_icmp_echo_request x))
sends-Fits first_select r x i = ground arith
sends-Fits second_select not_started x i = absurd i
sends-Fits second_select receiving x i = absurd (cc (i.0))
sends-Fits second_select (received y) x i = absurd (cc (i.0))
sends-Fits (returned none) r x i = absurd (cc (i.0))
sends-Fits (returned (some e)) not_started x i = tt
sends-Fits (returned (some e)) receiving x i = absurd (cc (i.0))
sends-Fits (returned (some e)) (received y) x i = tt

receives-Fits :
    (c : Caller) (s : Sender) (x : Received)
    → Fits c s receiving none
    → Fits c s (received x) (some (receive_icmp_echo_reply x))
receives-Fits first_select sending x i = absurd (cc (i.0))
receives-Fits first_select (sent y) x i = absurd (cc (i.0))
receives-Fits second_select s x i = (i.0, refl)
receives-Fits (returned none) s x (_, (host, id, e)) = absurd (cc (e))
receives-Fits (returned (some e)) sending x i = absurd (cc (i.0))
receives-Fits (returned (some e)) (sent y) x i = tt

context-Fits :
    (c : Caller) (s : Sender) (r : Receiver) (chan : Option (Option PingError))
    → (c ≡ first_select) ⊎ (c ≡ second_select)
    → Fits c s r chan
    → Fits (returned (some context_ended)) s r chan
context-Fits first_select sending r chan w i = i
context-Fits first_select (sent x) not_started chan w i = tt
context-Fits first_select (sent x) receiving chan w i = absurd (cc (i.0))
context-Fits first_select (sent x) (received y) chan w i = tt
context-Fits second_select sending not_started chan w i = absurd i
context-Fits second_select sending receiving chan w i = absurd (cc (i.0))
context-Fits second_select sending (received y) chan w i = absurd (cc (i.0))
context-Fits second_select (sent x) not_started chan w i = tt
context-Fits second_select (sent x) receiving chan w i = i.1
context-Fits second_select (sent x) (received y) chan w i = tt
context-Fits (returned e) s r chan w i = absurd (ground arith)

result-Fits :
    (c : Caller) (s : Sender) (r : Receiver) (e : Option PingError) (done : Bool) (t : System)
    → Fits c s r (some e)
    → take_result c e (system c s r (some e) done) ≡ some t
    → IsConsistent t
unfolding take_result
result-Fits first_select sending r e done t i h = absurd (cc (i.1))
result-Fits first_select (sent x) r none done t i h =
    subst IsConsistent (from_some h) (ap sent (sent_fully x (ground arith)), refl)
result-Fits first_select (sent x) not_started (some e) done t i h =
    subst IsConsistent (from_some h) tt
result-Fits first_select (sent x) receiving (some e) done t i h = absurd (cc (i.0))
result-Fits first_select (sent x) (received y) (some e) done t i h =
    subst IsConsistent (from_some h) tt
result-Fits second_select s not_started e done t i h = absurd i
result-Fits second_select s receiving e done t i h = absurd (cc (i.1))
result-Fits second_select s (received y) none done t i h =
    let (host, id, same) = answered y (ground arith) in
    subst IsConsistent (from_some h) (i.0, (host, id, ap received same))
result-Fits second_select sending (received y) (some e) done t i h = absurd (cc (i.0))
result-Fits second_select (sent x) (received y) (some e) done t i h =
    subst IsConsistent (from_some h) tt
result-Fits (returned e') s r e done t i h = absurd (cc)

-- A step of a system that is given by its fields.
fields-IsConsistent :
    (a : Action) (c : Caller) (s : Sender) (r : Receiver) (chan : Option (Option PingError))
    (done : Bool) (t : System)
    → Fits c s r chan
    → step a (system c s r chan done) ≡ some t
    → IsConsistent t
unfolding step take_context
fields-IsConsistent (sends x) c sending r none done t i h =
    subst IsConsistent (from_some h) (sends-Fits c r x i)
fields-IsConsistent (sends x) c sending r (some e) done t i h = absurd (cc)
fields-IsConsistent (sends x) c (sent y) r chan done t i h = absurd (cc)
fields-IsConsistent (receives x) c s not_started chan done t i h = absurd (cc)
fields-IsConsistent (receives x) c s receiving none done t i h =
    subst IsConsistent (from_some h) (receives-Fits c s x i)
fields-IsConsistent (receives x) c s receiving (some e) done t i h = absurd (cc)
fields-IsConsistent (receives x) c s (received y) chan done t i h = absurd (cc)
fields-IsConsistent ends_context c s r chan done t i h = subst IsConsistent (from_some h) i
fields-IsConsistent takes_context first_select s r chan true t i h =
    subst IsConsistent (from_some h) (context-Fits first_select s r chan (inl refl) i)
fields-IsConsistent takes_context first_select s r chan false t i h = absurd (cc)
fields-IsConsistent takes_context second_select s r chan true t i h =
    subst IsConsistent (from_some h) (context-Fits second_select s r chan (inr refl) i)
fields-IsConsistent takes_context second_select s r chan false t i h = absurd (cc)
fields-IsConsistent takes_context (returned e) s r chan done t i h = absurd (cc)
fields-IsConsistent takes_result c s r none done t i h = absurd (cc)
fields-IsConsistent takes_result c s r (some e) done t i h = result-Fits c s r e done t i h

step-IsConsistent :
    (a : Action) (s t : System) → IsConsistent s → step a s ≡ some t → IsConsistent t
step-IsConsistent a s t =
    fields-IsConsistent a s.caller s.sender s.receiver s.err_chan s.context_done t

pub run-IsConsistent :
    (actions : List Action) (s t : System)
    → IsConsistent s
    → run actions s ≡ some t
    → IsConsistent t
unfolding run
run-IsConsistent [] s t i h = subst IsConsistent (from_some h) i
run-IsConsistent (a ∷ rest) s t i h = elim (Option-cases (step a s)) [
  | inl stuck ↦ absurd (ground arith)
  | inr (u, e) ↦ run-IsConsistent rest u t (step-IsConsistent a s u i e) (ground arith)
]
