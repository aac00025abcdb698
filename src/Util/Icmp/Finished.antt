-- ===== src/Util/Icmp/Finished.antt =====
-- What a finished `Ping` of icmp.go means, and what it leaves behind.
use mathlib.Core.Path.{subst}
use gale_lb.Prelude.{
  ℕ, ◌≡◌, refl, ◌≢◌, ◌⊎◌, inl, inr, List, [], ◌∷◌, Option, none, some, arith, nat_beq,
  if◌then◌else◌,
}
use gale_lb.Prelude.Text.{Str}
use gale_lb.Util.Icmp.{
  PingError, unexpected, Sent, written, Received, parsed, send_icmp_echo_request,
  receive_icmp_echo_reply, Sender, sending, sent, Receiver, not_started, receiving, received,
  Caller, first_select, second_select, returned, System, start, Action, sends, receives,
  takes_result, step, run,
}
use gale_lb.Util.Icmp.Consistent.{Fits, IsConsistent, run-IsConsistent}

-- If `Ping` returns without an error, the request was written, and the packet that was read holds an
-- echo reply; host and identifier of the reply are open.
pub returned_none :
    (actions : List Action) (t : System)
    → run actions start ≡ some t
    → t.caller ≡ returned none
    → (t.sender ≡ sent written)
      × ((host : Str) × (id : ℕ) × (t.receiver ≡ received (parsed host 0 id)))
returned_none actions t h e =
    let i = run-IsConsistent actions start t (refl, refl) h in
    subst (λ c. Fits c t.sender t.receiver t.err_chan) e i

sender_free :
    (c : Caller) (r : Receiver) (chan : Option (Option PingError))
    → Fits c sending r chan
    → chan ≡ none
sender_free first_select r chan i = i.1
sender_free second_select not_started chan i = absurd i
sender_free second_select receiving chan i = i.1
sender_free second_select (received x) chan i = absurd (cc (i.0))
sender_free (returned none) r chan i = absurd (cc (i.0))
sender_free (returned (some e)) r chan i = i.1

receiver_free :
    (c : Caller) (s : Sender) (chan : Option (Option PingError))
    → Fits c s receiving chan
    → chan ≡ none
receiver_free first_select sending chan i = i.1
receiver_free first_select (sent x) chan i = absurd (cc (i.0))
receiver_free second_select s chan i = i.1
receiver_free (returned none) s chan (_, (host, id, e)) = absurd (cc (e))
receiver_free (returned (some e)) sending chan i = i.1
receiver_free (returned (some e)) (sent x) chan i = i

abbrev pub SenderHandsOver : System → Type 0
SenderHandsOver t = (t.sender ≢ sending) ⊎ ((x : Sent) → (u : System) × (step (sends x) t ≡ some u))

abbrev pub ReceiverHandsOver : System → Type 0
ReceiverHandsOver t =
    (t.receiver ≢ receiving) ⊎ ((x : Received) → (u : System) × (step (receives x) t ≡ some u))

sender_hands_over : (t : System) (s : Sender) → t.sender ≡ s → IsConsistent t → SenderHandsOver t
unfolding step
sender_hands_over t (sent x) e i = inl (λ w. cc)
sender_hands_over t sending e i =
    let free : t.err_chan ≡ none =
      sender_free t.caller t.receiver t.err_chan
        (subst (λ s. Fits t.caller s t.receiver t.err_chan) e i) in
    inr (λ x. (
      record t { err_chan = some (send_icmp_echo_request x); sender = sent x },
      ground (arith, e, free),
    ))

receiver_hands_over :
    (t : System) (r : Receiver) → t.receiver ≡ r → IsConsistent t → ReceiverHandsOver t
unfolding step
receiver_hands_over t not_started e i = inl (λ w. cc)
receiver_hands_over t (received x) e i = inl (λ w. cc)
receiver_hands_over t receiving e i =
    let free : t.err_chan ≡ none =
      receiver_free t.caller t.sender t.err_chan
        (subst (λ r. Fits t.caller t.sender r t.err_chan) e i) in
    inr (λ x. (
      record t { err_chan = some (receive_icmp_echo_reply x); receiver = received x },
      ground (arith, e, free),
    ))

-- In every state that a call of `Ping` comes to, also after it has returned, a goroutine that still runs
-- can hand over whatever it meets: none is left behind at the channel.
pub no_goroutine_waits :
    (actions : List Action) (t : System)
    → run actions start ≡ some t
    → SenderHandsOver t × ReceiverHandsOver t
no_goroutine_waits actions t h =
    let i = run-IsConsistent actions start t (refl, refl) h in
    (sender_hands_over t t.sender refl i, receiver_hands_over t t.receiver refl i)

-- `Ping` takes the first packet that is read for its answer: an echo reply of any host and with any
-- identifier is a success, any other message an error.
pub run-first_packet :
    (host : Str) (icmp_type id : ℕ)
    → run
        (sends written ∷ takes_result ∷ receives (parsed host icmp_type id) ∷ takes_result ∷ [])
        start
      ≡ some (record start {
        sender = sent written;
        receiver = received (parsed host icmp_type id);
        caller = returned (if nat_beq icmp_type 0 then none else some (unexpected icmp_type));
      })
unfolding run step
run-first_packet host icmp_type id = ground arith
