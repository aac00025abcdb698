-- ===== src/Util/Icmp/Tests.antt =====
-- The theorems on icmp.go at concrete schedules.
use gale_lb.Prelude.{ℕ, ◌≡◌, refl, [], ◌∷◌, none, some, Bool, nat_beq, if◌then◌else◌}
use gale_lb.Prelude.Text.{Str, codes}
use gale_lb.Util.Icmp.{
  context_ended, unexpected, written, parsed, sent, receiving, received, returned, System, start,
  sends, receives, ends_context, takes_context, takes_result, step, run,
}
use gale_lb.Util.Icmp.Finished.{
  SenderHandsOver, ReceiverHandsOver, returned_none, no_goroutine_waits, run-first_packet,
}

abbrev answered : System
answered = record start {
  sender = sent written;
  receiver = received (parsed (codes "10.0.0.7") 0 1);
  caller = returned none;
}

answered-run :
    run
      (sends written ∷ takes_result ∷ receives (parsed (codes "10.0.0.7") 0 1) ∷ takes_result ∷ [])
      start
    ≡ some answered
unfolding run step
answered-run = refl

returned_none_example :
    (answered.sender ≡ sent written)
    × ((host : Str) × (id : ℕ) × (answered.receiver ≡ received (parsed host 0 id)))
returned_none_example =
    returned_none
      (sends written ∷ takes_result ∷ receives (parsed (codes "10.0.0.7") 0 1) ∷ takes_result ∷ [])
      answered answered-run refl

-- The context ended while the receiver was reading.
abbrev given_up : System
given_up = record start {
  sender = sent written;
  receiver = receiving;
  caller = returned (some context_ended);
  context_done = Bool.true;
}

given_up-run :
    run (sends written ∷ takes_result ∷ ends_context ∷ takes_context ∷ []) start ≡ some given_up
unfolding run step
given_up-run = refl

no_goroutine_waits_example : SenderHandsOver given_up × ReceiverHandsOver given_up
no_goroutine_waits_example =
    no_goroutine_waits (sends written ∷ takes_result ∷ ends_context ∷ takes_context ∷ []) given_up
      given_up-run

run-first_packet_example :
    run
      (sends written ∷ takes_result ∷ receives (parsed (codes "10.9.9.9") 0 77) ∷ takes_result ∷ [])
      start
    ≡ some (record start {
      sender = sent written;
      receiver = received (parsed (codes "10.9.9.9") 0 77);
      caller = returned (if nat_beq 0 0 then none else some (unexpected 0));
    })
run-first_packet_example = run-first_packet (codes "10.9.9.9") 0 77
