-- ===== src/NodeManager/Process/Others.antt =====
-- What a health stream of node_manager.go sees of the clock, of the other streams and of a write to its own
-- entry.
use gale_lb.Prelude.{ℕ, ◌+◌, ◌≡◌, ◌⊎◌, refl, inl, inr, [], ◌∷◌, some, false, arith, Bool-cases}
use gale_lb.Prelude.Equality.{◌==◌, nat_eq, bytes_eq, eq_iff}
use gale_lb.Prelude.Map.{Map, lookup, insert, lookup-insert}
use gale_lb.Prelude.Text.{Str}
use gale_lb.Consensus.{Rpc}
use gale_lb.Registry.History.{Call, apply}
use gale_lb.NodeManager.Stream.{
  Listener, receiving, sending_last, sending_error, sending_message, done, panicked, System, waits,
  others, act,
}
use gale_lb.NodeManager.Process.{Stream, has_panicked, has_crashed}

-- A stream of a process that has not crashed can wait, and can see a call about another node.
module _ (rpc : Rpc) (node_key : Str) (timeout : ℕ) where
  open rpc use {RpcError}

  pub act-others :
      (l : Listener RpcError) (c : Call) (s : System RpcError)
      → has_panicked l ≡ false
      → act rpc node_key timeout l (others c) s ≡ some (record s { registry = apply c s.registry })
  unfolding act
  act-others receiving c s sane = refl
  act-others (sending_last e) c s sane = refl
  act-others (sending_error e req) c s sane = refl
  act-others (sending_message req) c s sane = refl
  act-others done c s sane = refl
  act-others panicked c s sane = absurd (cc)

  pub act-waits :
      (l : Listener RpcError) (d : ℕ) (s : System RpcError)
      → has_panicked l ≡ false
      → act rpc node_key timeout l (waits d) s ≡ some (record s { now = s.now + d })
  unfolding act
  act-waits receiving d s sane = refl
  act-waits (sending_last e) d s sane = refl
  act-waits (sending_error e req) d s sane = refl
  act-waits (sending_message req) d s sane = refl
  act-waits done d s sane = refl
  act-waits panicked d s sane = absurd (cc)

pub has_panicked-lookup :
    {E : Type 0} (i : ℕ) (st : Stream E) (streams : Map ℕ (Stream E))
    → has_crashed streams ≡ false
    → lookup i streams ≡ some st
    → has_panicked st.listener ≡ false
unfolding has_crashed lookup
has_panicked-lookup i st [] sane e = absurd (cc)
has_panicked-lookup i st ((j, su) ∷ streams) sane e = elim (Bool-cases (j == i)) [
  | inl hit ↦ ground arith
  | inr miss ↦ has_panicked-lookup i st streams (ground arith) (ground arith)
]

-- After a write at `i`, a stream that is found was written, or is found before.
pub found_cases :
    {E : Type 0} (i j : ℕ) (st su : Stream E) (streams : Map ℕ (Stream E))
    → lookup j (insert i st streams) ≡ some su
    → ((i ≡ j) × (st ≡ su)) ⊎ (((i == j) ≡ false) × (lookup j streams ≡ some su))
found_cases i j st su streams e = elim (Bool-cases (i == j)) [
  | inl same ↦ inl ((eq_iff i j).0 same, ground (arith, lookup-insert i j st streams))
  | inr other ↦ inr (other, ground (arith, lookup-insert i j st streams))
]
