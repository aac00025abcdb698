-- ===== src/Node/Dispatcher/Due.antt =====
-- How many reports the health loops of dispatcher.go still come to, once their context is canceled.
use gale_lb.Prelude.{
  ℕ, ◌+◌, ◌≤◌, ◌≡◌, inl, inr, [], ◌∷◌, some, Bool, true, arith, Bool-cases, if◌then◌else◌,
}
use gale_lb.Prelude.Equality.{◌==◌, nat_eq}
use gale_lb.Prelude.Map.{Map, lookup, insert, delete, lookup-insert}
use gale_lb.Node.Dispatcher.{Loop, At, head, testing, sending, is_canceled}

-- How many loops have begun a round.
abbrev pub has_begun : At → ℕ
has_begun head = 0
has_begun _ = 1

abbrev pub rounds_begun : Map ℕ Loop → ℕ
rounds_begun [] = 0
rounds_begun ((i, l) ∷ loops) = has_begun l.at + rounds_begun loops

-- The reports that the loops still come to, while the context that the field holds is canceled.
abbrev pub due : Map ℕ Bool → At → ℕ
due contexts head = 0
due contexts (testing ctx) = if is_canceled contexts ctx then 0 else 1
due contexts sending = 1

unfoldable pub total : Map ℕ Bool → Map ℕ Loop → ℕ
total contexts [] = 0
total contexts ((i, l) ∷ loops) = due contexts l.at + total contexts loops

pub total-insert :
    (contexts : Map ℕ Bool) (i : ℕ) (old l : Loop) (loops : Map ℕ Loop)
    → lookup i loops ≡ some old
    → total contexts (insert i l loops) + due contexts old.at
      ≡ total contexts loops + due contexts l.at
unfolding total insert lookup
total-insert contexts i old l [] found = absurd (cc)
total-insert contexts i old l ((j, k) ∷ loops) found = elim (Bool-cases (j == i)) [
  | inl hit ↦ ground (arith)
  | inr miss ↦ ground (arith, total-insert contexts i old l loops)
]

pub total-insert_le :
    (contexts : Map ℕ Bool) (i : ℕ) (l : Loop) (loops : Map ℕ Loop)
    → total contexts (insert i l loops) ≤ total contexts loops + due contexts l.at
unfolding total insert
total-insert_le contexts i l [] = omega arith
total-insert_le contexts i l ((j, k) ∷ loops) = ground (arith, total-insert_le contexts i l loops)

pub total-delete_le :
    (contexts : Map ℕ Bool) (i : ℕ) (loops : Map ℕ Loop)
    → total contexts (delete i loops) ≤ total contexts loops
unfolding total delete
total-delete_le contexts i [] = omega arith
total-delete_le contexts i ((j, k) ∷ loops) = ground (arith, total-delete_le contexts i loops)

due-cancel :
    (contexts : Map ℕ Bool) (ctx : ℕ) (a : At) → due (insert ctx true contexts) a ≤ due contexts a
unfolding is_canceled
due-cancel contexts ctx head = omega arith
due-cancel contexts ctx sending = omega arith
due-cancel contexts ctx (testing c) = elim (Bool-cases (ctx == c)) [
  | inl same ↦ ground (arith, lookup-insert ctx c true contexts)
  | inr apart ↦ ground (arith, lookup-insert ctx c true contexts)
]

pub total-cancel :
    (contexts : Map ℕ Bool) (ctx : ℕ) (loops : Map ℕ Loop)
    → total (insert ctx true contexts) loops ≤ total contexts loops
unfolding total
total-cancel contexts ctx [] = omega arith
total-cancel contexts ctx ((i, l) ∷ loops) =
    omega (arith, due-cancel contexts ctx l.at, total-cancel contexts ctx loops)

pub total-rounds_begun :
    (contexts : Map ℕ Bool) (loops : Map ℕ Loop) → total contexts loops ≤ rounds_begun loops
unfolding total
total-rounds_begun contexts [] = omega arith
total-rounds_begun contexts ((i, l) ∷ loops) =
    omega (arith, at_most l.at, total-rounds_begun contexts loops)
  where
    at_most : (a : At) → due contexts a ≤ has_begun a
    at_most head = omega arith
    at_most (testing ctx) = ground arith
    at_most sending = omega arith
