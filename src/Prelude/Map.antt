-- ===== src/Prelude/Map.antt =====
-- Go's `map[K]V` as an association list that holds each key at most once.
use mathlib.Core.Path.{◌≡◌, refl, sym}
use mathlib.Core.Logic.{◌↔◌, inl, inr}
use mathlib.Core.List.{List, [], ◌∷◌}
use mathlib.Core.Option.{Option, none, some}
use native.Mathlib.Omega.{arith}
use gale_lb.Prelude.Tests.{if◌then◌else◌, Bool-cases}
use gale_lb.Prelude.Lists.{Occurs}
use gale_lb.Prelude.Equality.{Key, ◌==◌, eq_iff}

abbrev pub Map {ℓ κ} : Type ℓ → Type κ → Type (ℓ ⊔ κ)
Map K V = List (K × V)

-- The keys, in the order in which `range` meets them.
unfoldable pub keys {ℓ κ} : {K : Type ℓ} {V : Type κ} → Map K V → List K
keys [] = []
keys ((j, w) ∷ m) = j ∷ keys m

module _ {ℓ κ} {K : Type ℓ} {V : Type κ} ⦃key : Key K⦄ where
  -- `v, ok := m[k]`
  unfoldable pub lookup : K → Map K V → Option V
  lookup wanted [] = none
  lookup wanted (entry ∷ rest) = if entry.0 == wanted then some entry.1 else lookup wanted rest

  -- `m[k] = v`
  unfoldable pub insert : K → V → Map K V → Map K V
  insert k v [] = (k, v) ∷ []
  insert k v (entry ∷ rest) = if entry.0 == k then (k, v) ∷ rest else entry ∷ insert k v rest

  -- `delete(m, k)`
  unfoldable pub delete : K → Map K V → Map K V
  delete k [] = []
  delete k ((j, w) ∷ m) = if j == k then delete k m else (j, w) ∷ delete k m

  -- A read after a write finds what was written, and else what stood there before.
  pub lookup-insert :
      (written read : K) (v : V) (m : Map K V)
      → lookup read (insert written v m) ≡ (if written == read then some v else lookup read m)
  unfolding lookup insert
  lookup-insert written read v [] = refl
  lookup-insert written read v (entry ∷ rest) = ground (
    arith,
    lookup-insert written read v rest,
    eq_iff entry.0 written,
    eq_iff entry.0 read,
    eq_iff written read,
  )

  pub lookup-delete :
      (k j : K) (m : Map K V) → lookup j (delete k m) ≡ (if k == j then none else lookup j m)
  unfolding lookup delete
  lookup-delete k j [] = ground arith
  lookup-delete k j ((i, w) ∷ m) =
      ground (arith, eq_iff k j, eq_iff i k, eq_iff i j, lookup-delete k j m)

-- `range` meets the keys that a read finds.
module _ {K V : Type 0} ⦃key : Key K⦄ where
  pub Occurs-keys_iff :
      (k : K) (m : Map K V) → Occurs k (keys m) ↔ ((v : V) × (lookup k m ≡ some v))
  unfolding lookup keys
  Occurs-keys_iff k [] = (λ o. absurd o, λ (v, h). cc)
  Occurs-keys_iff k ((j, w) ∷ m) = elim (Bool-cases (j == k)) [
    | inl hit ↦ rw hit (λ _. (w, refl), λ _. inl (sym ((eq_iff j k).0 hit)))
    | inr miss ↦ rw miss (
      λ o. ground (arith, (Occurs-keys_iff k m).0, eq_iff j k),
      λ s. inr ((Occurs-keys_iff k m).1 s),
    )
  ]
