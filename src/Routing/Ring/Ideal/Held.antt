-- ===== src/Routing/Ring/Ideal/Held.antt =====
-- Where no two nodes of a history share a hash, the map of the ring gives every virtual node of a member
-- to that member.
use mathlib.Core.Path.{subst}
use gale_lb.Prelude.{
  ℕ, ◌≡◌, ◌≢◌, ◌↔◌, refl, sym, ◌∙◌, inl, inr, some, List, [], ◌∷◌, arith, true, false, Bool-cases,
  Occurs,
}
use gale_lb.Prelude.Int.{ℤ}
use gale_lb.Prelude.Equality.{◌==◌, eq_iff, nat_eq}
use gale_lb.Prelude.Map.{lookup}
use gale_lb.Routing.Label.{AddrKey}
use gale_lb.Routing.Ring.{Hasher, new_ring, rounds, virtual_hashes}
use gale_lb.Routing.Ring.Members.{
  hashes_of, contains, contains_iff, add_node-lookup, remove_node-lookup,
}
use gale_lb.Routing.Ring.History.{Op, adds, removes, apply, run, IsMember, hashed, hashed_back}
use gale_lb.Routing.Ring.Ideal.{addr_eq, without, members, Named, IsApart}

IsMember-Named : (ops : List Op) (w : AddrKey) → IsMember w ops → Named w ops
IsMember-Named [] w m = m
IsMember-Named (adds node ∷ ops) w (inl e) = inl e
IsMember-Named (adds node ∷ ops) w (inr m) = inr (IsMember-Named ops w m)
IsMember-Named (removes node ∷ ops) w (ne, m) = inr (IsMember-Named ops w m)

without_iff :
    (node w : AddrKey) (ws : List AddrKey) → Occurs w (without node ws) ↔ ((w ≢ node) × Occurs w ws)
unfolding without
without_iff node w [] = (λ o. absurd o, λ o. o.1)
without_iff node w (v ∷ ws) = elim (Bool-cases (v == node)) [
  | inl same ↦
      let here : v ≡ node = (eq_iff v node).0 same in
      let (there, back) = without_iff node w ws in
      subst (λ l. Occurs w l ↔ ((w ≢ node) × Occurs w (v ∷ ws))) (sym (without_same ws v same))
        (
          λ o. let (ne, o) = there o in (ne, inr o),
          λ p. elim p.1 [ inl e ↦ absurd (p.0 (e ∙ here)) | inr o ↦ back (p.0, o) ],
        )
  | inr differ ↦
      let (there, back) = without_iff node w ws in
      subst (λ l. Occurs w l ↔ ((w ≢ node) × Occurs w (v ∷ ws))) (sym (without_other ws v differ))
        (
          λ o. elim o [
            | inl e ↦ (λ s. absurd (ground (arith, (eq_iff v node).1 (sym e ∙ s))), inl e)
            | inr o ↦ let (ne, o) = there o in (ne, inr o)
          ],
          λ p. elim p.1 [ inl e ↦ inl e | inr o ↦ inr (back (p.0, o)) ],
        )
]
  where
    without_same :
        (ws : List AddrKey) (v : AddrKey)
        → (v == node) ≡ true
        → without node (v ∷ ws) ≡ without node ws
    without_same ws v e = ground arith

    without_other :
        (ws : List AddrKey) (v : AddrKey)
        → (v == node) ≡ false
        → without node (v ∷ ws) ≡ v ∷ without node ws
    without_other ws v e = ground arith

pub members_iff : (ops : List Op) (w : AddrKey) → Occurs w (members ops) ↔ IsMember w ops
unfolding members
members_iff [] w = (λ o. o, λ o. o)
members_iff (adds node ∷ ops) w = (
  λ o. elim o [ inl e ↦ inl e | inr o ↦ inr ((members_iff ops w).0 o) ],
  λ m. elim m [ inl e ↦ inl e | inr m ↦ inr ((members_iff ops w).1 m) ],
)
members_iff (removes node ∷ ops) w = (
  λ o. let (ne, o) = (without_iff node w (members ops)).0 o in (ne, (members_iff ops w).0 o),
  λ m. (without_iff node w (members ops)).1 (m.0, (members_iff ops w).1 m.1),
)

module _ (hasher : Hasher) (n : ℤ) where
  pub lookup-member :
      (ops : List Op) (w : AddrKey) (q : ℕ)
      → IsApart hasher n ops
      → IsMember w ops
      → Occurs q (virtual_hashes hasher w 0 (rounds n))
      → lookup q (run ops (new_ring hasher n)).nodes ≡ some w
  unfolding run apply
  lookup-member [] w q apart m o = absurd m
  lookup-member (adds node ∷ ops) w q apart m o =
      elim (Bool-cases (contains q (hashes_of (run ops (new_ring hasher n)) node))) [
        | inl own ↦
            let same : node ≡ w =
              apart node w q (inl refl) (IsMember-Named (adds node ∷ ops) w m)
                (hashed hasher n ops node q ((contains_iff q _).0 own)) o in
            ground (arith, add_node-lookup (run ops (new_ring hasher n)) node q)
        | inr other ↦ elim m [
          | inl e ↦ absurd (
              ground (
                arith,
                (contains_iff q _).1 (
                    hashed_back hasher n ops node q
                      (subst (λ a. Occurs q (virtual_hashes hasher a 0 (rounds n))) e o)),
              ))
          | inr m ↦
              let earlier = lookup-member ops w q (λ u v p a b. apart u v p (inr a) (inr b)) m o in
              ground (arith, add_node-lookup (run ops (new_ring hasher n)) node q)
        ]
      ]
  lookup-member (removes node ∷ ops) w q apart (ne, m) o =
      elim (Bool-cases (contains q (hashes_of (run ops (new_ring hasher n)) node))) [
        | inl own ↦ absurd (
            ne (
              sym (
                apart node w q (inl refl) (inr (IsMember-Named ops w m))
                  (hashed hasher n ops node q ((contains_iff q _).0 own)) o)))
        | inr other ↦
            let earlier = lookup-member ops w q (λ u v p a b. apart u v p (inr a) (inr b)) m o in
            ground (arith, remove_node-lookup (run ops (new_ring hasher n)) node q)
      ]
