-- ===== src/Node/Targets/Table.antt =====
-- The table of targets that cmd/node/main.go builds: nothing is lost, nothing is made up.
use gale_lb.Prelude.{
  ℕ, ◌+◌, ◌≡◌, ◌⊎◌, sym, ap, ◌∙◌, inl, inr, List, [], ◌∷◌, some, arith, Bool-cases, Result-cases,
  ok, err,
}
use gale_lb.Prelude.Int.{int_eq}
use gale_lb.Prelude.Equality.{◌==◌, bytes_eq, eq_iff, eq_refl}
use gale_lb.Prelude.Map.{Map, lookup, insert, lookup-insert}
use gale_lb.Prelude.Decimal.{IsDigit, print_int, print_int_injective, print_int-Lacks, cut_last}
use gale_lb.Prelude.Text.{Str}
use gale_lb.Config.NodeConfig.{Address}
use gale_lb.Util.Dns.{Resolver}
use gale_lb.Node.Targets.{
  Target, target_string, TargetError, target_of, retrieve_from, retrieve_ip_and_ports,
}

not-IsDigit_colon : ¬ IsDigit b':'
not-IsDigit_colon h = omega arith

-- Targets with the same key are the same, whatever their IP texts hold.
target_string_injective : (t u : Target) → target_string t ≡ target_string u → t ≡ u
unfolding target_string
target_string_injective t u e =
    let (ips, ports) =
      cut_last b':' t.ip u.ip (print_int t.port) (print_int u.port)
        (print_int-Lacks b':' t.port not-IsDigit_colon (omega arith))
        (print_int-Lacks b':' u.port not-IsDigit_colon (omega arith)) e in
    let same = print_int_injective t.port u.port ports in λ i. record { ip = ips i; port = same i }

module _ (net : Resolver) where
  -- Each entry of the table stands under its own key.
  abbrev pub Keyed : Map Str Target → Type 0
  Keyed m = (k : Str) (t : Target) → lookup k m ≡ some t → k ≡ target_string t

  insert-Keyed : (t : Target) (m : Map Str Target) → Keyed m → Keyed (insert (target_string t) t m)
  insert-Keyed t m h k u e = elim (Bool-cases (target_string t == k)) [
    | inl same ↦
        let there : t ≡ u = ground (arith, lookup-insert (target_string t) k t m) in
        sym ((eq_iff (target_string t) k).0 same) ∙ ap target_string there
    | inr other ↦ h k u (ground (arith, lookup-insert (target_string t) k t m))
  ]

  -- An entry stays in the table once it is there.
  kept :
      (t u : Target) (m : Map Str Target)
      → lookup (target_string u) m ≡ some u
      → lookup (target_string u) (insert (target_string t) t m) ≡ some u
  kept t u m e =
      lookup-insert (target_string t) (target_string u) t m
      ∙ elim (Bool-cases (target_string t == target_string u)) [
        | inl same ↦ rw same (
            ap some
              (target_string_injective t u ((eq_iff (target_string t) (target_string u)).0 same)))
        | inr other ↦ rw other e
      ]

  retrieve_from_good :
      (idx : ℕ) (m : Map Str Target) (a : Address) (addresses : List Address) (t : Target)
      → target_of net idx a ≡ ok t
      → retrieve_from net idx m (a ∷ addresses)
        ≡ retrieve_from net (idx + 1) (insert (target_string t) t m) addresses
  unfolding retrieve_from
  retrieve_from_good idx m a addresses t e = rw (e, retrieve_from)

  retrieve_from_bad :
      (idx : ℕ) (m : Map Str Target) (a : Address) (addresses : List Address) (x : TargetError)
      → target_of net idx a ≡ err x
      → retrieve_from net idx m (a ∷ addresses) ≡ err x
  unfolding retrieve_from
  retrieve_from_bad idx m a addresses x e = rw (e, retrieve_from)

  retrieve_from_end :
      (idx : ℕ) (m found : Map Str Target) → retrieve_from net idx m [] ≡ ok found → m ≡ found
  unfolding retrieve_from
  retrieve_from_end idx m found e = cc

  -- A loop that succeeded found a target for its first address, and went on.
  retrieve_from_cons :
      (idx : ℕ) (m found : Map Str Target) (a : Address) (addresses : List Address)
      → retrieve_from net idx m (a ∷ addresses) ≡ ok found
      → (t : Target) × (target_of net idx a ≡ ok t)
        × (retrieve_from net (idx + 1) (insert (target_string t) t m) addresses ≡ ok found)
  retrieve_from_cons idx m found a addresses e = elim (Result-cases (target_of net idx a)) [
    | inr (x, bad) ↦ let failed = sym e ∙ retrieve_from_bad idx m a addresses x bad in absurd (cc)
    | inl (t, good) ↦ (t, good, sym (retrieve_from_good idx m a addresses t good) ∙ e)
  ]

  retrieve_from_keeps :
      (idx : ℕ) (m found : Map Str Target) (addresses : List Address) (u : Target)
      → retrieve_from net idx m addresses ≡ ok found
      → lookup (target_string u) m ≡ some u
      → lookup (target_string u) found ≡ some u
  retrieve_from_keeps idx m found [] u e h =
      ap (lookup (target_string u)) (sym (retrieve_from_end idx m found e)) ∙ h
  retrieve_from_keeps idx m found (a ∷ addresses) u e h =
      let (t, good, rest) = retrieve_from_cons idx m found a addresses e in
      retrieve_from_keeps (idx + 1) (insert (target_string t) t m) found addresses u rest
        (kept t u m h)

  -- Each address, from the index `idx` on, has its target in the table.
  abbrev pub AllFound : Map Str Target → ℕ → List Address → Type 0
  AllFound found idx [] = Unit {0}
  AllFound found idx (a ∷ addresses) =
      ((t : Target) × (target_of net idx a ≡ ok t) × (lookup (target_string t) found ≡ some t))
      × AllFound found (idx + 1) addresses

  -- The target is that of one of the addresses.
  abbrev pub ComesFrom : Target → ℕ → List Address → Type 0
  ComesFrom t idx [] = ⊥
  ComesFrom t idx (a ∷ addresses) = (target_of net idx a ≡ ok t) ⊎ ComesFrom t (idx + 1) addresses

  retrieve_from-AllFound :
      (idx : ℕ) (m found : Map Str Target) (addresses : List Address)
      → retrieve_from net idx m addresses ≡ ok found
      → AllFound found idx addresses
  retrieve_from-AllFound idx m found [] e = tt
  retrieve_from-AllFound idx m found (a ∷ addresses) e =
      let (t, good, rest) = retrieve_from_cons idx m found a addresses e in
      let now : lookup (target_string t) (insert (target_string t) t m) ≡ some t =
        lookup-insert (target_string t) (target_string t) t m ∙ rw (eq_refl (target_string t)) in
      (
        (
          t,
          good,
          retrieve_from_keeps (idx + 1) (insert (target_string t) t m) found addresses t rest now,
        ),
        retrieve_from-AllFound (idx + 1) (insert (target_string t) t m) found addresses rest,
      )

  retrieve_from-ComesFrom :
      (idx : ℕ) (m found : Map Str Target) (addresses : List Address) (k : Str) (u : Target)
      → retrieve_from net idx m addresses ≡ ok found
      → Keyed m
      → lookup k found ≡ some u
      → (k ≡ target_string u) × ((lookup k m ≡ some u) ⊎ ComesFrom u idx addresses)
  retrieve_from-ComesFrom idx m found [] k u e h at =
      let here : lookup k m ≡ some u = ap (lookup k) (retrieve_from_end idx m found e) ∙ at in
      (h k u here, inl here)
  retrieve_from-ComesFrom idx m found (a ∷ addresses) k u e h at =
      let (t, good, rest) = retrieve_from_cons idx m found a addresses e in
      let (keyed, origin) =
        retrieve_from-ComesFrom (idx + 1) (insert (target_string t) t m) found addresses k u rest
          (insert-Keyed t m h) at in
      (
        keyed,
        elim origin [
          | inr later ↦ inr (inr later)
          | inl now ↦ elim (Bool-cases (target_string t == k)) [
            | inl same ↦
                let there : t ≡ u = ground (arith, lookup-insert (target_string t) k t m) in
                inr (inl (good ∙ ap ok there))
            | inr other ↦ inl (ground (arith, lookup-insert (target_string t) k t m))
          ]
        ],
      )

  no_entry : (k : Str) (t : Target) → ¬ (lookup {V = Target} k [] ≡ some t)
  unfolding lookup
  no_entry k t e = cc

  -- If the table is built, every configured address has its target in it, under the target's text, and
  -- every entry is the target of a configured address: no address is lost, also where texts are alike.
  pub retrieve_ip_and_ports_sound :
      (addresses : List Address) (found : Map Str Target)
      → retrieve_ip_and_ports net addresses ≡ ok found
      → AllFound found 0 addresses
        × ((k : Str) (t : Target)
            → lookup k found ≡ some t
            → (k ≡ target_string t) × ComesFrom t 0 addresses)
  unfolding retrieve_ip_and_ports
  retrieve_ip_and_ports_sound addresses found e = (
    retrieve_from-AllFound 0 [] found addresses e,
    λ k t at.
        let (keyed, origin) =
          retrieve_from-ComesFrom 0 [] found addresses k t e
            (λ j u none_yet. absurd (no_entry j u none_yet)) at in
        (keyed, elim origin [ inl early ↦ absurd (no_entry k t early) | inr later ↦ later ]),
  )
