-- ===== src/Routing/Xdp/Detached.antt =====
-- What xdp.go leaves behind in the kernel.
use mathlib.Core.Path.{subst}
use gale_lb.Prelude.{◌≡◌, ◌≢◌, ◌⊎◌, inl, inr, arith, some, Option-cases, Result-cases, Bool-cases}
use gale_lb.Prelude.Int.{ℤ}
use gale_lb.Routing.Xdp.{
  Xdp, Ebpf, dnat_xdp_prog_name, snat_xdp_prog_name, get_interface_index, attach_snat, attach_both,
  use_collection, load_program,
}

-- What package ebpf documents about links: which are attached, and that closing one detaches it.
pub record LinkLaws (ebpf : Ebpf) : Type 1 where
  pub IsAttached : ebpf.Link → ebpf.Kernel → Type 0
  pub after_memlock :
      (k k' : ebpf.Kernel) (l : ebpf.Link)
      → ebpf.remove_memlock k ≡ some k'
      → IsAttached l k'
      → IsAttached l k
  pub after_new_collection :
      (k k' : ebpf.Kernel) (c : ebpf.Collection) (l : ebpf.Link)
      → ebpf.new_collection k ≡ some (c, k')
      → IsAttached l k'
      → IsAttached l k
  pub after_close_collection :
      (k : ebpf.Kernel) (c : ebpf.Collection) (l : ebpf.Link)
      → IsAttached l (ebpf.close_collection c k)
      → IsAttached l k
  pub after_attach :
      (k k' : ebpf.Kernel) (p : ebpf.Program) (index : ℤ) (made l : ebpf.Link)
      → ebpf.attach_xdp p index k ≡ some (made, k')
      → IsAttached l k'
      → (l ≡ made) ⊎ IsAttached l k
  pub after_close :
      (k : ebpf.Kernel) (closed l : ebpf.Link)
      → IsAttached l (ebpf.close_link closed k)
      → (l ≢ closed) × IsAttached l k

module _ (ebpf : Ebpf) (laws : LinkLaws ebpf) where
  open ebpf use {Kernel, Program, Collection, Link}
  open laws use {IsAttached}

  -- A link that was made and closed again is not left.
  closed_again :
      (p : Program) (index : ℤ) (k k' : Kernel) (made l : Link)
      → ebpf.attach_xdp p index k ≡ some (made, k')
      → (l ≢ made)
      → IsAttached l k'
      → IsAttached l k
  closed_again p index k k' made l e other h = elim (laws.after_attach k k' p index made l e h) [
    | inl same ↦ absurd (other same)
    | inr old ↦ old
  ]

  attach_snat_old :
      (snat : Program) (index : ℤ) (k : Kernel) (l : Link)
      → IsAttached l (attach_snat ebpf snat index k).1
      → IsAttached l k
  unfolding attach_snat
  attach_snat_old snat index k l h = elim (Option-cases (ebpf.attach_xdp snat index k)) [
    | inl e ↦
        let left : (attach_snat ebpf snat index k).1 ≡ k = ground arith in
        subst (IsAttached l) left h
    | inr ((made, k'), e) ↦
        let left : (attach_snat ebpf snat index k).1 ≡ ebpf.close_link made k' = ground arith in
        let (other, old) = laws.after_close k' made l (subst (IsAttached l) left h) in
        closed_again snat index k k' made l e other old
  ]

  attach_both_old :
      (dnat snat : Program) (pub_index priv_index : ℤ) (k : Kernel) (l : Link)
      → IsAttached l (attach_both ebpf dnat snat pub_index priv_index k).1
      → IsAttached l k
  unfolding attach_both
  attach_both_old dnat snat pub_index priv_index k l h =
      elim (Option-cases (ebpf.attach_xdp dnat pub_index k)) [
        | inl e ↦
            let left : (attach_both ebpf dnat snat pub_index priv_index k).1 ≡ k = ground arith in
            subst (IsAttached l) left h
        | inr ((made, k'), e) ↦
            let left : (attach_both ebpf dnat snat pub_index priv_index k).1
                ≡ ebpf.close_link made (attach_snat ebpf snat priv_index k').1 =
              ground arith in
            let (other, old) =
              laws.after_close (attach_snat ebpf snat priv_index k').1 made l
                (subst (IsAttached l) left h) in
            closed_again dnat pub_index k k' made l e other
              (attach_snat_old snat priv_index k' l old)
      ]

  -- Either nothing is attached with this collection, or both programs are tried.
  use_collection_kernel :
      (r : Xdp) (c : Collection) (k : Kernel)
      → ((use_collection ebpf r c k).1 ≡ k)
        ⊎ ((dnat : Program) × (snat : Program) × (pub_index : ℤ) × (priv_index : ℤ)
            × ((use_collection ebpf r c k).1
                ≡ (attach_both ebpf dnat snat pub_index priv_index k).1))
  unfolding use_collection
  use_collection_kernel r c k = elim (Option-cases (ebpf.programs c dnat_xdp_prog_name)) [
    | inl e ↦ inl (ground arith)
    | inr (dnat, e) ↦ elim (Option-cases (ebpf.programs c snat_xdp_prog_name)) [
      | inl e' ↦ inl (ground arith)
      | inr (snat, e') ↦ elim (Result-cases (get_interface_index ebpf r.pub_net_interface)) [
        | inr (x, f) ↦ inl (ground arith)
        | inl (pub_index, f) ↦ elim (Result-cases (get_interface_index ebpf r.priv_net_interface)) [
          | inr (x, f') ↦ inl (ground arith)
          | inl (priv_index, f') ↦ inr (dnat, snat, pub_index, priv_index, ground arith)
        ]
      ]
    ]
  ]

  use_collection_old :
      (r : Xdp) (c : Collection) (k : Kernel) (l : Link)
      → IsAttached l (use_collection ebpf r c k).1
      → IsAttached l k
  use_collection_old r c k l h = elim (use_collection_kernel r c k) [
    | inl left ↦ subst (IsAttached l) left h
    | inr (dnat, snat, pub_index, priv_index, left) ↦
        attach_both_old dnat snat pub_index priv_index k l (subst (IsAttached l) left h)
  ]

  -- With links that behave as package ebpf documents: when `loadProgram` returns, with or without
  -- an error, no link is attached that was not attached before.
  pub load_program_attaches_nothing :
      (r : Xdp) (k : Kernel) (l : Link) → IsAttached l (load_program ebpf r k).1 → IsAttached l k
  unfolding load_program
  load_program_attaches_nothing r k l h = elim (Option-cases (ebpf.remove_memlock k)) [
    | inl e ↦ let left : (load_program ebpf r k).1 ≡ k = ground arith in subst (IsAttached l) left h
    | inr (unlocked, e) ↦ elim (Bool-cases ebpf.loads_spec) [
      | inr broken ↦
          let left : (load_program ebpf r k).1 ≡ unlocked = ground arith in
          laws.after_memlock k unlocked l e (subst (IsAttached l) left h)
      | inl fine ↦ elim (Option-cases (ebpf.new_collection unlocked)) [
        | inl f ↦
            let left : (load_program ebpf r k).1 ≡ unlocked = ground arith in
            laws.after_memlock k unlocked l e (subst (IsAttached l) left h)
        | inr ((c, loaded), f) ↦
            let after = (use_collection ebpf r c loaded).1 in
            let left : (load_program ebpf r k).1 ≡ ebpf.close_collection c after = ground arith in
            laws.after_memlock k unlocked l e (
              laws.after_new_collection unlocked loaded c l f (
                use_collection_old r c loaded l
                  (laws.after_close_collection after c l (subst (IsAttached l) left h))))
      ]
    ]
  ]
