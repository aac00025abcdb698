-- ===== src/Routing/Xdp/Tests.antt =====
-- The theorem on xdp.go over a concrete stand-in for the kernel with two network cards.
use mathlib.Core.Path.{sym, subst}
use gale_lb.Prelude.{
  zero, suc, ◌≡◌, ◌≢◌, refl, ◌⊎◌, inl, inr, arith, [], ◌∷◌, Option, none, some, Bool, true, false,
  ok, if◌then◌else◌,
}
use gale_lb.Prelude.Int.{ℤ, pos, negsuc}
use gale_lb.Prelude.Text.{codes}
use gale_lb.Routing.Xdp.{Xdp, Ebpf, new_xdp, load_program}
use gale_lb.Routing.Xdp.Detached.{LinkLaws, load_program_attaches_nothing}

-- Which of the two cards has a program attached; a second one is refused.
abbrev Cards : Type 0
Cards = Bool × Bool

abbrev attach : ℤ → Cards → Option (Bool × Cards)
attach (pos zero) (on, other) = if on then none else some (true, (true, other))
attach _ (other, on) = if on then none else some (false, (other, true))

abbrev close : Bool → Cards → Cards
close true k = (false, k.1)
close false k = (k.0, false)

abbrev IsOn : Bool → Cards → Type 0
IsOn true k = k.0 ≡ true
IsOn false k = k.1 ≡ true

abbrev toy : Ebpf
toy = record {
  Kernel = Cards;
  Program = Unit {0};
  Collection = Unit {0};
  Link = Bool;
  remove_memlock = λ k. some k;
  loads_spec = true;
  new_collection = λ k. some (tt, k);
  programs = λ c name. some tt;
  close_collection = λ c k. k;
  interface_by_name = λ name. elim name [ [] ↦ some (pos 0) | ◌∷◌ c rest ↦ some (pos 1) ];
  attach_xdp = λ p index k. attach index k;
  close_link = close;
}

toy_after_attach :
    (k k' : Cards) (index : ℤ) (made l : Bool)
    → attach index k ≡ some (made, k')
    → IsOn l k'
    → (l ≡ made) ⊎ IsOn l k
toy_after_attach k k' (pos zero) made true e h = inl (ground arith)
toy_after_attach k k' (pos zero) made false e h = inr (ground arith)
toy_after_attach k k' (pos (suc n)) made true e h = inr (ground arith)
toy_after_attach k k' (pos (suc n)) made false e h = inl (ground arith)
toy_after_attach k k' (negsuc n) made true e h = inr (ground arith)
toy_after_attach k k' (negsuc n) made false e h = inl (ground arith)

toy_after_close : (k : Cards) (closed l : Bool) → IsOn l (close closed k) → (l ≢ closed) × IsOn l k
toy_after_close k true true h = absurd (cc)
toy_after_close k true false h = ((λ e. cc), h)
toy_after_close k false true h = ((λ e. cc), h)
toy_after_close k false false h = absurd (cc)

toy_same :
    (k k' : Cards) (l : Bool) → ◌≡◌ {A = Option Cards} (some k) (some k') → IsOn l k' → IsOn l k
toy_same k k' l e h = let same : k ≡ k' = ground arith in subst (IsOn l) (sym same) h

toy_kept :
    (k k' : Cards) (c : Unit {0}) (l : Bool)
    → ◌≡◌ {A = Option (Unit {0} × Cards)} (some (tt, k)) (some (c, k'))
    → IsOn l k'
    → IsOn l k
toy_kept k k' c l e h = toy_same k k' l (ground arith) h

abbrev toy_laws : LinkLaws toy
toy_laws = record {
  IsAttached = IsOn;
  after_memlock = λ k k' l e h. toy_same k k' l e h;
  after_new_collection = λ k k' c l e h. toy_kept k k' c l e h;
  after_close_collection = λ k c l h. h;
  after_attach = λ k k' p index made l e h. toy_after_attach k k' index made l e h;
  after_close = toy_after_close;
}

abbrev router_prog : Xdp
router_prog = new_xdp (codes "") (codes "eth0") (pos 8080)

-- Both programs are found and attached, and the call succeeds.
router_prog_loads : load_program toy router_prog (false, false) ≡ (ok tt, (false, false))
unfolding load_program new_xdp
router_prog_loads = refl

-- The program that another process attached to the second card makes the call fail, and is still there.
still-IsOn : IsOn false (load_program toy router_prog (false, true)).1
unfolding load_program new_xdp
still-IsOn = refl

load_program_attaches_nothing_example : IsOn false (false, true)
load_program_attaches_nothing_example =
    load_program_attaches_nothing toy toy_laws router_prog (false, true) false still-IsOn
