-- ===== src/Prelude/Text.antt =====
-- A Go string is the list of its bytes.
use Prim.Native.Char.{code}
use Prim.Native.String.{String}
use Prim.Native.Nat.{ℕ, ◌-◌}
use mathlib.Core.Path.{◌≡◌, refl, sym, ap, ◌∙◌}
use mathlib.Core.Logic.{◌↔◌}
use mathlib.Core.Bool.{Bool, true, ◌&&◌}
use mathlib.Core.List.{List, [], ◌∷◌, ◌++◌}
use native.Mathlib.Omega.{arith}
use gale_lb.Prelude.Tests.{leb, le→leb, if◌then◌else◌}
use gale_lb.Prelude.Lists.{
  length, take, drop, length-append, take-append_length, drop-append_length, take-append-drop,
}
use gale_lb.Prelude.Equality.{bytes_beq, bytes_beq_iff}

abbrev pub Str : Type 0
Str = List ℕ

-- The bytes of an ASCII literal.
abbrev pub codes : String → Str
codes String.[] = []
codes (String.◌∷◌ head rest) = code head ∷ codes rest

-- `strings.HasSuffix`
unfoldable pub has_suffix : Str → Str → Bool
has_suffix s suffix =
    leb (length suffix) (length s) && bytes_beq (drop (length s - length suffix) s) suffix

-- `strings.TrimSuffix`
unfoldable pub trim_suffix : Str → Str → Str
unfolding has_suffix
trim_suffix s suffix = if has_suffix s suffix then take (length s - length suffix) s else s

has_suffix-append : (s suffix : Str) → has_suffix (s ++ suffix) suffix ≡ true
unfolding has_suffix
has_suffix-append s suffix =
    let n : length (s ++ suffix) - length suffix ≡ length s =
      omega (arith, length-append s suffix) in
    rw (
      le→leb (length suffix) (length (s ++ suffix)) (omega (arith, length-append s suffix)),
      n,
      drop-append_length s suffix,
      (bytes_beq_iff suffix suffix).1 refl,
    )

-- Trimming takes off exactly what was put on.
pub trim_suffix-append : (s suffix : Str) → trim_suffix (s ++ suffix) suffix ≡ s
unfolding trim_suffix
trim_suffix-append s suffix =
    let n : length (s ++ suffix) - length suffix ≡ length s =
      omega (arith, length-append s suffix) in
    rw (has_suffix-append s suffix, n) (take-append_length s suffix)

has_suffix_sound :
    (s suffix : Str) → has_suffix s suffix ≡ true → s ≡ trim_suffix s suffix ++ suffix
unfolding trim_suffix
has_suffix_sound s suffix h =
    let front = take (length s - length suffix) s in
    let rest : drop (length s - length suffix) s ≡ suffix =
      (bytes_beq_iff (drop (length s - length suffix) s) suffix).0 (ground arith) in
    rw (h, trim_suffix) (sym (take-append-drop (length s - length suffix) s) ∙ ap (◌++◌ front) rest)

-- A text has a suffix if and only if something can be put in front of the suffix to give it.
pub has_suffix_iff :
    (s suffix : Str) → (has_suffix s suffix ≡ true) ↔ ((t : Str) × (s ≡ t ++ suffix))
has_suffix_iff s suffix = (
  λ h. (trim_suffix s suffix, has_suffix_sound s suffix h),
  λ (t, e). rw e (has_suffix-append t suffix),
)
