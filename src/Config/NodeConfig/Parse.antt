-- ===== src/Config/NodeConfig/Parse.antt =====
-- Which load balancer addresses node/config.go accepts, and what becomes of them.
use mathlib.Core.Path.{subst}
use gale_lb.Prelude.{
  ℕ, ◌+◌, ◌≡◌, ◌↔◌, refl, ap, ◌∙◌, inl, inr, List, [], ◌∷◌, ◌++◌, none, some, arith, Option-cases,
  ok,
}
use gale_lb.Prelude.Int.{ℤ}
use gale_lb.Prelude.Text.{Str}
use gale_lb.Prelude.Decimal.{Lacks}
use gale_lb.Config.NodeConfig.{Address, cut, split_n, parse_address, parse_from, parse_lb_addresses}

cut-append :
    (sep : ℕ) (front rest : Str)
    → Lacks sep front
    → cut sep (front ++ sep ∷ rest) ≡ some (front, rest)
unfolding cut
cut-append sep [] rest h = ground arith
cut-append sep (c ∷ front) rest (ne, h) = ground (arith, cut-append sep front rest h)

cut-none : (sep : ℕ) (s : Str) → Lacks sep s → cut sep s ≡ none
unfolding cut
cut-none sep [] h = refl
cut-none sep (c ∷ s) (ne, h) = ground (arith, cut-none sep s h)

-- What a `cut` gives back when it succeeds.
cut_sound :
    (sep : ℕ) (s front rest : Str)
    → cut sep s ≡ some (front, rest)
    → (s ≡ front ++ sep ∷ rest) × Lacks sep front
unfolding cut
cut_sound sep [] front rest e = cc
cut_sound sep (c ∷ s) [] rest e = ground arith
cut_sound sep (c ∷ s) (x ∷ front) rest e = ground (arith, cut_sound sep s front rest)

-- What one entry says: a host name, an IP and the text of a port, joined by colons. Neither of the
-- first two holds a colon; the port is what `viper.GetInt` answers for the text.
abbrev pub Reads : (Str → ℤ) → Str → Address → Type 0
Reads get_int addr a =
    (p : Str) × (addr ≡ a.hostname ++ (b':' ∷ (a.ip ++ (b':' ∷ p))))
    × Lacks b':' a.hostname
    × Lacks b':' a.ip
    × (a.port ≡ get_int p)

module _ (get_int : Str → ℤ) where
  parse_address_complete :
      (idx : ℕ) (addr : Str) (a : Address)
      → Reads get_int addr a
      → parse_address get_int idx addr ≡ ok a
  unfolding parse_address split_n
  parse_address_complete idx addr a (p, e, hosts, ips, port) = rw e (
      ground
        (arith, cut-append b':' a.hostname (a.ip ++ (b':' ∷ p)) hosts, cut-append b':' a.ip p ips))

  parse_address_sound :
      (idx : ℕ) (addr : Str) (a : Address)
      → parse_address get_int idx addr ≡ ok a
      → Reads get_int addr a
  unfolding parse_address split_n
  parse_address_sound idx addr a e = elim (Option-cases (cut b':' addr)) [
    | inl missing ↦ absurd (ground arith)
    | inr ((host, rest), first) ↦ elim (Option-cases (cut b':' rest)) [
      | inl missing ↦ absurd (ground arith)
      | inr ((ip, port), second) ↦
          let (joined, host_free) = cut_sound b':' addr host rest first in
          let (joined', ip_free) = cut_sound b':' rest ip port second in
          let found : record { hostname = host; ip = ip; port = get_int port } ≡ a = ground arith in
          subst (Reads get_int addr) found
            (port, joined ∙ ap (λ r. host ++ b':' ∷ r) joined', host_free, ip_free, refl)
    ]
  ]

  -- The entries and the addresses, one by one.
  abbrev pub AllRead : List Str → List Address → Type 0
  AllRead [] [] = Unit {0}
  AllRead (addr ∷ addrs) (a ∷ found) = Reads get_int addr a × AllRead addrs found
  AllRead [] (a ∷ found) = ⊥
  AllRead (addr ∷ addrs) [] = ⊥

  parse_from_sound :
      (idx : ℕ) (addrs : List Str) (found : List Address)
      → parse_from get_int idx addrs ≡ ok found
      → AllRead addrs found
  unfolding parse_from
  parse_from_sound idx [] [] e = tt
  parse_from_sound idx [] (a ∷ found) e = absurd (ground arith)
  parse_from_sound idx (addr ∷ addrs) [] e = absurd (ground arith)
  parse_from_sound idx (addr ∷ addrs) (a ∷ found) e = (
    parse_address_sound idx addr a (ground arith),
    parse_from_sound (idx + 1) addrs found (ground arith),
  )

  parse_from_complete :
      (idx : ℕ) (addrs : List Str) (found : List Address)
      → AllRead addrs found
      → parse_from get_int idx addrs ≡ ok found
  unfolding parse_from
  parse_from_complete idx [] [] h = refl
  parse_from_complete idx [] (a ∷ found) h = absurd h
  parse_from_complete idx (addr ∷ addrs) [] h = absurd h
  parse_from_complete idx (addr ∷ addrs) (a ∷ found) (h, hs) =
      ground
        (arith, parse_address_complete idx addr a h, parse_from_complete (idx + 1) addrs found hs)

  -- The addresses are accepted exactly if each entry has the form `hostname:ip:port`, with no colon in
  -- the first two parts; each gives the address with these parts, whose port is what `viper.GetInt`
  -- answers for the text of the third.
  pub parse_lb_addresses_iff :
      (addrs : List Str) (found : List Address)
      → (parse_lb_addresses get_int addrs ≡ ok found) ↔ AllRead addrs found
  unfolding parse_lb_addresses
  parse_lb_addresses_iff addrs found =
      (parse_from_sound 0 addrs found, parse_from_complete 0 addrs found)
