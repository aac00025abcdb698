-- ===== src/Util/Dns/Resolve.antt =====
-- The answers of dns.go: which names count as local, what is read from a reply, and what the choice of
-- DNS server decides.
use Prim.Native.Nat.add
use native.Mathlib.Nat.{zero-add}
use gale_lb.Prelude.{
  ℕ, ◌+◌, ◌-◌, ◌≤◌, ◌≡◌, ◌↔◌, refl, sym, ap, ◌∙◌, inl, inr, List, [], ◌∷◌, ◌++◌, Option, none, some,
  Bool, arith, false, ◌||◌, if◌then◌else◌, Bool-cases, length, get_elem?, ok, err,
}
use gale_lb.Prelude.Text.{Str, trim_suffix, trim_suffix-append, has_suffix_iff, has_suffix}
use gale_lb.Util.Ip.{Ip, ipv4}
use gale_lb.Util.Dns.{
  not_local, unresolved, top_level, normalize_mdns_hostname, read_reply, Resolver, parsed,
  try_resolvers,
}

-- A host name is accepted for multicast DNS exactly if it ends in ".local", and what is asked for is
-- the text in front of that.
normalize_mdns_hostname_iff :
    (hostname host : Str)
    → (normalize_mdns_hostname hostname ≡ ok host) ↔ (hostname ≡ host ++ top_level)
unfolding normalize_mdns_hostname
normalize_mdns_hostname_iff hostname host = (accepted, given)
  where
    accepted :
        (if has_suffix hostname top_level
            then ok (trim_suffix hostname top_level)
            else err not_local)
          ≡ ok host
        → hostname ≡ host ++ top_level
    accepted h = elim (Bool-cases (has_suffix hostname top_level)) [
      | inr no_suffix ↦ absurd (ground arith)
      | inl local ↦
          let (t, e) = (has_suffix_iff hostname top_level).0 local in
          let cut : trim_suffix hostname top_level ≡ t =
            ap (λ s. trim_suffix s top_level) e ∙ trim_suffix-append t top_level in
          let same : trim_suffix hostname top_level ≡ host = ground arith in
          e ∙ ap (λ s. s ++ top_level) (sym cut ∙ same)
    ]

    given :
        hostname ≡ host ++ top_level
        → (if has_suffix hostname top_level
            then ok (trim_suffix hostname top_level)
            else err not_local)
          ≡ ok host
    given e = rw (
      (has_suffix_iff hostname top_level).1 (host, e),
      ap (λ s. trim_suffix s top_level) e ∙ trim_suffix-append host top_level,
    )

get_elem?_behind :
    (pre rest : List ℕ) (i : ℕ) → get_elem? (pre ++ rest) (length pre + i) ≡ get_elem? rest i
get_elem?_behind [] rest i = rw zero-add
get_elem?_behind (x ∷ pre) rest i = rw add.suc (get_elem?_behind pre rest i)

-- A reply of 28 bytes or more that ends in four address bytes is read as that address, whatever the
-- rest of the buffer holds.
read_reply_lem :
    (pre padding : List ℕ) (a b c d : ℕ)
    → 24 ≤ length pre
    → read_reply (length pre + 4) (pre ++ a ∷ b ∷ c ∷ d ∷ padding) ≡ ok (ipv4 a b c d ∷ [])
unfolding read_reply
read_reply_lem pre padding a b c d long =
    ground (arith, at 0, at 1, at 2, at 3, index 4 0, index 3 1, index 2 2, index 1 3)
  where
    at :
        (i : ℕ)
        → get_elem? (pre ++ a ∷ b ∷ c ∷ d ∷ padding) (length pre + i)
          ≡ get_elem? (a ∷ b ∷ c ∷ d ∷ padding) i
    at = get_elem?_behind pre (a ∷ b ∷ c ∷ d ∷ padding)

    index : (k i : ℕ) → k + i ≡ 4 → length pre + 4 - k ≡ length pre + i
    index k i e = omega arith

module _ (net : Resolver) where
  -- Does some server accept a connection?
  abbrev pub any_dials : List Str → Bool
  any_dials [] = false
  any_dials (s ∷ ss) = net.dials s || any_dials ss

  -- What the system's resolver says of the name, as an answer of this file.
  abbrev pub system_answer : Str → Option (List Ip)
  system_answer hostname = elim (net.lookup_host hostname) [
    | none ↦ none
    | some [] ↦ none
    | some (s ∷ ss) ↦ some (parsed net (s ∷ ss))
  ]

  -- The DNS servers decide only whether there is an answer, not which: the name is resolved if one of
  -- them accepts a connection and the system's own resolver knows it, and the addresses are the
  -- system's.
  try_resolvers-eq_system :
      (hostname : Str) (servers : List Str)
      → try_resolvers net hostname servers
        ≡ (elim (if any_dials servers then system_answer hostname else none) [
          | none ↦ err (unresolved hostname)
          | some ips ↦ ok ips
        ])
  unfolding try_resolvers
  try_resolvers-eq_system hostname [] = refl
  try_resolvers-eq_system hostname (s ∷ ss) = ground (arith, try_resolvers-eq_system hostname ss)
