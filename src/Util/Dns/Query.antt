-- ===== src/Util/Dns/Query.antt =====
-- The query of dns.go, read back by a parser of DNS questions (RFC 1035, sections 4.1.1 and 4.1.2).
use mathlib.Core.List.{append_assoc}
use gale_lb.Prelude.{
  ℕ, zero, suc, ◌+◌, ◌*◌, ◌%◌, ◌≤◌, ◌<◌, ◌≡◌, refl, ◌∙◌, List, [], ◌∷◌, ◌++◌, Option, none, some,
  arith, false, ltb, nat_beq, if◌then◌else◌, length, take, drop, length-append, take-append_length,
  drop-append_length,
}
use gale_lb.Prelude.Text.{Str, codes}
use gale_lb.Util.Dns.{construct_mdns_query}

infixl 5 ◌>>=◌
abbrev ◌>>=◌ : {A B : Type 0} → Option A → (A → Option B) → Option B
none >>= f = none
some a >>= f = f a

-- A 16-bit number in network order, and what follows it.
read16 : List ℕ → Option (ℕ × List ℕ)
read16 [] = none
read16 (hi ∷ []) = none
read16 (hi ∷ lo ∷ rest) = some (hi * 256 + lo, rest)

-- Labels up to the empty one; a label has 63 bytes at most.
read_labels : ℕ → List ℕ → Option (List Str × List ℕ)
read_labels zero bytes = none
read_labels (suc fuel) [] = none
read_labels (suc fuel) (n ∷ bytes) =
    let more = read_labels fuel (drop n bytes) >>= λ r. some (take n bytes ∷ r.0, r.1) in
    if nat_beq n 0
    then some ([], bytes)
    else if ltb 63 n
    then none
    else if ltb (length bytes) n
    then none
    else more

pub record Message : Type 0 where
  pub id : ℕ
  pub flags : ℕ
  pub counts : List ℕ
  pub labels : List Str
  pub qtype : ℕ
  pub qclass : ℕ

-- A message with one question, and nothing behind it.
pub decode : List ℕ → Option Message
unfolding read16 read_labels
decode bytes = do
  (id, s1) ← read16 bytes
  (flags, s2) ← read16 s1
  (questions, s3) ← read16 s2
  (answers, s4) ← read16 s3
  (authorities, s5) ← read16 s4
  (additionals, s6) ← read16 s5
  (labels, s7) ← read_labels (length s6) s6
  (qtype, s8) ← read16 s7
  (qclass, s9) ← read16 s8
  let message : Message = record {
    id = id;
    flags = flags;
    counts = questions ∷ answers ∷ authorities ∷ additionals ∷ [];
    labels = labels;
    qtype = qtype;
    qclass = qclass;
  }
  elim s9 [ [] ↦ some message | _ ↦ none ]

read_label :
    (fuel : ℕ) (p rest : List ℕ)
    → 0 < length p
    → length p ≤ 63
    → read_labels (suc fuel) (length p ∷ p ++ rest)
      ≡ (read_labels fuel rest >>= λ r. some (p ∷ r.0, r.1))
unfolding read_labels
read_label fuel p rest pos small =
    let room : ltb (length (p ++ rest)) (length p) ≡ false = ground (arith, length-append p rest) in
    let some_bytes : nat_beq (length p) 0 ≡ false = ground arith in
    let short : ltb 63 (length p) ≡ false = ground arith in
    rw (some_bytes, short, room, drop-append_length p rest, take-append_length p rest)

-- The bytes of the query behind its header.
body : Str → List ℕ
body host = length host ∷ host ++ (5 ∷ codes "local" ++ 0 ∷ 0 ∷ 1 ∷ 0 ∷ 1 ∷ [])

construct_mdns_query_lem :
    (host : Str)
    → length host ≤ 63
    → construct_mdns_query host ≡ 0 ∷ 0 ∷ 0 ∷ 0 ∷ 0 ∷ 1 ∷ 0 ∷ 0 ∷ 0 ∷ 0 ∷ 0 ∷ 0 ∷ body host
unfolding construct_mdns_query body
construct_mdns_query_lem host small =
    let n : length host % 256 ≡ length host = omega arith in rw n (simp append_assoc)

length-body : (host : Str) → length (body host) ≡ suc (suc (suc (length host + 9)))
unfolding body
length-body host = omega (arith, length-append host (5 ∷ codes "local" ++ 0 ∷ 0 ∷ 1 ∷ 0 ∷ 1 ∷ []))

read_labels-body :
    (fuel : ℕ) (host : Str)
    → 0 < length host
    → length host ≤ 63
    → read_labels (suc (suc (suc fuel))) (body host)
      ≡ some (host ∷ codes "local" ∷ [], 0 ∷ 1 ∷ 0 ∷ 1 ∷ [])
unfolding body
read_labels-body fuel host pos small =
    read_label (suc (suc fuel)) host (5 ∷ codes "local" ++ 0 ∷ 0 ∷ 1 ∷ 0 ∷ 1 ∷ []) pos small
    ∙ unfold read_labels in refl

-- For a host name of 1 to 63 bytes, a parser of DNS messages reads the query as one question of
-- type A and class IN about the two labels `host` and `local`, with id 0 and no flags.
pub decode-construct_mdns_query :
    (host : Str)
    → 0 < length host
    → length host ≤ 63
    → decode (construct_mdns_query host)
      ≡ some (record {
        id = 0;
        flags = 0;
        counts = 1 ∷ 0 ∷ 0 ∷ 0 ∷ [];
        labels = host ∷ codes "local" ∷ [];
        qtype = 1;
        qclass = 1;
      })
unfolding decode
decode-construct_mdns_query host pos small = rw (
  construct_mdns_query_lem host small,
  decode,
  length-body host,
  read_labels-body (length host + 9) host pos small,
)
