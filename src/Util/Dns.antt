-- ===== src/Util/Dns.antt =====
-- pkg/util/dns.go. What the network and the resolver of the operating system answer is a parameter; an
-- error stands for its message.
pub mod Query
pub mod Resolve
use gale_lb.Prelude.{
  ℕ, ◌+◌, ◌-◌, ◌/◌, ◌%◌, ◌^◌, List, [], ◌∷◌, ◌++◌, map, Option, none, some, Bool, ltb,
  if◌then◌else◌, length, get_elem?, Result, ok, err,
}
use gale_lb.Util.Ip.{Ip, ipv4}
use gale_lb.Prelude.Text.{Str, codes, has_suffix, trim_suffix}

pub data DnsError : Type 0 where
  not_local : DnsError
  listen_failed write_failed deadline_failed read_failed canceled : DnsError
  dial_failed lookup_failed no_addresses : DnsError
  invalid_length : ℕ → DnsError
  unresolved : Str → DnsError

-- fmt.Sprintf(".%s", DefaultMDNSTopLevelDomain)
abbrev pub top_level : Str
top_level = codes ".local"

unfoldable pub is_multicast_dns : Str → Bool
is_multicast_dns hostname = has_suffix hostname top_level

unfoldable pub normalize_mdns_hostname : Str → Result DnsError Str
unfolding is_multicast_dns
normalize_mdns_hostname hostname =
    if is_multicast_dns hostname then ok (trim_suffix hostname top_level) else err not_local

-- `byte(v >> 8), byte(v & 0xFF)`
abbrev pub be16 : ℕ → List ℕ
be16 v = (v / 2 ^ 8) ∷ (v % 2 ^ 8) ∷ []

-- The loop over the parts: a length byte, `byte(len(part))`, and the bytes of the part.
unfoldable pub append_parts : List ℕ → List Str → List ℕ
append_parts query [] = query
append_parts query (part ∷ parts) =
    append_parts ((query ++ (length part % 2 ^ 8) ∷ []) ++ part) parts

abbrev pub mdns_packet_transaction_id : ℕ
mdns_packet_transaction_id = 0

abbrev pub mdns_packet_flags : ℕ
mdns_packet_flags = 0

abbrev pub mdns_packet_questions : ℕ
mdns_packet_questions = 1

abbrev pub mdns_packet_answer_rrs : ℕ
mdns_packet_answer_rrs = 0

abbrev pub mdns_packet_authority_rrs : ℕ
mdns_packet_authority_rrs = 0

abbrev pub mdns_packet_additional_rrs : ℕ
mdns_packet_additional_rrs = 0

abbrev pub mdns_packet_null_terminator : ℕ
mdns_packet_null_terminator = 0

abbrev pub mdns_packet_type_a : ℕ
mdns_packet_type_a = 1

abbrev pub mdns_packet_class_in : ℕ
mdns_packet_class_in = 1

unfoldable pub construct_mdns_query : Str → List ℕ
unfolding append_parts
construct_mdns_query host =
    let header =
      be16 mdns_packet_transaction_id
      ++ be16 mdns_packet_flags
      ++ be16 mdns_packet_questions
      ++ be16 mdns_packet_answer_rrs
      ++ be16 mdns_packet_authority_rrs
      ++ be16 mdns_packet_additional_rrs in
    let query = append_parts header (host ∷ codes "local" ∷ []) in
    ((query ++ mdns_packet_null_terminator ∷ []) ++ be16 mdns_packet_type_a)
    ++ be16 mdns_packet_class_in

-- `buffer[i]`, which is in range where the code reads it.
abbrev pub byte_at : List ℕ → ℕ → ℕ
byte_at buffer i = elim (get_elem? buffer i) [ none ↦ 0 | some v ↦ v ]

-- What the reader makes of `n` bytes in its buffer.
unfoldable pub read_reply : ℕ → List ℕ → Result DnsError (List Ip)
read_reply n buffer =
    if ltb n (12 + 16)
    then err (invalid_length n)
    else ok (
        ipv4 (byte_at buffer (n - 4)) (byte_at buffer (n - 3)) (byte_at buffer (n - 2))
          (byte_at buffer (n - 1))
        ∷ [])

-- What can happen while `sendAndReceiveMDNS` waits, in the order in which it happens. A list that ends
-- before anything decides stands for a wait until the context ends.
pub data Event : Type 0 where
  writes_ok : Event
  write_fails : Event
  read_fails : Event
  reads : ℕ → List ℕ → Event
  context_ends : Event

-- The first event that the `select` sees decides.
unfoldable pub first_response : List Event → Result DnsError (List Ip)
unfolding read_reply
first_response [] = err canceled
first_response (writes_ok ∷ es) = first_response es
first_response (write_fails ∷ es) = err write_failed
first_response (read_fails ∷ es) = err read_failed
first_response (reads n buffer ∷ es) = read_reply n buffer
first_response (context_ends ∷ es) = err canceled

-- The network, as this file meets it.
pub record Resolver : Type 0 where
  -- net.ListenPacket and net.ResolveUDPAddr succeed.
  pub listens : Bool
  -- conn.SetReadDeadline succeeds.
  pub sets_deadline : Bool
  -- What happens after the query was handed over.
  pub events : List ℕ → List Event
  -- dialer.DialContext succeeds for this server.
  pub dials : Str → Bool
  -- net.LookupHost
  pub lookup_host : Str → Option (List Str)
  -- net.ParseIP
  pub parse_ip : Str → Option Ip

module _ (net : Resolver) where
  unfoldable pub send_and_receive_mdns : List ℕ → Result DnsError (List Ip)
  unfolding first_response
  send_and_receive_mdns query =
      if net.sets_deadline then first_response (net.events query) else err deadline_failed

  unfoldable pub resolve_multicast_dns : Str → Result DnsError (List Ip)
  unfolding normalize_mdns_hostname construct_mdns_query send_and_receive_mdns
  resolve_multicast_dns hostname = elim (normalize_mdns_hostname hostname) [
    | err e ↦ err e
    | ok host ↦
        if net.listens then send_and_receive_mdns (construct_mdns_query host) else err listen_failed
  ]

  -- The loop that keeps what `net.ParseIP` understands.
  unfoldable pub parsed : List Str → List Ip
  parsed [] = []
  parsed (s ∷ ss) = elim (net.parse_ip s) [ none ↦ parsed ss | some ip ↦ ip ∷ parsed ss ]

  -- The connection to the server is closed again at once; the lookup goes to the system's resolver.
  unfoldable pub resolve_dns : Str → Str → Result DnsError (List Ip)
  unfolding parsed
  resolve_dns hostname dns_server =
      if net.dials dns_server
      then elim (net.lookup_host hostname) [
        | none ↦ err lookup_failed
        | some [] ↦ err no_addresses
        | some (s ∷ ss) ↦ ok (parsed (s ∷ ss))
      ]
      else err dial_failed

  -- The loop of `ResolveDNS`.
  unfoldable pub try_resolvers : Str → List Str → Result DnsError (List Ip)
  unfolding resolve_dns
  try_resolvers hostname [] = err (unresolved hostname)
  try_resolvers hostname (resolver ∷ resolvers) = elim (resolve_dns hostname resolver) [
    | ok ips ↦ ok ips
    | err e ↦ try_resolvers hostname resolvers
  ]

  unfoldable pub resolve_dns_servers : Str → List Str → Result DnsError (List Ip)
  unfolding try_resolvers
  resolve_dns_servers hostname [] = try_resolvers hostname (codes "1.1.1.1:53" ∷ [])
  resolve_dns_servers hostname (s ∷ ss) = try_resolvers hostname (s ∷ ss)
