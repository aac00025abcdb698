-- ===== src/Util/Tests.antt =====
-- The theorems on dns.go at concrete inputs.
use gale_lb.Prelude.{
  ℕ, ◌≤◌, ◌≡◌, List, [], ◌∷◌, ◌++◌, none, some, true, arith, replicate, length, if◌then◌else◌,
}
use gale_lb.Prelude.Equality.{bytes_beq}
use gale_lb.Prelude.Text.{codes}
use gale_lb.Util.Ip.{Ip, ipv4}
use gale_lb.Util.Dns.{writes_ok, reads, Resolver, construct_mdns_query}
use gale_lb.Util.Dns.Query.{decode, decode-construct_mdns_query}

abbrev lb_ip : Ip
lb_ip = ipv4 10 0 0 7

-- The system knows "lb"; the server "up" takes connections; multicast answers with the address.
abbrev net : Resolver
net = record {
  listens = true;
  sets_deadline = true;
  events = λ query. writes_ok ∷ reads 28 (replicate 24 0 ++ 10 ∷ 0 ∷ 0 ∷ 7 ∷ []) ∷ [];
  dials = λ server. bytes_beq server (codes "up");
  lookup_host = λ host.
      if bytes_beq host (codes "lb") then some (codes "10.0.0.7" ∷ codes "?" ∷ []) else none;
  parse_ip = λ s. if bytes_beq s (codes "10.0.0.7") then some lb_ip else none;
}

decode-construct_mdns_query_example :
    decode (construct_mdns_query (codes "lb"))
    ≡ some (record {
      id = 0;
      flags = 0;
      counts = 1 ∷ 0 ∷ 0 ∷ 0 ∷ [];
      labels = codes "lb" ∷ codes "local" ∷ [];
      qtype = 1;
      qclass = 1;
    })
decode-construct_mdns_query_example =
    decode-construct_mdns_query (codes "lb") (omega arith) (omega arith)

abbrev header : List ℕ
header = replicate 24 0

header_long : 24 ≤ length header
header_long = omega arith
