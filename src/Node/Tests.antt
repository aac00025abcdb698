-- ===== src/Node/Tests.antt =====
-- The theorems on the targets of cmd/node/main.go at concrete inputs.
use gale_lb.Prelude.{◌≡◌, refl, List, [], ◌∷◌, none, some, false, arith, ok, err}
use gale_lb.Prelude.Int.{ℤ, pos, int_beq}
use gale_lb.Prelude.Equality.{bytes_eq, bytes_beq}
use gale_lb.Prelude.Decimal.{Lacks, print_nat, print_int}
use gale_lb.Prelude.Map.{Map, lookup, insert}
use gale_lb.Prelude.Text.{Str, codes}
use gale_lb.Config.NodeConfig.{Address, cut, split_n, parse_address, parse_from, parse_lb_addresses}
use gale_lb.Util.Dns.{Resolver}
use gale_lb.Node.Targets.{
  Target, target_string, port_not_set, target_of, retrieve_from, retrieve_ip_and_ports,
}
use gale_lb.Node.Targets.Table.{AllFound, ComesFrom, retrieve_ip_and_ports_sound}
use gale_lb.Node.Targets.Flags.{entry, flag_addresses_refused}

-- A network that answers nothing.
abbrev dead : Resolver
dead = record {
  listens = false;
  sets_deadline = false;
  events = λ query. [];
  dials = λ server. false;
  lookup_host = λ host. none;
  parse_ip = λ s. none;
}

abbrev lb : Address
lb = record { hostname = codes "lb"; ip = codes "10.0.0.7"; port = pos 7070 }

abbrev lb_target : Target
lb_target = record { ip = codes "10.0.0.7"; port = pos 7070 }

lb_found : target_of dead 0 lb ≡ ok lb_target
unfolding target_of int_beq bytes_beq
lb_found = refl

abbrev table : Map Str Target
table = (codes "10.0.0.7:7070", lb_target) ∷ []

table_built : retrieve_ip_and_ports dead (lb ∷ lb ∷ []) ≡ ok table
unfolding retrieve_ip_and_ports retrieve_from target_of int_beq bytes_beq target_string print_int
    print_nat insert
table_built = refl

retrieve_ip_and_ports_sound_example :
    AllFound dead table 0 (lb ∷ lb ∷ [])
    × ((k : Str) (t : Target)
        → lookup k table ≡ some t
        → (k ≡ target_string t) × ComesFrom dead t 0 (lb ∷ lb ∷ []))
retrieve_ip_and_ports_sound_example =
    retrieve_ip_and_ports_sound dead (lb ∷ lb ∷ []) table table_built

-- No setting is named by a number.
abbrev unset : Str → ℤ
unset key = pos 0

abbrev given : List Str
given = entry dead unset (codes "lb") (codes "10.0.0.7") 7070 [] ∷ []

abbrev parsed : List Address
parsed = record { hostname = codes "lb"; ip = codes "10.0.0.7"; port = pos 0 } ∷ []

given-parsed : parse_lb_addresses unset given ≡ ok parsed
unfolding parse_lb_addresses parse_from parse_address split_n cut print_nat
given-parsed = refl

Lacks-host : Lacks b':' (codes "lb")
Lacks-host = omega arith

Lacks-ip : Lacks b':' (codes "10.0.0.7")
Lacks-ip = omega arith

flag_addresses_refused_example : retrieve_ip_and_ports dead parsed ≡ err (port_not_set 0)
flag_addresses_refused_example =
    flag_addresses_refused dead unset (codes "lb") (codes "10.0.0.7") 7070 [] parsed Lacks-host
      Lacks-ip (λ p digits. refl) given-parsed
