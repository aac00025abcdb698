-- ===== src/Node/Targets/Flags.antt =====
-- What cmd/node/main.go makes of one address, and of addresses given on the command line.
use gale_lb.Prelude.{
  ℕ, ◌≡◌, ◌≢◌, ◌⊎◌, sym, ap, ◌∙◌, inl, inr, List, [], ◌∷◌, ◌++◌, arith, Bool-cases, Result-cases,
  ok, err, All,
}
use gale_lb.Prelude.Int.{ℤ, pos, int_eq, int_beq_iff}
use gale_lb.Prelude.Equality.{◌==◌, bytes_eq, eq_iff, eq_refl}
use gale_lb.Prelude.Decimal.{IsDigit, Lacks, print_nat, print_nat-IsDigit, cut_first}
use gale_lb.Prelude.Text.{Str}
use gale_lb.Config.NodeConfig.{Address, parse_lb_addresses}
use gale_lb.Config.NodeConfig.Parse.{Reads, parse_lb_addresses_iff}
use gale_lb.Util.Dns.{Resolver}
use gale_lb.Node.Targets.{
  Target, port_not_set, target_of, resolved_ip, retrieve_from, retrieve_ip_and_ports,
}

module _ (net : Resolver) where
  -- An address that is accepted has a port other than 0, which the target takes over; the target's IP is
  -- the address's own, if it has one, and else the first address of its host name.
  target_of_sound :
      (idx : ℕ) (a : Address) (t : Target)
      → target_of net idx a ≡ ok t
      → (t.port ≡ a.port)
        × (a.port ≢ pos 0)
        × (((a.ip ≢ []) × (t.ip ≡ a.ip)) ⊎ ((a.ip ≡ []) × (resolved_ip net a.hostname ≡ ok t.ip)))
  unfolding target_of
  target_of_sound idx a t e = elim (Bool-cases (a.ip == [])) [
    | inl missing ↦ elim (Result-cases (resolved_ip net a.hostname)) [
      | inl (found, ok') ↦
          ground (arith, int_beq_iff a.port (pos 0), eq_iff a.ip [], eq_iff a.hostname [])
      | inr (x, bad) ↦
          absurd (ground (arith, int_beq_iff a.port (pos 0), eq_iff a.ip [], eq_iff a.hostname []))
    ]
    | inr given ↦ ground (arith, int_beq_iff a.port (pos 0), eq_iff a.ip [], eq_iff a.hostname [])
  ]

  no_port : (idx : ℕ) (a : Address) → a.port ≡ pos 0 → target_of net idx a ≡ err (port_not_set idx)
  unfolding target_of
  no_port idx a e = rw (e, target_of, eq_refl (pos 0))

  first_fails :
      (a : Address) (addresses : List Address)
      → a.port ≡ pos 0
      → retrieve_ip_and_ports net (a ∷ addresses) ≡ err (port_not_set 0)
  unfolding retrieve_ip_and_ports retrieve_from
  first_fails a addresses e = rw (no_port 0 a e, retrieve_from)

  module _ (get_int : Str → ℤ) (host ip : Str) (port : ℕ) (rest : List Str) where
    abbrev pub entry : Str
    entry = host ++ (b':' ∷ (ip ++ (b':' ∷ print_nat port)))

    entry_port :
        (a : Address)
        → Lacks b':' host
        → Lacks b':' ip
        → Reads get_int entry a
        → a.port ≡ get_int (print_nat port)
    entry_port a hosts ips (p, e, free, free', value) =
        let (_, tails) =
          cut_first b':' host a.hostname (ip ++ (b':' ∷ print_nat port)) (a.ip ++ (b':' ∷ p)) hosts
            free e in
        let (_, ports) = cut_first b':' ip a.ip (print_nat port) p ips free' tails in
        value ∙ ap get_int (sym ports)

    -- Suppose `viper.GetInt` answers 0 for every text of digits, since no setting is named by a
    -- number. Then a first address `host:ip:port` on the command line, with no colon in host and
    -- ip, is refused by the node as one without a port, whatever its port.
    pub flag_addresses_refused :
        (found : List Address)
        → Lacks b':' host
        → Lacks b':' ip
        → ((p : Str) → All IsDigit p → get_int p ≡ pos 0)
        → parse_lb_addresses get_int (entry ∷ rest) ≡ ok found
        → retrieve_ip_and_ports net found ≡ err (port_not_set 0)
    flag_addresses_refused [] hosts ips unset e =
        absurd ((parse_lb_addresses_iff get_int (entry ∷ rest) []).0 e)
    flag_addresses_refused (a ∷ found) hosts ips unset e = first_fails a found (
        entry_port a hosts ips ((parse_lb_addresses_iff get_int (entry ∷ rest) (a ∷ found)).0 e).0
        ∙ unset (print_nat port) (print_nat-IsDigit port))
