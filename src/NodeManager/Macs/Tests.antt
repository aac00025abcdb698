-- ===== src/NodeManager/Macs/Tests.antt =====
-- A node of node_manager.go whose entry in the table of the kernel is not complete.
use gale_lb.Prelude.{◌≡◌, refl, none, some, [], ◌∷◌, map, All, arith, ok, err}
use gale_lb.Prelude.Equality.{bytes_eq, bytes_beq}
use gale_lb.Prelude.Text.{Str, codes}
use gale_lb.Registry.{new_registry, register_node}
use gale_lb.Util.Arp.{is_space, ArpNetwork}
use gale_lb.Util.Arp.Scan.{IsWord, Entry, words_of, print_line, header}
use gale_lb.NodeManager.{tcp, no_mac, report_health_status}
use gale_lb.NodeManager.Macs.{arp_network, entry_or_call, report_health_status-first_mac}

-- The network would answer for every address.
abbrev answering : ArpNetwork
answering = record {
  Interface = Str;
  Conn = Str;
  Addr = Str;
  interface_by_name = λ name. some name;
  dial = λ iface. some iface;
  parse_addr = λ ip. some ip;
  resolve = λ conn addr. some (codes "bc:24:11:00:00:08");
}

abbrev incomplete : Entry
incomplete = record {
  ip = codes "10.0.0.8";
  hw_type = codes "0x1";
  flags = codes "0x0";
  mac = codes "00:00:00:00:00:00";
  mask = codes "*";
  device = codes "eth1";
  blanks = (8, 9, 9, 4, 8, 0);
}

abbrev host : Str
host = codes "10.0.0.8"

incomplete-IsWord : All (λ e. All (λ w. IsWord w.0) (words_of e)) (incomplete ∷ [])
unfolding is_space
incomplete-IsWord = ground arith

report_health_status-first_mac_example :
    report_health_status
      (arp_network answering
        (some (header ∷ map (λ e. print_line (words_of e)) (incomplete ∷ [])))
        Str
        (λ addr. addr)
        (λ addr. addr))
      (some (tcp (some host)))
      (codes "eth1")
      new_registry
    ≡ elim (entry_or_call answering host (codes "eth1") (incomplete ∷ [])) [
      | none ↦ err no_mac
      | some mac ↦
          ok (record { node_key = host; mac = mac; registry = register_node new_registry host })
    ]
report_health_status-first_mac_example =
    report_health_status-first_mac answering Str (λ addr. addr) (λ addr. addr) (codes "eth1")
      new_registry host (incomplete ∷ []) (cc) incomplete-IsWord

-- The entry counts all the same.
zero_mac :
    entry_or_call answering host (codes "eth1") (incomplete ∷ []) ≡ some (codes "00:00:00:00:00:00")
unfolding bytes_beq
zero_mac = refl
