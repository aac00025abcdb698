-- ===== src/NodeManager/Setup.antt =====
-- A whole call of `ReportHealthStatus`: the set-up of node_manager.go, and the two loops behind it.
use gale_lb.Prelude.{
  ℕ, ◌+◌, ◌≤◌, ◌≡◌, inl, inr, refl, sym, ap, ◌∙◌, Option, none, some, arith, Option-cases, ok,
}
use gale_lb.Prelude.Equality.{bytes_eq, eq_refl}
use gale_lb.Prelude.Map.{lookup}
use gale_lb.Prelude.Text.{Str}
use gale_lb.Consensus.{Rpc}
use gale_lb.Registry.{Node, NodeRegistry, new_node, register_node}
use gale_lb.Registry.History.{lookup-register_node}
use gale_lb.NodeManager.{
  Network, Peer, tcp, other, Session, extract_tcp_from_conn, resolve_mac, report_health_status,
}
use gale_lb.NodeManager.Stream.{returned, timed_out, System, Reach}
use gale_lb.NodeManager.Stream.Effects.{timed_out_late}

connected :
    (net : Network) (peer : Option (Peer net.TcpAddr)) (addr : net.TcpAddr)
    → extract_tcp_from_conn net peer ≡ some addr
    → peer ≡ some (tcp (some addr))
unfolding extract_tcp_from_conn
connected net none addr e = absurd (cc)
connected net (some (tcp none)) addr e = absurd (cc)
connected net (some (tcp (some a))) addr e = ground arith
connected net (some other) addr e = absurd (cc)

module _ (net : Network) (peer : Option (Peer net.TcpAddr)) (iface : Str) (registry : NodeRegistry)
    {session : Session} (opened : report_health_status net peer iface registry ≡ ok session) where
  -- The set-up registers the node under the address of its connection, whose MAC address was found.
  pub opened_lem :
      (addr : net.TcpAddr) × (peer ≡ some (tcp (some addr)))
      × (session.node_key ≡ net.addr_string addr)
      × (resolve_mac net addr iface ≡ some session.mac)
      × (session.registry ≡ register_node registry session.node_key)
  unfolding report_health_status
  opened_lem = elim (Option-cases (extract_tcp_from_conn net peer)) [
    | inl missing ↦ absurd (ground arith)
    | inr (addr, e) ↦ elim (Option-cases (resolve_mac net addr iface)) [
      | inl missing ↦ absurd (ground arith)
      | inr (mac, e') ↦
          let made : record {
            node_key = net.addr_string addr;
            mac = mac;
            registry = register_node registry (net.addr_string addr);
          }
              ≡ session =
            ground arith in
          (
            addr,
            connected net peer addr e,
            ap (λ (x : Session). x.node_key) (sym made),
            e' ∙ ap (λ (x : Session). some x.mac) made,
            ap (λ (x : Session). x.registry) (sym made)
                ∙ ap (λ (x : Session). register_node registry x.node_key) made,
          )
    ]
  ]

  -- In a registry without health checks from the future, a call that has set up its stream and then timed
  -- out did so no earlier than a timeout after the latest health check of the node at the address of the
  -- connection, and leaves the count of that node at 0.
  session_timed_out_late :
      (rpc : Rpc) (timeout now : ℕ)
      → ((k : Str) (v : Node) → lookup k registry.registry ≡ some v → v.last_health_check ≤ now)
      → {s : System rpc.RpcError} → Reach rpc session.node_key timeout session.registry now s
      → s.handler ≡ returned timed_out
      → (w : Node) × (lookup session.node_key s.registry.registry ≡ some w)
        × (w.continuous_health_checks ≡ 0)
        × (w.last_health_check + timeout ≤ s.now)
  session_timed_out_late rpc timeout now past r e =
      let (v, held, timely) = present in
      timed_out_late rpc session.node_key timeout session.registry now v held timely r e
    where
      known :
          lookup session.node_key session.registry.registry
          ≡ some (elim (lookup session.node_key registry.registry) [ none ↦ new_node | some v ↦ v ])
      known =
          let (addr, from, key, mac, made) = opened_lem in
          ap (λ (x : NodeRegistry). lookup session.node_key x.registry) made
          ∙ lookup-register_node registry session.node_key session.node_key
          ∙ rw (eq_refl session.node_key) refl

      present :
          (v : Node) × (lookup session.node_key session.registry.registry ≡ some v)
          × (v.last_health_check ≤ now)
      present = elim (Option-cases (lookup session.node_key registry.registry)) [
        | inl missing ↦ (new_node, known ∙ rw missing refl, omega arith)
        | inr (v, e') ↦ (v, known ∙ rw e' refl, past session.node_key v e')
      ]
