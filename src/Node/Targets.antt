-- ===== src/Node/Targets.antt =====
-- `retrieveIPAndPorts` and `resolveHostname` of cmd/node/main.go, and the targets of
-- pkg/nodenetwork/dispatcher.go.
pub mod Table
pub mod Flags
use gale_lb.Prelude.{
  ℕ, ◌+◌, List, [], ◌∷◌, ◌++◌, Option, none, some, Bool, ◌&&◌, not, if◌then◌else◌, Result, ok, err,
  map_err,
}
use gale_lb.Prelude.Int.{ℤ, pos, int_eq}
use gale_lb.Prelude.Equality.{◌==◌, bytes_eq}
use gale_lb.Prelude.Map.{Map, insert}
use gale_lb.Prelude.Decimal.{print_int}
use gale_lb.Prelude.Text.{Str, codes}
use gale_lb.Config.NodeConfig.{Address}
use gale_lb.Util.Ip.{Ip, ip_string}
use gale_lb.Util.Dns.{
  DnsError, Resolver, is_multicast_dns, resolve_multicast_dns, resolve_dns_servers,
}

pub record Target : Type 0 where
  pub ip : Str
  pub port : ℤ

-- fmt.Sprintf("%s:%d", t.IP, t.Port)
unfoldable pub target_string : Target → Str
unfolding print_int
target_string t = t.ip ++ (b':' ∷ print_int t.port)

pub data TargetError : Type 0 where
  port_not_set no_ip_nor_hostname : ℕ → TargetError
  resolve_failed : Str → DnsError → TargetError
  no_ip_addresses : Str → TargetError

module _ (net : Resolver) where
  unfoldable pub resolve_hostname : Str → Result DnsError (List Ip)
  unfolding is_multicast_dns resolve_multicast_dns resolve_dns_servers
  resolve_hostname host =
      if is_multicast_dns host
      then resolve_multicast_dns net host
      else if not (is_multicast_dns host)
      then resolve_dns_servers net host (codes "127.0.0.1:53" ∷ [])
      else ok []

  -- The IP that takes the place of a missing one: the first address of the host name.
  unfoldable pub resolved_ip : Str → Result TargetError Str
  unfolding resolve_hostname ip_string
  resolved_ip hostname = elim (resolve_hostname hostname) [
    | err e ↦ err (resolve_failed hostname e)
    | ok [] ↦ err (no_ip_addresses hostname)
    | ok (ip ∷ ips) ↦ ok (ip_string ip)
  ]

  -- One round of the loop, up to the write of the map.
  unfoldable pub target_of : ℕ → Address → Result TargetError Target
  target_of idx address =
      if address.port == pos 0
      then err (port_not_set idx)
      else if (address.ip == []) && (address.hostname == [])
      then err (no_ip_nor_hostname idx)
      else if (address.ip == []) && not (address.hostname == [])
      then elim (resolved_ip address.hostname) [
        | err e ↦ err e
        | ok ip ↦ ok (record { ip = ip; port = address.port })
      ]
      else ok (record { ip = address.ip; port = address.port })

  -- The loop from the index `idx` on, with the targets found so far.
  unfoldable pub retrieve_from :
      ℕ → Map Str Target → List Address → Result TargetError (Map Str Target)
  retrieve_from idx targets [] = ok targets
  retrieve_from idx targets (address ∷ addresses) = elim (target_of idx address) [
    | err e ↦ err e
    | ok t ↦ retrieve_from (idx + 1) (insert (target_string t) t targets) addresses
  ]

  unfoldable pub retrieve_ip_and_ports : List Address → Result TargetError (Map Str Target)
  retrieve_ip_and_ports addresses = retrieve_from 0 [] addresses
