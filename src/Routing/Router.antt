-- ===== src/Routing/Router.antt =====
-- pkg/routing/router.go. The interfaces and the port that `New` reads off the configuration are arguments.
pub mod Routes
mod Tests
use gale_lb.Prelude.{Bool, if◌then◌else◌, Result, ok, err}
use gale_lb.Prelude.Int.{ℤ, pos, negsuc}
use gale_lb.Prelude.Text.{Str}
use gale_lb.Prelude.{zero, suc}
use gale_lb.Routing.Label.{AddrKey}
use gale_lb.Routing.Ring.{Ring, new_ring}
use gale_lb.Routing.Hashing.{crc32_hasher}
use gale_lb.Routing.Ring
use gale_lb.Routing.Xdp.{Xdp, XdpError, Ebpf, new_xdp, load_program}

pub record Router : Type 0 where
  pub ring : Ring
  pub xdp : Xdp

pub data RouterError : Type 0 where
  too_few_virtual_nodes : RouterError
  load_failed : XdpError → RouterError

-- `n < 1`
unfoldable pub is_below_one : ℤ → Bool
is_below_one (pos zero) = Bool.true
is_below_one (pos (suc n)) = Bool.false
is_below_one (negsuc n) = Bool.true

module _ (ebpf : Ebpf) where
  open ebpf use {Kernel}

  unfoldable pub new : Str → Str → ℤ → ℤ → Kernel → Result RouterError Router × Kernel
  unfolding is_below_one new_xdp load_program
  new net_iface_public net_iface_private clients_port num_virtual_nodes k =
      if is_below_one num_virtual_nodes
      then (err too_few_virtual_nodes, k)
      else let router_prog = new_xdp net_iface_public net_iface_private clients_port in
        let (result, after) = load_program ebpf router_prog k in
        (
          elim result [
            | err e ↦ err (load_failed e)
            | ok _ ↦
                ok (record { ring = new_ring crc32_hasher num_virtual_nodes; xdp = router_prog })
          ],
          after,
        )

unfoldable pub add_node : Router → AddrKey → Router
add_node r node_key = record r { ring = Ring.add_node r.ring node_key }

unfoldable pub remove_node : Router → AddrKey → Router
remove_node r node_key = record r { ring = Ring.remove_node r.ring node_key }
