-- ===== src/Routing/Xdp.antt =====
-- pkg/routing/xdp.go. The package ebpf and the kernel behind it are the parameter `Ebpf`, whose state
-- the calls pass on; a program, a collection and a link are what that package hands out. The deferred
-- calls of `Close` run on every return behind them.
pub mod Detached
mod Tests
use gale_lb.Prelude.{Option, none, some, Bool, if◌then◌else◌, Result, ok, err}
use gale_lb.Prelude.Int.{ℤ}
use gale_lb.Prelude.Text.{Str, codes}

abbrev pub dnat_xdp_prog_name : Str
dnat_xdp_prog_name = codes "dnat_prog"

abbrev pub snat_xdp_prog_name : Str
snat_xdp_prog_name = codes "snat_prog"

pub record Xdp : Type 0 where
  pub pub_net_interface : Str
  pub priv_net_interface : Str
  pub port : ℤ

unfoldable pub new_xdp : Str → Str → ℤ → Xdp
new_xdp pub_net_interface priv_net_interface incoming_req_port = record {
  pub_net_interface = pub_net_interface;
  priv_net_interface = priv_net_interface;
  port = incoming_req_port;
}

pub data XdpError : Type 0 where
  memlock_failed spec_failed collection_failed : XdpError
  no_program no_interface : Str → XdpError
  attach_failed : Str → XdpError

-- Each call that can fail answers with `none` then.
pub record Ebpf : Type 1 where
  pub Kernel : Type 0
  pub Program : Type 0
  pub Collection : Type 0
  pub Link : Type 0
  -- rlimit.RemoveMemlock
  pub remove_memlock : Kernel → Option Kernel
  -- ebpf.LoadCollectionSpecFromReader understands the embedded object.
  pub loads_spec : Bool
  -- ebpf.NewCollection of that specification
  pub new_collection : Kernel → Option (Collection × Kernel)
  pub programs : Collection → Str → Option Program
  pub close_collection : Collection → Kernel → Kernel
  -- net.InterfaceByName, and the index
  pub interface_by_name : Str → Option ℤ
  -- link.AttachXDP
  pub attach_xdp : Program → ℤ → Kernel → Option (Link × Kernel)
  pub close_link : Link → Kernel → Kernel

module _ (ebpf : Ebpf) where
  open ebpf use {Kernel, Program, Collection, Link}

  unfoldable pub get_interface_index : Str → Result XdpError ℤ
  get_interface_index net_interface = elim (ebpf.interface_by_name net_interface) [
    | none ↦ err (no_interface net_interface)
    | some index ↦ ok index
  ]

  -- From the second attachment on; on its way out it closes the second link.
  unfoldable pub attach_snat : Program → ℤ → Kernel → Result XdpError (Unit {0}) × Kernel
  attach_snat snat index k = elim (ebpf.attach_xdp snat index k) [
    | none ↦ (err (attach_failed snat_xdp_prog_name), k)
    | some (link, k') ↦ (ok tt, ebpf.close_link link k')
  ]

  -- From the first attachment on; on its way out it closes the first link.
  unfoldable pub attach_both :
      Program → Program → ℤ → ℤ → Kernel → Result XdpError (Unit {0}) × Kernel
  unfolding attach_snat
  attach_both dnat snat pub_index priv_index k = elim (ebpf.attach_xdp dnat pub_index k) [
    | none ↦ (err (attach_failed dnat_xdp_prog_name), k)
    | some (link, k') ↦
        let (result, k'') = attach_snat snat priv_index k' in (result, ebpf.close_link link k'')
  ]

  -- What happens with the open collection.
  unfoldable pub use_collection : Xdp → Collection → Kernel → Result XdpError (Unit {0}) × Kernel
  unfolding get_interface_index attach_both
  use_collection r collection k = elim (ebpf.programs collection dnat_xdp_prog_name) [
    | none ↦ (err (no_program dnat_xdp_prog_name), k)
    | some dnat ↦ elim (ebpf.programs collection snat_xdp_prog_name) [
      | none ↦ (err (no_program snat_xdp_prog_name), k)
      | some snat ↦ elim (get_interface_index r.pub_net_interface) [
        | err e ↦ (err e, k)
        | ok pub_index ↦ elim (get_interface_index r.priv_net_interface) [
          | err e ↦ (err e, k)
          | ok priv_index ↦ attach_both dnat snat pub_index priv_index k
        ]
      ]
    ]
  ]

  -- `loadProgram`: its result, and the kernel that it leaves.
  unfoldable pub load_program : Xdp → Kernel → Result XdpError (Unit {0}) × Kernel
  unfolding use_collection
  load_program r k = elim (ebpf.remove_memlock k) [
    | none ↦ (err memlock_failed, k)
    | some unlocked ↦
        if ebpf.loads_spec
        then elim (ebpf.new_collection unlocked) [
          | none ↦ (err collection_failed, unlocked)
          | some (collection, loaded) ↦
              let (result, after) = use_collection r collection loaded in
              (result, ebpf.close_collection collection after)
        ]
        else (err spec_failed, unlocked)
  ]
