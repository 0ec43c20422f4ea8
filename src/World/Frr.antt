-- ===== src/World/Frr.antt =====
-- FRR's objects as the plugin sees them: a `struct zebra_dplane_ctx` is read through the accessors
-- `dplane_ctx_get_*`, one field for each that src/hh_dp_msg.c and src/hh_dp_process.c call, and
-- written through `dplane_ctx_set_status` and `dplane_ctx_set_skip_kernel`.
use dplane_plugin.Base.{ℕ, List, Option, some, Bool}

-- The operations of the `switch` of `hh_process`; `unlisted` is any other.
pub data DplaneOp : Type 0 where
  none_op : DplaneOp
  route_install route_update route_delete route_notify : DplaneOp
  nh_install nh_update nh_delete : DplaneOp
  lsp_install lsp_update lsp_delete lsp_notify : DplaneOp
  pw_install pw_uninstall : DplaneOp
  sys_route_add sys_route_delete : DplaneOp
  addr_install addr_uninstall : DplaneOp
  mac_install mac_delete : DplaneOp
  neigh_install neigh_update neigh_delete neigh_discover vtep_add vtep_delete : DplaneOp
  rule_add rule_delete rule_update : DplaneOp
  br_port_update iptable_add iptable_delete : DplaneOp
  ipset_add ipset_delete ipset_entry_add ipset_entry_delete : DplaneOp
  neigh_ip_install neigh_ip_delete neigh_table_update gre_set : DplaneOp
  intf_addr_add intf_addr_del intf_netconfig : DplaneOp
  intf_install intf_update intf_delete : DplaneOp
  tc_qdisc_install tc_qdisc_uninstall tc_class_add tc_class_delete tc_class_update : DplaneOp
  tc_filter_add tc_filter_delete tc_filter_update vlan_install provider_refresh : DplaneOp
  startup_stage srv6_encap_srcaddr_set unlisted : DplaneOp

pub data Afi : Type 0 where
  afi_ip afi_l2vpn other_afi : Afi

pub data Safi : Type 0 where
  safi_unicast safi_evpn other_safi : Safi

pub data ZebraRoute : Type 0 where
  route_local route_connect route_static route_ospf route_isis route_bgp route_other : ZebraRoute

pub data ZebraResult : Type 0 where
  request_success request_failure other_result : ZebraResult

pub data Family : Type 0 where
  af_inet other_family : Family

-- `prefix4` and `prefix6` are the two readings of the union `u`.
pub record Prefix : Type 0 where
  pub family : Family
  pub prefixlen : ℕ
  pub prefix4 : ℕ
  pub prefix6 : List ℕ

pub data NexthopType : Type 0 where
  nh_ifindex nh_ipv4 nh_ipv4_ifindex nh_ipv6 nh_ipv6_ifindex nh_blackhole : NexthopType

-- `recursive` and `evpn` are flags; `active` is the value of `NEXTHOP_IS_ACTIVE(flags)`; `is_vxlan`
-- tells whether `nh_encap_type` is `NET_VXLAN`.
pub record Nexthop : Type 0 where
  pub type : NexthopType
  pub vrf_id : ℕ
  pub ifindex : ℕ
  pub gate4 : ℕ
  pub gate6 : List ℕ
  pub recursive : Bool
  pub active : Bool
  pub evpn : Bool
  pub is_vxlan : Bool
  pub vni : ℕ

-- `id` is the object's identity, its address. `nexthops` is the group in the order of
-- `ALL_NEXTHOPS_PTR`. `status` is `none` until the plugin sets it.
pub record Ctx : Type 0 where
  pub id : ℕ
  pub op : DplaneOp
  pub afi : Afi
  pub safi : Safi
  pub type : ZebraRoute
  pub vrf : ℕ
  pub intf_addr : Prefix
  pub ifname : List ℕ
  pub ifindex : ℕ
  pub ifp_vrf_id : ℕ
  pub mac_vni : ℕ
  pub mac_addr : List ℕ
  pub mac_vtep_ip : ℕ
  pub table : ℕ
  pub distance : ℕ
  pub metric : ℕ
  pub dest : Prefix
  pub nexthops : List Nexthop
  pub status : Option ZebraResult
  pub skip_kernel : Bool

abbrev pub set_status : Ctx → ZebraResult → Ctx
set_status c r = record c { status = some r }
