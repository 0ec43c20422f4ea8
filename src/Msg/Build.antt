-- ===== src/Msg/Build.antt =====
-- src/hh_dp_msg.c, the requests that are built from a context: interface addresses, router MACs and
-- IP routes. The lengths of texts and addresses are those of the arrays that they are copied from.
pub mod Nhops
use dplane_plugin.Base.{List, [], ◌∷◌, some, Bool, true, false, not, ◌&&◌, ◌||◌, if◌then◌else◌}
use dplane_plugin.Rpc.{
  RpcOp, Address, unset, ipv4, ipv6, IfAddress, Rmac, NextHop, FwAction, forward, drop, Encap,
  no_encap, vxlan, RouteType, IpRoute,
}
use dplane_plugin.World.Env.{Env}
use dplane_plugin.World.Frr.{
  Ctx, Prefix, Family, af_inet, other_family, Nexthop, NexthopType, nh_ifindex, nh_ipv4,
  nh_ipv4_ifindex, nh_ipv6, nh_ipv6_ifindex, nh_blackhole, ZebraRoute, route_local, route_connect,
  route_static, route_ospf, route_isis, route_bgp, route_other,
}
use dplane_plugin.World.Monad.{M, Rc, failure, bug, ◌>>=◌}
use dplane_plugin.Msg.Request.{dp_request_new, send_with_object}

-- The test on the address family, once for interface addresses and once for routes.
abbrev address_by : Family → Prefix → Address
address_by af_inet p = ipv4 p.prefix4
address_by other_family p = ipv6 p.prefix6

unfoldable pub prefix_address : Prefix → Address
prefix_address p = address_by p.family p

abbrev pub ifaddress_of : Ctx → IfAddress
ifaddress_of ctx = record {
  ifname = ctx.ifname;
  ifindex = ctx.ifindex;
  vrfid = ctx.ifp_vrf_id;
  len = ctx.intf_addr.prefixlen;
  address = prefix_address ctx.intf_addr;
}

abbrev pub rmac_of : Ctx → Rmac
rmac_of ctx = record { vni = ctx.mac_vni; mac = ctx.mac_addr; address = ipv4 ctx.mac_vtep_ip }

-- The `switch` on the type of a next hop: its address.
abbrev nhop_address : NexthopType → Nexthop → Address
nhop_address nh_ifindex nh = unset
nhop_address nh_ipv4 nh = ipv4 nh.gate4
nhop_address nh_ipv4_ifindex nh = ipv4 nh.gate4
nhop_address nh_ipv6 nh = ipv6 nh.gate6
nhop_address nh_ipv6_ifindex nh = ipv6 nh.gate6
nhop_address nh_blackhole nh = unset

-- The same `switch`: a black hole drops.
abbrev nhop_action : NexthopType → FwAction
nhop_action nh_blackhole = drop
nhop_action _ = forward

abbrev nhop_encap : Nexthop → Encap
nhop_encap nh = if nh.evpn && nh.is_vxlan then vxlan nh.vni else no_encap

unfoldable pub nhop_encode : Nexthop → NextHop
nhop_encode nh = record {
  vrfid = nh.vrf_id;
  ifindex = nh.ifindex;
  fwaction = nhop_action nh.type;
  address = nhop_address nh.type nh;
  encap = nhop_encap nh;
}

unfoldable pub encode_route_type : ZebraRoute → RouteType
encode_route_type route_local = RouteType.local
encode_route_type route_connect = RouteType.connected
encode_route_type route_static = RouteType.static
encode_route_type route_ospf = RouteType.ospf
encode_route_type route_isis = RouteType.isis
encode_route_type route_bgp = RouteType.bgp
encode_route_type route_other = RouteType.other

-- The first loop over the next hops.
unfoldable pub has_recursive : List Nexthop → Bool
has_recursive [] = false
has_recursive (nh ∷ nhs) = if nh.recursive then true else has_recursive nhs

-- The second loop over the next hops.
unfoldable pub add_nhops : Env → Bool → List Nexthop → IpRoute → IpRoute
add_nhops e recursive [] route = route
add_nhops e recursive (nh ∷ nhs) route = add_nhops e recursive nhs (
    if nh.active
    then (if (recursive && nh.recursive) || not recursive
        then e.ip_route_add_nhop route (nhop_encode nh)
        else route)
    else route)

-- The route without its next hops.
abbrev pub route_head : Ctx → IpRoute
route_head ctx = record {
  tableid = ctx.table;
  type = encode_route_type ctx.type;
  distance = ctx.distance;
  metric = ctx.metric;
  vrfid = ctx.vrf;
  len = ctx.dest.prefixlen;
  prefix = prefix_address ctx.dest;
  nhops = [];
}

unfoldable pub iproute_of : Env → Ctx → IpRoute
iproute_of e ctx = add_nhops e (has_recursive ctx.nexthops) ctx.nexthops (route_head ctx)

abbrev pub is_add_del : RpcOp → Bool
is_add_del RpcOp.add = true
is_add_del RpcOp.del = true
is_add_del _ = false

abbrev pub is_add_del_update : RpcOp → Bool
is_add_del_update RpcOp.update = true
is_add_del_update op = is_add_del op

module _ (e : Env) (reconnect : M (Unit {0})) where
  unfoldable pub send_rpc_request_ifaddress : RpcOp → Ctx → M Rc
  send_rpc_request_ifaddress op ctx =
      if not (is_add_del op)
      then bug e failure
      else (dp_request_new e op (some ctx)
          >>= send_with_object e reconnect (e.ifaddress_as_object (ifaddress_of ctx)))

  unfoldable pub send_rpc_request_rmac : RpcOp → Ctx → M Rc
  send_rpc_request_rmac op ctx =
      if not (is_add_del op)
      then bug e failure
      else (dp_request_new e op (some ctx)
          >>= send_with_object e reconnect (e.rmac_as_object (rmac_of ctx)))

  unfoldable pub send_rpc_request_iproute : RpcOp → Ctx → M Rc
  send_rpc_request_iproute op ctx =
      if not (is_add_del_update op)
      then bug e failure
      else (dp_request_new e op (some ctx)
          >>= send_with_object e reconnect (e.iproute_as_object (iproute_of e ctx)))
