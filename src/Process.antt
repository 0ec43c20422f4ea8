-- ===== src/Process.antt =====
-- src/hh_dp_process.c: what the plugin does with a context from zebra. A handler returns its result
-- and the context, which `dplane_ctx_set_skip_kernel` may have marked.
pub mod Placed
pub mod Classes
pub mod Stays
use dplane_plugin.Base.{[], ◌∷◌, ◌++◌, Bool, true, false, not, ◌==◌, if◌then◌else◌}
use dplane_plugin.Rpc.{RpcOp}
use dplane_plugin.World.Env.{Env}
use dplane_plugin.World.State.{State, on_zebra}
use dplane_plugin.World.Frr.{
  Ctx, DplaneOp, Afi, afi_ip, afi_l2vpn, Safi, safi_unicast, safi_evpn, Family, af_inet,
  ZebraResult, request_success, request_failure, other_result, other_afi, other_safi, other_family,
  set_status,
}
use dplane_plugin.World.Monad.{M, Rc, success, failure, pure, bug, modify, ◌>>=◌}
use dplane_plugin.Msg.Build.{
  send_rpc_request_ifaddress, send_rpc_request_rmac, send_rpc_request_iproute,
}

-- `enum hh_dp_res_e`
pub data HhRes : Type 0 where
  hh_ok hh_fail hh_queued hh_ignored hh_bug : HhRes

-- `BUG(true, HH_BUG)` returns the number of HH_BUG as a result for zebra, which is neither of the two
-- that the plugin means.
unfoldable pub hh_ret_to_zebra : Env → HhRes → M ZebraResult
hh_ret_to_zebra e hh_ok = pure request_success
hh_ret_to_zebra e hh_fail = pure request_failure
hh_ret_to_zebra e hh_queued = bug e other_result
hh_ret_to_zebra e hh_ignored = pure request_success
hh_ret_to_zebra e hh_bug = pure request_failure

-- `return !r ? HH_QUEUED : HH_FAIL`
abbrev pub queued_if : Ctx → Rc → M (HhRes × Ctx)
queued_if ctx success = pure (hh_queued, ctx)
queued_if ctx failure = pure (hh_fail, ctx)

abbrev afi_wanted : Afi → Bool
afi_wanted afi_ip = true
afi_wanted afi_l2vpn = true
afi_wanted other_afi = false

abbrev safi_wanted : Safi → Bool
safi_wanted safi_unicast = true
safi_wanted safi_evpn = true
safi_wanted other_safi = false

-- Routes outside the default VRF are not for the kernel.
abbrev pub skip_kernel_by_vrf : Ctx → Ctx
skip_kernel_by_vrf ctx = if not (ctx.vrf == 0) then record ctx { skip_kernel = true } else ctx

-- `dplane_ctx_set_status` and `dplane_provider_enqueue_out_ctx`
abbrev pub give_back : Ctx → ZebraResult → State → State
give_back ctx res = on_zebra λ z. record z { out_queue = z.out_queue ++ set_status ctx res ∷ [] }

module _ (e : Env) (reconnect : M (Unit {0})) where
  -- The `switch` of `hh_process_routes`.
  route_request : DplaneOp → Ctx → M (HhRes × Ctx)
  route_request DplaneOp.route_install ctx =
      send_rpc_request_iproute e reconnect RpcOp.add ctx >>= queued_if ctx
  route_request DplaneOp.route_update ctx =
      send_rpc_request_iproute e reconnect RpcOp.update ctx >>= queued_if ctx
  route_request DplaneOp.route_delete ctx =
      send_rpc_request_iproute e reconnect RpcOp.del ctx >>= queued_if ctx
  route_request DplaneOp.route_notify ctx = pure (hh_ignored, ctx)
  route_request DplaneOp.sys_route_add ctx = pure (hh_ignored, ctx)
  route_request DplaneOp.sys_route_delete ctx = pure (hh_ignored, ctx)
  route_request _ ctx = bug e (hh_bug, ctx)

  unfoldable pub hh_process_routes : Ctx → M (HhRes × Ctx)
  unfolding route_request
  hh_process_routes ctx =
      if not (afi_wanted ctx.afi)
      then pure (hh_ignored, ctx)
      else (if not (safi_wanted ctx.safi)
          then pure (hh_ignored, ctx)
          else route_request ctx.op (skip_kernel_by_vrf ctx))

  -- The `switch` of `hh_process_ifaddr`, after its test on the family.
  ifaddr_request : Family → DplaneOp → Ctx → M (HhRes × Ctx)
  ifaddr_request other_family op ctx = pure (hh_ignored, ctx)
  ifaddr_request af_inet DplaneOp.addr_install ctx =
      send_rpc_request_ifaddress e reconnect RpcOp.add ctx >>= queued_if ctx
  ifaddr_request af_inet DplaneOp.addr_uninstall ctx =
      send_rpc_request_ifaddress e reconnect RpcOp.del ctx >>= queued_if ctx
  ifaddr_request af_inet _ ctx = bug e (hh_bug, ctx)

  unfoldable pub hh_process_ifaddr : Ctx → M (HhRes × Ctx)
  unfolding ifaddr_request
  hh_process_ifaddr ctx = ifaddr_request ctx.intf_addr.family ctx.op ctx

  neigh_result : DplaneOp → Ctx → M (HhRes × Ctx)
  neigh_result DplaneOp.neigh_install ctx = pure (hh_ignored, ctx)
  neigh_result DplaneOp.neigh_update ctx = pure (hh_ignored, ctx)
  neigh_result DplaneOp.neigh_delete ctx = pure (hh_ignored, ctx)
  neigh_result DplaneOp.neigh_discover ctx = pure (hh_ignored, ctx)
  neigh_result DplaneOp.vtep_add ctx = pure (hh_ignored, ctx)
  neigh_result DplaneOp.vtep_delete ctx = pure (hh_ignored, ctx)
  neigh_result _ ctx = bug e (hh_bug, ctx)

  unfoldable pub hh_process_neigh : Ctx → M (HhRes × Ctx)
  unfolding neigh_result
  hh_process_neigh ctx = neigh_result ctx.op ctx

  nh_result : DplaneOp → Ctx → M (HhRes × Ctx)
  nh_result DplaneOp.nh_install ctx = pure (hh_ignored, ctx)
  nh_result DplaneOp.nh_update ctx = pure (hh_ignored, ctx)
  nh_result DplaneOp.nh_delete ctx = pure (hh_ignored, ctx)
  nh_result _ ctx = bug e (hh_bug, ctx)

  unfoldable pub hh_process_nh : Ctx → M (HhRes × Ctx)
  unfolding nh_result
  hh_process_nh ctx = nh_result ctx.op ctx

  macinfo_request : DplaneOp → Ctx → M (HhRes × Ctx)
  macinfo_request DplaneOp.mac_install ctx =
      send_rpc_request_rmac e reconnect RpcOp.add ctx >>= queued_if ctx
  macinfo_request DplaneOp.mac_delete ctx =
      send_rpc_request_rmac e reconnect RpcOp.del ctx >>= queued_if ctx
  macinfo_request _ ctx = bug e (hh_bug, ctx)

  unfoldable pub hh_process_macinfo : Ctx → M (HhRes × Ctx)
  unfolding macinfo_request
  hh_process_macinfo ctx = macinfo_request ctx.op ctx

  -- The `switch` of `hh_process`. Every operation that it lists and does not hand on is ignored, and
  -- one that it does not list fails.
  dispatch : DplaneOp → Ctx → M (HhRes × Ctx)
  unfolding hh_process_routes hh_process_ifaddr hh_process_neigh hh_process_nh hh_process_macinfo
  dispatch DplaneOp.route_install ctx = hh_process_routes ctx
  dispatch DplaneOp.route_update ctx = hh_process_routes ctx
  dispatch DplaneOp.route_delete ctx = hh_process_routes ctx
  dispatch DplaneOp.route_notify ctx = hh_process_routes ctx
  dispatch DplaneOp.nh_install ctx = hh_process_nh ctx
  dispatch DplaneOp.nh_update ctx = hh_process_nh ctx
  dispatch DplaneOp.nh_delete ctx = hh_process_nh ctx
  dispatch DplaneOp.sys_route_add ctx = hh_process_routes ctx
  dispatch DplaneOp.sys_route_delete ctx = hh_process_routes ctx
  dispatch DplaneOp.addr_install ctx = hh_process_ifaddr ctx
  dispatch DplaneOp.addr_uninstall ctx = hh_process_ifaddr ctx
  dispatch DplaneOp.mac_install ctx = hh_process_macinfo ctx
  dispatch DplaneOp.mac_delete ctx = hh_process_macinfo ctx
  dispatch DplaneOp.neigh_install ctx = hh_process_neigh ctx
  dispatch DplaneOp.neigh_update ctx = hh_process_neigh ctx
  dispatch DplaneOp.neigh_delete ctx = hh_process_neigh ctx
  dispatch DplaneOp.neigh_discover ctx = hh_process_neigh ctx
  dispatch DplaneOp.vtep_add ctx = hh_process_neigh ctx
  dispatch DplaneOp.vtep_delete ctx = hh_process_neigh ctx
  dispatch DplaneOp.unlisted ctx = pure (hh_fail, ctx)
  dispatch _ ctx = pure (hh_ignored, ctx)

  unfoldable pub hh_process : Ctx → M (HhRes × Ctx)
  unfolding dispatch
  hh_process ctx = dispatch ctx.op ctx

  -- A context that was not queued for the dataplane goes back at once.
  unfoldable pub after_process : HhRes × Ctx → M (Unit {0})
  after_process (hh_queued, ctx) = pure tt
  after_process (r, ctx) = hh_ret_to_zebra e r >>= λ res. modify (give_back ctx res)

  unfoldable pub zd_hh_process_update : Ctx → M (Unit {0})
  zd_hh_process_update ctx = hh_process ctx >>= after_process
