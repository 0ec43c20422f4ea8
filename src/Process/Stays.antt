-- ===== src/Process/Stays.antt =====
-- The handling of contexts, from src/hh_dp_process.c, keeps what a lost connection keeps.
use dplane_plugin.Base.{refl, not}
use dplane_plugin.Rpc.{RpcOp}
use dplane_plugin.World.Env.{Env}
use dplane_plugin.World.Frr.{Ctx, DplaneOp, Family, af_inet, other_family}
use dplane_plugin.World.Monad.{M, Rc, success, failure, modify, ◌>>=◌}
use dplane_plugin.Comm.Send.{lost_connection}
use dplane_plugin.Msg.Stays.{
  send_rpc_request_ifaddress-Stays, send_rpc_request_rmac-Stays, send_rpc_request_iproute-Stays,
}
use dplane_plugin.Process.{
  HhRes, hh_ok, hh_fail, hh_queued, hh_ignored, hh_bug, hh_ret_to_zebra, queued_if, afi_wanted,
  safi_wanted, skip_kernel_by_vrf, give_back, route_request, hh_process_routes, ifaddr_request,
  hh_process_ifaddr, neigh_result, hh_process_neigh, nh_result, hh_process_nh, macinfo_request,
  hh_process_macinfo, dispatch, hh_process, after_process, zd_hh_process_update,
}
use dplane_plugin.Stays.Counts.{Books}
use dplane_plugin.Stays.{View, Stays, Stays-pure, Stays-if, Stays-bug, Stays-bind, Stays-modify}

module _ {P : View → Type 0} where
  queued_if-Stays : (ctx : Ctx) (r : Rc) → Stays P (queued_if ctx r)
  queued_if-Stays ctx success = Stays-pure _
  queued_if-Stays ctx failure = Stays-pure _

  hh_ret_to_zebra-Stays : (e : Env) (r : HhRes) → Stays P (hh_ret_to_zebra e r)
  unfolding hh_ret_to_zebra
  hh_ret_to_zebra-Stays e hh_ok = Stays-pure _
  hh_ret_to_zebra-Stays e hh_fail = Stays-pure _
  hh_ret_to_zebra-Stays e hh_queued = Stays-bug e _
  hh_ret_to_zebra-Stays e hh_ignored = Stays-pure _
  hh_ret_to_zebra-Stays e hh_bug = Stays-pure _

module _ (e : Env) (reconnect : M (Unit {0})) {P : View → Type 0} (books : Books e P)
    (lost : Stays P (lost_connection e reconnect)) where
  route_request-Stays : (op : DplaneOp) (ctx : Ctx) → Stays P (route_request e reconnect op ctx)
  unfolding route_request
  route_request-Stays DplaneOp.route_install ctx =
      Stays-bind _ _ (send_rpc_request_iproute-Stays e reconnect books lost RpcOp.add ctx)
        (queued_if-Stays ctx)
  route_request-Stays DplaneOp.route_update ctx =
      Stays-bind _ _ (send_rpc_request_iproute-Stays e reconnect books lost RpcOp.update ctx)
        (queued_if-Stays ctx)
  route_request-Stays DplaneOp.route_delete ctx =
      Stays-bind _ _ (send_rpc_request_iproute-Stays e reconnect books lost RpcOp.del ctx)
        (queued_if-Stays ctx)
  route_request-Stays DplaneOp.route_notify ctx = Stays-pure _
  route_request-Stays DplaneOp.sys_route_add ctx = Stays-pure _
  route_request-Stays DplaneOp.sys_route_delete ctx = Stays-pure _
  route_request-Stays _ ctx = Stays-bug e _

  hh_process_routes-Stays : (ctx : Ctx) → Stays P (hh_process_routes e reconnect ctx)
  unfolding hh_process_routes
  hh_process_routes-Stays ctx = Stays-if (not (afi_wanted ctx.afi)) _ _ (Stays-pure _) (
      Stays-if (not (safi_wanted ctx.safi)) _ _ (Stays-pure _)
        (route_request-Stays ctx.op (skip_kernel_by_vrf ctx)))

  ifaddr_request-Stays :
      (f : Family) (op : DplaneOp) (ctx : Ctx) → Stays P (ifaddr_request e reconnect f op ctx)
  unfolding ifaddr_request
  ifaddr_request-Stays other_family op ctx = Stays-pure _
  ifaddr_request-Stays af_inet DplaneOp.addr_install ctx =
      Stays-bind _ _ (send_rpc_request_ifaddress-Stays e reconnect books lost RpcOp.add ctx)
        (queued_if-Stays ctx)
  ifaddr_request-Stays af_inet DplaneOp.addr_uninstall ctx =
      Stays-bind _ _ (send_rpc_request_ifaddress-Stays e reconnect books lost RpcOp.del ctx)
        (queued_if-Stays ctx)
  ifaddr_request-Stays af_inet _ ctx = Stays-bug e _

  neigh_result-Stays : (op : DplaneOp) (ctx : Ctx) → Stays P (neigh_result e reconnect op ctx)
  unfolding neigh_result
  neigh_result-Stays DplaneOp.neigh_install ctx = Stays-pure _
  neigh_result-Stays DplaneOp.neigh_update ctx = Stays-pure _
  neigh_result-Stays DplaneOp.neigh_delete ctx = Stays-pure _
  neigh_result-Stays DplaneOp.neigh_discover ctx = Stays-pure _
  neigh_result-Stays DplaneOp.vtep_add ctx = Stays-pure _
  neigh_result-Stays DplaneOp.vtep_delete ctx = Stays-pure _
  neigh_result-Stays _ ctx = Stays-bug e _

  nh_result-Stays : (op : DplaneOp) (ctx : Ctx) → Stays P (nh_result e reconnect op ctx)
  unfolding nh_result
  nh_result-Stays DplaneOp.nh_install ctx = Stays-pure _
  nh_result-Stays DplaneOp.nh_update ctx = Stays-pure _
  nh_result-Stays DplaneOp.nh_delete ctx = Stays-pure _
  nh_result-Stays _ ctx = Stays-bug e _

  macinfo_request-Stays : (op : DplaneOp) (ctx : Ctx) → Stays P (macinfo_request e reconnect op ctx)
  unfolding macinfo_request
  macinfo_request-Stays DplaneOp.mac_install ctx =
      Stays-bind _ _ (send_rpc_request_rmac-Stays e reconnect books lost RpcOp.add ctx)
        (queued_if-Stays ctx)
  macinfo_request-Stays DplaneOp.mac_delete ctx =
      Stays-bind _ _ (send_rpc_request_rmac-Stays e reconnect books lost RpcOp.del ctx)
        (queued_if-Stays ctx)
  macinfo_request-Stays _ ctx = Stays-bug e _

  dispatch-Stays : (op : DplaneOp) (ctx : Ctx) → Stays P (dispatch e reconnect op ctx)
  unfolding dispatch hh_process_ifaddr hh_process_neigh hh_process_nh hh_process_macinfo
  dispatch-Stays DplaneOp.route_install ctx = hh_process_routes-Stays ctx
  dispatch-Stays DplaneOp.route_update ctx = hh_process_routes-Stays ctx
  dispatch-Stays DplaneOp.route_delete ctx = hh_process_routes-Stays ctx
  dispatch-Stays DplaneOp.route_notify ctx = hh_process_routes-Stays ctx
  dispatch-Stays DplaneOp.nh_install ctx = nh_result-Stays ctx.op ctx
  dispatch-Stays DplaneOp.nh_update ctx = nh_result-Stays ctx.op ctx
  dispatch-Stays DplaneOp.nh_delete ctx = nh_result-Stays ctx.op ctx
  dispatch-Stays DplaneOp.sys_route_add ctx = hh_process_routes-Stays ctx
  dispatch-Stays DplaneOp.sys_route_delete ctx = hh_process_routes-Stays ctx
  dispatch-Stays DplaneOp.addr_install ctx = ifaddr_request-Stays ctx.intf_addr.family ctx.op ctx
  dispatch-Stays DplaneOp.addr_uninstall ctx = ifaddr_request-Stays ctx.intf_addr.family ctx.op ctx
  dispatch-Stays DplaneOp.mac_install ctx = macinfo_request-Stays ctx.op ctx
  dispatch-Stays DplaneOp.mac_delete ctx = macinfo_request-Stays ctx.op ctx
  dispatch-Stays DplaneOp.neigh_install ctx = neigh_result-Stays ctx.op ctx
  dispatch-Stays DplaneOp.neigh_update ctx = neigh_result-Stays ctx.op ctx
  dispatch-Stays DplaneOp.neigh_delete ctx = neigh_result-Stays ctx.op ctx
  dispatch-Stays DplaneOp.neigh_discover ctx = neigh_result-Stays ctx.op ctx
  dispatch-Stays DplaneOp.vtep_add ctx = neigh_result-Stays ctx.op ctx
  dispatch-Stays DplaneOp.vtep_delete ctx = neigh_result-Stays ctx.op ctx
  dispatch-Stays DplaneOp.unlisted ctx = Stays-pure _
  dispatch-Stays _ ctx = Stays-pure _

  back :
      (r : HhRes) (ctx : Ctx) → Stays P (hh_ret_to_zebra e r >>= λ res. modify (give_back ctx res))
  back r ctx =
      Stays-bind _ (λ res. modify (give_back ctx res)) (hh_ret_to_zebra-Stays e r)
        (λ res. Stays-modify (give_back ctx res) (λ s. refl))

  after_process-Stays : (r : HhRes × Ctx) → Stays P (after_process e reconnect r)
  unfolding after_process
  after_process-Stays (hh_queued, ctx) = Stays-pure tt
  after_process-Stays (hh_ok, ctx) = back hh_ok ctx
  after_process-Stays (hh_fail, ctx) = back hh_fail ctx
  after_process-Stays (hh_ignored, ctx) = back hh_ignored ctx
  after_process-Stays (hh_bug, ctx) = back hh_bug ctx

  pub zd_hh_process_update-Stays : (ctx : Ctx) → Stays P (zd_hh_process_update e reconnect ctx)
  unfolding zd_hh_process_update hh_process
  zd_hh_process_update-Stays ctx = Stays-bind _ _ (dispatch-Stays ctx.op ctx) after_process-Stays
