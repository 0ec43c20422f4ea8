-- ===== src/Process/Classes.antt =====
-- Which contexts from zebra are queued for the dataplane, which are ignored and which fail, from
-- src/hh_dp_process.c.
use dplane_plugin.Base.{
  ◌≡◌, refl, sym, subst, some, Bool, true, false, inl, inr, Bool-cases, ◌&&◌, if◌then◌else◌,
}
use dplane_plugin.Rpc.{RpcOp, RpcObject}
use dplane_plugin.World.Env.{Env}
use dplane_plugin.World.Frr.{
  Ctx, DplaneOp, Family, other_family, af_inet, Afi, afi_ip, afi_l2vpn, other_afi, Safi,
  safi_unicast, safi_evpn, other_safi,
}
use dplane_plugin.World.State.{State}
use dplane_plugin.World.Monad.{M, Rc, success, failure, pure, Post, Post-bind, ◌>>=◌}
use dplane_plugin.Queues.{Carries}
use dplane_plugin.Comm.Send.Calm.{Calm}
use dplane_plugin.Msg.Request.{dp_request_new, send_with_object}
use dplane_plugin.Msg.Build.{
  send_rpc_request_ifaddress, send_rpc_request_rmac, send_rpc_request_iproute, ifaddress_of,
  rmac_of, iproute_of,
}
use dplane_plugin.Process.{
  HhRes, hh_fail, hh_queued, hh_ignored, queued_if, skip_kernel_by_vrf, hh_process_routes,
  hh_process_ifaddr, hh_process_neigh, hh_process_nh, hh_process_macinfo, hh_process, afi_wanted,
  safi_wanted, route_request, ifaddr_request, neigh_result, nh_result, macinfo_request, dispatch,
}
use dplane_plugin.Invariant.{Inv}
use dplane_plugin.Invariant.Submit.{Adds, submit-Adds}

-- The tables are those of the specification: a route is of interest if it is IPv4 or L2VPN, and unicast
-- or EVPN.
abbrev route_class : Afi → Safi → HhRes
route_class afi_ip safi_unicast = hh_queued
route_class afi_ip safi_evpn = hh_queued
route_class afi_l2vpn safi_unicast = hh_queued
route_class afi_l2vpn safi_evpn = hh_queued
route_class _ _ = hh_ignored

route_class-wanted :
    (a : Afi) (f : Safi)
    → (if afi_wanted a && safi_wanted f then hh_queued else hh_ignored) ≡ route_class a f
route_class-wanted afi_ip safi_unicast = refl
route_class-wanted afi_ip safi_evpn = refl
route_class-wanted afi_ip other_safi = refl
route_class-wanted afi_l2vpn safi_unicast = refl
route_class-wanted afi_l2vpn safi_evpn = refl
route_class-wanted afi_l2vpn other_safi = refl
route_class-wanted other_afi f = refl

abbrev address_class : Family → HhRes
address_class af_inet = hh_queued
address_class other_family = hh_ignored

-- The class of a context.
abbrev pub class_by : DplaneOp → Ctx → HhRes
class_by DplaneOp.route_install c = route_class c.afi c.safi
class_by DplaneOp.route_update c = route_class c.afi c.safi
class_by DplaneOp.route_delete c = route_class c.afi c.safi
class_by DplaneOp.addr_install c = address_class c.intf_addr.family
class_by DplaneOp.addr_uninstall c = address_class c.intf_addr.family
class_by DplaneOp.mac_install c = hh_queued
class_by DplaneOp.mac_delete c = hh_queued
class_by DplaneOp.unlisted c = hh_fail
class_by _ c = hh_ignored

abbrev pub Is : HhRes → HhRes × Ctx → Type 0
Is r a = a.0 ≡ r

module _ (e : Env) (reconnect : M (Unit {0})) (F G : Type 0) (dbg : e.debug_build ≡ true → G)
    (rec : (s : State) → Post F G (λ _ t. Calm e s t) (reconnect s)) where
  queued_if-Is :
      (c : Ctx) (r : Rc) (t : State)
      → r ≡ success
      → Post F G (λ a _. Is hh_queued a) (queued_if c r t)
  queued_if-Is c success t is = refl
  queued_if-Is c failure t is = cc

  submit-queued :
      (op : RpcOp) (o : RpcObject) (c : Ctx) (s : State)
      → Carries op
      → Inv s
      → Post F G
          (λ a _. Is hh_queued a)
          (((dp_request_new e op (some c) >>= send_with_object e reconnect o) >>= queued_if c) s)
  submit-queued op o c s q h =
      Post-bind F G (λ r t. (r ≡ success) × Adds c s t) (λ a _. Is hh_queued a)
        (dp_request_new e op (some c) >>= send_with_object e reconnect o) (queued_if c) s
        (submit-Adds e reconnect F G dbg rec op o c s q h) (λ r t a. queued_if-Is c r t a.0)

  -- `hh_process_routes`, given what its `switch` yields for the operation of the context.
  routes-Is :
      (op : DplaneOp) (r : HhRes) (c : Ctx) (s : State)
      → c.op ≡ op
      → ((d : Ctx) → Post F G (λ a _. Is r a) (route_request e reconnect op d s))
      → Post F G
          (λ a _. Is (if afi_wanted c.afi && safi_wanted c.safi then r else hh_ignored) a)
          (hh_process_routes e reconnect c s)
  unfolding hh_process_routes
  routes-Is op r c s is h = elim (Bool-cases (afi_wanted c.afi)) [
    | inr no_afi ↦ rw no_afi refl
    | inl afi ↦ elim (Bool-cases (safi_wanted c.safi)) [
      | inr no_safi ↦ rw (afi, no_safi) refl
      | inl safi ↦
          rw (afi, safi)
            (subst
              (λ x. Post F G (λ a _. Is r a) (route_request e reconnect x (skip_kernel_by_vrf c) s))
              (sym is) (h (skip_kernel_by_vrf c)))
    ]
  ]

  -- A route operation that is queued if the route is of interest.
  wanted-Is :
      (op : DplaneOp) (c : Ctx) (s : State)
      → c.op ≡ op
      → ((d : Ctx) → Post F G (λ a _. Is hh_queued a) (route_request e reconnect op d s))
      → Post F G (λ a _. Is (route_class c.afi c.safi) a) (hh_process_routes e reconnect c s)
  wanted-Is op c s is h =
      subst (λ x. Post F G (λ a _. Is x a) (hh_process_routes e reconnect c s))
        (route_class-wanted c.afi c.safi) (routes-Is op hh_queued c s is h)

  -- A route operation that is ignored, wanted or not.
  ignored-Is :
      (op : DplaneOp) (c : Ctx) (s : State)
      → c.op ≡ op
      → ((d : Ctx) → route_request e reconnect op d ≡ pure (hh_ignored, d))
      → Post F G (λ a _. Is hh_ignored a) (hh_process_routes e reconnect c s)
  ignored-Is op c s is h =
      subst (λ x. Post F G (λ a _. Is x a) (hh_process_routes e reconnect c s))
        (either (afi_wanted c.afi && safi_wanted c.safi))
        (routes-Is op hh_ignored c s is (λ d.
          subst (λ (m : M (HhRes × Ctx)). Post F G (λ a _. Is hh_ignored a) (m s)) (sym (h d))
            refl))
    where
      either : (b : Bool) → (if b then hh_ignored else hh_ignored) ≡ hh_ignored
      either true = refl
      either false = refl

  ifaddr-Is :
      (f : Family) (op : DplaneOp) (c : Ctx) (s : State)
      → Post F G (λ a _. Is hh_queued a) (ifaddr_request e reconnect af_inet op c s)
      → Post F G (λ a _. Is (address_class f) a) (ifaddr_request e reconnect f op c s)
  unfolding ifaddr_request
  ifaddr-Is other_family op c s h = refl
  ifaddr-Is af_inet op c s h = h

  dispatch-Is :
      (op : DplaneOp) (c : Ctx) (s : State)
      → c.op ≡ op
      → Inv s
      → Post F G (λ a _. Is (class_by op c) a) (dispatch e reconnect op c s)
  unfolding dispatch hh_process_ifaddr hh_process_neigh hh_process_nh hh_process_macinfo
      route_request ifaddr_request neigh_result nh_result macinfo_request send_rpc_request_iproute
      send_rpc_request_rmac send_rpc_request_ifaddress dp_request_new
  dispatch-Is DplaneOp.route_install c s is h =
      wanted-Is DplaneOp.route_install c s is
        (λ d. submit-queued RpcOp.add (e.iproute_as_object (iproute_of e d)) d s tt h)
  dispatch-Is DplaneOp.route_update c s is h =
      wanted-Is DplaneOp.route_update c s is
        (λ d. submit-queued RpcOp.update (e.iproute_as_object (iproute_of e d)) d s tt h)
  dispatch-Is DplaneOp.route_delete c s is h =
      wanted-Is DplaneOp.route_delete c s is
        (λ d. submit-queued RpcOp.del (e.iproute_as_object (iproute_of e d)) d s tt h)
  dispatch-Is DplaneOp.route_notify c s is h = ignored-Is DplaneOp.route_notify c s is (λ d. refl)
  dispatch-Is DplaneOp.sys_route_add c s is h = ignored-Is DplaneOp.sys_route_add c s is (λ d. refl)
  dispatch-Is DplaneOp.sys_route_delete c s is h =
      ignored-Is DplaneOp.sys_route_delete c s is (λ d. refl)
  dispatch-Is DplaneOp.neigh_install c s is h = rw is refl
  dispatch-Is DplaneOp.neigh_update c s is h = rw is refl
  dispatch-Is DplaneOp.neigh_delete c s is h = rw is refl
  dispatch-Is DplaneOp.neigh_discover c s is h = rw is refl
  dispatch-Is DplaneOp.vtep_add c s is h = rw is refl
  dispatch-Is DplaneOp.vtep_delete c s is h = rw is refl
  dispatch-Is DplaneOp.nh_install c s is h = rw is refl
  dispatch-Is DplaneOp.nh_update c s is h = rw is refl
  dispatch-Is DplaneOp.nh_delete c s is h = rw is refl
  dispatch-Is DplaneOp.mac_install c s is h =
      subst (λ x. Post F G (λ a _. Is hh_queued a) (macinfo_request e reconnect x c s)) (sym is)
        (submit-queued RpcOp.add (e.rmac_as_object (rmac_of c)) c s tt h)
  dispatch-Is DplaneOp.mac_delete c s is h =
      subst (λ x. Post F G (λ a _. Is hh_queued a) (macinfo_request e reconnect x c s)) (sym is)
        (submit-queued RpcOp.del (e.rmac_as_object (rmac_of c)) c s tt h)
  dispatch-Is DplaneOp.addr_install c s is h =
      subst
        (λ x.
          Post F G (λ a _. Is (address_class c.intf_addr.family) a)
            (ifaddr_request e reconnect c.intf_addr.family x c s))
        (sym is)
        (ifaddr-Is c.intf_addr.family DplaneOp.addr_install c s
          (submit-queued RpcOp.add (e.ifaddress_as_object (ifaddress_of c)) c s tt h))
  dispatch-Is DplaneOp.addr_uninstall c s is h =
      subst
        (λ x.
          Post F G (λ a _. Is (address_class c.intf_addr.family) a)
            (ifaddr_request e reconnect c.intf_addr.family x c s))
        (sym is)
        (ifaddr-Is c.intf_addr.family DplaneOp.addr_uninstall c s
          (submit-queued RpcOp.del (e.ifaddress_as_object (ifaddress_of c)) c s tt h))
  dispatch-Is DplaneOp.unlisted c s is h = refl
  dispatch-Is _ c s is h = refl

  -- The result for each context is that of its class; an abort is that of a debug build.
  pub hh_process-class :
      (c : Ctx) (s : State)
      → Inv s
      → Post F G (λ a _. Is (class_by c.op c) a) (hh_process e reconnect c s)
  unfolding hh_process
  hh_process-class c s h = dispatch-Is c.op c s refl h
