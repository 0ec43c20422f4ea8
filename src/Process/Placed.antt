-- ===== src/Process/Placed.antt =====
-- A context from zebra, from src/hh_dp_process.c: it is queued for the dataplane or given back.
use dplane_plugin.Base.{
  ◌+◌, ◌≡◌, refl, ◌∙◌, ap, subst, [], ◌∷◌, some, arith, true, inl, inr, not, ◌==◌, Bool-cases,
  if◌then◌else◌,
}
use dplane_plugin.Rpc.{RpcOp, RpcObject}
use dplane_plugin.World.Env.{Env}
use dplane_plugin.World.Frr.{Ctx, DplaneOp, Family, other_family, af_inet, ZebraResult, set_status}
use dplane_plugin.World.State.{State}
use dplane_plugin.World.Monad.{
  M, Rc, success, failure, bug, Post, Post-weaken, Post-bind, Post-if, Post-bug, ◌>>=◌,
}
use dplane_plugin.Queues.{Carries, in_hand, ids_in-append}
use dplane_plugin.Comm.Send.Calm.{Calm}
use dplane_plugin.Msg.Request.{dp_request_new, send_with_object}
use dplane_plugin.Msg.Build.{
  send_rpc_request_ifaddress, send_rpc_request_rmac, send_rpc_request_iproute, ifaddress_of,
  rmac_of, iproute_of,
}
use dplane_plugin.Process.{
  HhRes, hh_ok, hh_fail, hh_queued, hh_ignored, hh_bug, hh_ret_to_zebra, queued_if,
  skip_kernel_by_vrf, give_back, hh_process_routes, hh_process_ifaddr, hh_process_neigh,
  hh_process_nh, hh_process_macinfo, hh_process, after_process, zd_hh_process_update, afi_wanted,
  safi_wanted, route_request, ifaddr_request, neigh_result, nh_result, macinfo_request, dispatch,
}
use dplane_plugin.Invariant.{Inv, Keeps, Keeps-refl}
use dplane_plugin.Invariant.Submit.{Adds, submit-Adds}

-- What the processing of the context `c` may yield: it is queued, and in hand once more, or it is
-- left to the caller.
abbrev pub Placed : Ctx → State → HhRes → State → Type 0
Placed c s hh_queued t = Adds c s t
Placed c s r t = Keeps s t

abbrev pub Processed : Ctx → State → HhRes × Ctx → State → Type 0
Processed c s (r, c') t = (c'.id ≡ c.id) × Placed c s r t

skip_kernel_by_vrf-id : (c : Ctx) → (skip_kernel_by_vrf c).id ≡ c.id
skip_kernel_by_vrf-id c = elim (Bool-cases (c.vrf == 0)) [ inl b ↦ rw b refl | inr b ↦ rw b refl ]

Adds-id : {c d : Ctx} {s t : State} → c.id ≡ d.id → Adds c s t → Adds d s t
Adds-id {c} {d} {s} {t} is a = record {
  inv = a.inv;
  hand = λ k. a.hand k ∙ ap (λ i. in_hand k s + (if i == k then 1 else 0)) is;
  finalizing = a.finalizing;
  recvs = a.recvs;
}

Processed-id :
    (c d : Ctx) (s : State) (a : HhRes × Ctx) (t : State)
    → c.id ≡ d.id
    → Processed c s a t
    → Processed d s a t
Processed-id c d s (hh_queued, c') t is (same, p) = (same ∙ is, Adds-id is p)
Processed-id c d s (hh_ok, c') t is (same, p) = (same ∙ is, p)
Processed-id c d s (hh_fail, c') t is (same, p) = (same ∙ is, p)
Processed-id c d s (hh_ignored, c') t is (same, p) = (same ∙ is, p)
Processed-id c d s (hh_bug, c') t is (same, p) = (same ∙ is, p)

-- The context at the end of the provider's queue.
pub give_back-Adds :
    (c : Ctx) (r : ZebraResult) {s t : State} → Keeps s t → Adds c s (give_back c r t)
give_back-Adds c r {s} {t} h = record {
  inv = record {
    registered = h.inv.registered;
    pool = h.inv.pool;
    unsent = h.inv.unsent;
    in_flight = h.inv.in_flight;
    first = h.inv.first;
    run = h.inv.run;
  };
  hand = λ k. omega (arith, h.hand k, ids_in-append k t.zebra.out_queue (set_status c r ∷ []));
  finalizing = h.finalizing;
  recvs = h.recvs;
}

module _ (e : Env) (reconnect : M (Unit {0})) (F G : Type 0) (dbg : e.debug_build ≡ true → G)
    (rec : (s : State) → Post F G (λ _ t. Calm e s t) (reconnect s)) where
  submit-Processed :
      (op : RpcOp) (o : RpcObject) (c : Ctx) (s : State)
      → Carries op
      → Inv s
      → Post F G
          (Processed c s)
          (((dp_request_new e op (some c) >>= send_with_object e reconnect o) >>= queued_if c) s)
  submit-Processed op o c s q h =
      Post-bind F G (λ r t. (r ≡ success) × Adds c s t) (Processed c s)
        (dp_request_new e op (some c) >>= send_with_object e reconnect o) (queued_if c) s
        (submit-Adds e reconnect F G dbg rec op o c s q h) (taken c s)
    where
      taken :
          (c : Ctx) (s : State) (r : Rc) (t : State)
          → (r ≡ success) × Adds c s t
          → Post F G (Processed c s) (queued_if c r t)
      taken c s success t a = (refl, a.1)
      taken c s failure t a = absurd (subst IsFailure a.0 tt)
        where
          IsFailure : Rc → Type 0
          IsFailure failure = Unit
          IsFailure success = ⊥

  bug-Processed : (c : Ctx) (s : State) → Inv s → Post F G (Processed c s) (bug e (hh_bug, c) s)
  bug-Processed c s h = Post-bug F G (Processed c s) e (hh_bug, c) s dbg (λ _. (refl, Keeps-refl h))

  route-Processed :
      (op : DplaneOp) (c : Ctx) (s : State)
      → Inv s
      → Post F G (Processed c s) (route_request e reconnect op c s)
  unfolding route_request send_rpc_request_iproute
  route-Processed DplaneOp.route_install c s h =
      submit-Processed RpcOp.add (e.iproute_as_object (iproute_of e c)) c s tt h
  route-Processed DplaneOp.route_update c s h =
      submit-Processed RpcOp.update (e.iproute_as_object (iproute_of e c)) c s tt h
  route-Processed DplaneOp.route_delete c s h =
      submit-Processed RpcOp.del (e.iproute_as_object (iproute_of e c)) c s tt h
  route-Processed DplaneOp.route_notify c s h = (refl, Keeps-refl h)
  route-Processed DplaneOp.sys_route_add c s h = (refl, Keeps-refl h)
  route-Processed DplaneOp.sys_route_delete c s h = (refl, Keeps-refl h)
  route-Processed _ c s h = bug-Processed c s h

  routes-Processed :
      (c : Ctx) (s : State) → Inv s → Post F G (Processed c s) (hh_process_routes e reconnect c s)
  unfolding hh_process_routes
  routes-Processed c s h =
      Post-if F G (Processed c s) (not (afi_wanted c.afi)) _ _ s (λ _. (refl, Keeps-refl h))
        (λ _.
          Post-if F G (Processed c s) (not (safi_wanted c.safi)) _ _ s (λ _. (refl, Keeps-refl h))
            (λ _.
              Post-weaken _ _ (route_request e reconnect c.op (skip_kernel_by_vrf c) s) (λ f. f)
                (λ g. g)
                (λ a t p. Processed-id (skip_kernel_by_vrf c) c s a t (skip_kernel_by_vrf-id c) p)
                (route-Processed c.op (skip_kernel_by_vrf c) s h)))

  ifaddr-Processed :
      (f : Family) (op : DplaneOp) (c : Ctx) (s : State)
      → Inv s
      → Post F G (Processed c s) (ifaddr_request e reconnect f op c s)
  unfolding ifaddr_request send_rpc_request_ifaddress
  ifaddr-Processed other_family op c s h = (refl, Keeps-refl h)
  ifaddr-Processed af_inet DplaneOp.addr_install c s h =
      submit-Processed RpcOp.add (e.ifaddress_as_object (ifaddress_of c)) c s tt h
  ifaddr-Processed af_inet DplaneOp.addr_uninstall c s h =
      submit-Processed RpcOp.del (e.ifaddress_as_object (ifaddress_of c)) c s tt h
  ifaddr-Processed af_inet _ c s h = bug-Processed c s h

  neigh-Processed :
      (op : DplaneOp) (c : Ctx) (s : State)
      → Inv s
      → Post F G (Processed c s) (neigh_result e reconnect op c s)
  unfolding neigh_result
  neigh-Processed DplaneOp.neigh_install c s h = (refl, Keeps-refl h)
  neigh-Processed DplaneOp.neigh_update c s h = (refl, Keeps-refl h)
  neigh-Processed DplaneOp.neigh_delete c s h = (refl, Keeps-refl h)
  neigh-Processed DplaneOp.neigh_discover c s h = (refl, Keeps-refl h)
  neigh-Processed DplaneOp.vtep_add c s h = (refl, Keeps-refl h)
  neigh-Processed DplaneOp.vtep_delete c s h = (refl, Keeps-refl h)
  neigh-Processed _ c s h = bug-Processed c s h

  nh-Processed :
      (op : DplaneOp) (c : Ctx) (s : State)
      → Inv s
      → Post F G (Processed c s) (nh_result e reconnect op c s)
  unfolding nh_result
  nh-Processed DplaneOp.nh_install c s h = (refl, Keeps-refl h)
  nh-Processed DplaneOp.nh_update c s h = (refl, Keeps-refl h)
  nh-Processed DplaneOp.nh_delete c s h = (refl, Keeps-refl h)
  nh-Processed _ c s h = bug-Processed c s h

  macinfo-Processed :
      (op : DplaneOp) (c : Ctx) (s : State)
      → Inv s
      → Post F G (Processed c s) (macinfo_request e reconnect op c s)
  unfolding macinfo_request send_rpc_request_rmac
  macinfo-Processed DplaneOp.mac_install c s h =
      submit-Processed RpcOp.add (e.rmac_as_object (rmac_of c)) c s tt h
  macinfo-Processed DplaneOp.mac_delete c s h =
      submit-Processed RpcOp.del (e.rmac_as_object (rmac_of c)) c s tt h
  macinfo-Processed _ c s h = bug-Processed c s h

  dispatch-Processed :
      (op : DplaneOp) (c : Ctx) (s : State)
      → Inv s
      → Post F G (Processed c s) (dispatch e reconnect op c s)
  unfolding dispatch hh_process_ifaddr hh_process_neigh hh_process_nh hh_process_macinfo
  dispatch-Processed DplaneOp.route_install c s h = routes-Processed c s h
  dispatch-Processed DplaneOp.route_update c s h = routes-Processed c s h
  dispatch-Processed DplaneOp.route_delete c s h = routes-Processed c s h
  dispatch-Processed DplaneOp.route_notify c s h = routes-Processed c s h
  dispatch-Processed DplaneOp.sys_route_add c s h = routes-Processed c s h
  dispatch-Processed DplaneOp.sys_route_delete c s h = routes-Processed c s h
  dispatch-Processed DplaneOp.nh_install c s h = nh-Processed c.op c s h
  dispatch-Processed DplaneOp.nh_update c s h = nh-Processed c.op c s h
  dispatch-Processed DplaneOp.nh_delete c s h = nh-Processed c.op c s h
  dispatch-Processed DplaneOp.addr_install c s h = ifaddr-Processed c.intf_addr.family c.op c s h
  dispatch-Processed DplaneOp.addr_uninstall c s h = ifaddr-Processed c.intf_addr.family c.op c s h
  dispatch-Processed DplaneOp.mac_install c s h = macinfo-Processed c.op c s h
  dispatch-Processed DplaneOp.mac_delete c s h = macinfo-Processed c.op c s h
  dispatch-Processed DplaneOp.neigh_install c s h = neigh-Processed c.op c s h
  dispatch-Processed DplaneOp.neigh_update c s h = neigh-Processed c.op c s h
  dispatch-Processed DplaneOp.neigh_delete c s h = neigh-Processed c.op c s h
  dispatch-Processed DplaneOp.neigh_discover c s h = neigh-Processed c.op c s h
  dispatch-Processed DplaneOp.vtep_add c s h = neigh-Processed c.op c s h
  dispatch-Processed DplaneOp.vtep_delete c s h = neigh-Processed c.op c s h
  dispatch-Processed DplaneOp.unlisted c s h = (refl, Keeps-refl h)
  dispatch-Processed _ c s h = (refl, Keeps-refl h)

  after_process-Adds :
      (c : Ctx) (a : HhRes × Ctx) (s t : State)
      → Processed c s a t
      → Post F G (λ _ u. Adds c s u) (after_process e reconnect a t)
  unfolding after_process hh_ret_to_zebra
  after_process-Adds c (hh_queued, c') s t (is, p) = p
  after_process-Adds c (hh_ok, c') s t (is, p) = Adds-id is (give_back-Adds c' _ p)
  after_process-Adds c (hh_fail, c') s t (is, p) = Adds-id is (give_back-Adds c' _ p)
  after_process-Adds c (hh_ignored, c') s t (is, p) = Adds-id is (give_back-Adds c' _ p)
  after_process-Adds c (hh_bug, c') s t (is, p) = Adds-id is (give_back-Adds c' _ p)

  pub zd_hh_process_update-Adds :
      (c : Ctx) (s : State)
      → Inv s
      → Post F G (λ _ t. Adds c s t) (zd_hh_process_update e reconnect c s)
  unfolding zd_hh_process_update hh_process
  zd_hh_process_update-Adds c s h =
      Post-bind F G (Processed c s) (λ _ t. Adds c s t) (hh_process e reconnect c)
        (after_process e reconnect) s (dispatch-Processed c.op c s h)
        (λ a t p. after_process-Adds c a s t p)
