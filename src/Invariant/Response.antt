-- ===== src/Invariant/Response.antt =====
-- The handlers of responses: one answer, one message of the purge, the purge, and the response to a
-- request that was recovered.
use mathlib.Core.Bool.{false≢true}
use dplane_plugin.Base.{
  ◌≡◌, refl, ◌∙◌, sym, ap, subst, Option, none, some, arith, Bool, true, false, not, inl, inr,
}
use dplane_plugin.Rpc.{RpcMsg, RpcOp, RpcRequest, RpcResponse, ResultCode, RpcObject, is_connect}
use dplane_plugin.World.Env.{Env}
use dplane_plugin.World.Frr.{Ctx, ZebraResult}
use dplane_plugin.World.State.{State, DpMsg}
use dplane_plugin.World.Monad.{M, pure, Post, Post-weaken, Post-bind, Post-ite}
use dplane_plugin.Cache.{dp_msg_recycle}
use dplane_plugin.Stats.{rpc_count_request_replied}
use dplane_plugin.Stats.Frame.{StatsOnly, rpc_count_request_replied-StatsOnly}
use dplane_plugin.Queues.{Flying, FlyingOp, ctx_count}
use dplane_plugin.Comm.Send.{send_pending_rpc_msgs}
use dplane_plugin.Comm.Send.Calm.{Calm}
use dplane_plugin.Comm.Send.Settle.{dp_msg_recycle-Post}
use dplane_plugin.Comm.Socket.{dplane_set_synt, dplane_set_ready}
use dplane_plugin.Msg.Response.{
  dp_msg_hand_off, hand_off_ctx, answer_ctx, handle_rpc_ctx_response, handle_rpc_connect_response,
  answer, do_handle_rpc_response, recall_synt, is_ok, zebra_result,
}
use dplane_plugin.Invariant.{Inv, Keeps, Keeps-trans}
use dplane_plugin.Invariant.Submit.{send_pending-Keeps}
use dplane_plugin.Invariant.Answer.{
  Held, Held-Keeps, Aside-Keeps, StatsOnly-Keeps, given-Held, recycled-Held,
}

-- What is left of the message `m` after its answer: no context, and nothing else lost.
abbrev pub Answered : State → DpMsg → State → Type 0
Answered s m t = (m.ctx ≡ none) × Held m s t

ready_synt-Keeps :
    (e : Env) (o : Option RpcObject) (s : State)
    → Inv s
    → Keeps s (dplane_set_ready true (recall_synt e o s))
unfolding dplane_set_ready dplane_set_synt
ready_synt-Keeps e none s h = Aside-Keeps (refl, refl, refl, refl, refl, refl, refl) h
ready_synt-Keeps e (some o) s h = Aside-Keeps (refl, refl, refl, refl, refl, refl, refl) h

free-Keeps : {m : DpMsg} {s t : State} → m.ctx ≡ none → Held m s t → Keeps s t
free-Keeps {m} free h = record {
  inv = h.inv;
  hand = λ k. omega (arith, h.hand k, ap (ctx_count k) free);
  finalizing = h.finalizing;
  recvs = h.recvs;
}

module _ (e : Env) (F G : Type 0) (dbg : e.debug_build ≡ true → G) where
  -- An answered message is recycled.
  pub recycle-Keeps :
      (m : DpMsg) (s t : State)
      → Answered s m t
      → Post F G (λ _ u. Keeps s u) (dp_msg_recycle e m t)
  recycle-Keeps m s t (free, h) =
      Post-weaken _ _ (dp_msg_recycle e m t) (λ f. f) (λ g. g)
        (λ _ u r. elim r [
          | inl (_, same) ↦ subst (Keeps s) (sym same) (free-Keeps free h)
          | inr (_, more) ↦ subst (Keeps s) (sym more) (recycled-Held m free h)
        ])
        (dp_msg_recycle-Post e F G dbg m t)

  hand_off_ctx-Answered :
      (m : DpMsg) (c : Ctx) (r : ZebraResult) (s t : State)
      → m.ctx ≡ some c
      → Held m s t
      → Post F G (Answered s) (hand_off_ctx m (some c) r t)
  unfolding hand_off_ctx
  hand_off_ctx-Answered m c r s t is h = (refl, given-Held m c r is h)

  answer_ctx-Answered :
      (m : DpMsg) (o : Option Ctx) (rc : ResultCode) (s t : State)
      → m.ctx ≡ o
      → Held m s t
      → Post F G (Answered s) (answer_ctx e m o rc t)
  unfolding answer_ctx dp_msg_hand_off
  answer_ctx-Answered m none rc s t is h = (is, h)
  answer_ctx-Answered m (some c) rc s t is h =
      subst (λ o. Post F G (Answered s) (hand_off_ctx m o (zebra_result rc) t)) (sym is)
        (hand_off_ctx-Answered m c (zebra_result rc) s t is h)

  ctx_response-Answered :
      (m : DpMsg) (rc : ResultCode) (s t : State)
      → Held m s t
      → Post F G (Answered s) (handle_rpc_ctx_response e m rc t)
  unfolding handle_rpc_ctx_response
  ctx_response-Answered m rc s t h =
      Post-ite F G (Answered s) (not t.zebra.registered) _ _
        (λ bad. absurd (false≢true (sym (ap not h.inv.registered) ∙ bad)))
        (λ _. answer_ctx-Answered m m.ctx rc s t refl h)

module _ (e : Env) (reconnect : M (Unit {0})) (F G : Type 0) (dbg : e.debug_build ≡ true → G)
    (rec : (s : State) → Post F G (λ _ t. Calm e s t) (reconnect s)) where
  -- The response to a Connect: the abort of the process is for a refusal alone.
  connect_response-Keeps :
      (resp : RpcResponse) (purged : Bool) (s : State)
      → (is_ok resp.rescode ≡ false → G)
      → Inv s
      → Post F G (λ _ t. Keeps s t) (handle_rpc_connect_response e reconnect resp purged s)
  unfolding handle_rpc_connect_response
  connect_response-Keeps resp purged s refused h =
      let t = dplane_set_ready true (recall_synt e resp.objects s) in
      let j = ready_synt-Keeps e resp.objects s h in
      Post-ite F G (λ _ u. Keeps s u) (is_ok resp.rescode) _ _
        (λ _.
          Post-ite F G (λ _ u. Keeps s u) (not purged) _ _
            (λ _.
              Post-weaken _ _ (send_pending_rpc_msgs e reconnect t) (λ f. f) (λ g. g)
                (λ _ u i. Keeps-trans j i) (send_pending-Keeps e reconnect F G dbg rec t j.inv))
            (λ _. j))
        refused

  -- The answer to a request in flight, by its own operation.
  answer-Answered :
      (op : RpcOp) (resp : RpcResponse) (m : DpMsg) (o : Option Ctx) (purged : Bool) (s t : State)
      → m.ctx ≡ o
      → FlyingOp op o
      → (is_connect op ≡ true → is_ok resp.rescode ≡ false → G)
      → Held m s t
      → Post F G (Answered s) (answer e reconnect op resp m purged t)
  unfolding answer
  answer-Answered RpcOp.add resp m o purged s t is fly ref h =
      ctx_response-Answered e F G dbg m resp.rescode s t h
  answer-Answered RpcOp.del resp m o purged s t is fly ref h =
      ctx_response-Answered e F G dbg m resp.rescode s t h
  answer-Answered RpcOp.update resp m o purged s t is fly ref h =
      ctx_response-Answered e F G dbg m resp.rescode s t h
  answer-Answered (RpcOp.other_op k) resp m none purged s t is fly ref h = elim fly [ ]
  answer-Answered (RpcOp.other_op k) resp m (some c) purged s t is fly ref h = elim fly [ ]
  answer-Answered RpcOp.connect resp m (some c) purged s t is fly ref h = elim fly [ ]
  answer-Answered RpcOp.connect resp m none purged s t is fly ref h =
      Post-bind F G (λ _ u. Keeps t u) (Answered s)
        (handle_rpc_connect_response e reconnect resp purged) (λ _. pure m) t
        (connect_response-Keeps resp purged t (ref refl) h.inv) (λ _ u j. (is, Held-Keeps h j))

  -- A response with the operation of the request that it answers.
  pub do_handle-Answered :
      (resp : RpcResponse) (m : DpMsg) (msg : RpcMsg) (purged : Bool) (s t : State)
      → m.msg ≡ msg
      → Flying msg m.ctx
      → ((req : RpcRequest) → msg ≡ RpcMsg.request req → resp.op ≡ req.op)
      → (is_connect resp.op ≡ true → is_ok resp.rescode ≡ false → G)
      → Held m s t
      → Post F G (Answered s) (do_handle_rpc_response e reconnect resp m msg purged t)
  unfolding do_handle_rpc_response
  do_handle-Answered resp m (RpcMsg.request req) purged s t is fly same ref h =
      Post-bind F G (λ _ u. StatsOnly t u) (Answered s)
        (rpc_count_request_replied e req.op req.object.type resp.rescode)
        (λ _. answer e reconnect resp.op resp m purged) t
        (rpc_count_request_replied-StatsOnly F G e dbg req.op req.object.type resp.rescode t)
        (λ _ u only.
          answer-Answered resp.op resp m m.ctx purged s u refl
            (subst (λ op. FlyingOp op m.ctx) (sym (same req refl)) fly) ref
            (Held-Keeps h (StatsOnly-Keeps only h.inv)))
  do_handle-Answered resp m (RpcMsg.response r) purged s t is fly same ref h = absurd fly
  do_handle-Answered resp m (RpcMsg.control r) purged s t is fly same ref h = absurd fly
  do_handle-Answered resp m RpcMsg.notification purged s t is fly same ref h = absurd fly
  do_handle-Answered resp m RpcMsg.other purged s t is fly same ref h = absurd fly
