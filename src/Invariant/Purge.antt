-- ===== src/Invariant/Purge.antt =====
-- The purge after a restart of the dataplane: it answers every request in flight, sends nothing, and
-- ends with no request in flight.
use mathlib.Core.Bool.{false≢true}
use dplane_plugin.Base.{
  ℕ, zero, suc, ◌<◌, ◌≡◌, refl, ◌∙◌, sym, ap, subst, List, [], ◌∷◌, Option, none, some, arith, true,
  false, not, inl, inr, length, Bool-cases,
}
use dplane_plugin.Rpc.{RpcMsg, RpcOp, RpcRequest, RpcResponse, ResultCode, RpcObject, is_connect}
use dplane_plugin.World.Env.{Env}
use dplane_plugin.World.Frr.{Ctx, ZebraResult}
use dplane_plugin.World.State.{State, DpMsg}
use dplane_plugin.World.Monad.{
  M, pure, Post, Post-weaken, Post-bind, Post-ite, Post-and, Post-bug, ◌>>=◌,
}
use dplane_plugin.Cache.{dp_msg_recycle}
use dplane_plugin.Stats.{rpc_count_request_replied}
use dplane_plugin.Stats.Frame.{StatsOnly, rpc_count_request_replied-StatsOnly}
use dplane_plugin.Queues.{IsFlying, Flying}
use dplane_plugin.Comm.Send.Calm.{Calm}
use dplane_plugin.Comm.Send.Settle.{dp_msg_recycle-Post}
use dplane_plugin.Comm.Socket.{dplane_set_synt, dplane_set_ready}
use dplane_plugin.Msg.Response.{
  dp_msg_hand_off, hand_off_ctx, answer_ctx, handle_rpc_ctx_response, handle_rpc_connect_response,
  answer, do_handle_rpc_response, recall_synt, is_ok, zebra_result, fake_response, purge_one,
  purge_popped, purge,
}
use dplane_plugin.Invariant.{Inv, Keeps, Keeps-trans}
use dplane_plugin.Invariant.Answer.{
  Held, Aside-Keeps, set_in_flight, dp_msg_pop_inflight-eq, popped-Held,
}
use dplane_plugin.Invariant.Response.{Answered, do_handle-Answered, recycle-Keeps}

-- The lists are left alone.
abbrev Quiet : State → State → Type 0
Quiet s t = t.cache ≡ s.cache

recall_synt-Quiet : (e : Env) (o : Option RpcObject) (s : State) → Quiet s (recall_synt e o s)
unfolding dplane_set_synt
recall_synt-Quiet e none s = refl
recall_synt-Quiet e (some o) s = refl

module _ (e : Env) (reconnect : M (Unit {0})) where
  connect_response-Quiet :
      (resp : RpcResponse) (s : State)
      → Post
          (Unit {0})
          (Unit {0})
          (λ _ t. Quiet s t)
          (handle_rpc_connect_response e reconnect resp true s)
  unfolding handle_rpc_connect_response dplane_set_ready
  connect_response-Quiet resp s =
      Post-ite (Unit {0}) (Unit {0}) (λ _ t. Quiet s t) (is_ok resp.rescode) _ _
        (λ _. recall_synt-Quiet e resp.objects s) (λ _. tt)

  hand_off-Quiet :
      (m : DpMsg) (o : Option Ctx) (r : ZebraResult) (s : State)
      → Post (Unit {0}) (Unit {0}) (λ _ t. Quiet s t) (hand_off_ctx m o r s)
  unfolding hand_off_ctx
  hand_off-Quiet m none r s = tt
  hand_off-Quiet m (some c) r s = refl

  answer_ctx-Quiet :
      (m : DpMsg) (o : Option Ctx) (rc : ResultCode) (s : State)
      → Post (Unit {0}) (Unit {0}) (λ _ t. Quiet s t) (answer_ctx e m o rc s)
  unfolding answer_ctx dp_msg_hand_off
  answer_ctx-Quiet m none rc s = refl
  answer_ctx-Quiet m (some c) rc s = hand_off-Quiet m m.ctx (zebra_result rc) s

  ctx_response-Quiet :
      (m : DpMsg) (rc : ResultCode) (s : State)
      → Post (Unit {0}) (Unit {0}) (λ _ t. Quiet s t) (handle_rpc_ctx_response e m rc s)
  unfolding handle_rpc_ctx_response
  ctx_response-Quiet m rc s =
      Post-ite (Unit {0}) (Unit {0}) (λ _ t. Quiet s t) (not s.zebra.registered) _ _
        (λ _. Post-bug (Unit {0}) (Unit {0}) (λ _ t. Quiet s t) e m s (λ _. tt) (λ _. refl))
        (λ _. answer_ctx-Quiet m m.ctx rc s)

  answer-Quiet :
      (op : RpcOp) (resp : RpcResponse) (m : DpMsg) (s : State)
      → Post (Unit {0}) (Unit {0}) (λ _ t. Quiet s t) (answer e reconnect op resp m true s)
  unfolding answer
  answer-Quiet RpcOp.connect resp m s =
      Post-bind (Unit {0}) (Unit {0}) (λ _ t. Quiet s t) (λ _ t. Quiet s t)
        (handle_rpc_connect_response e reconnect resp true) (λ _. pure m) s
        (connect_response-Quiet resp s) (λ _ t q. q)
  answer-Quiet RpcOp.add resp m s = ctx_response-Quiet m resp.rescode s
  answer-Quiet RpcOp.del resp m s = ctx_response-Quiet m resp.rescode s
  answer-Quiet RpcOp.update resp m s = ctx_response-Quiet m resp.rescode s
  answer-Quiet (RpcOp.other_op k) resp m s = refl

  do_handle-Quiet :
      (resp : RpcResponse) (m : DpMsg) (msg : RpcMsg) (s : State)
      → Post
          (Unit {0})
          (Unit {0})
          (λ _ t. Quiet s t)
          (do_handle_rpc_response e reconnect resp m msg true s)
  unfolding do_handle_rpc_response
  do_handle-Quiet resp m (RpcMsg.request req) s =
      Post-bind (Unit {0}) (Unit {0}) (λ _ t. StatsOnly s t) (λ _ t. Quiet s t)
        (rpc_count_request_replied e req.op req.object.type resp.rescode)
        (λ _. answer e reconnect resp.op resp m true) s
        (rpc_count_request_replied-StatsOnly (Unit {0}) (Unit {0}) e (λ _. tt) req.op
          req.object.type resp.rescode s)
        (λ _ t only.
          Post-weaken _ _ (answer e reconnect resp.op resp m true t) (λ f. f) (λ g. g)
            (λ _ u q. q ∙ only.cache) (answer-Quiet resp.op resp m t))
  do_handle-Quiet resp m (RpcMsg.response r) s = tt
  do_handle-Quiet resp m (RpcMsg.control r) s = tt
  do_handle-Quiet resp m RpcMsg.notification s = tt
  do_handle-Quiet resp m RpcMsg.other s = tt

-- The queues of requests are left alone; the pool may have grown.
abbrev pub Waiting : State → State → Type 0
Waiting s t = (t.cache.in_flight ≡ s.cache.in_flight) × (t.cache.unsent ≡ s.cache.unsent)

recycle-Waiting :
    (e : Env) (m : DpMsg) (s : State)
    → Post (Unit {0}) (Unit {0}) (λ _ t. Waiting s t) (dp_msg_recycle e m s)
recycle-Waiting e m s =
    Post-weaken _ _ (dp_msg_recycle e m s) (λ f. f) (λ g. g)
      (λ _ t r. elim r [
        | inl (_, same) ↦ (ap (λ x. x.cache.in_flight) same, ap (λ x. x.cache.unsent) same)
        | inr (_, more) ↦ (ap (λ x. x.cache.in_flight) more, ap (λ x. x.cache.unsent) more)
      ])
      (dp_msg_recycle-Post e (Unit {0}) (Unit {0}) (λ _. tt) m s)

-- The operation of a request; of another message, none that is looked at.
abbrev pub op_of : RpcMsg → RpcOp
op_of (RpcMsg.request req) = req.op
op_of _ = RpcOp.connect

-- A true `is_connect` names the operation.
is_connect-eq : (op : RpcOp) → is_connect op ≡ true → op ≡ RpcOp.connect
is_connect-eq op h = ground arith

module _ (e : Env) (reconnect : M (Unit {0})) (F G : Type 0) (dbg : e.debug_build ≡ true → G)
    (rec : (s : State) → Post F G (λ _ t. Calm e s t) (reconnect s)) where
  -- One answer of the purge and the recycling of the message.
  purged-Keeps :
      (resp : RpcResponse) (m : DpMsg) (s t : State)
      → ((req : RpcRequest) → m.msg ≡ RpcMsg.request req → resp.op ≡ req.op)
      → (is_connect resp.op ≡ true → is_ok resp.rescode ≡ false → G)
      → IsFlying m
      → Held m s t
      → Post F G
          (λ _ u. Keeps s u × Waiting t u)
          ((do_handle_rpc_response e reconnect resp m m.msg true >>= dp_msg_recycle e) t)
  purged-Keeps resp m s t same ref fly h =
      Post-bind F G (λ m' u. Answered s m' u × Quiet t u) (λ _ u. Keeps s u × Waiting t u)
        (do_handle_rpc_response e reconnect resp m m.msg true) (dp_msg_recycle e) t
        (Post-and F G _ _ (do_handle_rpc_response e reconnect resp m m.msg true t)
          (do_handle-Answered e reconnect F G dbg rec resp m m.msg true s t refl fly same ref h)
          (do_handle-Quiet e reconnect resp m m.msg t))
        (λ m' u a.
          Post-weaken _ _ (dp_msg_recycle e m' u) (λ f. f) (λ g. g)
            (λ _ v k. (k.0, (k.1.0 ∙ ap (λ c. c.in_flight) a.1, k.1.1 ∙ ap (λ c. c.unsent) a.1)))
            (Post-and F G _ _ (dp_msg_recycle e m' u) (recycle-Keeps e F G dbg m' s u a.0)
              (recycle-Waiting e m' u)))

  -- One message of the purge: a request with a context succeeds, a Connect gets the response itself.
  purge_one-Keeps :
      (resp : RpcResponse) (m : DpMsg) (msg : RpcMsg) (s t : State)
      → m.msg ≡ msg
      → is_connect resp.op ≡ true
      → (is_ok resp.rescode ≡ false → G)
      → IsFlying m
      → Held m s t
      → Post F G (λ _ u. Keeps s u × Waiting t u) (purge_one e reconnect resp m msg t)
  unfolding purge_one
  purge_one-Keeps resp m (RpcMsg.request req) s t is conn ref fly h =
      elim (Bool-cases (is_connect req.op)) [
        | inl yes_connect ↦ rw yes_connect (
            purged-Keeps resp m s t
              (λ req' is'.
                is_connect-eq resp.op conn
                ∙ sym (is_connect-eq req.op yes_connect)
                ∙ ap op_of (sym is ∙ is'))
              (λ _. ref) fly h)
        | inr not_connect ↦ rw not_connect (
            purged-Keeps (fake_response req) m s t (λ req' is'. ap op_of (sym is ∙ is'))
              (λ _ bad. absurd (false≢true (sym bad))) fly h)
      ]
  purge_one-Keeps resp m (RpcMsg.response r) s t is conn ref fly h =
      absurd (subst (λ x. Flying x m.ctx) is fly)
  purge_one-Keeps resp m (RpcMsg.control r) s t is conn ref fly h =
      absurd (subst (λ x. Flying x m.ctx) is fly)
  purge_one-Keeps resp m RpcMsg.notification s t is conn ref fly h =
      absurd (subst (λ x. Flying x m.ctx) is fly)
  purge_one-Keeps resp m RpcMsg.other s t is conn ref fly h =
      absurd (subst (λ x. Flying x m.ctx) is fly)

  -- The purge leaves no request in flight and every unsent message where it was.
  pub purge-Keeps :
      (k : ℕ) (resp : RpcResponse) (ms : List DpMsg) (s : State)
      → s.cache.in_flight ≡ ms
      → length ms < k
      → is_connect resp.op ≡ true
      → (is_ok resp.rescode ≡ false → G)
      → Inv s
      → Post F G
          (λ _ t. Keeps s t × (t.cache.in_flight ≡ []) × (t.cache.unsent ≡ s.cache.unsent))
          (purge e reconnect k resp s)
  unfolding purge purge_popped
  purge-Keeps zero resp ms s is lt conn ref h = absurd (omega arith)
  purge-Keeps (suc k) resp [] s is lt conn ref h =
      rw (dp_msg_pop_inflight-eq s is, purge_popped)
        (
          Aside-Keeps
              (
                ap (λ l. record s.cache { in_flight = l }) (sym is),
                refl,
                refl,
                refl,
                refl,
                refl,
                refl,
              )
              h,
          refl,
          refl,
        )
  purge-Keeps (suc k) resp (m ∷ ms) s is lt conn ref h =
      let (held, fly) = popped-Held m ms s is h in
      rw (dp_msg_pop_inflight-eq s is, purge_popped)
        (Post-bind F G (λ _ t. Keeps s t × Waiting (set_in_flight ms s) t) _
          (purge_one e reconnect resp m m.msg) (λ _. purge e reconnect k resp) (set_in_flight ms s)
          (purge_one-Keeps resp m m.msg s (set_in_flight ms s) refl conn ref fly held)
          (λ _ t j.
            Post-weaken _ _ (purge e reconnect k resp t) (λ f. f) (λ g. g)
              (λ _ u i. (Keeps-trans j.0 i.0, i.1, i.2 ∙ j.1.1))
              (purge-Keeps k resp ms t j.1.0 (omega arith) conn ref j.0.inv)))
