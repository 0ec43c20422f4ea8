-- ===== src/Msg/Response/Stays.antt =====
-- Responses, from src/hh_dp_msg.c: they keep what a lost connection keeps.
use dplane_plugin.Base.{
  ◌≡◌, List, [], ◌∷◌, if◌then◌else◌, ℕ, zero, suc, refl, Option, none, some, ◌==◌, not, true, false,
  Bool,
}
use dplane_plugin.Rpc.{RpcMsg, RpcOp, RpcObject, RpcResponse, ResultCode, is_connect}
use dplane_plugin.World.Env.{Env}
use dplane_plugin.World.Frr.{Ctx, ZebraResult}
use dplane_plugin.World.State.{State, DpMsg}
use dplane_plugin.World.Monad.{M, pure, modify, Post, Post-bind, Post-if, ◌>>◌}
use dplane_plugin.Stats.{rpc_count_request_replied, rpc_count_ctl_rx}
use dplane_plugin.Cache.{dp_msg_recycle, dp_msg_in_flight_count}
use dplane_plugin.Comm.Socket.{dplane_set_ready, dplane_set_synt}
use dplane_plugin.Comm.Send.{lost_connection}
use dplane_plugin.Comm.Send.Stays.{dp_msg_recycle-Stays, send_pending_rpc_msgs-Stays}
use dplane_plugin.Msg.Stays.{send_rpc_control-Stays}
use dplane_plugin.Msg.Response.{
  match_request, match_popped, recover_request, hand_off_ctx, dp_msg_hand_off, answer_ctx,
  handle_rpc_ctx_response, handle_rpc_connect_response, answer, do_handle_rpc_response, purge_one,
  purge_popped, purge, finish_response, handle_rpc_response, handle_rpc_control, handle_rpc_msg,
  got_expected_response, recall_synt, is_ok, dataplane_restarted, set_refreshed, zebra_result,
  fake_response,
}
use dplane_plugin.Invariant.Answer.{set_in_flight, dp_msg_pop_inflight-eq}
use dplane_plugin.Stays.Counts.{Counts}
use dplane_plugin.Stays.{
  View, view_of, Stays, Stays-pure, Stays-abort, Stays-if, Stays-bug, Stays-bind, Stays-then,
  Stays-modify, Ends-if, Ends, Ends-bind,
}

-- What `recover_request` leaves: with no request the property holds, with one it holds but for that
-- request.
abbrev pub Recovered : (View → Type 0) → (DpMsg → View → Type 0) → Option DpMsg → State → Type 0
Recovered P Out none s = P (view_of s)
Recovered P Out (some m) s = Out m (view_of s)

module _ (e : Env) {P Q : View → Type 0} {Out Gone : DpMsg → View → Type 0}
    (counts : Counts e P Q Out Gone) where
  -- A request that is not answered is dropped.
  drop-Recovered :
      (m : DpMsg) (s : State)
      → Gone m (view_of s)
      → Post (Unit {0}) (Unit {0}) (Recovered P Out) ((dp_msg_recycle e m >> pure none) s)
  drop-Recovered m s h =
      Post-bind (Unit {0}) (Unit {0}) (λ _ t. P (view_of t)) (Recovered P Out) (dp_msg_recycle e m)
        (λ _. pure none) s ((dp_msg_recycle-Stays e {P = P} m).at s (counts.drop m (view_of s) h))
        (λ _ t k. k)

  match_request-Recovered :
      (resp : RpcResponse) (m : DpMsg) (msg : RpcMsg) (s : State)
      → Gone m (view_of s)
      → Post (Unit {0}) (Unit {0}) (Recovered P Out) (match_request e resp m msg s)
  unfolding match_request
  match_request-Recovered resp m (RpcMsg.request req) s h =
      Post-if (Unit {0}) (Unit {0}) (Recovered P Out) (not (got_expected_response resp req))
        (dp_msg_recycle e m >> pure none) (pure (some m)) s (λ _. drop-Recovered m s h)
        (λ _. counts.keep m (view_of s) h)
  match_request-Recovered resp m (RpcMsg.response r) s h = drop-Recovered m s h
  match_request-Recovered resp m (RpcMsg.control c) s h = drop-Recovered m s h
  match_request-Recovered resp m RpcMsg.notification s h = drop-Recovered m s h
  match_request-Recovered resp m RpcMsg.other s h = drop-Recovered m s h

  recover_request-Recovered :
      (resp : RpcResponse) (ms : List DpMsg) (s : State)
      → s.cache.in_flight ≡ ms
      → Q (view_of s)
      → Post (Unit {0}) (Unit {0}) (Recovered P Out) (recover_request e resp s)
  unfolding recover_request match_popped
  recover_request-Recovered resp [] s is h =
      rw (dp_msg_pop_inflight-eq s is, match_popped)
        (counts.spare (view_of s) is (counts.close (view_of s) h))
  recover_request-Recovered resp (m ∷ ms) s is h =
      rw (dp_msg_pop_inflight-eq s is, match_popped)
        (match_request-Recovered resp m m.msg (set_in_flight ms s)
          (counts.lose m ms (view_of s) is h))

module _ (e : Env) {P : View → Type 0} where
  hand_off_ctx-Stays : (m : DpMsg) (o : Option Ctx) (r : ZebraResult) → Stays P (hand_off_ctx m o r)
  unfolding hand_off_ctx
  hand_off_ctx-Stays m none r = Stays-abort
  hand_off_ctx-Stays m (some c) r = record { at = λ s h. h }

  answer_ctx-Stays : (m : DpMsg) (o : Option Ctx) (rc : ResultCode) → Stays P (answer_ctx e m o rc)
  unfolding answer_ctx dp_msg_hand_off
  answer_ctx-Stays m none rc = Stays-pure m
  answer_ctx-Stays m (some c) rc = hand_off_ctx-Stays m m.ctx (zebra_result rc)

  handle_rpc_ctx_response-Stays :
      (m : DpMsg) (rc : ResultCode) → Stays P (handle_rpc_ctx_response e m rc)
  unfolding handle_rpc_ctx_response
  handle_rpc_ctx_response-Stays m rc = record {
    at = λ s h.
        Ends-if P (not s.zebra.registered) _ _ ((Stays-bug {P = P} e m).at s h)
          ((answer_ctx-Stays m m.ctx rc).at s h);
  }

module _ (e : Env) (reconnect : M (Unit {0})) {P Q : View → Type 0}
    {Out Gone : DpMsg → View → Type 0} (counts : Counts e P Q Out Gone)
    (lost : Stays P (lost_connection e reconnect)) where
  handle_rpc_connect_response-Stays :
      (resp : RpcResponse) (purged : Bool)
      → Stays P (handle_rpc_connect_response e reconnect resp purged)
  unfolding handle_rpc_connect_response dplane_set_ready
  handle_rpc_connect_response-Stays resp purged = record {
    at = λ s h.
        let t = dplane_set_ready true (recall_synt e resp.objects s) in
        Ends-if P (is_ok resp.rescode) _ _
          (Ends-if P (not purged) _ _
            ((send_pending_rpc_msgs-Stays e reconnect counts.books lost).at t
              (recalled resp.objects s h))
            (recalled resp.objects s h))
          tt;
  }
    where
      recalled :
          (o : Option RpcObject) (s : State) → P (view_of s) → P (view_of (recall_synt e o s))
      recalled none s h = h
      recalled (some o) s h = unfold dplane_set_synt in h

  answer-Stays :
      (op : RpcOp) (resp : RpcResponse) (m : DpMsg) (purged : Bool)
      → Stays P (answer e reconnect op resp m purged)
  unfolding answer
  answer-Stays RpcOp.connect resp m purged =
      Stays-then _ _ (handle_rpc_connect_response-Stays resp purged) (Stays-pure m)
  answer-Stays RpcOp.add resp m purged = handle_rpc_ctx_response-Stays e m resp.rescode
  answer-Stays RpcOp.del resp m purged = handle_rpc_ctx_response-Stays e m resp.rescode
  answer-Stays RpcOp.update resp m purged = handle_rpc_ctx_response-Stays e m resp.rescode
  answer-Stays (RpcOp.other_op k) resp m purged = Stays-pure m

  -- The answer to a request that was taken out.
  do_handle_rpc_response-Ends :
      (resp : RpcResponse) (m : DpMsg) (msg : RpcMsg) (purged : Bool)
      → m.msg ≡ msg
      → (s : State) → Out m (view_of s)
      → Ends P (do_handle_rpc_response e reconnect resp m msg purged s)
  unfolding do_handle_rpc_response
  do_handle_rpc_response-Ends resp m (RpcMsg.request req) purged is s h =
      Ends-bind P (rpc_count_request_replied e req.op req.object.type resp.rescode)
        (λ _. answer e reconnect resp.op resp m purged) s (counts.reply m req resp.rescode is s h)
        (λ _. answer-Stays resp.op resp m purged)
  do_handle_rpc_response-Ends resp m (RpcMsg.response r) purged is s h = tt
  do_handle_rpc_response-Ends resp m (RpcMsg.control c) purged is s h = tt
  do_handle_rpc_response-Ends resp m RpcMsg.notification purged is s h = tt
  do_handle_rpc_response-Ends resp m RpcMsg.other purged is s h = tt

  purge_one-Ends :
      (resp : RpcResponse) (m : DpMsg) (msg : RpcMsg) (s : State)
      → Out m (view_of s)
      → Ends P (purge_one e reconnect resp m msg s)
  unfolding purge_one
  purge_one-Ends resp m (RpcMsg.request req) s h =
      Ends-bind P
        (if not (is_connect req.op)
          then do_handle_rpc_response e reconnect (fake_response req) m m.msg true
          else do_handle_rpc_response e reconnect resp m m.msg true)
        (dp_msg_recycle e) s
        (Post-if (Unit {0}) (Unit {0}) (λ _ t. P (view_of t)) (not (is_connect req.op)) _ _ s
          (λ _. do_handle_rpc_response-Ends (fake_response req) m m.msg true refl s h)
          (λ _. do_handle_rpc_response-Ends resp m m.msg true refl s h))
        (dp_msg_recycle-Stays e)
  purge_one-Ends resp m (RpcMsg.response r) s h = tt
  purge_one-Ends resp m (RpcMsg.control c) s h = tt
  purge_one-Ends resp m RpcMsg.notification s h = tt
  purge_one-Ends resp m RpcMsg.other s h = tt

  pub purge-Ends :
      (k : ℕ) (resp : RpcResponse) (ms : List DpMsg) (s : State)
      → s.cache.in_flight ≡ ms
      → P (view_of s)
      → Ends P (purge e reconnect k resp s)
  unfolding purge purge_popped
  purge-Ends zero resp ms s is h = tt
  purge-Ends (suc k) resp [] s is h =
      rw (dp_msg_pop_inflight-eq s is, purge_popped) (counts.spare (view_of s) is h)
  purge-Ends (suc k) resp (m ∷ ms) s is h =
      rw (dp_msg_pop_inflight-eq s is, purge_popped)
        (Ends-bind P (purge_one e reconnect resp m m.msg) (λ _. purge e reconnect k resp)
          (set_in_flight ms s)
          (purge_one-Ends resp m m.msg (set_in_flight ms s) (counts.take m ms (view_of s) is h))
          (λ _. record { at = λ t j. purge-Ends k resp t.cache.in_flight t refl j }))

  pub finish_response-Ends :
      (resp : RpcResponse) (o : Option DpMsg) (s : State)
      → Recovered P Out o s
      → Ends P (finish_response e reconnect resp o s)
  unfolding finish_response
  finish_response-Ends resp none s h = h
  finish_response-Ends resp (some m) s h =
      Ends-bind P (do_handle_rpc_response e reconnect resp m m.msg false) (dp_msg_recycle e) s
        (do_handle_rpc_response-Ends resp m m.msg false refl s h) (dp_msg_recycle-Stays e)

  handle_rpc_response-Ends :
      (resp : RpcResponse) (s : State)
      → Q (view_of s)
      → Ends P (handle_rpc_response e reconnect resp s)
  unfolding handle_rpc_response
  handle_rpc_response-Ends resp s h =
      Ends-if P (dataplane_restarted e resp s) _ _
        (purge-Ends (suc (dp_msg_in_flight_count s)) resp s.cache.in_flight s refl
          (counts.close (view_of s) h))
        (Post-bind (Unit {0}) (Unit {0}) (Recovered P Out) (λ _ t. P (view_of t))
          (recover_request e resp) (finish_response e reconnect resp) s
          (recover_request-Recovered e counts resp s.cache.in_flight s refl h)
          (finish_response-Ends resp))

  pub handle_rpc_control-Stays : (refresh : ℕ) → Stays P (handle_rpc_control e reconnect refresh)
  unfolding handle_rpc_control rpc_count_ctl_rx
  handle_rpc_control-Stays refresh =
      Stays-then _ (modify rpc_count_ctl_rx)
        (Stays-if (not (refresh == 0)) _ _
          (Stays-then (modify set_refreshed) _ (Stays-modify set_refreshed (λ s. refl)) (
            Stays-bind _ (λ _. pure tt) (send_rpc_control-Stays e reconnect counts.books lost 1)
              (λ _. Stays-pure tt)))
          (Stays-pure tt))
        (Stays-modify rpc_count_ctl_rx (λ s. refl))

  -- The handling of a message that was received may drop one request.
  pub handle_rpc_msg-Ends :
      (msg : RpcMsg) (s : State) → Q (view_of s) → Ends P (handle_rpc_msg e reconnect msg s)
  unfolding handle_rpc_msg
  handle_rpc_msg-Ends (RpcMsg.response resp) s h = handle_rpc_response-Ends resp s h
  handle_rpc_msg-Ends (RpcMsg.control refresh) s h =
      (handle_rpc_control-Stays refresh).at s (counts.close (view_of s) h)
  handle_rpc_msg-Ends (RpcMsg.request r) s h = counts.close (view_of s) h
  handle_rpc_msg-Ends RpcMsg.notification s h = counts.close (view_of s) h
  handle_rpc_msg-Ends RpcMsg.other s h = counts.close (view_of s) h
