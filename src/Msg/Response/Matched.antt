-- ===== src/Msg/Response/Matched.antt =====
-- A message that is no response, or a response to the first request in flight, or one that shows a
-- restart of the dataplane, from src/hh_dp_msg.c: no request is dropped.
use mathlib.Core.Bool.{true≢false}
use dplane_plugin.Base.{◌≡◌, ◌∙◌, sym, refl, suc, List, [], ◌∷◌, inl, inr, false, not}
use dplane_plugin.Rpc.{RpcMsg, RpcResponse}
use dplane_plugin.World.Env.{Env}
use dplane_plugin.World.State.{State, DpMsg}
use dplane_plugin.World.Monad.{M, Post, Post-bind, Post-if, Post-ite}
use dplane_plugin.Cache.{dp_msg_in_flight_count}
use dplane_plugin.Comm.Send.{lost_connection}
use dplane_plugin.Msg.Response.{
  match_request, match_popped, recover_request, finish_response, handle_rpc_response,
  handle_rpc_msg, got_expected_response, dataplane_restarted,
}
use dplane_plugin.Msg.Response.Stays.{
  Recovered, purge-Ends, finish_response-Ends, handle_rpc_control-Stays,
}
use dplane_plugin.Invariant.Answer.{set_in_flight, dp_msg_pop_inflight-eq}
use dplane_plugin.Invariant.Handle.{Answers, AnswersMsg}
use dplane_plugin.Invariant.Incoming.{Matched, IsMatched}
use dplane_plugin.Stays.Counts.{Counts}
use dplane_plugin.Stays.{View, view_of, Stays, Ends}

module _ (e : Env) {P Q : View → Type 0} {Out Gone : DpMsg → View → Type 0}
    (counts : Counts e P Q Out Gone) where
  match_request-answered :
      (resp : RpcResponse) (m : DpMsg) (msg : RpcMsg) (s : State)
      → AnswersMsg resp msg
      → Out m (view_of s)
      → Post (Unit {0}) (Unit {0}) (Recovered P Out) (match_request e resp m msg s)
  unfolding match_request
  match_request-answered resp m (RpcMsg.request req) s ok h =
      Post-if (Unit {0}) (Unit {0}) (Recovered P Out) (not (got_expected_response resp req)) _ _ s
        (λ bad. absurd (true≢false (sym bad ∙ (λ i. not (ok i))))) (λ _. h)
  match_request-answered resp m (RpcMsg.response r) s ok h = absurd ok
  match_request-answered resp m (RpcMsg.control c) s ok h = absurd ok
  match_request-answered resp m RpcMsg.notification s ok h = absurd ok
  match_request-answered resp m RpcMsg.other s ok h = absurd ok

  recover_request-answered :
      (resp : RpcResponse) (ms : List DpMsg) (s : State)
      → s.cache.in_flight ≡ ms
      → Answers resp ms
      → P (view_of s)
      → Post (Unit {0}) (Unit {0}) (Recovered P Out) (recover_request e resp s)
  unfolding recover_request match_popped
  recover_request-answered resp [] s is ok h =
      rw (dp_msg_pop_inflight-eq s is, match_popped) (counts.spare (view_of s) is h)
  recover_request-answered resp (m ∷ ms) s is ok h =
      rw (dp_msg_pop_inflight-eq s is, match_popped)
        (match_request-answered resp m m.msg (set_in_flight ms s) ok
          (counts.take m ms (view_of s) is h))

module _ (e : Env) (reconnect : M (Unit {0})) {P Q : View → Type 0}
    {Out Gone : DpMsg → View → Type 0} (counts : Counts e P Q Out Gone)
    (lost : Stays P (lost_connection e reconnect)) where
  handle_rpc_response-matched :
      (resp : RpcResponse) (s : State)
      → Matched e resp s
      → P (view_of s)
      → Ends P (handle_rpc_response e reconnect resp s)
  unfolding handle_rpc_response
  handle_rpc_response-matched resp s matched h =
      Post-ite (Unit {0}) (Unit {0}) (λ _ t. P (view_of t)) (dataplane_restarted e resp s) _ _
        (λ _.
          purge-Ends e reconnect counts lost (suc (dp_msg_in_flight_count s)) resp s.cache.in_flight
            s refl h)
        (λ same.
          Post-bind (Unit {0}) (Unit {0}) (Recovered P Out) (λ _ t. P (view_of t))
            (recover_request e resp) (finish_response e reconnect resp) s
            (recover_request-answered e counts resp s.cache.in_flight s refl (answers same matched)
              h)
            (finish_response-Ends e reconnect counts lost resp))
    where
      answers :
          dataplane_restarted e resp s ≡ false → Matched e resp s → Answers resp s.cache.in_flight
      answers same (inl other) = absurd (true≢false (sym other ∙ same))
      answers same (inr ok) = ok

  -- What the book-keeping keeps is kept with no room for a request that is dropped.
  pub handle_rpc_msg-matched :
      (msg : RpcMsg) (s : State)
      → IsMatched e msg s
      → P (view_of s)
      → Ends P (handle_rpc_msg e reconnect msg s)
  unfolding handle_rpc_msg
  handle_rpc_msg-matched (RpcMsg.response resp) s ok h = handle_rpc_response-matched resp s ok h
  handle_rpc_msg-matched (RpcMsg.control refresh) s ok h =
      (handle_rpc_control-Stays e reconnect counts lost refresh).at s h
  handle_rpc_msg-matched (RpcMsg.request r) s ok h = h
  handle_rpc_msg-matched RpcMsg.notification s ok h = h
  handle_rpc_msg-matched RpcMsg.other s ok h = h
