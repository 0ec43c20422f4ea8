-- ===== src/Msg/Response.antt =====
-- src/hh_dp_msg.c, incoming messages: matching a response with its request, giving contexts back to
-- zebra, the purge after a restart of the dataplane, and control messages.
pub mod Steps
pub mod Answered
pub mod Matched
pub mod Stays
use dplane_plugin.Base.{
  ℕ, zero, suc, ◌+◌, [], ◌∷◌, ◌++◌, Option, none, some, Bool, true, false, not, ◌&&◌, ◌==◌,
  if◌then◌else◌,
}
use dplane_plugin.Rpc.{
  RpcMsg, RpcOp, RpcRequest, RpcResponse, ResultCode, RpcObject, is_connect, op_eq,
}
use dplane_plugin.World.Env.{Env}
use dplane_plugin.World.State.{State, DpMsg, on_zebra}
use dplane_plugin.World.Frr.{Ctx, ZebraResult, request_success, request_failure, set_status}
use dplane_plugin.World.Monad.{M, returns, no_fuel, pure, abort, modify, bug, ◌>>=◌, ◌>>◌}
use dplane_plugin.Stats.{rpc_count_request_replied, rpc_count_ctl_rx}
use dplane_plugin.Cache.{dp_msg_recycle, dp_msg_pop_inflight, dp_msg_in_flight_count}
use dplane_plugin.Comm.Socket.{dplane_get_synt, dplane_set_synt, dplane_set_ready}
use dplane_plugin.Comm.Send.{send_pending_rpc_msgs}
use dplane_plugin.Msg.Request.{send_rpc_control}

unfoldable pub got_expected_response : RpcResponse → RpcRequest → Bool
got_expected_response resp req = resp.seqn == req.seqn && op_eq resp.op req.op

-- `if (resp->objects) dplane_set_synt(resp->objects->conn_info.synt)`
abbrev pub recall_synt : Env → Option RpcObject → State → State
recall_synt e none s = s
recall_synt e (some o) s = dplane_set_synt (e.conn_info_synt o) s

abbrev pub set_refreshed : State → State
set_refreshed = on_zebra λ z. record z { refreshes = z.refreshes + 1 }

-- The context with its result at the end of the provider's queue, and one more signal.
unfoldable pub hand_off_ctx : DpMsg → Option Ctx → ZebraResult → M DpMsg
hand_off_ctx m none result s = abort s
hand_off_ctx m (some c) result s =
    returns (record m { ctx = none })
      (on_zebra
        (λ z. record z {
          out_queue = z.out_queue ++ set_status c result ∷ [];
          work_ready = z.work_ready + 1;
        })
        s)

-- Without a context the accessors would read through NULL.
unfoldable pub dp_msg_hand_off : DpMsg → ZebraResult → M DpMsg
dp_msg_hand_off m result = hand_off_ctx m m.ctx result

-- An ignored request counts as a success.
abbrev pub zebra_result : ResultCode → ZebraResult
zebra_result ResultCode.ok = request_success
zebra_result ResultCode.ignored = request_success
zebra_result (ResultCode.other_code k) = request_failure

-- The response that stands in for one that will not come.
abbrev pub fake_response : RpcRequest → RpcResponse
fake_response req = record { op = req.op; seqn = req.seqn; rescode = ResultCode.ok; objects = none }

-- The first test of `handle_rpc_response`: a Connect response with another token than ours.
abbrev restarted_by : Env → ℕ → Option RpcObject → Bool
restarted_by e synt none = false
restarted_by e synt (some o) = not (synt == 0) && not (e.conn_info_synt o == synt)

unfoldable pub dataplane_restarted : Env → RpcResponse → State → Bool
dataplane_restarted e resp s = is_connect resp.op && restarted_by e (dplane_get_synt s) resp.objects

abbrev pub is_ok : ResultCode → Bool
is_ok ResultCode.ok = true
is_ok _ = false

module _ (e : Env) where
  -- What becomes of a message out of the in-flight queue: it is the one that was expected, or it is
  -- dropped. `goto done` recycles it.
  unfoldable pub match_request : RpcResponse → DpMsg → RpcMsg → M (Option DpMsg)
  match_request resp m (RpcMsg.request req) =
      if not (got_expected_response resp req)
      then (dp_msg_recycle e m >> pure none)
      else pure (some m)
  match_request resp m _ = dp_msg_recycle e m >> pure none

  unfoldable pub match_popped : RpcResponse → Option DpMsg → M (Option DpMsg)
  match_popped resp none = pure none
  match_popped resp (some m) = match_request resp m m.msg

  unfoldable pub recover_request : RpcResponse → M (Option DpMsg)
  recover_request resp s = let (popped, t) = dp_msg_pop_inflight s in match_popped resp popped t

  -- `if (m->ctx)`
  unfoldable pub answer_ctx : DpMsg → Option Ctx → ResultCode → M DpMsg
  answer_ctx m none rescode = pure m
  answer_ctx m (some c) rescode = dp_msg_hand_off m (zebra_result rescode)

  unfoldable pub handle_rpc_ctx_response : DpMsg → ResultCode → M DpMsg
  handle_rpc_ctx_response m rescode s =
      if not s.zebra.registered then bug e m s else answer_ctx m m.ctx rescode s

module _ (e : Env) (reconnect : M (Unit {0})) where
  unfoldable pub handle_rpc_connect_response : RpcResponse → Bool → M (Unit {0})
  handle_rpc_connect_response resp purged s =
      if is_ok resp.rescode
      then (let t = dplane_set_ready true (recall_synt e resp.objects s) in
          if not purged then send_pending_rpc_msgs e reconnect t else returns tt t)
      else abort s

  -- The `switch` on the operation of the response.
  unfoldable pub answer : RpcOp → RpcResponse → DpMsg → Bool → M DpMsg
  answer RpcOp.connect resp m purged = handle_rpc_connect_response resp purged >> pure m
  answer RpcOp.add resp m purged = handle_rpc_ctx_response e m resp.rescode
  answer RpcOp.del resp m purged = handle_rpc_ctx_response e m resp.rescode
  answer RpcOp.update resp m purged = handle_rpc_ctx_response e m resp.rescode
  answer (RpcOp.other_op k) resp m purged = pure m

  -- `m` is a message of type Request. The result is the message as it is left.
  unfoldable pub do_handle_rpc_response : RpcResponse → DpMsg → RpcMsg → Bool → M DpMsg
  do_handle_rpc_response resp m (RpcMsg.request req) purged =
      rpc_count_request_replied e req.op req.object.type resp.rescode
      >> answer resp.op resp m purged
  do_handle_rpc_response resp m _ purged = abort

  -- The body of the purge: the answer to a message that the previous dataplane took.
  unfoldable pub purge_one : RpcResponse → DpMsg → RpcMsg → M (Unit {0})
  purge_one resp m (RpcMsg.request req) =
      (if not (is_connect req.op)
        then do_handle_rpc_response (fake_response req) m m.msg true
        else do_handle_rpc_response resp m m.msg true)
      >>= dp_msg_recycle e
  purge_one resp m _ = abort

  -- One round of the purge, on what was popped.
  unfoldable pub purge_popped : M (Unit {0}) → RpcResponse → Option DpMsg → M (Unit {0})
  purge_popped rest resp none = pure tt
  purge_popped rest resp (some m) = purge_one resp m m.msg >> rest

  -- The loop of the purge, `k` rounds of it at most.
  unfoldable pub purge : ℕ → RpcResponse → M (Unit {0})
  purge zero resp s = no_fuel
  purge (suc k) resp s =
      let (popped, t) = dp_msg_pop_inflight s in purge_popped (purge k resp) resp popped t

  -- The end of `handle_rpc_response`, with the request that was recovered.
  unfoldable pub finish_response : RpcResponse → Option DpMsg → M (Unit {0})
  finish_response resp none = pure tt
  finish_response resp (some m) = do_handle_rpc_response resp m m.msg false >>= dp_msg_recycle e

  unfoldable pub handle_rpc_response : RpcResponse → M (Unit {0})
  handle_rpc_response resp s =
      if dataplane_restarted e resp s
      then purge (suc (dp_msg_in_flight_count s)) resp s
      else (recover_request e resp >>= finish_response resp) s

  unfoldable pub handle_rpc_control : ℕ → M (Unit {0})
  handle_rpc_control refresh =
      (if not (refresh == 0)
        then (modify set_refreshed >> (send_rpc_control e reconnect 1 >>= λ _. pure tt))
        else pure tt)
      >> modify rpc_count_ctl_rx

  unfoldable pub handle_rpc_msg : RpcMsg → M (Unit {0})
  handle_rpc_msg (RpcMsg.response resp) = handle_rpc_response resp
  handle_rpc_msg (RpcMsg.control refresh) = handle_rpc_control refresh
  handle_rpc_msg _ = pure tt
