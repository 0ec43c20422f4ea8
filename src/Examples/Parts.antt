-- ===== src/Examples/Parts.antt =====
-- The parts on the example.
use dplane_plugin.Base.{inl, ℕ, ◌≡◌, refl, List, [], ◌∷◌, map, replicate, none, false, arith}
use dplane_plugin.Rpc.{RpcOp, RpcResponse, ResultCode}
use dplane_plugin.World.State.{State, on_comm}
use dplane_plugin.World.Monad.{returns, success, failure, pure, Post}
use dplane_plugin.World.Frr.{request_success}
use dplane_plugin.Comm.Socket.{
  set_dp_sock_local_path, set_dp_sock_remote_path, dp_unix_sock_open, dp_unix_sock_close,
  dp_unix_sock_reopen, dp_unix_connect,
}
use dplane_plugin.Comm.Socket.Paths.{
  set_dp_sock_path-stores, set_dp_sock_path-refuses, longest_path-fails,
}
use dplane_plugin.Comm.Socket.Descriptors.{NoLeak, sock-NoLeak}
use dplane_plugin.Comm.Send.{send_pending_rpc_msgs}
use dplane_plugin.Comm.Send.Flush.{send_pending-idle, send_pending-Flushed, Flushed}
use dplane_plugin.Msg.Build.{iproute_of, route_head, nhop_encode}
use dplane_plugin.Msg.Build.Nhops.{selected, counts, iproute_of-selected}
use dplane_plugin.Msg.Response.{handle_rpc_response, got_expected_response}
use dplane_plugin.Msg.Response.Answered.{Gave, handle_rpc_response-Gave, handle_rpc_response-drops}
use dplane_plugin.Guarantees.{IsDebug}
use dplane_plugin.Examples.{env, state, comm, message, request_with, route}

-- A response to the Add with this number.
abbrev reply : ℕ → RpcResponse
reply k = record { op = RpcOp.add; seqn = k; rescode = ResultCode.ok; objects = none }

-- The state before the dataplane has answered the Connect.
abbrev unready : State
unready = record state { comm = record comm { dplane_is_ready = false } }

abbrev short_path : List ℕ
short_path = b'a' ∷ []

abbrev longest : List ℕ
longest = replicate 108 b'a'

handle_rpc_response-Gave_example :
    Post ⊥
      (IsDebug env)
      (λ _ t. Gave (route 1) request_success (message 1) [] state t)
      (handle_rpc_response env (pure tt) (reply 1) state)
unfolding got_expected_response
handle_rpc_response-Gave_example =
    handle_rpc_response-Gave env (pure tt) (IsDebug env) (λ d. d) (route 1) (reply 1)
      (request_with 1) (message 1) [] state tt refl refl refl refl refl

handle_rpc_response-drops_example :
    handle_rpc_response env (pure tt) (reply 2) state
    ≡ returns tt (record state { cache = record state.cache { in_flight = [] } })
unfolding got_expected_response
handle_rpc_response-drops_example =
    handle_rpc_response-drops env (pure tt) (route 1) (reply 2) (request_with 1) (message 1) []
      state refl tt refl refl refl refl

send_pending-idle_example : send_pending_rpc_msgs env (pure tt) unready ≡ returns tt unready
send_pending-idle_example = send_pending-idle env (pure tt) unready (refl, refl, (refl, tt))

send_pending-Flushed_example :
    Post ⊥ (IsDebug env) (λ _ t. Flushed env state t) (send_pending_rpc_msgs env (pure tt) state)
send_pending-Flushed_example =
    send_pending-Flushed env (pure tt) (IsDebug env) (λ d. d) state refl refl
      ((1 ∷ 2 ∷ [], refl, refl), tt)

iproute_of-selected_example : iproute_of env (route 1) ≡ record (route_head (route 1)) {
  nhops = map nhop_encode (selected (counts (route 1).nexthops) (route 1).nexthops);
}
iproute_of-selected_example = iproute_of-selected env (route 1) (λ r n. refl)

sock-NoLeak_example :
    (NoLeak env (dp_unix_sock_close state) × ((dp_unix_sock_close state).comm.dp_sock ≡ none))
    × NoLeak env (dp_unix_sock_reopen env state)
    × NoLeak env (dp_unix_connect env (1 ∷ []) state).1
sock-NoLeak_example = sock-NoLeak env (1 ∷ []) state (λ fd. omega arith)

set_dp_sock_path-stores_example :
    (set_dp_sock_local_path short_path state
      ≡ (success, on_comm (λ c. record c { plugin_sock_path = short_path }) state))
    × (set_dp_sock_remote_path short_path state
        ≡ (success, on_comm (λ c. record c { dp_sock_path = short_path }) state))
set_dp_sock_path-stores_example =
    set_dp_sock_path-stores short_path state (omega arith, omega arith)

set_dp_sock_path-refuses_example :
    (set_dp_sock_local_path [] state ≡ (failure, state))
    × (set_dp_sock_remote_path [] state ≡ (failure, state))
set_dp_sock_path-refuses_example = set_dp_sock_path-refuses [] state (inl refl)

longest_path-fails_example :
    ((set_dp_sock_local_path longest state).0 ≡ success)
    × ((set_dp_sock_remote_path longest state).0 ≡ success)
    × ((dp_unix_sock_open env longest state).0 ≡ none)
    × (dp_unix_connect env longest state ≡ (failure, state))
longest_path-fails_example = longest_path-fails env longest state refl
