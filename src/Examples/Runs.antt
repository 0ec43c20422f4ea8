-- ===== src/Examples/Runs.antt =====
-- The callbacks on the example.
use dplane_plugin.Base.{
  arith, Bool, inr, suc, ◌≡◌, refl, [], ◌∷◌, none, some, true, false, ◌⊎◌, length,
}
use dplane_plugin.Rpc.{RpcOp, RpcResponse, ResultCode}
use dplane_plugin.World.Env.{Env}
use dplane_plugin.World.State.{State}
use dplane_plugin.World.Monad.{Outcome, success, returns, Post, ◌>>=◌}
use dplane_plugin.Cache.{dp_msg_in_flight_count, dp_msg_pop_inflight, dp_msg_recycle}
use dplane_plugin.Comm.Send.{send_pending_rpc_msgs, dp_sock_send_cb}
use dplane_plugin.Comm.Connect.{dp_connect, init_dplane_rpc}
use dplane_plugin.Comm.Connect.Start.{Started}
use dplane_plugin.Stats.{rpc_count_request_replied, rpc_count_rx, rpc_count_rx_eagain}
use dplane_plugin.Comm.Recv.{dp_rpc_recv, recv_rounds, sock_recv, handle_received, handle_decoded}
use dplane_plugin.Comm.Recv.Loop.{Refused, Runs}
use dplane_plugin.Msg.Request.{dp_request_new, send_with_object}
use dplane_plugin.Msg.Response.{
  handle_rpc_msg, purge, handle_rpc_response, dataplane_restarted, recover_request, match_popped,
  match_request, got_expected_response, finish_response, do_handle_rpc_response, answer,
  handle_rpc_ctx_response, answer_ctx, dp_msg_hand_off, hand_off_ctx,
}
use dplane_plugin.Process.{hh_queued, hh_process}
use dplane_plugin.Process.Classes.{Is}
use dplane_plugin.Plugin.{zd_hh_process, zd_hh_fini}
use dplane_plugin.Invariant.{Keeps}
use dplane_plugin.Invariant.Submit.{Adds}
use dplane_plugin.Invariant.Handle.{Loses}
use dplane_plugin.Invariant.Incoming.{IsRefusalMsg}
use dplane_plugin.Events.{Event, Reach, Step, fire, here, next, hand_in, unschedule, callback}
use dplane_plugin.Events.Safety.{Grows, Reach-Grows}
use dplane_plugin.Guarantees.{
  IsDebug, connect-ends, send_pending-Sends, submit-accepts, Connects, Sends, handle_rpc_msg-Keeps,
  handle_rpc_msg-Loses, purge-empties, recv-Runs, send_cb-armed, work-conserves, process-class,
  init-starts,
}
use dplane_plugin.Guarantees.Counted.{Balanced, handle_rpc_msg-Balanced}
use dplane_plugin.Examples.{env, state, state-Inv, env-Settles, added, blank, route, comm}

-- Another dataplane, which accepts the connection.
abbrev restart : RpcResponse
restart = record {
  op = RpcOp.connect;
  seqn = 0;
  rescode = ResultCode.ok;
  objects = some (record blank { type = 1 });
}

-- The state before the start.
abbrev pub initial : State
initial = record state { comm = record comm { dp_sock = none; fb = false } }

connect-ends_example : Post ⊥ (IsDebug env) (λ _ t. Connects env state t) (dp_connect env 1 state)
connect-ends_example = connect-ends env 1 state (λ storm. storm.1)

send_pending-Sends_example :
    Post ⊥
      (IsDebug env)
      (λ _ t. Sends env state t)
      (send_pending_rpc_msgs env (dp_connect env 1) state)
send_pending-Sends_example = send_pending-Sends env 1 env-Settles state

submit-accepts_example :
    Post ⊥
      (IsDebug env)
      (λ r t. (r ≡ success) × Adds (route 4) state t)
      ((dp_request_new env RpcOp.add (some (route 4))
          >>= send_with_object env (dp_connect env 1) blank)
        state)
submit-accepts_example =
    submit-accepts env 1 env-Settles RpcOp.add blank (route 4) state tt state-Inv

handle_rpc_msg-Keeps_example :
    Post ⊥
      (IsDebug env ⊎ IsRefusalMsg (added 1))
      (λ _ t. Keeps state t)
      (handle_rpc_msg env (dp_connect env 1) (added 1) state)
unfolding got_expected_response
handle_rpc_msg-Keeps_example =
    handle_rpc_msg-Keeps env 1 env-Settles (added 1) state state-Inv (inr refl)

handle_rpc_msg-Balanced_example :
    Post ⊥
      (IsDebug env ⊎ IsRefusalMsg (added 1))
      (λ _ t. Balanced env 4 2 state t)
      (handle_rpc_msg env (dp_connect env 1) (added 1) state)
unfolding got_expected_response
handle_rpc_msg-Balanced_example =
    handle_rpc_msg-Balanced env 1 env-Settles 4 2 (omega arith) (omega arith) (added 1) state
      state-Inv (inr refl)

handle_rpc_msg-Loses_example :
    Post ⊥
      (IsDebug env ⊎ IsRefusalMsg (added 2))
      (λ _ t. Loses state t)
      (handle_rpc_msg env (dp_connect env 1) (added 2) state)
handle_rpc_msg-Loses_example = handle_rpc_msg-Loses env 1 env-Settles (added 2) state state-Inv

purge-empties_example :
    Post ⊥
      (IsDebug env)
      (λ _ t. Keeps state t × (t.cache.in_flight ≡ []) × (t.cache.unsent ≡ state.cache.unsent))
      (purge env (dp_connect env 1) (suc (dp_msg_in_flight_count state)) restart state)
purge-empties_example = purge-empties env 1 env-Settles restart state refl refl state-Inv

recv-Runs_example :
    Post ⊥ (IsDebug env ⊎ Refused env) (λ _ t. Runs env state t) (dp_rpc_recv env 1 2 state)
recv-Runs_example = recv-Runs env 1 env-Settles 2 state (λ flood. flood.1.0.1) state-Inv

send_cb-armed_example :
    Post ⊥
      (IsDebug env)
      (λ _ t. (length t.cache.unsent ≡ 0) ⊎ (t.comm.ev_send ≡ true))
      (dp_sock_send_cb env (dp_connect env 1) state)
send_cb-armed_example = send_cb-armed env 1 env-Settles state

work-conserves_example : Post ⊥ (IsDebug env) (λ _ t. Keeps state t) (zd_hh_process env 1 state)
work-conserves_example = work-conserves env 1 env-Settles state state-Inv

process-class_example :
    Post ⊥ (IsDebug env) (λ a _. Is hh_queued a) (hh_process env (dp_connect env 1) (route 4) state)
process-class_example = process-class env 1 env-Settles (route 4) state state-Inv

init-starts_example : Post ⊥ (IsDebug env) Started (init_dplane_rpc env 1 initial)
init-starts_example = init-starts env 1 env-Settles initial refl refl refl

-- The state that a call returns in.
abbrev pub state_of : {A : Type 0} → State → Outcome A → State
state_of s (returns a t) = t
state_of s _ = s

-- Zebra hands in a context, the response to the first request comes, and the end begins.
abbrev pub handed_in : State
handed_in = hand_in (route 4) state

abbrev pub answered : State
answered = state_of state (callback env 1 2 Event.recv (unschedule Event.recv handed_in))

-- The run is that of either build.
abbrev pub built : Bool → Env
built b = record env { debug_build = b }

answered-returns :
    (b : Bool)
    → callback (built b) 1 2 Event.recv (unschedule Event.recv handed_in) ≡ returns tt answered
unfolding dp_rpc_recv recv_rounds sock_recv handle_received handle_decoded handle_rpc_msg
    handle_rpc_response dataplane_restarted recover_request match_popped match_request
    got_expected_response finish_response do_handle_rpc_response answer handle_rpc_ctx_response
    answer_ctx dp_msg_hand_off hand_off_ctx dp_msg_pop_inflight dp_msg_recycle
    rpc_count_request_replied rpc_count_rx rpc_count_rx_eagain
answered-returns b = refl

received : (b : Bool) → Step (built b) 1 2 Event.recv handed_in answered
received b = fire {s = handed_in} {t = answered} Event.recv refl (answered-returns b)

pub run : (b : Bool) → Reach (built b) 1 2 state (route 4 ∷ []) (zd_hh_fini true answered)
unfolding zd_hh_fini
run b =
    next Event.ending
      (next Event.recv (next (Event.handed (route 4)) here (fire (Event.handed (route 4)) tt refl))
        (received b))
      (fire Event.ending tt refl)

Reach-Grows_example : Grows env (route 4 ∷ []) state (zd_hh_fini true answered)
Reach-Grows_example = Reach-Grows env 1 2 (run false) state-Inv
