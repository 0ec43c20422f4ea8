-- ===== src/Comm/Send.antt =====
-- src/hh_dp_comm.c, sending: `do_send_rpc_msg`, the queue of unsent messages and `send_rpc_msg`.
-- `do_send_rpc_msg` calls `dp_connect`, which sends in its turn: here that call is the parameter
-- `reconnect`, and `Comm.Connect` ties the knot.
pub mod Calm
pub mod Attempt
pub mod Settle
pub mod Drain
pub mod Flush
pub mod Stays
pub mod Errors
use dplane_plugin.Base.{
  ℕ, zero, suc, ◌+◌, List, [], ◌∷◌, ◌++◌, none, some, Option, Bool, false, not, ◌||◌, ◌==◌, length,
  is_some, if◌then◌else◌,
}
use dplane_plugin.Rpc.{RpcMsg, is_connect}
use dplane_plugin.World.Env.{Env, Errno, SendResult}
use dplane_plugin.World.State.{State, DpMsg, on_comm, on_kernel}
use dplane_plugin.World.Monad.{
  M, returns, no_fuel, Rc, success, failure, pure, modify, bug, ◌>>=◌, ◌>>◌,
}
use dplane_plugin.Stats.{
  rpc_count_tx, rpc_count_tx_failure, rpc_count_tx_eagain, rpc_count_encode_failure,
  rpc_count_ctl_tx, rpc_count_request_sent,
}
use dplane_plugin.Cache.{
  dp_msg_recycle, dp_msg_cache_unsent, dp_msg_unsent_push_back, dp_msg_pop_unsent,
  dp_msg_unsent_count, dp_msg_cache_inflight,
}
use dplane_plugin.Comm.Socket.{dplane_set_ready, wakeon_dp_write_avail}

-- `msg->type == Request && msg->request.op == Connect`
abbrev pub is_connect_request : RpcMsg → Bool
is_connect_request (RpcMsg.request r) = is_connect r.op
is_connect_request _ = false

unfoldable pub can_send_rpc_request : RpcMsg → State → Bool
can_send_rpc_request msg s = is_connect_request msg || s.comm.dplane_is_ready

abbrev pub set_tx_buff : List ℕ → State → State
set_tx_buff bytes = on_comm λ c. record c { tx_buff = some bytes }

-- One more call of `send`; a datagram that was taken whole is on the wire.
abbrev pub count_send : State → State
count_send = on_kernel λ k. record k { sends = k.sends + 1 }

abbrev put_on_wire : List ℕ → State → State
put_on_wire bytes = on_kernel λ k. record k { wire = k.wire ++ bytes ∷ [] }

unfoldable pub count_send_error : Errno → State → State
count_send_error Errno.eagain = rpc_count_tx_eagain
count_send_error _ = rpc_count_tx_failure

module _ (e : Env) where
  -- The book-keeping of a message that was sent.
  unfoldable pub settle_sent : DpMsg → RpcMsg → M (Unit {0})
  settle_sent m (RpcMsg.request r) = do
    rpc_count_request_sent e r.op r.object.type
    dp_msg_cache_inflight m
  settle_sent m (RpcMsg.control c) = do modify rpc_count_ctl_tx; dp_msg_recycle e m
  settle_sent m _ = dp_msg_recycle e m

module _ (e : Env) (reconnect : M (Unit {0})) where
  -- The errors of `send` that call for a new connection.
  unfoldable pub lost_connection : M Rc
  unfolding dplane_set_ready
  lost_connection s =
      let t = dplane_set_ready false (on_comm (λ c. record c { dp_sock_connected = false }) s) in
      (if not t.comm.ev_connect_timer then reconnect >> pure failure else pure failure) t

  -- The `switch` on errno.
  on_send_error : Errno → M Rc
  unfolding wakeon_dp_write_avail lost_connection
  on_send_error Errno.enobufs s = returns failure (wakeon_dp_write_avail s)
  on_send_error Errno.enomem s = returns failure (wakeon_dp_write_avail s)
  on_send_error Errno.eagain s = returns failure (wakeon_dp_write_avail s)
  on_send_error Errno.eintr s = returns failure s
  on_send_error Errno.epipe s = lost_connection s
  on_send_error Errno.enotconn s = lost_connection s
  on_send_error Errno.econnrefused s = lost_connection s
  on_send_error Errno.econnreset s = lost_connection s
  on_send_error _ s = returns failure s

  -- What follows the call of `send` on `bytes`.
  after_send : List ℕ → SendResult → M Rc
  unfolding on_send_error count_send_error
  after_send bytes (SendResult.send_error err) s = on_send_error err (count_send_error err s)
  after_send bytes (SendResult.sent r) s =
      if r == length bytes
      then returns success (rpc_count_tx (put_on_wire bytes s))
      else returns failure s

  -- `encode_msg`, then `send`.
  transmit : RpcMsg → M Rc
  unfolding after_send
  transmit msg s = elim (e.encode_msg msg) [
    | none ↦ returns failure (rpc_count_encode_failure (set_tx_buff [] s))
    | some bytes ↦
        after_send bytes (e.send_result s.kernel.sends) (count_send (set_tx_buff bytes s))
  ]

  unfoldable pub do_send_rpc_msg : RpcMsg → M Rc
  unfolding transmit can_send_rpc_request
  do_send_rpc_msg msg s =
      if not (is_some s.comm.tx_buff)
      then bug e failure s
      else if not (can_send_rpc_request msg s)
      then returns failure s
      else transmit msg s

  -- What follows the attempt to send `m`: its book-keeping and the rest of the loop, or its return to
  -- the head of the queue.
  unfoldable pub after_attempt : M (Unit {0}) → DpMsg → Rc → M (Unit {0})
  after_attempt rest m success = settle_sent e m m.msg >> rest
  after_attempt rest m failure = modify (dp_msg_unsent_push_back m)

  -- The body of the loop of `send_pending_rpc_msgs`, on what was popped.
  unfoldable pub send_popped : M (Unit {0}) → Option DpMsg → M (Unit {0})
  send_popped rest none = pure tt
  send_popped rest (some m) = do_send_rpc_msg m.msg >>= after_attempt rest m

  -- The loop of `send_pending_rpc_msgs`, `k` rounds of it at most.
  unfoldable pub send_rounds : ℕ → M (Unit {0})
  send_rounds zero s = no_fuel
  send_rounds (suc k) s =
      let (popped, t) = dp_msg_pop_unsent s in send_popped (send_rounds k) popped t

  unfoldable pub send_pending_rpc_msgs : M (Unit {0})
  send_pending_rpc_msgs s = send_rounds (suc (dp_msg_unsent_count s)) s

  -- What follows the attempt to send a Connect.
  unfoldable pub after_connect_sent : DpMsg → Rc → M Rc
  unfolding settle_sent
  after_connect_sent m success = settle_sent e m m.msg >> pure success
  after_connect_sent m failure = dp_msg_recycle e m >> pure failure

  -- A Connect overtakes the queue; any other message goes through it.
  unfoldable pub send_rpc_msg : DpMsg → M Rc
  unfolding after_connect_sent
  send_rpc_msg m =
      if is_connect_request m.msg
      then (do_send_rpc_msg m.msg >>= after_connect_sent m)
      else (modify (dp_msg_cache_unsent m) >> (send_pending_rpc_msgs >> pure success))

  -- The write callback. The event is no longer scheduled when its callback runs.
  unfoldable pub dp_sock_send_cb : M (Unit {0})
  dp_sock_send_cb s =
      if dp_msg_unsent_count s == 0
      then returns tt s
      else (send_pending_rpc_msgs >> λ t.
            (if dp_msg_unsent_count t == 0
              then returns tt t
              else returns tt (wakeon_dp_write_avail t)))
          s
