-- ===== src/Comm/Send/Errors.antt =====
-- `do_send_rpc_msg` of src/hh_dp_comm.c on a Connect request when `send` fails: with an error that means
-- a lost connection, and with one that means a busy socket.
use dplane_plugin.Base.{
  ℕ, ◌≡◌, refl, ◌∙◌, ap, ◌⊎◌, inl, inr, List, [], none, some, true, false, not, ◌||◌, is_some,
  if◌then◌else◌,
}
use dplane_plugin.Rpc.{RpcRequest, RpcMsg, is_connect}
use dplane_plugin.World.Env.{Env, Errno, SendResult}
use dplane_plugin.World.State.{State, on_comm}
use dplane_plugin.World.Monad.{M, Rc, Outcome, failure, returns, pure, bug, ◌>>◌}
use dplane_plugin.Stats.{rpc_count_encode_failure, rpc_count_tx_failure}
use dplane_plugin.Comm.Socket.{dplane_set_ready, wakeon_dp_write_avail}
use dplane_plugin.Comm.Send.{
  do_send_rpc_msg, transmit, after_send, on_send_error, lost_connection, count_send_error,
  count_send, set_tx_buff, can_send_rpc_request,
}

-- The socket has no room, or the call was interrupted.
abbrev pub IsBusy : Errno → Type 0
IsBusy Errno.eagain = Unit
IsBusy Errno.enobufs = Unit
IsBusy Errno.enomem = Unit
IsBusy Errno.eintr = Unit
IsBusy _ = ⊥

-- Where the failed call leaves the buffer and the counters.
abbrev pub counted_error : Errno → List ℕ → State → State
counted_error err bytes s = count_send_error err (count_send (set_tx_buff bytes s))

abbrev pub down : State → State
down s = dplane_set_ready false (on_comm (λ c. record c { dp_sock_connected = false }) s)

module _ (e : Env) (reconnect : M (Unit {0})) (r : RpcRequest) (bytes : List ℕ) (err : Errno)
    (s : State) (buffer : is_some s.comm.tx_buff ≡ true) (connect : is_connect r.op ≡ true)
    (encoded : e.encode_msg (RpcMsg.request r) ≡ some bytes)
    (failed : e.send_result s.kernel.sends ≡ SendResult.send_error err) where
  -- The call comes down to the `switch` on errno.
  do_send-error :
      do_send_rpc_msg e reconnect (RpcMsg.request r) s
      ≡ on_send_error e reconnect err (counted_error err bytes s)
  unfolding do_send_rpc_msg can_send_rpc_request transmit after_send
  do_send-error =
      ap (λ b. if not b then bug e failure s else checked) buffer
      ∙ ap (λ b. if not (b || s.comm.dplane_is_ready) then returns failure s else sending) connect
      ∙ ap
          (λ o. elim o [
            | none ↦ returns failure (rpc_count_encode_failure (set_tx_buff [] s))
            | some b ↦
                after_send e reconnect b (e.send_result s.kernel.sends)
                  (count_send (set_tx_buff b s))
          ])
          encoded
      ∙ ap (λ x. after_send e reconnect bytes x (count_send (set_tx_buff bytes s))) failed
    where
      sending : Outcome Rc
      sending = transmit e reconnect (RpcMsg.request r) s

      checked : Outcome Rc
      checked =
          if not (can_send_rpc_request (RpcMsg.request r) s) then returns failure s else sending

  -- A socket that is busy: the call fails, and the write event is scheduled at most.
  pub do_send-busy :
      IsBusy err
      → (t : State) × (do_send_rpc_msg e reconnect (RpcMsg.request r) s ≡ returns failure t)
        × ((t ≡ counted_error err bytes s)
            ⊎ (t ≡ wakeon_dp_write_avail (counted_error err bytes s)))
  unfolding on_send_error
  do_send-busy busy = let (t, is, left) = by_errno err busy in (t, do_send-error ∙ is, left)
    where
      by_errno :
          (x : Errno)
          → IsBusy x
          → (t : State) × (on_send_error e reconnect x (counted_error x bytes s)
              ≡ returns failure t)
            × ((t ≡ counted_error x bytes s)
                ⊎ (t ≡ wakeon_dp_write_avail (counted_error x bytes s)))
      by_errno Errno.eagain b =
          (wakeon_dp_write_avail (counted_error Errno.eagain bytes s), refl, inr refl)
      by_errno Errno.enobufs b =
          (wakeon_dp_write_avail (counted_error Errno.enobufs bytes s), refl, inr refl)
      by_errno Errno.enomem b =
          (wakeon_dp_write_avail (counted_error Errno.enomem bytes s), refl, inr refl)
      by_errno Errno.eintr b = (counted_error Errno.eintr bytes s, refl, inl refl)
      by_errno Errno.epipe b = elim b [ ]
      by_errno Errno.enotconn b = elim b [ ]
      by_errno Errno.econnrefused b = elim b [ ]
      by_errno Errno.econnreset b = elim b [ ]
      by_errno Errno.eisconn b = elim b [ ]
      by_errno (Errno.other_errno k) b = elim b [ ]

-- A connection that is lost: the call comes down to the next attempt to connect.
pub do_send-lost :
    (e : Env) (reconnect : M (Unit {0})) (r : RpcRequest) (bytes : List ℕ) (s : State)
    → is_some s.comm.tx_buff ≡ true
    → is_connect r.op ≡ true
    → e.encode_msg (RpcMsg.request r) ≡ some bytes
    → e.send_result s.kernel.sends ≡ SendResult.send_error Errno.epipe
    → s.comm.ev_connect_timer ≡ false
    → do_send_rpc_msg e reconnect (RpcMsg.request r) s
      ≡ (reconnect >> pure failure) (down (counted_error Errno.epipe bytes s))
unfolding on_send_error lost_connection count_send_error rpc_count_tx_failure
do_send-lost e reconnect r bytes s buffer connect encoded failed idle =
    do_send-error e reconnect r bytes Errno.epipe s buffer connect encoded failed
    ∙ ap
        (λ b.
          (if not b then (reconnect >> pure failure) else pure failure)
            (down (counted_error Errno.epipe bytes s)))
        idle
