-- ===== src/Comm/Send/Stays.antt =====
-- Sending, from src/hh_dp_comm.c: it keeps what a lost connection keeps.
use dplane_plugin.Base.{
  ◌≡◌, ℕ, zero, suc, refl, subst, List, [], ◌∷◌, ◌++◌, Option, none, some, ◌==◌, length, is_some,
  not, arith, if◌then◌else◌,
}
use dplane_plugin.Rpc.{RpcMsg}
use dplane_plugin.World.Env.{Env, Errno, SendResult}
use dplane_plugin.World.State.{State, DpMsg, on_cache}
use dplane_plugin.World.Monad.{M, Rc, success, failure, returns, bug, modify}
use dplane_plugin.Stats.{
  rpc_count_tx, rpc_count_tx_failure, rpc_count_tx_eagain, rpc_count_encode_failure,
  rpc_count_ctl_tx,
}
use dplane_plugin.Cache.{
  dp_msg_recycle, dp_msg_cache_unsent, dp_msg_unsent_push_back, dp_msg_pop_unsent,
  dp_msg_unsent_count,
}
use dplane_plugin.Comm.Socket.{wakeon_dp_write_avail}
use dplane_plugin.Comm.Send.{
  lost_connection, on_send_error, count_send_error, after_send, transmit, do_send_rpc_msg,
  settle_sent, after_attempt, send_popped, send_rounds, send_pending_rpc_msgs, after_connect_sent,
  send_rpc_msg, dp_sock_send_cb, can_send_rpc_request, is_connect_request, count_send, set_tx_buff,
}
use dplane_plugin.Stays.Counts.{Books}
use dplane_plugin.Stays.{
  View, view_of, SameView, Ends, Stays, Stays-pure, Stays-if, Stays-bug, Stays-bind, Stays-then,
  Stays-modify, Ends-if, Ends-bind,
}

wakeon-SameView : (s : State) → SameView s (wakeon_dp_write_avail s)
unfolding wakeon_dp_write_avail
wakeon-SameView s = ground arith

count_send_error-SameView : (err : Errno) (s : State) → SameView s (count_send_error err s)
unfolding count_send_error rpc_count_tx_failure rpc_count_tx_eagain
count_send_error-SameView err s = ground arith

module _ (e : Env) {P : View → Type 0} where
  pub dp_msg_recycle-Stays : (m : DpMsg) → Stays P (dp_msg_recycle e m)
  unfolding dp_msg_recycle
  dp_msg_recycle-Stays m =
      Stays-if (is_some m.ctx) (bug e tt) (modify put) (Stays-bug e tt)
        (Stays-modify put (λ s. refl))
    where
      put : State → State
      put = on_cache λ c. record c { pool = c.pool ++ m ∷ [] }

module _ (e : Env) {P : View → Type 0} (books : Books e P) where
  settle_sent-Stays : (m : DpMsg) (msg : RpcMsg) → m.msg ≡ msg → Stays P (settle_sent e m msg)
  unfolding settle_sent rpc_count_ctl_tx
  settle_sent-Stays m (RpcMsg.request r) is = books.sent m r is
  settle_sent-Stays m (RpcMsg.control c) is =
      Stays-then _ _ (Stays-modify rpc_count_ctl_tx (λ s. refl)) (dp_msg_recycle-Stays e m)
  settle_sent-Stays m (RpcMsg.response r) is = dp_msg_recycle-Stays e m
  settle_sent-Stays m RpcMsg.notification is = dp_msg_recycle-Stays e m
  settle_sent-Stays m RpcMsg.other is = dp_msg_recycle-Stays e m

module _ (e : Env) (reconnect : M (Unit {0})) {P : View → Type 0} (books : Books e P)
    (lost : Stays P (lost_connection e reconnect)) where
  on_send_error-Ends :
      (err : Errno) (s : State) → P (view_of s) → Ends P (on_send_error e reconnect err s)
  unfolding on_send_error
  on_send_error-Ends Errno.enobufs s h = subst P (wakeon-SameView s) h
  on_send_error-Ends Errno.enomem s h = subst P (wakeon-SameView s) h
  on_send_error-Ends Errno.eagain s h = subst P (wakeon-SameView s) h
  on_send_error-Ends Errno.eintr s h = h
  on_send_error-Ends Errno.epipe s h = lost.at s h
  on_send_error-Ends Errno.enotconn s h = lost.at s h
  on_send_error-Ends Errno.econnrefused s h = lost.at s h
  on_send_error-Ends Errno.econnreset s h = lost.at s h
  on_send_error-Ends Errno.eisconn s h = h
  on_send_error-Ends (Errno.other_errno k) s h = h

  after_send-Ends :
      (bytes : List ℕ) (r : SendResult) (s : State)
      → P (view_of s)
      → Ends P (after_send e reconnect bytes r s)
  unfolding after_send rpc_count_tx
  after_send-Ends bytes (SendResult.send_error err) s h =
      on_send_error-Ends err (count_send_error err s) (subst P (count_send_error-SameView err s) h)
  after_send-Ends bytes (SendResult.sent n) s h = Ends-if P (n == length bytes) _ _ h h

  transmit-Ends : (msg : RpcMsg) (s : State) → P (view_of s) → Ends P (transmit e reconnect msg s)
  unfolding transmit rpc_count_encode_failure
  transmit-Ends msg s h = by_code (e.encode_msg msg)
    where
      by_code :
          (o : Option (List ℕ))
          → Ends {A = Rc} P (elim o [
            | none ↦ returns failure (rpc_count_encode_failure (set_tx_buff [] s))
            | some bytes ↦
                after_send e reconnect bytes
                  (e.send_result s.kernel.sends)
                  (count_send (set_tx_buff bytes s))
          ])
      by_code none = h
      by_code (some bytes) =
          after_send-Ends bytes (e.send_result s.kernel.sends) (count_send (set_tx_buff bytes s)) h

  pub do_send_rpc_msg-Stays : (msg : RpcMsg) → Stays P (do_send_rpc_msg e reconnect msg)
  unfolding do_send_rpc_msg
  do_send_rpc_msg-Stays msg = record {
    at = λ s h.
        Ends-if P (not (is_some s.comm.tx_buff)) _ _ ((Stays-bug {P = P} e failure).at s h)
          (Ends-if P (not (can_send_rpc_request msg s)) _ _ h (transmit-Ends msg s h));
  }

  after_attempt-Stays :
      (rest : M (Unit {0})) (m : DpMsg) (r : Rc)
      → Stays P rest
      → Stays P (after_attempt e reconnect rest m r)
  unfolding after_attempt dp_msg_unsent_push_back
  after_attempt-Stays rest m success h = Stays-then _ _ (settle_sent-Stays e books m m.msg refl) h
  after_attempt-Stays rest m failure h = Stays-modify (dp_msg_unsent_push_back m) (λ s. refl)

  send_popped-Stays :
      (rest : M (Unit {0})) (o : Option DpMsg)
      → Stays P rest
      → Stays P (send_popped e reconnect rest o)
  unfolding send_popped
  send_popped-Stays rest none h = Stays-pure tt
  send_popped-Stays rest (some m) h =
      Stays-bind _ _ (do_send_rpc_msg-Stays m.msg) (λ r. after_attempt-Stays rest m r h)

  send_rounds-Stays : (k : ℕ) → Stays P (send_rounds e reconnect k)
  unfolding send_rounds dp_msg_pop_unsent
  send_rounds-Stays zero = record { at = λ s h. tt }
  send_rounds-Stays (suc k) = record {
    at = λ s h.
        let (popped, t) = dp_msg_pop_unsent s in
        (send_popped-Stays (send_rounds e reconnect k) popped (send_rounds-Stays k)).at t h;
  }

  pub send_pending_rpc_msgs-Stays : Stays P (send_pending_rpc_msgs e reconnect)
  unfolding send_pending_rpc_msgs
  send_pending_rpc_msgs-Stays = record {
    at = λ s. (send_rounds-Stays (suc (dp_msg_unsent_count s))).at s;
  }

  after_connect_sent-Stays : (m : DpMsg) (r : Rc) → Stays P (after_connect_sent e reconnect m r)
  unfolding after_connect_sent
  after_connect_sent-Stays m success =
      Stays-then _ _ (settle_sent-Stays e books m m.msg refl) (Stays-pure success)
  after_connect_sent-Stays m failure =
      Stays-then _ _ (dp_msg_recycle-Stays e m) (Stays-pure failure)

  pub send_rpc_msg-Stays : (m : DpMsg) → Stays P (send_rpc_msg e reconnect m)
  unfolding send_rpc_msg dp_msg_cache_unsent
  send_rpc_msg-Stays m =
      Stays-if (is_connect_request m.msg) _ _
        (Stays-bind _ _ (do_send_rpc_msg-Stays m.msg) (after_connect_sent-Stays m))
        (Stays-then (modify (dp_msg_cache_unsent m)) _
          (Stays-modify (dp_msg_cache_unsent m) (λ s. refl))
          (Stays-then _ _ send_pending_rpc_msgs-Stays (Stays-pure success)))

  pub dp_sock_send_cb-Stays : Stays P (dp_sock_send_cb e reconnect)
  unfolding dp_sock_send_cb
  dp_sock_send_cb-Stays = record {
    at = λ s h. Ends-if P (dp_msg_unsent_count s == 0) _ _ h (
        Ends-bind P (send_pending_rpc_msgs e reconnect) (λ _. wake) s
          (send_pending_rpc_msgs-Stays.at s h) (λ _. wake-Stays));
  }
    where
      wake : M (Unit {0})
      wake t =
          if dp_msg_unsent_count t == 0 then returns tt t else returns tt (wakeon_dp_write_avail t)

      wake-Stays : Stays P wake
      wake-Stays = record {
        at = λ t h. Ends-if P (dp_msg_unsent_count t == 0) _ _ h (subst P (wakeon-SameView t) h);
      }
