-- ===== src/Events/Callbacks.antt =====
-- What each callback keeps: the write callback and the keepalive timer of src/hh_dp_comm.c.
use dplane_plugin.Base.{
  ℕ, ◌≡◌, refl, Bool, true, false, ◌&&◌, ◌==◌, if◌then◌else◌, inl, inr, arith, length, ◌⊎◌,
}
use dplane_plugin.World.Env.{Env}
use dplane_plugin.World.State.{State, on_comm}
use dplane_plugin.World.Monad.{M, returns, modify, Post, Post-bind, Post-ite}
use dplane_plugin.Cache.{dp_msg_unsent_count}
use dplane_plugin.Comm.Socket.{wakeon_dp_write_avail, dplane_sock_is_connected}
use dplane_plugin.Comm.Still.{wakeon-Still}
use dplane_plugin.Comm.Send.{send_pending_rpc_msgs, dp_sock_send_cb}
use dplane_plugin.Comm.Send.Calm.{Calm}
use dplane_plugin.Comm.Send.Drain.{Drained, send_pending-Drained}
use dplane_plugin.Comm.Connect.{dp_connect, dp_send_keepalive}
use dplane_plugin.Msg.Request.{send_rpc_control}
use dplane_plugin.Invariant.{Inv, Keeps, Keeps-refl, Keeps-trans}
use dplane_plugin.Invariant.Sending.{Still-Keeps}
use dplane_plugin.Invariant.Answer.{Aside-Keeps}
use dplane_plugin.Invariant.Submit.{send_pending-Keeps, send_rpc_control-Keeps}

wake : M (Unit {0})
wake s = if dp_msg_unsent_count s == 0 then returns tt s else returns tt (wakeon_dp_write_avail s)

rearm : State → State
rearm = on_comm λ c. record c { ev_keepalive = true }

is_zero : (k : ℕ) → (k == 0) ≡ true → k ≡ 0
is_zero k h = ground (arith, h)

module _ (e : Env) (n : ℕ) (F G : Type 0) (dbg : e.debug_build ≡ true → G)
    (rec : (s : State) → Post F G (λ _ t. Calm e s t) (dp_connect e n s)) where
  wake-Keeps : (s t : State) → Keeps s t → Post F G (λ _ u. Keeps s u) (wake t)
  unfolding wake
  wake-Keeps s t k =
      Post-ite F G (λ _ u. Keeps s u) (dp_msg_unsent_count t == 0) _ _ (λ _. k)
        (λ _. Keeps-trans k (Still-Keeps e (wakeon-Still t) k.inv))

  pub dp_sock_send_cb-Keeps :
      (s : State) → Inv s → Post F G (λ _ t. Keeps s t) (dp_sock_send_cb e (dp_connect e n) s)
  unfolding dp_sock_send_cb wake
  dp_sock_send_cb-Keeps s h =
      Post-ite F G (λ _ t. Keeps s t) (dp_msg_unsent_count s == 0) _ _ (λ _. Keeps-refl h)
        (λ _.
          Post-bind F G (λ _ t. Keeps s t) (λ _ t. Keeps s t)
            (send_pending_rpc_msgs e (dp_connect e n)) (λ _. wake) s
            (send_pending-Keeps e (dp_connect e n) F G dbg rec s h) (λ _ t k. wake-Keeps s t k))

  rearm-Keeps : (s t : State) → Keeps s t → Keeps s (rearm t)
  unfolding rearm
  rearm-Keeps s t k = Keeps-trans k (Aside-Keeps (refl, refl, refl, refl, refl, refl, refl) k.inv)

  pub dp_send_keepalive-Keeps :
      (s : State) → Inv s → Post F G (λ _ t. Keeps s t) (dp_send_keepalive e n s)
  unfolding dp_send_keepalive rearm
  dp_send_keepalive-Keeps s h =
      Post-ite F G (λ _ t. Keeps s t) (dplane_sock_is_connected s && s.comm.dplane_is_ready) _ _
        (λ _.
          Post-bind F G (λ _ t. Keeps s t) (λ _ t. Keeps s t)
            (send_rpc_control e (dp_connect e n) 0) (λ _. modify rearm) s
            (send_rpc_control-Keeps e (dp_connect e n) F G dbg rec 0 s h)
            (λ _ t k. rearm-Keeps s t k))
        (λ _. rearm-Keeps s s (Keeps-refl h))

  wake-armed :
      (t : State) → Post F G (λ _ u. (length u.cache.unsent ≡ 0) ⊎ (u.comm.ev_send ≡ true)) (wake t)
  unfolding wake wakeon_dp_write_avail
  wake-armed t =
      Post-ite F G _ (dp_msg_unsent_count t == 0) _ _ (λ z. inl (is_zero _ z))
        (λ _. inr (armed t.comm.ev_send refl))
    where
      armed : (b : Bool) → t.comm.ev_send ≡ b → (wakeon_dp_write_avail t).comm.ev_send ≡ true
      armed true is = rw is refl
      armed false is = rw is refl

  -- After the write callback the queue is empty, or the callback is scheduled again.
  pub dp_sock_send_cb-armed :
      (s : State)
      → Post F G
          (λ _ t. (length t.cache.unsent ≡ 0) ⊎ (t.comm.ev_send ≡ true))
          (dp_sock_send_cb e (dp_connect e n) s)
  unfolding dp_sock_send_cb wake
  dp_sock_send_cb-armed s =
      Post-ite F G (λ _ t. (length t.cache.unsent ≡ 0) ⊎ (t.comm.ev_send ≡ true))
        (dp_msg_unsent_count s == 0) _ _ (λ z. inl (is_zero _ z))
        (λ _.
          Post-bind F G (λ _ t. Drained e s t)
            (λ _ t. (length t.cache.unsent ≡ 0) ⊎ (t.comm.ev_send ≡ true))
            (send_pending_rpc_msgs e (dp_connect e n)) (λ _. wake) s
            (send_pending-Drained e (dp_connect e n) F G dbg rec s) (λ _ t _. wake-armed t))
