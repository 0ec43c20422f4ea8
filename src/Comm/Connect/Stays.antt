-- ===== src/Comm/Connect/Stays.antt =====
-- What connecting keeps, from src/hh_dp_comm.c: a property of the socket that holds before an attempt
-- (`Before`) and one that holds after it (`After`), and between the callbacks.
use dplane_plugin.Base.{
  ℕ, zero, suc, ◌≡◌, refl, Option, none, some, true, false, Bool, ◌&&◌, not, arith,
}
use dplane_plugin.World.Env.{Env}
use dplane_plugin.World.State.{State, on_comm}
use dplane_plugin.World.Monad.{M, Rc, success, failure, pure, modify, Post-if, ◌>>◌}
use dplane_plugin.Comm.Socket.{dp_unix_connect, dplane_set_ready, dplane_sock_is_connected}
use dplane_plugin.Comm.Send.{lost_connection}
use dplane_plugin.Comm.Connect.{
  dp_connect, on_connect_result, connect_sock, mark_connected, add_recv, add_keepalive,
  dp_send_keepalive,
}
use dplane_plugin.Msg.Request.{send_rpc_request_connect}
use dplane_plugin.Msg.Stays.{send_rpc_request_connect-Stays, send_rpc_control-Stays}
use dplane_plugin.Stays.Counts.{Books}
use dplane_plugin.Stays.{
  View, view_of, Ends, Stays, Stays-pure, Stays-bind, Stays-modify, Ends-if, Ends-bind,
}

-- What an attempt to connect leaves, by its result.
abbrev pub tried : Rc → View → View
tried success k = record k { timer = false; connected = true }
tried failure k = record k { timer = true }

-- The steps of the source that a property of the socket has to stand: an attempt without a socket, an
-- attempt with one, and the loss of the connection, after which the timer is awaited or an attempt
-- follows at once.
pub record Linked (e : Env) (Before After : View → Type 0) : Type 0 where
  pub idle : (k : View) → k.dp_sock ≡ none → Before k → After k
  pub attempt :
      (fd : ℕ) (s : State)
      → s.comm.dp_sock ≡ some fd
      → Before (view_of s)
      → let r = dp_unix_connect e s.comm.dp_sock_path s in After (tried r.0 (view_of r.1))
  pub await : (k : View) → k.timer ≡ true → After k → After (record k { connected = false })
  pub retry : (k : View) → After k → Before (record k { connected = false })

module _ (e : Env) {Before After : View → Type 0} (link : Linked e Before After)
    (books : Books e After) where
  lost_connection-Stays :
      (reconnect : M (Unit {0}))
      → ((s : State) → Before (view_of s) → Ends After (reconnect s))
      → Stays After (lost_connection e reconnect)
  unfolding lost_connection dplane_set_ready
  lost_connection-Stays reconnect rec = record {
    at = λ s h.
        let t = dplane_set_ready false (on_comm (λ c. record c { dp_sock_connected = false }) s) in
        Post-if (Unit {0}) (Unit {0}) (λ _ u. After (view_of u)) (not s.comm.ev_connect_timer)
          (reconnect >> pure failure) (pure failure) t
          (λ _.
            Ends-bind After reconnect (λ _. pure failure) t (rec t (link.retry (view_of s) h))
              (λ _. Stays-pure failure))
          (λ armed. link.await (view_of s) (scheduled s.comm.ev_connect_timer armed) h);
  }
    where
      scheduled : (b : Bool) → not b ≡ false → b ≡ true
      scheduled b h = ground arith

  on_connect_result-Ends :
      (reconnect : M (Unit {0}))
      → Stays After (lost_connection e reconnect)
      → (r : Rc) (s : State) → After (tried r (view_of s))
      → Ends After (on_connect_result e reconnect r s)
  unfolding on_connect_result
  on_connect_result-Ends reconnect lost failure s h = h
  on_connect_result-Ends reconnect lost success s h =
      Ends-bind After (send_rpc_request_connect e reconnect) (λ _. modify add_recv)
        (mark_connected s)
        ((send_rpc_request_connect-Stays e reconnect books lost).at (mark_connected s) h)
        (λ _. Stays-modify add_recv (λ s. refl))

  connect_sock-Ends :
      (reconnect : M (Unit {0}))
      → Stays After (lost_connection e reconnect)
      → (o : Option ℕ) (s : State) → s.comm.dp_sock ≡ o
      → Before (view_of s)
      → Ends After (connect_sock e reconnect o s)
  unfolding connect_sock
  connect_sock-Ends reconnect lost none s is h = link.idle (view_of s) is h
  connect_sock-Ends reconnect lost (some fd) s is h =
      let (r, t) = dp_unix_connect e s.comm.dp_sock_path s in
      on_connect_result-Ends reconnect lost r t (link.attempt fd s is h)

  -- An attempt leads from the one property to the other.
  pub dp_connect-Ends : (n : ℕ) (s : State) → Before (view_of s) → Ends After (dp_connect e n s)
  unfolding dp_connect
  dp_connect-Ends zero s h = tt
  dp_connect-Ends (suc n) s h =
      connect_sock-Ends (dp_connect e n)
        (lost_connection-Stays (dp_connect e n) (dp_connect-Ends n)) s.comm.dp_sock s refl h

  -- The loss of a connection keeps the second.
  pub lost-Stays : (n : ℕ) → Stays After (lost_connection e (dp_connect e n))
  lost-Stays n = lost_connection-Stays (dp_connect e n) (dp_connect-Ends n)

  pub dp_send_keepalive-Stays : (n : ℕ) → Stays After (dp_send_keepalive e n)
  unfolding dp_send_keepalive
  dp_send_keepalive-Stays n = record {
    at = λ s h.
        Ends-if After (dplane_sock_is_connected s && s.comm.dplane_is_ready) _ _
          ((Stays-bind _ (λ _. modify add_keepalive)
              (send_rpc_control-Stays e (dp_connect e n) books (lost-Stays n) 0)
              (λ _. Stays-modify add_keepalive (λ s. refl))).at
            s h)
          h;
  }
