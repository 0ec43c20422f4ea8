-- ===== src/Comm/Connect/Failed.antt =====
-- What becomes of a connection that was accepted when the Connect request cannot be sent, from
-- src/hh_dp_comm.c: a lost connection leads to the next attempt at once, and a busy socket leaves the
-- plugin connected with no Connect on its way.
use dplane_plugin.Base.{
  ℕ, zero, suc, ◌≡◌, refl, ◌∙◌, ap, List, [], ◌∷◌, ◌++◌, none, some, true, false, ◌||◌, leb, ◌==◌,
  length, is_some, arith, if◌then◌else◌, ◌⊎◌, inl, inr,
}
use dplane_plugin.Rpc.{RpcMsg, RpcRequest, RpcOp}
use dplane_plugin.World.Env.{Env, Errno, SendResult, ConnectResult}
use dplane_plugin.World.State.{State, DpMsg, Syscall, on_cache}
use dplane_plugin.World.Monad.{
  M, bind-no_fuel, bind-returns, success, failure, returns, no_fuel, pure, modify, ◌>>=◌,
}
use dplane_plugin.Cache.{pop_list, dp_msg_new, dp_msg_recycle}
use dplane_plugin.Comm.Socket.{
  dp_unix_connect, after_connect, count_connect, log_call, max_sun_path, dplane_set_ready,
  wakeon_dp_write_avail,
}
use dplane_plugin.Comm.Send.{do_send_rpc_msg, send_rpc_msg, after_connect_sent, count_send_error}
use dplane_plugin.Comm.Send.Errors.{IsBusy, counted_error, down, do_send-busy, do_send-lost}
use dplane_plugin.Stats.{rpc_count_tx_failure, rpc_count_tx_eagain}
use dplane_plugin.Comm.Connect.{
  dp_connect, connect_sock, on_connect_result, mark_connected, add_recv,
}
use dplane_plugin.Msg.Request.{send_rpc_request_connect, our_conn_info}

-- The remote path fits into a socket's address.
abbrev pub Fits : List ℕ → Type 0
Fits p = (length p == 0 || leb max_sun_path (length p)) ≡ false

-- Every request can be encoded.
abbrev pub Encodes : Env → Type 0
Encodes e = (r : RpcRequest) → (b : List ℕ) × (e.encode_msg (RpcMsg.request r) ≡ some b)

-- The dataplane's socket takes every connection, and every datagram finds it gone.
pub record IsFlapping (e : Env) : Type 0 where
  pub accepts : (c : ℕ) → e.connect_result c ≡ ConnectResult.connected
  pub loses : (t : ℕ) → e.send_result t ≡ SendResult.send_error Errno.epipe
  pub encodes : Encodes e

-- The socket, the buffer and the path that an attempt needs.
pub record CanTry (s : State) : Type 0 where
  pub fd : ℕ
  pub dp_sock : s.comm.dp_sock ≡ some fd
  pub tx_buff : is_some s.comm.tx_buff ≡ true
  pub path : Fits s.comm.dp_sock_path

abbrev after_call : State → State
after_call s = count_connect (log_call (Syscall.connect_call s.comm.dp_sock_path) s)

dp_unix_connect-accepted :
    (e : Env) (s : State)
    → Fits s.comm.dp_sock_path
    → e.connect_result s.kernel.connects ≡ ConnectResult.connected
    → dp_unix_connect e s.comm.dp_sock_path s ≡ (success, after_call s)
unfolding dp_unix_connect after_connect
dp_unix_connect-accepted e s fits ok =
    ap
      (λ b.
        if b
        then (failure, s)
        else after_connect e (e.connect_result s.kernel.connects) (after_call s))
      fits
    ∙ ap (λ r. after_connect e r (after_call s)) ok

-- The attempt comes down to the sending of the Connect.
dp_connect-accepted :
    (e : Env) (n : ℕ) (s : State)
    → (c : CanTry s) → e.connect_result s.kernel.connects ≡ ConnectResult.connected
    → dp_connect e (suc n) s
      ≡ (send_rpc_request_connect e (dp_connect e n) >>= λ _. modify add_recv)
          (mark_connected (after_call s))
unfolding dp_connect connect_sock on_connect_result
dp_connect-accepted e n s c ok =
    ap (λ o. connect_sock e (dp_connect e n) o s) c.dp_sock
    ∙ ap (λ r. on_connect_result e (dp_connect e n) r.0 r.1)
        (dp_unix_connect-accepted e s c.path ok)

-- The request that an attempt sends.
abbrev connect_request : Env → State → RpcRequest
connect_request e s = record {
  op = RpcOp.connect;
  seqn = 0;
  object = e.conninfo_as_object (our_conn_info e s);
}

abbrev connect_msg : Env → State → DpMsg
connect_msg e s = record { msg = RpcMsg.request (connect_request e s); ctx = none }

abbrev pool_popped : State → State
pool_popped = on_cache λ c. record c { pool = (pop_list c.pool).1 }

-- The attempt begins with one at sending the Connect.
send_connect-no_fuel :
    (e : Env) (reconnect : M (Unit {0})) (s : State)
    → do_send_rpc_msg e reconnect (connect_msg e s).msg (pool_popped s) ≡ no_fuel
    → send_rpc_request_connect e reconnect s ≡ no_fuel
unfolding send_rpc_request_connect send_rpc_msg dp_msg_new
send_connect-no_fuel e reconnect s h =
    bind-no_fuel (do_send_rpc_msg e reconnect (connect_msg e s).msg)
      (after_connect_sent e reconnect (connect_msg e s)) (pool_popped s) h

-- With a dataplane that takes every connection and loses each at once, and a plugin that can try to
-- connect and encodes its requests, a connection attempt never ends, however many calls of `dp_connect` in a row are allowed: each makes the next.
pub dp_connect-storms :
    (e : Env) → IsFlapping e → (n : ℕ) (s : State) → CanTry s → dp_connect e n s ≡ no_fuel
unfolding dplane_set_ready count_send_error rpc_count_tx_failure
dp_connect-storms e flap zero s c = unfold dp_connect in refl
dp_connect-storms e flap (suc n) s c =
    let t = mark_connected (after_call s) in
    let (bytes, enc) = flap.encodes (connect_request e t) in
    let u = down (counted_error Errno.epipe bytes (pool_popped t)) in
    dp_connect-accepted e n s c (flap.accepts s.kernel.connects)
    ∙ bind-no_fuel (send_rpc_request_connect e (dp_connect e n)) (λ _. modify add_recv) t
        (send_connect-no_fuel e (dp_connect e n) t (
          do_send-lost e (dp_connect e n) (connect_request e t) bytes (pool_popped t) c.tx_buff refl
            enc (flap.loses t.kernel.sends) refl
          ∙ bind-no_fuel (dp_connect e n) (λ _. pure failure) u
              (dp_connect-storms e flap n u
                (record { fd = c.fd; dp_sock = c.dp_sock; tx_buff = refl; path = c.path }))))

-- The plugin is connected and awaits an answer, but no request was sent, none is queued for it, and no
-- timer will bring another attempt.
pub record Waits (s t : State) : Type 0 where
  pub connected : t.comm.dp_sock_connected ≡ true
  pub timer : t.comm.ev_connect_timer ≡ false
  pub ready : t.comm.dplane_is_ready ≡ s.comm.dplane_is_ready
  pub in_flight : t.cache.in_flight ≡ s.cache.in_flight
  pub unsent : t.cache.unsent ≡ s.cache.unsent
  pub wire : t.kernel.wire ≡ s.kernel.wire

-- What follows a Connect that could not be sent.
abbrev gave_up : Env → State → State → State
gave_up e s t = add_recv (on_cache (λ c. record c { pool = c.pool ++ connect_msg e s ∷ [] }) t)

busy-Waits :
    (e : Env) (err : Errno) (bytes : List ℕ) (s v : State)
    → IsBusy err
    → let u = counted_error err bytes (pool_popped (mark_connected (after_call s))) in
      (v ≡ u) ⊎ (v ≡ wakeon_dp_write_avail u)
      → Waits s (gave_up e (mark_connected (after_call s)) v)
unfolding count_send_error rpc_count_tx_failure rpc_count_tx_eagain wakeon_dp_write_avail
busy-Waits e err bytes s v busy (inl is) = ground (arith, is)
busy-Waits e err bytes s v busy (inr is) = ground (arith, is)

send_connect-gives_up :
    (e : Env) (reconnect : M (Unit {0})) (s v : State)
    → do_send_rpc_msg e reconnect (connect_msg e s).msg (pool_popped s) ≡ returns failure v
    → (send_rpc_request_connect e reconnect >>= λ _. modify add_recv) s ≡ returns tt (gave_up e s v)
unfolding send_rpc_request_connect send_rpc_msg dp_msg_new after_connect_sent dp_msg_recycle
send_connect-gives_up e reconnect s v h =
    bind-returns (send_rpc_request_connect e reconnect) (λ _. modify add_recv) s failure _
      (bind-returns (do_send_rpc_msg e reconnect (connect_msg e s).msg)
        (after_connect_sent e reconnect (connect_msg e s)) (pool_popped s) failure v h)

-- If the plugin can try to connect, the connection is accepted and each request has a datagram, a socket
-- that is busy when it is to be sent leaves the plugin connected, with no Connect sent or queued and no
-- timer for another attempt.
pub dp_connect-Waits :
    (e : Env) (n : ℕ) (err : Errno) (s : State)
    → CanTry s
    → IsBusy err
    → Encodes e
    → e.connect_result s.kernel.connects ≡ ConnectResult.connected
    → e.send_result s.kernel.sends ≡ SendResult.send_error err
    → (t : State) × (dp_connect e (suc n) s ≡ returns tt t) × Waits s t
dp_connect-Waits e n err s c busy enc ok failed =
    let t = mark_connected (after_call s) in
    let (bytes, is) = enc (connect_request e t) in
    let (v, sent, left) =
      do_send-busy e (dp_connect e n) (connect_request e t) bytes err (pool_popped t) c.tx_buff refl
        is failed busy in
    (
      gave_up e t v,
      dp_connect-accepted e n s c ok ∙ send_connect-gives_up e (dp_connect e n) t v sent,
      busy-Waits e err bytes s v busy left,
    )
