-- ===== src/Comm/Connect.antt =====
-- src/hh_dp_comm.c, connecting: `dp_connect`, the keepalive timer, and starting and ending the RPC.
pub mod Greet
pub mod Calm
pub mod Start
pub mod Stays
pub mod Links
pub mod Failed
use dplane_plugin.Base.{
  ℕ, zero, suc, List, [], Option, none, some, Bool, true, false, not, ◌&&◌, is_some, if◌then◌else◌,
}
use dplane_plugin.World.Env.{Env}
use dplane_plugin.World.State.{State, on_comm}
use dplane_plugin.World.Monad.{M, returns, no_fuel, Rc, success, failure, pure, modify, ◌>>=◌, ◌>>◌}
use dplane_plugin.Cache.{init_dp_msg_cache, fini_dp_msg_cache}
use dplane_plugin.Comm.Socket.{
  dplane_sock_is_connected, dp_unix_sock_open, dp_unix_sock_close, dp_unix_connect,
}
use dplane_plugin.Msg.Request.{send_rpc_request_connect, send_rpc_control}

-- `event_add_timer(…, dp_connect, …, &ev_connect_timer)`
abbrev add_connect_timer : State → State
add_connect_timer = on_comm λ c. record c { ev_connect_timer = true }

-- `event_add_read(…, dp_rpc_recv, …, &ev_recv)`: that the event is scheduled is kept, and on which
-- descriptor it waits is not.
abbrev pub add_recv : State → State
add_recv = on_comm λ c. record c { ev_recv = true }

abbrev mark_connected : State → State
mark_connected = on_comm λ c. record c { ev_connect_timer = false; dp_sock_connected = true }

-- What `dp_connect` does with the result of `dp_unix_connect`; `reconnect` is the call of
-- `dp_connect` that a failure to send may lead to.
unfoldable pub on_connect_result : Env → M (Unit {0}) → Rc → M (Unit {0})
on_connect_result e reconnect failure s = returns tt (add_connect_timer s)
on_connect_result e reconnect success s =
    (send_rpc_request_connect e reconnect >>= λ _. modify add_recv) (mark_connected s)

-- The test on the socket, and the attempt to connect it.
unfoldable pub connect_sock : Env → M (Unit {0}) → Option ℕ → M (Unit {0})
connect_sock e reconnect none s = returns tt s
connect_sock e reconnect (some fd) s =
    let (r, t) = dp_unix_connect e s.comm.dp_sock_path s in on_connect_result e reconnect r t

-- `dp_connect` may call itself through `send_rpc_request_connect`: `n` bounds how deep.
unfoldable pub dp_connect : Env → ℕ → M (Unit {0})
dp_connect e zero s = no_fuel
dp_connect e (suc n) s = connect_sock e (dp_connect e n) s.comm.dp_sock s

abbrev add_keepalive : State → State
add_keepalive = on_comm λ c. record c { ev_keepalive = true }

unfoldable pub dp_send_keepalive : Env → ℕ → M (Unit {0})
dp_send_keepalive e n s =
    if dplane_sock_is_connected s && s.comm.dplane_is_ready
    then (send_rpc_control e (dp_connect e n) 0 >>= λ _. modify add_keepalive) s
    else returns tt (add_keepalive s)

abbrev free_buffers : State → State
free_buffers = on_comm λ c. record c { tx_buff = none; rx_buff = none }

abbrev free_fmt_buff : State → State
free_fmt_buff = on_comm λ c. record c { fb = false }

unfoldable pub fini_dplane_rpc : State → State
fini_dplane_rpc s = free_fmt_buff (fini_dp_msg_cache (free_buffers (dp_unix_sock_close s)))

-- `buff_new(0)`, which yields an empty buffer or NULL.
abbrev new_buffer : Bool → Option (List ℕ)
new_buffer true = some []
new_buffer false = none

init_rpc_buffers : Env → State → Rc × State
unfolding fini_dplane_rpc
init_rpc_buffers e s =
    let t =
      on_comm
        (λ c. record c { tx_buff = new_buffer e.tx_buff_ok; rx_buff = new_buffer e.rx_buff_ok })
        s in
    if not (e.tx_buff_ok && e.rx_buff_ok) then (failure, fini_dplane_rpc t) else (success, t)

-- The label `fail` of `init_dplane_rpc`.
fail_init : M Rc
fail_init s = returns failure (free_fmt_buff (dp_unix_sock_close s))

-- The steps of `init_dplane_rpc` after the socket and the buffers are there.
start_rpc : Env → ℕ → M Rc
start_rpc e n =
    modify init_dp_msg_cache >> (dp_connect e n >> (dp_send_keepalive e n >> pure success))

after_buffers : Env → ℕ → Rc → M Rc
unfolding fail_init start_rpc
after_buffers e n failure = fail_init
after_buffers e n success = start_rpc e n

unfoldable pub init_dplane_rpc : Env → ℕ → M Rc
unfolding fail_init init_rpc_buffers after_buffers
init_dplane_rpc e n s =
    if not e.fmt_buff_ok
    then returns failure s
    else (let t = on_comm (λ c. record c { fb = true }) s in
        let (sock, u) = dp_unix_sock_open e t.comm.plugin_sock_path t in
        let v = on_comm (λ c. record c { dp_sock = sock }) u in
        if not (is_some sock)
        then fail_init v
        else (let (r, w) = init_rpc_buffers e v in after_buffers e n r w))
