-- ===== src/Comm/Socket.antt =====
-- src/hh_dp_comm.c, the unix socket: its paths, opening, closing and connecting it, the flags of
-- the connection, and the scheduling of events.
pub mod Paths
pub mod Descriptors
use dplane_plugin.Base.{
  ℕ, ◌+◌, List, [], ◌∷◌, ◌++◌, Option, none, some, Bool, true, false, not, ◌||◌, leb, ltb, ◌==◌,
  length, take, if◌then◌else◌,
}
use dplane_plugin.World.Env.{Env, Errno, ConnectResult}
use dplane_plugin.World.State.{State, Syscall, on_comm, on_kernel}
use dplane_plugin.World.Monad.{Rc, success, failure}

-- `sizeof(sun_path)` on Linux.
abbrev pub max_sun_path : ℕ
max_sun_path = 108

unfoldable pub is_valid_unix_path : List ℕ → Bool
is_valid_unix_path path = not (length path == 0 || ltb max_sun_path (length path))

-- `strncpy(dst, path, MAX_SUN_PATH)` into an array of one octet more, which stays 0: the text in the
-- array is at most the first MAX_SUN_PATH octets of `path`.
abbrev pub strncpy_path : List ℕ → List ℕ
strncpy_path path = take max_sun_path path

unfoldable pub set_dp_sock_local_path : List ℕ → State → Rc × State
unfolding is_valid_unix_path
set_dp_sock_local_path path s =
    if not (is_valid_unix_path path)
    then (failure, s)
    else (success, on_comm (λ c. record c { plugin_sock_path = strncpy_path path }) s)

unfoldable pub set_dp_sock_remote_path : List ℕ → State → Rc × State
unfolding is_valid_unix_path
set_dp_sock_remote_path path s =
    if not (is_valid_unix_path path)
    then (failure, s)
    else (success, on_comm (λ c. record c { dp_sock_path = strncpy_path path }) s)

unfoldable pub dplane_set_ready : Bool → State → State
dplane_set_ready ready = on_comm λ c. record c { dplane_is_ready = ready }

unfoldable pub dplane_set_synt : ℕ → State → State
dplane_set_synt value = on_comm λ c. record c { synt = value }

abbrev pub dplane_get_synt : State → ℕ
dplane_get_synt s = s.comm.synt

abbrev pub dplane_sock_is_connected : State → Bool
dplane_sock_is_connected s = s.comm.dp_sock_connected

abbrev pub log_call : Syscall → State → State
log_call c = on_kernel λ k. record k { calls = k.calls ++ c ∷ [] }

-- The first half of `dp_unix_sock_close`: nothing is done without a socket.
close_sock : Option ℕ → State → State
unfolding dplane_set_ready
close_sock none s = s
close_sock (some fd) s = dplane_set_ready false (
    on_comm (λ c. record c { dp_sock = none; dp_sock_connected = false })
      (log_call (Syscall.close_call fd) s))

unfoldable pub dp_unix_sock_close : State → State
unfolding close_sock
dp_unix_sock_close s =
    let t = close_sock s.comm.dp_sock s in log_call (Syscall.unlink_call t.comm.plugin_sock_path) t

-- The label `fail` of `dp_unix_sock_open`.
fail_open : ℕ → State → Option ℕ × State
fail_open fd s = (none, log_call (Syscall.close_call fd) s)

abbrev count_open : State → State
count_open = on_kernel λ k. record k { opens = k.opens + 1 }

-- `dp_unix_sock_open` once `socket` has returned `fd`, as its `k`-th call.
bind_sock : Env → ℕ → ℕ → List ℕ → State → Option ℕ × State
unfolding fail_open
bind_sock e k fd path s =
    if length path == 0 || leb max_sun_path (length path)
    then fail_open fd s
    else (let t = log_call (Syscall.bind_call path) (log_call (Syscall.unlink_call path) s) in
        if not (e.bind_result k)
        then fail_open fd t
        else (let u = log_call (Syscall.chmod_call path) t in
            if not (e.chmod_result k) then fail_open fd u else (some fd, u)))

unfoldable pub dp_unix_sock_open : Env → List ℕ → State → Option ℕ × State
unfolding bind_sock
dp_unix_sock_open e path s =
    let t = count_open (log_call Syscall.socket_call s) in
    elim (e.socket_result s.kernel.opens) [
      | none ↦ (none, t)
      | some fd ↦ bind_sock e s.kernel.opens fd path t
    ]

unfoldable pub dp_unix_sock_reopen : Env → State → State
dp_unix_sock_reopen e s =
    let t = dp_unix_sock_close s in
    let (sock, u) = dp_unix_sock_open e t.comm.plugin_sock_path t in
    on_comm (λ c. record c { dp_sock = sock }) u

-- The result of `connect`: a socket that is connected already is as good as a new connection.
unfoldable pub after_connect : Env → ConnectResult → State → Rc × State
after_connect e ConnectResult.connected s = (success, s)
after_connect e (ConnectResult.connect_error Errno.eisconn) s = (success, s)
after_connect e (ConnectResult.connect_error _) s = (failure, dp_unix_sock_reopen e s)

abbrev pub count_connect : State → State
count_connect = on_kernel λ k. record k { connects = k.connects + 1 }

unfoldable pub dp_unix_connect : Env → List ℕ → State → Rc × State
unfolding after_connect
dp_unix_connect e path s =
    if length path == 0 || leb max_sun_path (length path)
    then (failure, s)
    else after_connect e (e.connect_result s.kernel.connects)
        (count_connect (log_call (Syscall.connect_call path) s))

-- `event_add_write(…, dp_sock_send_cb, …, &ev_send)`, unless it is scheduled.
unfoldable pub wakeon_dp_write_avail : State → State
wakeon_dp_write_avail s =
    if not s.comm.ev_send then on_comm (λ c. record c { ev_send = true }) s else s
