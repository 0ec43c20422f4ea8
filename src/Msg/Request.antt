-- ===== src/Msg/Request.antt =====
-- src/hh_dp_msg.c, `dp_request_new` and the two messages that need no context: the Connect request
-- and the control message. A text is the list of its octets.
use dplane_plugin.Base.{
  ℕ, ◌+◌, ◌%◌, ◌^◌, List, [], ◌∷◌, Option, none, some, not, ◌&&◌, is_some, if◌then◌else◌,
}
use dplane_plugin.Rpc.{RpcMsg, RpcOp, RpcObject, ConnInfo, is_connect}
use dplane_plugin.World.Env.{Env}
use dplane_plugin.World.State.{State, DpMsg}
use dplane_plugin.World.Frr.{Ctx}
use dplane_plugin.World.Monad.{M, returns, Rc, abort, bug, ◌>>=◌}
use dplane_plugin.Cache.{dp_msg_new}
use dplane_plugin.Comm.Socket.{dplane_get_synt}
use dplane_plugin.Comm.Send.{send_rpc_msg}

-- `seqnum++` on a `uint64_t`.
abbrev pub next_seqn : ℕ → ℕ
next_seqn n = (n + 1) % 2 ^ 64

-- The fields that `dp_request_new` fills; the object follows.
abbrev fresh_request : Env → RpcOp → ℕ → Option Ctx → DpMsg → DpMsg
fresh_request e op seqn ctx m = record m {
  msg = RpcMsg.request (record { op = op; seqn = seqn; object = e.blank_object });
  ctx = ctx;
}

unfoldable pub dp_request_new : Env → RpcOp → Option Ctx → M (Option DpMsg)
dp_request_new e op ctx s =
    if not (is_some ctx) && not (is_connect op)
    then bug e none s
    else (let (m, t) = dp_msg_new s in
        if is_connect op
        then returns (some (fresh_request e op 0 ctx m)) t
        else returns (some (fresh_request e op t.seqnum ctx m))
            (record t { seqnum = next_seqn t.seqnum }))

abbrev pub with_object : RpcObject → RpcMsg → RpcMsg
with_object o (RpcMsg.request r) = RpcMsg.request (record r { object = o })
with_object o msg = msg

-- "FRR-HHGW-plugin"
abbrev plugin_name : List ℕ
plugin_name =
    b'F' ∷ b'R' ∷ b'R' ∷ b'-' ∷ b'H' ∷ b'H' ∷ b'G' ∷ b'W' ∷ b'-' ∷ b'p' ∷ b'l' ∷ b'u' ∷ b'g' ∷ b'i'
    ∷ b'n' ∷ []

abbrev pub our_conn_info : Env → State → ConnInfo
our_conn_info e s = record {
  name = plugin_name;
  pid = e.getpid % 2 ^ 32;
  major = e.ver_dp_major;
  minor = e.ver_dp_minor;
  patch = e.ver_dp_patch;
  synt = dplane_get_synt s;
}

module _ (e : Env) (reconnect : M (Unit {0})) where
  -- `*_as_object(&m->msg.request.object, …)` and `send_rpc_msg(m)`: a read through NULL if there is
  -- no message.
  unfoldable pub send_with_object : RpcObject → Option DpMsg → M Rc
  send_with_object o none = abort
  send_with_object o (some m) = send_rpc_msg e reconnect (record m { msg = with_object o m.msg })

  unfoldable pub send_rpc_request_connect : M Rc
  unfolding dp_request_new send_with_object
  send_rpc_request_connect s =
      (dp_request_new e RpcOp.connect none
          >>= send_with_object (e.conninfo_as_object (our_conn_info e s)))
        s

  unfoldable pub send_rpc_control : ℕ → M Rc
  send_rpc_control refresh s =
      let (m, t) = dp_msg_new s in
      send_rpc_msg e reconnect (record m { msg = RpcMsg.control (refresh % 256) }) t
