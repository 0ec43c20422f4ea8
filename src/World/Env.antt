-- ===== src/World/Env.antt =====
-- What the plugin calls and does not implement, as one record: the dplane-rpc library's codec,
-- constructors and constants, the build's configuration, and the kernel's answers. The answers to
-- the k-th call of a kind are a function of k, so a run is a function of the record and the state.
use dplane_plugin.Base.{ℕ, List, Option, Bool}
use dplane_plugin.Rpc.{
  RpcOp, ResultCode, RpcMsg, RpcObject, ConnInfo, IfAddress, Rmac, IpRoute, NextHop,
}

-- The values of `errno` that the source tells apart; `other_errno` is any other.
pub data Errno : Type 0 where
  eagain enobufs enomem eintr epipe enotconn econnrefused econnreset eisconn : Errno
  other_errno : ℕ → Errno

-- `send` returns the number of octets taken, or -1 and an errno.
pub data SendResult : Type 0 where
  sent : ℕ → SendResult
  send_error : Errno → SendResult

-- `recv` stores octets in the buffer, or returns -1 and an errno.
pub data RecvResult : Type 0 where
  received : List ℕ → RecvResult
  recv_error : Errno → RecvResult

-- `connect` returns 0, or -1 and an errno.
pub data ConnectResult : Type 0 where
  connected : ConnectResult
  connect_error : Errno → ConnectResult

pub record Env : Type 0 where
  -- the build: DEBUG_BUILD, and the versions of dplane-rpc
  pub debug_build : Bool
  pub ver_dp_major : ℕ
  pub ver_dp_minor : ℕ
  pub ver_dp_patch : ℕ
  -- dplane-rpc: the numbers of the tags, and the bounds of the statistics' arrays
  pub op_code : RpcOp → ℕ
  pub max_rpc_op : ℕ
  pub max_obj_type : ℕ
  pub rescode_number : ResultCode → ℕ
  pub rescode_max : ℕ
  -- dplane-rpc: `encode_msg` and `decode_msg`, with `none` for any code but E_OK
  pub encode_msg : RpcMsg → Option (List ℕ)
  pub decode_msg : List ℕ → Option RpcMsg
  -- dplane-rpc: an object of a request from a struct, `objects->conn_info.synt`, and a next hop
  -- added to a route
  pub blank_object : RpcObject
  pub conninfo_as_object : ConnInfo → RpcObject
  pub ifaddress_as_object : IfAddress → RpcObject
  pub rmac_as_object : Rmac → RpcObject
  pub iproute_as_object : IpRoute → RpcObject
  pub conn_info_synt : RpcObject → ℕ
  pub ip_route_add_nhop : IpRoute → NextHop → IpRoute
  -- the system: `getpid`, and what the k-th call of each kind returns
  pub getpid : ℕ
  pub socket_result : ℕ → Option ℕ
  pub bind_result : ℕ → Bool
  pub chmod_result : ℕ → Bool
  pub connect_result : ℕ → ConnectResult
  pub send_result : ℕ → SendResult
  pub recv_result : ℕ → RecvResult
  -- allocations and FRR: `init_fmt_buff`, `buff_new` twice, the work limit of the provider
  pub fmt_buff_ok : Bool
  pub tx_buff_ok : Bool
  pub rx_buff_ok : Bool
  pub work_limit : ℕ
