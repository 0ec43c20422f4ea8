-- ===== src/Examples.antt =====
-- A plugin with one request in flight, one that waits and one context to process, and the theorems
-- at it.
pub mod Runs
pub mod Parts
pub mod Arguments
pub mod Links
pub mod Terminal
pub mod Loading
use dplane_plugin.Base.{ℕ, zero, suc, List, [], ◌∷◌, ◌++◌, Option, none, some, true, false, refl}
use dplane_plugin.Rpc.{
  RpcMsg, RpcOp, RpcRequest, RpcResponse, RpcObject, ResultCode, Payload, IpRoute, NextHop,
}
use dplane_plugin.World.Env.{Env, Errno, SendResult, RecvResult, ConnectResult}
use dplane_plugin.World.Frr.{
  Ctx, DplaneOp, Prefix, Nexthop, af_inet, afi_ip, safi_unicast, route_bgp, nh_ipv4,
}
use dplane_plugin.World.State.{State, DpMsg, Comm, Cell, Kernel}
use dplane_plugin.Comm.Connect.Calm.{Storm}
use dplane_plugin.Guarantees.{Settles}
use dplane_plugin.Invariant.{Inv}

abbrev pub op_code : RpcOp → ℕ
op_code RpcOp.connect = 1
op_code RpcOp.add = 2
op_code RpcOp.del = 3
op_code RpcOp.update = 4
op_code (RpcOp.other_op k) = 0

abbrev rescode_number : ResultCode → ℕ
rescode_number ResultCode.ok = 0
rescode_number ResultCode.ignored = 1
rescode_number (ResultCode.other_code k) = k

abbrev encode : RpcMsg → Option (List ℕ)
encode (RpcMsg.request r) = some (1 ∷ r.seqn ∷ [])
encode (RpcMsg.control k) = some (2 ∷ k ∷ [])
encode _ = none

-- The response to the Add with the number that follows.
abbrev pub added : ℕ → RpcMsg
added k =
    RpcMsg.response (record { op = RpcOp.add; seqn = k; rescode = ResultCode.ok; objects = none })

abbrev decode : List ℕ → Option RpcMsg
decode (x ∷ k ∷ []) = some (added k)
decode _ = none

-- One response comes, and then nothing.
abbrev arrives : ℕ → RecvResult
arrives zero = RecvResult.received (2 ∷ 1 ∷ [])
arrives (suc k) = RecvResult.recv_error Errno.eagain

abbrev pub blank : RpcObject
blank = record { type = 0; payload = Payload.zeroed }

-- A release build, and a system on which every call succeeds.
abbrev pub env : Env
env = record {
  debug_build = false;
  ver_dp_major = 0;
  ver_dp_minor = 1;
  ver_dp_patch = 0;
  op_code = op_code;
  max_rpc_op = 5;
  max_obj_type = 5;
  rescode_number = rescode_number;
  rescode_max = 2;
  encode_msg = encode;
  decode_msg = decode;
  blank_object = blank;
  conninfo_as_object = λ c. record { type = 1; payload = Payload.conn_info c };
  ifaddress_as_object = λ a. record { type = 2; payload = Payload.ifaddress a };
  rmac_as_object = λ r. record { type = 3; payload = Payload.rmac r };
  iproute_as_object = λ r. record { type = 4; payload = Payload.ip_route r };
  conn_info_synt = λ o. 7;
  ip_route_add_nhop = λ r n. record r { nhops = r.nhops ++ n ∷ [] };
  getpid = 100;
  socket_result = λ k. some 9;
  bind_result = λ k. true;
  chmod_result = λ k. true;
  connect_result = λ k. ConnectResult.connected;
  send_result = λ k. SendResult.sent 2;
  recv_result = arrives;
  fmt_buff_ok = true;
  tx_buff_ok = true;
  rx_buff_ok = true;
  work_limit = 10;
}

abbrev pub prefix : Prefix
prefix = record { family = af_inet; prefixlen = 24; prefix4 = 10; prefix6 = [] }

abbrev pub hop : ℕ → Nexthop
hop k = record {
  type = nh_ipv4;
  vrf_id = 0;
  ifindex = k;
  gate4 = k;
  gate6 = [];
  recursive = false;
  active = true;
  evpn = false;
  is_vxlan = false;
  vni = 0;
}

-- A route to install, as the context with this identity.
abbrev pub route : ℕ → Ctx
route k = record {
  id = k;
  op = DplaneOp.route_install;
  afi = afi_ip;
  safi = safi_unicast;
  type = route_bgp;
  vrf = 0;
  intf_addr = prefix;
  ifname = [];
  ifindex = 0;
  ifp_vrf_id = 0;
  mac_vni = 0;
  mac_addr = [];
  mac_vtep_ip = 0;
  table = 254;
  distance = 20;
  metric = 0;
  dest = prefix;
  nexthops = hop 1 ∷ record (hop 2) { recursive = true } ∷ [];
  status = none;
  skip_kernel = false;
}

abbrev pub request_with : ℕ → RpcRequest
request_with k = record { op = RpcOp.add; seqn = k; object = blank }

abbrev pub message : ℕ → DpMsg
message k = record { msg = RpcMsg.request (request_with k); ctx = some (route k) }

abbrev cell : Cell
cell = record { sent = 0; replied = 0; unk_err = 0; rescode = λ k. 0 }

abbrev pub comm : Comm
comm = record {
  plugin_sock_path = 1 ∷ [];
  dp_sock_path = 2 ∷ [];
  ev_connect_timer = false;
  ev_recv = true;
  ev_send = false;
  ev_keepalive = true;
  dp_sock = some 9;
  dp_sock_connected = true;
  tx_buff = some [];
  rx_buff = some [];
  fb = true;
  dplane_is_ready = true;
  synt = 7;
  log_dataplane_msg = false;
  finalizing = false;
}

abbrev pub kernel : Kernel
kernel = record { opens = 1; connects = 1; sends = 1; recvs = 0; calls = []; wire = [] }

abbrev pub state : State
state = record {
  comm = comm;
  cache = record { pool = []; unsent = message 2 ∷ []; in_flight = message 1 ∷ [] };
  seqnum = 3;
  stats = record {
    tx_ok = 0;
    tx_failure = 0;
    tx_eagain = 0;
    rx_ok = 0;
    rx_failure = 0;
    rx_eagain = 0;
    msg_encode_failure = 0;
    msg_decode_failure = 0;
    requests = λ i j. cell;
    control_tx = 0;
    control_rx = 0;
  };
  kernel = kernel;
  zebra = record {
    registered = true;
    in_queue = route 3 ∷ [];
    out_queue = [];
    work_ready = 0;
    refreshes = 0;
    freed = [];
  };
}

pub state-Inv : Inv state
state-Inv = record {
  registered = refl;
  pool = tt;
  unsent = (tt, tt);
  in_flight = (tt, tt);
  first = 1;
  run = (refl, (refl, refl));
}

pub env-Settles : Settles env 1
env-Settles c t storm = storm.1
