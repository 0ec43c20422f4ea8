-- ===== src/World/State.antt =====
-- The global variables of the plugin, one record for each source file that keeps some, and what it
-- has done to the world outside: the datagrams that the kernel took, the calls that change the file
-- system or a descriptor, and the queues of the dataplane provider.
use dplane_plugin.Base.{ℕ, List, Option, Bool}
use dplane_plugin.Rpc.{RpcMsg}
use dplane_plugin.World.Frr.{Ctx}

-- `struct dp_msg`; the list linkage is the list that holds it.
pub record DpMsg : Type 0 where
  pub msg : RpcMsg
  pub ctx : Option Ctx

-- `struct dp_msg_cache`
pub record Cache : Type 0 where
  pub pool : List DpMsg
  pub unsent : List DpMsg
  pub in_flight : List DpMsg

-- The statics and globals of src/hh_dp_comm.c. A pointer to an event is `true` while the event is
-- scheduled. `dp_sock` is `none` for NO_SOCK. `tx_buff` and `rx_buff` hold the octets written.
pub record Comm : Type 0 where
  pub plugin_sock_path : List ℕ
  pub dp_sock_path : List ℕ
  pub ev_connect_timer : Bool
  pub ev_recv : Bool
  pub ev_send : Bool
  pub ev_keepalive : Bool
  pub dp_sock : Option ℕ
  pub dp_sock_connected : Bool
  pub tx_buff : Option (List ℕ)
  pub rx_buff : Option (List ℕ)
  pub fb : Bool
  pub dplane_is_ready : Bool
  pub synt : ℕ
  pub log_dataplane_msg : Bool
  pub finalizing : Bool

-- `struct rpc_req_stat_cell`
pub record Cell : Type 0 where
  pub sent : ℕ
  pub replied : ℕ
  pub unk_err : ℕ
  pub rescode : ℕ → ℕ

-- `struct rpc_stats`; `requests` is indexed by the object's type and the operation.
pub record Stats : Type 0 where
  pub tx_ok : ℕ
  pub tx_failure : ℕ
  pub tx_eagain : ℕ
  pub rx_ok : ℕ
  pub rx_failure : ℕ
  pub rx_eagain : ℕ
  pub msg_encode_failure : ℕ
  pub msg_decode_failure : ℕ
  pub requests : ℕ → ℕ → Cell
  pub control_tx : ℕ
  pub control_rx : ℕ

pub data Syscall : Type 0 where
  socket_call : Syscall
  close_call : ℕ → Syscall
  unlink_call bind_call chmod_call connect_call : List ℕ → Syscall

-- How many calls of each kind were made, the calls on descriptors and paths in order, and the
-- datagrams that `send` took whole, in order.
pub record Kernel : Type 0 where
  pub opens : ℕ
  pub connects : ℕ
  pub sends : ℕ
  pub recvs : ℕ
  pub calls : List Syscall
  pub wire : List (List ℕ)

-- The provider: contexts to process, contexts given back, and how often the plugin signalled work
-- or asked for a refresh; and the contexts that the plugin itself has freed. `registered` tells whether
-- `prov_p` is set.
pub record Zebra : Type 0 where
  pub registered : Bool
  pub in_queue : List Ctx
  pub out_queue : List Ctx
  pub work_ready : ℕ
  pub refreshes : ℕ
  pub freed : List Ctx

pub record State : Type 0 where
  pub comm : Comm
  pub cache : Cache
  pub seqnum : ℕ
  pub stats : Stats
  pub kernel : Kernel
  pub zebra : Zebra

-- An update of one part of the state.
abbrev pub on_comm : (Comm → Comm) → State → State
on_comm f s = record s { comm = f s.comm }

abbrev pub on_cache : (Cache → Cache) → State → State
on_cache f s = record s { cache = f s.cache }

abbrev pub on_stats : (Stats → Stats) → State → State
on_stats f s = record s { stats = f s.stats }

abbrev pub on_kernel : (Kernel → Kernel) → State → State
on_kernel f s = record s { kernel = f s.kernel }

abbrev pub on_zebra : (Zebra → Zebra) → State → State
on_zebra f s = record s { zebra = f s.zebra }
