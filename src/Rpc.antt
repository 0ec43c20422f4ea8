-- ===== src/Rpc.antt =====
-- The messages that src/hh_dp_msg.c builds and reads, with the tags that the source names. The
-- structs belong to the dplane-rpc library; the fields are those that the source writes or reads.
-- The source's `switch` statements name pairwise distinct constants, so a tag is a data type with
-- one constructor for each name and one more, with its number, for every other value.
use dplane_plugin.Base.{ℕ, List, Option, Bool, true, false, ◌==◌}

pub data RpcOp : Type 0 where
  connect add del update : RpcOp
  other_op : ℕ → RpcOp

pub data ResultCode : Type 0 where
  ok ignored : ResultCode
  other_code : ℕ → ResultCode

-- The object types are told apart by their numbers only.
abbrev pub ObjType : Type 0
ObjType = ℕ

abbrev pub is_connect : RpcOp → Bool
is_connect connect = true
is_connect _ = false

-- The C test `a == b` on operations.
abbrev pub op_eq : RpcOp → RpcOp → Bool
op_eq connect connect = true
op_eq add add = true
op_eq del del = true
op_eq update update = true
op_eq (other_op a) (other_op b) = a == b
op_eq _ _ = false

-- An address whose `ipver` was left at zero is `unset`.
pub data Address : Type 0 where
  unset : Address
  ipv4 : ℕ → Address
  ipv6 : List ℕ → Address

pub record ConnInfo : Type 0 where
  pub name : List ℕ
  pub pid : ℕ
  pub major : ℕ
  pub minor : ℕ
  pub patch : ℕ
  pub synt : ℕ

pub record IfAddress : Type 0 where
  pub ifname : List ℕ
  pub ifindex : ℕ
  pub vrfid : ℕ
  pub len : ℕ
  pub address : Address

pub record Rmac : Type 0 where
  pub vni : ℕ
  pub mac : List ℕ
  pub address : Address

pub data FwAction : Type 0 where
  forward drop : FwAction

pub data Encap : Type 0 where
  no_encap : Encap
  vxlan : ℕ → Encap

pub record NextHop : Type 0 where
  pub vrfid : ℕ
  pub ifindex : ℕ
  pub fwaction : FwAction
  pub address : Address
  pub encap : Encap

pub data RouteType : Type 0 where
  local connected static ospf isis bgp other : RouteType

pub record IpRoute : Type 0 where
  pub tableid : ℕ
  pub type : RouteType
  pub distance : ℕ
  pub metric : ℕ
  pub vrfid : ℕ
  pub len : ℕ
  pub prefix : Address
  pub nhops : List NextHop

-- The union of a request's object.
pub data Payload : Type 0 where
  zeroed : Payload
  conn_info : ConnInfo → Payload
  ifaddress : IfAddress → Payload
  rmac : Rmac → Payload
  ip_route : IpRoute → Payload

pub record RpcObject : Type 0 where
  pub type : ObjType
  pub payload : Payload

pub record RpcRequest : Type 0 where
  pub op : RpcOp
  pub seqn : ℕ
  pub object : RpcObject

-- `objects` is the first object of the response, if it has any.
pub record RpcResponse : Type 0 where
  pub op : RpcOp
  pub seqn : ℕ
  pub rescode : ResultCode
  pub objects : Option RpcObject

-- `other` stands for every type that the source does not name.
pub data RpcMsg : Type 0 where
  request : RpcRequest → RpcMsg
  response : RpcResponse → RpcMsg
  control : ℕ → RpcMsg
  notification other : RpcMsg
