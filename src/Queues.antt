-- ===== src/Queues.antt =====
-- The vocabulary in which the lists of src/hh_dp_msg_cache.c are described: what kind of message each
-- may hold, which numbers their requests carry, how often a context is held, which octets they
-- become. None of it models code.
use dplane_plugin.Base.{
  sym, ℕ, ◌+◌, ◌≡◌, refl, ap, List, [], ◌∷◌, ◌++◌, Option, none, some, arith, ◌==◌, All,
  append_assoc, if◌then◌else◌,
}
use dplane_plugin.Rpc.{RpcMsg, RpcOp}
use dplane_plugin.World.Env.{Env}
use dplane_plugin.World.State.{State, DpMsg}
use dplane_plugin.World.Frr.{Ctx}
use dplane_plugin.Msg.Request.{next_seqn}

-- The operations of a request that carries a context.
abbrev pub Carries : RpcOp → Type 0
Carries RpcOp.connect = ⊥
Carries RpcOp.add = Unit
Carries RpcOp.del = Unit
Carries RpcOp.update = Unit
Carries (RpcOp.other_op k) = ⊥

abbrev pub IsConnectOp : RpcOp → Type 0
IsConnectOp RpcOp.connect = Unit
IsConnectOp _ = ⊥

-- A message that may wait to be sent: a request with a context, or a control message without.
abbrev pub Queueable : RpcMsg → Option Ctx → Type 0
Queueable (RpcMsg.request r) (some c) = Carries r.op
Queueable (RpcMsg.control k) none = Unit
Queueable _ _ = ⊥

-- A message that may wait for its answer: a request with a context, or a Connect without.
abbrev pub FlyingOp : RpcOp → Option Ctx → Type 0
FlyingOp op (some c) = Carries op
FlyingOp op none = IsConnectOp op

abbrev pub Flying : RpcMsg → Option Ctx → Type 0
Flying (RpcMsg.request r) o = FlyingOp r.op o
Flying (RpcMsg.response r) o = ⊥
Flying (RpcMsg.control k) o = ⊥
Flying RpcMsg.notification o = ⊥
Flying RpcMsg.other o = ⊥

abbrev pub IsConnect : RpcMsg → Option Ctx → Type 0
IsConnect (RpcMsg.request r) none = IsConnectOp r.op
IsConnect _ _ = ⊥

abbrev pub IsQueueable : DpMsg → Type 0
IsQueueable m = Queueable m.msg m.ctx

abbrev pub IsFlying : DpMsg → Type 0
IsFlying m = Flying m.msg m.ctx

abbrev pub IsConnectMsg : DpMsg → Type 0
IsConnectMsg m = IsConnect m.msg m.ctx

-- A message of the pool holds no context.
abbrev pub IsFree : DpMsg → Type 0
IsFree m = m.ctx ≡ none

-- The number of a request that carries a context.
abbrev pub number : RpcMsg → Option Ctx → List ℕ
number (RpcMsg.request r) (some c) = r.seqn ∷ []
number _ _ = []

abbrev pub numbers : List DpMsg → List ℕ
numbers [] = []
numbers (m ∷ ms) = number m.msg m.ctx ++ numbers ms

-- The numbers run from `k` up to `j`, `j` excluded, wrapping at 2 ^ 64.
abbrev pub Consecutive : ℕ → List ℕ → ℕ → Type 0
Consecutive k [] j = j ≡ k
Consecutive k (x ∷ xs) j = (x ≡ k) × Consecutive (next_seqn k) xs j

-- The requests among the messages.
abbrev pub request_of : RpcMsg → DpMsg → List DpMsg
request_of (RpcMsg.request r) m = m ∷ []
request_of _ m = []

abbrev pub requests : List DpMsg → List DpMsg
requests [] = []
requests (m ∷ ms) = request_of m.msg m ++ requests ms

abbrev pub octets : Option (List ℕ) → List (List ℕ)
octets none = []
octets (some bytes) = bytes ∷ []

-- The datagrams that the messages are encoded as.
abbrev pub datagrams : Env → List DpMsg → List (List ℕ)
datagrams e [] = []
datagrams e (m ∷ ms) = octets (e.encode_msg m.msg) ++ datagrams e ms

-- How often the context `k` occurs.
abbrev pub ctx_count : ℕ → Option Ctx → ℕ
ctx_count k none = 0
ctx_count k (some c) = if c.id == k then 1 else 0

abbrev pub held_in : ℕ → List DpMsg → ℕ
held_in k [] = 0
held_in k (m ∷ ms) = ctx_count k m.ctx + held_in k ms

abbrev pub ids_in : ℕ → List Ctx → ℕ
ids_in k [] = 0
ids_in k (c ∷ cs) = ctx_count k (some c) + ids_in k cs

-- How often the plugin and zebra's two queues hold the context `k` between them.
abbrev pub in_hand : ℕ → State → ℕ
in_hand k s =
    ids_in k s.zebra.in_queue
    + held_in k s.cache.unsent
    + held_in k s.cache.in_flight
    + ids_in k s.zebra.out_queue

-- Laws of these measures.
pub held_in-append :
    (k : ℕ) (xs ys : List DpMsg) → held_in k (xs ++ ys) ≡ held_in k xs + held_in k ys
held_in-append k [] ys = omega arith
held_in-append k (x ∷ xs) ys = omega (arith, held_in-append k xs ys)

pub ids_in-append : (k : ℕ) (xs ys : List Ctx) → ids_in k (xs ++ ys) ≡ ids_in k xs + ids_in k ys
ids_in-append k [] ys = omega arith
ids_in-append k (x ∷ xs) ys = omega (arith, ids_in-append k xs ys)

pub numbers-append : (xs ys : List DpMsg) → numbers (xs ++ ys) ≡ numbers xs ++ numbers ys
numbers-append [] ys = refl
numbers-append (x ∷ xs) ys = rw (numbers-append xs ys) (sym (append_assoc (number x.msg x.ctx) _ _))

pub Consecutive-snoc :
    (k j : ℕ) (xs : List ℕ) → Consecutive k xs j → Consecutive k (xs ++ j ∷ []) (next_seqn j)
Consecutive-snoc k j [] h = (h, ap next_seqn h)
Consecutive-snoc k j (x ∷ xs) h = (h.0, Consecutive-snoc (next_seqn k) j xs h.1)

pub held_in-requests :
    (k : ℕ) (ms : List DpMsg) → All IsQueueable ms → held_in k (requests ms) ≡ held_in k ms
held_in-requests k [] h = refl
held_in-requests k (m ∷ ms) h = ground (arith, held_in-requests k ms h.1)

pub numbers-requests : (ms : List DpMsg) → All IsQueueable ms → numbers (requests ms) ≡ numbers ms
numbers-requests [] h = refl
numbers-requests (m ∷ ms) h = ground (arith, numbers-requests ms h.1)

pub requests-IsFlying : (ms : List DpMsg) → All IsQueueable ms → All IsFlying (requests ms)
requests-IsFlying [] h = tt
requests-IsFlying (m ∷ ms) h = ground (arith, requests-IsFlying ms h.1)

pub held_in-connects : (k : ℕ) (ms : List DpMsg) → All IsConnectMsg ms → held_in k ms ≡ 0
held_in-connects k [] h = refl
held_in-connects k (m ∷ ms) h = ground (arith, held_in-connects k ms h.1)

pub numbers-connects : (ms : List DpMsg) → All IsConnectMsg ms → numbers ms ≡ []
numbers-connects [] h = refl
numbers-connects (m ∷ ms) h = ground (arith, numbers-connects ms h.1)

pub connects-IsFlying : (ms : List DpMsg) → All IsConnectMsg ms → All IsFlying ms
connects-IsFlying [] h = tt
connects-IsFlying (m ∷ ms) h = ground (arith, connects-IsFlying ms h.1)

pub All-append_left {ℓ} :
    {A : Type 0} (P : A → Type ℓ) (xs ys : List A) → All P (xs ++ ys) → All P xs
All-append_left P [] ys h = tt
All-append_left P (x ∷ xs) ys h = (h.0, All-append_left P xs ys h.1)

pub All-append_right {ℓ} :
    {A : Type 0} (P : A → Type ℓ) (xs ys : List A) → All P (xs ++ ys) → All P ys
All-append_right P [] ys h = h
All-append_right P (x ∷ xs) ys h = All-append_right P xs ys h.1
