-- ===== src/Comm/Send/Calm.antt =====
-- What an attempt at sending may do, as records: `Calm`, what a call of `dp_connect` does, and `Took`, a
-- datagram that the socket took.
use dplane_plugin.Base.{ℕ, suc, ◌≡◌, ◌∙◌, sym, ap, List, [], ◌++◌, true, ◌||◌, All, append-nil}
use dplane_plugin.Rpc.{RpcMsg}
use dplane_plugin.World.Env.{Env, Errno, SendResult}
use dplane_plugin.World.State.{State, DpMsg}
use dplane_plugin.World.Monad.{Rc, success, failure}
use dplane_plugin.Queues.{IsConnectMsg, IsFree, datagrams, octets}
use dplane_plugin.Comm.Still.{Still}
use dplane_plugin.Comm.Send.{is_connect_request, count_send, set_tx_buff}

-- What a connection attempt may do: Connect requests are sent and join the requests in flight.
pub record Calm (e : Env) (s t : State) : Type 0 where
  pub fresh : List DpMsg
  pub connects : All IsConnectMsg fresh
  pub in_flight : t.cache.in_flight ≡ s.cache.in_flight ++ fresh
  pub unsent : t.cache.unsent ≡ s.cache.unsent
  pub pool : All IsFree s.cache.pool → All IsFree t.cache.pool
  pub wire : t.kernel.wire ≡ s.kernel.wire ++ datagrams e fresh
  pub seqnum : t.seqnum ≡ s.seqnum
  pub zebra : t.zebra ≡ s.zebra
  pub synt : t.comm.synt ≡ s.comm.synt
  pub finalizing : t.comm.finalizing ≡ s.comm.finalizing
  pub recvs : t.kernel.recvs ≡ s.kernel.recvs

pub Still-Calm : (e : Env) {s t : State} → Still s t → Calm e s t
Still-Calm e {s} {t} h = record {
  fresh = [];
  connects = tt;
  in_flight = ap (λ c. c.in_flight) h.cache ∙ sym (append-nil _);
  unsent = ap (λ c. c.unsent) h.cache;
  pool = λ p. rw (ap (λ c. c.pool) h.cache) p;
  wire = h.wire ∙ sym (append-nil _);
  seqnum = h.seqnum;
  zebra = h.zebra;
  synt = h.synt;
  finalizing = h.finalizing;
  recvs = h.recvs;
}

-- What a datagram that was taken does: nothing but the wire, and the dataplane was ready unless the
-- message is a Connect.
pub record Took (e : Env) (msg : RpcMsg) (s t : State) : Type 0 where
  pub cache : t.cache ≡ s.cache
  pub wire : t.kernel.wire ≡ s.kernel.wire ++ octets (e.encode_msg msg)
  pub seqnum : t.seqnum ≡ s.seqnum
  pub zebra : t.zebra ≡ s.zebra
  pub synt : t.comm.synt ≡ s.comm.synt
  pub finalizing : t.comm.finalizing ≡ s.comm.finalizing
  pub recvs : t.kernel.recvs ≡ s.kernel.recvs
  pub ready : t.comm.dplane_is_ready ≡ s.comm.dplane_is_ready
  pub allowed : (is_connect_request msg || s.comm.dplane_is_ready) ≡ true

abbrev pub Attempt : Env → RpcMsg → State → Rc → State → Type 0
Attempt e msg s success t = Took e msg s t
Attempt e msg s failure t = Calm e s t

pub failed-Attempt :
    (e : Env) (msg : RpcMsg) {s t : State} (r : Rc) → r ≡ failure → Calm e s t → Attempt e msg s r t
failed-Attempt e msg success h c = cc
failed-Attempt e msg failure h c = c

-- The buffer and the count of calls are no part of what an attempt is about.
pub counted :
    (e : Env) (msg : RpcMsg) (bytes : List ℕ) (s t : State) (r : Rc)
    → Attempt e msg (count_send (set_tx_buff bytes s)) r t
    → Attempt e msg s r t
counted e msg bytes s t success h = record {
  cache = h.cache;
  wire = h.wire;
  seqnum = h.seqnum;
  zebra = h.zebra;
  synt = h.synt;
  finalizing = h.finalizing;
  recvs = h.recvs;
  ready = h.ready;
  allowed = h.allowed;
}
counted e msg bytes s t failure h = record {
  fresh = h.fresh;
  connects = h.connects;
  in_flight = h.in_flight;
  unsent = h.unsent;
  pool = h.pool;
  wire = h.wire;
  seqnum = h.seqnum;
  zebra = h.zebra;
  synt = h.synt;
  finalizing = h.finalizing;
  recvs = h.recvs;
}

-- The results of `send` after which the socket is connected again.
abbrev pub IsLost : SendResult → Type 0
IsLost (SendResult.send_error Errno.epipe) = Unit
IsLost (SendResult.send_error Errno.enotconn) = Unit
IsLost (SendResult.send_error Errno.econnrefused) = Unit
IsLost (SendResult.send_error Errno.econnreset) = Unit
IsLost _ = ⊥

-- The fuel ran out in the connection attempt that a lost connection led to.
abbrev pub Lost : Env → (State → Type 0) → State → Type 0
Lost e F s =
    (u : State) × F u
    × (u.kernel.connects ≡ s.kernel.connects)
    × (u.kernel.sends ≡ suc s.kernel.sends)
    × IsLost (e.send_result s.kernel.sends)

-- A step that leaves the queues alone, before an attempt.
pub Still-before : (e : Env) {s t u : State} → Still s t → Calm e t u → Calm e s u
Still-before e {s} {t} {u} h c = record {
  fresh = c.fresh;
  connects = c.connects;
  in_flight = c.in_flight ∙ ap (λ q. q.in_flight ++ c.fresh) h.cache;
  unsent = c.unsent ∙ ap (λ q. q.unsent) h.cache;
  pool = λ p. c.pool (rw (ap (λ q. q.pool) h.cache) p);
  wire = c.wire ∙ ap (λ (w : List (List ℕ)). w ++ datagrams e c.fresh) h.wire;
  seqnum = c.seqnum ∙ h.seqnum;
  zebra = c.zebra ∙ h.zebra;
  synt = c.synt ∙ h.synt;
  finalizing = c.finalizing ∙ h.finalizing;
  recvs = c.recvs ∙ h.recvs;
}
