-- ===== src/Comm/Connect/Greet.antt =====
-- Sending the Connect request, given what the call of `dp_connect` inside it may do.
use dplane_plugin.Base.{
  ◌≡◌, refl, ◌∙◌, sym, ap, subst, List, [], ◌∷◌, ◌++◌, Option, none, true, arith, All, All-append,
  append-nil, inl, inr,
}
use dplane_plugin.Rpc.{RpcMsg, RpcOp}
use dplane_plugin.World.Env.{Env}
use dplane_plugin.World.State.{State, DpMsg, on_cache}
use dplane_plugin.World.Monad.{M, Rc, success, failure, pure, Post, Post-weaken, Post-bind, ◌>>=◌}
use dplane_plugin.World.Frr.{Ctx}
use dplane_plugin.Cache.{pop_list, dp_msg_new, dp_msg_recycle}
use dplane_plugin.Queues.{IsConnectMsg, IsFree, IsConnect, request_of, octets}
use dplane_plugin.Comm.Still.{Still}
use dplane_plugin.Comm.Send.{do_send_rpc_msg, send_rpc_msg, after_connect_sent, settle_sent}
use dplane_plugin.Comm.Send.Calm.{Calm, Took, Attempt, Lost}
use dplane_plugin.Comm.Send.Attempt.{do_send-Attempt}
use dplane_plugin.Comm.Send.Settle.{Settled, settle_sent-Settled, dp_msg_recycle-Post}
use dplane_plugin.Msg.Request.{send_rpc_request_connect, our_conn_info}

request_of-connect :
    (m : DpMsg) (msg : RpcMsg) (o : Option Ctx) → IsConnect msg o → request_of msg m ≡ m ∷ []
request_of-connect m msg o is = ground arith

-- A Connect request that was sent and waits for its answer.
Took-Calm :
    (e : Env) (m : DpMsg) {s t u : State}
    → IsConnectMsg m
    → Took e m.msg s t
    → Settled m t u
    → Calm e s u
Took-Calm e m {s} {t} {u} is a b = record {
  fresh = m ∷ [];
  connects = (is, tt);
  in_flight =
      b.in_flight
      ∙ ap (λ c. c.in_flight ++ request_of m.msg m) a.cache
      ∙ ap (◌++◌ s.cache.in_flight) (request_of-connect m m.msg m.ctx is);
  unsent = b.unsent ∙ ap (λ c. c.unsent) a.cache;
  pool = λ p. b.pool (subst (All IsFree) (ap (λ c. c.pool) (sym a.cache)) p);
  wire =
      ap (λ k. k.wire) b.kernel
      ∙ a.wire
      ∙ ap (◌++◌ s.kernel.wire) (sym (append-nil (octets (e.encode_msg m.msg))));
  seqnum = b.seqnum ∙ a.seqnum;
  zebra = b.zebra ∙ a.zebra;
  synt = ap (λ c. c.synt) b.comm ∙ a.synt;
  finalizing = ap (λ c. c.finalizing) b.comm ∙ a.finalizing;
  recvs = ap (λ k. k.recvs) b.kernel ∙ a.recvs;
}

-- One that could not be sent and is recycled.
recycled-Calm :
    (e : Env) (m : DpMsg) {s t : State}
    → m.ctx ≡ none
    → Calm e s t
    → Calm e s (on_cache (λ c. record c { pool = c.pool ++ m ∷ [] }) t)
recycled-Calm e m {s} {t} free c = record {
  fresh = c.fresh;
  connects = c.connects;
  in_flight = c.in_flight;
  unsent = c.unsent;
  pool = λ p. All-append IsFree t.cache.pool (m ∷ []) (c.pool p) (free, tt);
  wire = c.wire;
  seqnum = c.seqnum;
  zebra = c.zebra;
  synt = c.synt;
  finalizing = c.finalizing;
  recvs = c.recvs;
}

pub pop-IsFree : (ms : List DpMsg) → All IsFree ms → All IsFree (pop_list ms).1
pop-IsFree [] h = tt
pop-IsFree (m ∷ ms) h = h.1

-- The state from which `dp_msg_new` took a message.
abbrev pool_popped : State → State
pool_popped = on_cache λ c. record c { pool = (pop_list c.pool).1 }

popped-Calm : (e : Env) {s t : State} → Calm e (pool_popped s) t → Calm e s t
popped-Calm e {s} c = record {
  fresh = c.fresh;
  connects = c.connects;
  in_flight = c.in_flight;
  unsent = c.unsent;
  pool = λ p. c.pool (pop-IsFree s.cache.pool p);
  wire = c.wire;
  seqnum = c.seqnum;
  zebra = c.zebra;
  synt = c.synt;
  finalizing = c.finalizing;
  recvs = c.recvs;
}

pub Calm-after : (e : Env) {s t u : State} → Calm e s t → Still t u → Calm e s u
Calm-after e {s} {t} {u} c h = record {
  fresh = c.fresh;
  connects = c.connects;
  in_flight = ap (λ q. q.in_flight) h.cache ∙ c.in_flight;
  unsent = ap (λ q. q.unsent) h.cache ∙ c.unsent;
  pool = λ p. rw (ap (λ q. q.pool) h.cache) (c.pool p);
  wire = h.wire ∙ c.wire;
  seqnum = h.seqnum ∙ c.seqnum;
  zebra = h.zebra ∙ c.zebra;
  synt = h.synt ∙ c.synt;
  finalizing = h.finalizing ∙ c.finalizing;
  recvs = h.recvs ∙ c.recvs;
}

module _ (e : Env) (reconnect : M (Unit {0})) (F : State → Type 0) (G : Type 0)
    (dbg : e.debug_build ≡ true → G)
    (rec : (s : State) → Post (F s) G (λ _ t. Calm e s t) (reconnect s)) where
  after_connect_sent-Calm :
      (H : Type 0) (m : DpMsg) (s : State)
      → IsConnectMsg m
      → (r : Rc) (t : State) → Attempt e m.msg s r t
      → Post H G (λ _ u. Calm e s u) (after_connect_sent e reconnect m r t)
  unfolding after_connect_sent
  after_connect_sent-Calm H m s is success t a =
      Post-bind H G (λ _ u. Settled m t u) (λ _ u. Calm e s u) (settle_sent e m m.msg)
        (λ _. pure success) t (settle_sent-Settled e H G dbg m m.msg t refl)
        (λ _ u b. Took-Calm e m is a b)
  after_connect_sent-Calm H m s is failure t c =
      Post-bind H G _ (λ _ u. Calm e s u) (dp_msg_recycle e m) (λ _. pure failure) t
        (dp_msg_recycle-Post e H G dbg m t)
        (λ _ u r. elim r [
          | inl (_, same) ↦ subst (Calm e s) (sym same) c
          | inr (free, more) ↦ subst (Calm e s) (sym more) (recycled-Calm e m free c)
        ])

  send_connect-Calm :
      (m : DpMsg) (s : State)
      → IsConnectMsg m
      → Post
          (Lost e F s)
          G
          (λ _ t. Calm e s t)
          ((do_send_rpc_msg e reconnect m.msg >>= after_connect_sent e reconnect m) s)
  send_connect-Calm m s is =
      Post-bind (Lost e F s) G (Attempt e m.msg s) (λ _ t. Calm e s t)
        (do_send_rpc_msg e reconnect m.msg) (after_connect_sent e reconnect m) s
        (do_send-Attempt e reconnect F G rec dbg m.msg s)
        (after_connect_sent-Calm (Lost e F s) m s is)

  pub send_rpc_request_connect-Calm :
      (s : State) → Post (Lost e F s) G (λ _ t. Calm e s t) (send_rpc_request_connect e reconnect s)
  unfolding send_rpc_request_connect send_rpc_msg dp_msg_new
  send_rpc_request_connect-Calm s =
      Post-weaken {F = Lost e F s} {F' = Lost e F s} _ (λ _ t. Calm e s t)
        ((do_send_rpc_msg e reconnect (connect_msg s).msg
            >>= after_connect_sent e reconnect (connect_msg s))
          (pool_popped s))
        (λ f. f) (λ g. g) (λ _ t c. popped-Calm e c)
        (send_connect-Calm (connect_msg s) (pool_popped s) tt)
    where
      connect_msg : State → DpMsg
      connect_msg u = record {
        msg = RpcMsg.request (record {
          op = RpcOp.connect;
          seqn = 0;
          object = e.conninfo_as_object (our_conn_info e u);
        });
        ctx = none;
      }
