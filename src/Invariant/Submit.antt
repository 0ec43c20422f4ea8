-- ===== src/Invariant/Submit.antt =====
-- Queueing a new message: a request for a context, or a control message.
use dplane_plugin.Base.{
  ℕ, ◌+◌, ◌%◌, ◌≡◌, refl, ◌∙◌, sym, subst, List, [], ◌∷◌, ◌++◌, none, some, arith, All-append,
  append-nil, append_assoc, true,
}
use dplane_plugin.Rpc.{RpcMsg, RpcOp, RpcObject}
use dplane_plugin.World.Env.{Env}
use dplane_plugin.World.Frr.{Ctx}
use dplane_plugin.World.State.{State, DpMsg}
use dplane_plugin.World.Monad.{M, success, pure, Post, Post-weaken, Post-bind, ◌>>=◌, ◌>>◌}
use dplane_plugin.Cache.{dp_msg_new, dp_msg_cache_unsent, pop_list}
use dplane_plugin.Queues.{
  IsQueueable, Carries, Consecutive, Consecutive-snoc, numbers, number, in_hand, ctx_count,
  held_in-append, numbers-append,
}
use dplane_plugin.Comm.Send.{send_rpc_msg, send_pending_rpc_msgs}
use dplane_plugin.Comm.Send.Calm.{Calm}
use dplane_plugin.Comm.Send.Drain.{send_pending-Drained}
use dplane_plugin.Comm.Connect.Greet.{pop-IsFree}
use dplane_plugin.Msg.Request.{next_seqn, dp_request_new, send_with_object, send_rpc_control}
use dplane_plugin.Invariant.{Inv, Keeps, Keeps-trans}
use dplane_plugin.Invariant.Sending.{Drained-Keeps}

-- The step keeps the invariant and takes the context `c` in hand.
pub record Adds (c : Ctx) (s t : State) : Type 0 where
  pub inv : Inv t
  pub hand : (k : ℕ) → in_hand k t ≡ in_hand k s + ctx_count k (some c)
  pub finalizing : t.comm.finalizing ≡ s.comm.finalizing
  pub recvs : t.kernel.recvs ≡ s.kernel.recvs

pub Adds-Keeps : {c : Ctx} {s t u : State} → Adds c s t → Keeps t u → Adds c s u
Adds-Keeps {c} {s} h j = record {
  inv = j.inv;
  hand = λ k. j.hand k ∙ h.hand k;
  finalizing = j.finalizing ∙ h.finalizing;
  recvs = j.recvs ∙ h.recvs;
}

-- The state with the message at the end of the queue, and `j` for `seqnum`.
abbrev queued : DpMsg → ℕ → State → State
queued m j s = record s {
  cache = record s.cache { pool = (pop_list s.cache.pool).1; unsent = s.cache.unsent ++ m ∷ [] };
  seqnum = j;
}

-- One more message and its number, if it has one.
queued-Inv :
    (m : DpMsg) (j : ℕ) (s : State)
    → IsQueueable m
    → ((k : ℕ) (xs : List ℕ)
        → Consecutive k xs s.seqnum
        → Consecutive k (xs ++ number m.msg m.ctx) j)
    → Inv s
    → Inv (queued m j s)
queued-Inv m j s q more h = record {
  registered = h.registered;
  pool = pop-IsFree s.cache.pool h.pool;
  unsent = All-append IsQueueable s.cache.unsent (m ∷ []) h.unsent (q, tt);
  in_flight = h.in_flight;
  first = h.first;
  run =
      subst (λ l. Consecutive h.first l j) (simp (numbers-append, append-nil, append_assoc))
        (more h.first (numbers s.cache.in_flight ++ numbers s.cache.unsent) h.run);
}

queued-hand :
    (m : DpMsg) (j : ℕ) (s : State) (k : ℕ)
    → in_hand k (queued m j s) ≡ in_hand k s + ctx_count k m.ctx
queued-hand m j s k = omega (arith, held_in-append k s.cache.unsent (m ∷ []))

abbrev request_msg : RpcOp → ℕ → RpcObject → Ctx → DpMsg
request_msg op seqn o c = record {
  msg = RpcMsg.request (record { op = op; seqn = seqn; object = o });
  ctx = some c;
}

request-Adds :
    (op : RpcOp) (o : RpcObject) (c : Ctx) (s : State)
    → Carries op
    → Inv s
    → Adds c s (queued (request_msg op s.seqnum o c) (next_seqn s.seqnum) s)
request-Adds op o c s q h = record {
  inv =
      queued-Inv (request_msg op s.seqnum o c) (next_seqn s.seqnum) s q
        (λ k xs. Consecutive-snoc k s.seqnum xs) h;
  hand = queued-hand (request_msg op s.seqnum o c) (next_seqn s.seqnum) s;
  finalizing = refl;
  recvs = refl;
}

abbrev control_msg : ℕ → DpMsg
control_msg refresh = record { msg = RpcMsg.control (refresh % 256); ctx = none }

control-Keeps : (r : ℕ) (s : State) → Inv s → Keeps s (queued (control_msg r) s.seqnum s)
control-Keeps r s h = record {
  inv =
      queued-Inv (control_msg r) s.seqnum s tt
        (λ k xs c. subst (λ l. Consecutive k l s.seqnum) (sym (append-nil xs)) c) h;
  hand = λ k. omega (arith, queued-hand (control_msg r) s.seqnum s k);
  finalizing = refl;
  recvs = refl;
}

module _ (e : Env) (reconnect : M (Unit {0})) (F G : Type 0) (dbg : e.debug_build ≡ true → G)
    (rec : (s : State) → Post F G (λ _ t. Calm e s t) (reconnect s)) where
  -- A run over the queue, for its effect on the invariant.
  pub send_pending-Keeps :
      (s : State) → Inv s → Post F G (λ _ t. Keeps s t) (send_pending_rpc_msgs e reconnect s)
  send_pending-Keeps s h =
      Post-weaken _ _ (send_pending_rpc_msgs e reconnect s) (λ f. f) (λ g. g)
        (λ _ t d. Drained-Keeps e d h) (send_pending-Drained e reconnect F G dbg rec s)

  -- What follows once a message is in the queue.
  drain-Adds :
      {c : Ctx} {s t : State}
      → Adds c s t
      → Post F G
          (λ r u. (r ≡ success) × Adds c s u)
          ((send_pending_rpc_msgs e reconnect >> pure success) t)
  drain-Adds {c} {s} {t} a =
      Post-bind F G (λ _ u. Keeps t u) (λ r u. (r ≡ success) × Adds c s u)
        (send_pending_rpc_msgs e reconnect) (λ _. pure success) t (send_pending-Keeps t a.inv)
        (λ _ u j. (refl, Adds-Keeps a j))

  -- A request that carries a context is accepted: the context is in hand once more.
  pub submit-Adds :
      (op : RpcOp) (o : RpcObject) (c : Ctx) (s : State)
      → Carries op
      → Inv s
      → Post F G
          (λ r t. (r ≡ success) × Adds c s t)
          ((dp_request_new e op (some c) >>= send_with_object e reconnect o) s)
  unfolding dp_request_new dp_msg_new send_with_object send_rpc_msg dp_msg_cache_unsent
  submit-Adds RpcOp.connect o c s q h = elim q [ ]
  submit-Adds RpcOp.add o c s q h = drain-Adds (request-Adds RpcOp.add o c s tt h)
  submit-Adds RpcOp.del o c s q h = drain-Adds (request-Adds RpcOp.del o c s tt h)
  submit-Adds RpcOp.update o c s q h = drain-Adds (request-Adds RpcOp.update o c s tt h)
  submit-Adds (RpcOp.other_op k) o c s q h = elim q [ ]

  -- A control message changes nothing that the invariant is about.
  pub send_rpc_control-Keeps :
      (r : ℕ) (s : State) → Inv s → Post F G (λ _ t. Keeps s t) (send_rpc_control e reconnect r s)
  unfolding send_rpc_control dp_msg_new send_rpc_msg dp_msg_cache_unsent
  send_rpc_control-Keeps r s h =
      let q = control-Keeps r s h in
      Post-bind F G (λ _ u. Keeps (queued (control_msg r) s.seqnum s) u) (λ _ u. Keeps s u)
        (send_pending_rpc_msgs e reconnect) (λ _. pure success) (queued (control_msg r) s.seqnum s)
        (send_pending-Keeps (queued (control_msg r) s.seqnum s) q.inv) (λ _ u j. Keeps-trans q j)
