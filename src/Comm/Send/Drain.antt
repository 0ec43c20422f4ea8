-- ===== src/Comm/Send/Drain.antt =====
-- What a run of `send_pending_rpc_msgs` does with the queue of unsent messages.
use dplane_plugin.Base.{
  subst, ℕ, zero, suc, ◌<◌, ◌≡◌, refl, ◌∙◌, sym, ap, List, [], ◌∷◌, ◌++◌, true, ◌||◌, arith, All,
  length, append-nil, append_assoc,
}
use dplane_plugin.Rpc.{RpcMsg}
use dplane_plugin.World.Env.{Env}
use dplane_plugin.World.State.{State, DpMsg, on_cache}
use dplane_plugin.World.Monad.{M, Rc, success, failure, Post, Post-weaken, Post-bind}
use dplane_plugin.Cache.{pop_list, dp_msg_unsent_push_back, dp_msg_pop_unsent, dp_msg_unsent_count}
use dplane_plugin.Queues.{IsConnectMsg, IsFree, datagrams, octets, requests, request_of}
use dplane_plugin.Comm.Send.{
  is_connect_request, do_send_rpc_msg, settle_sent, send_rounds, send_popped, after_attempt,
  send_pending_rpc_msgs,
}
use dplane_plugin.Comm.Send.Calm.{Calm, Took, Attempt}
use dplane_plugin.Comm.Send.Attempt.{do_send-Attempt}
use dplane_plugin.Comm.Send.Settle.{Settled, settle_sent-Settled}

-- What a run over the queue does: a first part of it is sent, in order, and joins the requests in
-- flight, the rest stays, and a last attempt may have connected again.
pub record Drained (e : Env) (s t : State) : Type 0 where
  pub sent : List DpMsg
  pub fresh : List DpMsg
  pub connects : All IsConnectMsg fresh
  pub unsent : s.cache.unsent ≡ sent ++ t.cache.unsent
  pub in_flight : t.cache.in_flight ≡ s.cache.in_flight ++ (requests sent ++ fresh)
  pub wire : t.kernel.wire ≡ s.kernel.wire ++ (datagrams e sent ++ datagrams e fresh)
  pub allowed : All (λ m. (is_connect_request m.msg || s.comm.dplane_is_ready) ≡ true) sent
  pub pool : All IsFree s.cache.pool → All IsFree t.cache.pool
  pub seqnum : t.seqnum ≡ s.seqnum
  pub zebra : t.zebra ≡ s.zebra
  pub synt : t.comm.synt ≡ s.comm.synt
  pub finalizing : t.comm.finalizing ≡ s.comm.finalizing
  pub recvs : t.kernel.recvs ≡ s.kernel.recvs

abbrev pub set_unsent : List DpMsg → State → State
set_unsent ms = on_cache λ c. record c { unsent = ms }

pub dp_msg_pop_unsent-eq :
    {l : List DpMsg} (s : State)
    → s.cache.unsent ≡ l
    → dp_msg_pop_unsent s ≡ ((pop_list l).0, set_unsent (pop_list l).1 s)
unfolding dp_msg_pop_unsent
dp_msg_pop_unsent-eq s is = ap (λ l. ((pop_list l).0, set_unsent (pop_list l).1 s)) is

Drained-nil : (e : Env) (s : State) → s.cache.unsent ≡ [] → Drained e s (set_unsent [] s)
Drained-nil e s is = record {
  sent = [];
  fresh = [];
  connects = tt;
  unsent = is;
  in_flight = sym (append-nil _);
  wire = sym (append-nil _);
  allowed = tt;
  pool = λ p. p;
  seqnum = refl;
  zebra = refl;
  synt = refl;
  finalizing = refl;
  recvs = refl;
}

Drained-stop :
    (e : Env) (m : DpMsg) (ms : List DpMsg) (s t : State)
    → s.cache.unsent ≡ m ∷ ms
    → Calm e (set_unsent ms s) t
    → Drained e s (dp_msg_unsent_push_back m t)
unfolding dp_msg_unsent_push_back
Drained-stop e m ms s t is c = record {
  sent = [];
  fresh = c.fresh;
  connects = c.connects;
  unsent = is ∙ sym (ap (◌∷◌ m) c.unsent);
  in_flight = c.in_flight;
  wire = c.wire;
  allowed = tt;
  pool = λ p. c.pool p;
  seqnum = c.seqnum;
  zebra = c.zebra;
  synt = c.synt;
  finalizing = c.finalizing;
  recvs = c.recvs;
}

regroup {ℓ} : {A : Type ℓ} (a b c d : List A) → (a ++ b) ++ (c ++ d) ≡ a ++ ((b ++ c) ++ d)
regroup a b c d = simp append_assoc

Drained-cons :
    (e : Env) (m : DpMsg) (ms : List DpMsg) (s t u v : State)
    → s.cache.unsent ≡ m ∷ ms
    → Took e m.msg (set_unsent ms s) t
    → Settled m t u
    → Drained e u v
    → Drained e s v
Drained-cons e m ms s t u v is a b d = record {
  sent = m ∷ d.sent;
  fresh = d.fresh;
  connects = d.connects;
  unsent = is ∙ ap (◌∷◌ m) (sym u_unsent ∙ d.unsent);
  in_flight =
      d.in_flight
      ∙ ap (λ (l : List DpMsg). l ++ (requests d.sent ++ d.fresh))
          (b.in_flight ∙ ap (λ c. c.in_flight ++ request_of m.msg m) a.cache)
      ∙ regroup s.cache.in_flight (request_of m.msg m) (requests d.sent) d.fresh;
  wire =
      d.wire
      ∙ ap (λ (l : List (List ℕ)). l ++ (datagrams e d.sent ++ datagrams e d.fresh))
          (ap (λ k. k.wire) b.kernel ∙ a.wire)
      ∙ regroup s.kernel.wire (octets (e.encode_msg m.msg)) (datagrams e d.sent)
          (datagrams e d.fresh);
  allowed = (
    a.allowed,
    subst (λ r. All (λ x. (is_connect_request x.msg || r) ≡ true) d.sent)
        (ap (λ c. c.dplane_is_ready) b.comm ∙ a.ready) d.allowed,
  );
  pool = λ p. d.pool (b.pool (subst (All IsFree) (ap (λ c. c.pool) (sym a.cache)) p));
  seqnum = d.seqnum ∙ b.seqnum ∙ a.seqnum;
  zebra = d.zebra ∙ b.zebra ∙ a.zebra;
  synt = d.synt ∙ ap (λ c. c.synt) b.comm ∙ a.synt;
  finalizing = d.finalizing ∙ ap (λ c. c.finalizing) b.comm ∙ a.finalizing;
  recvs = d.recvs ∙ ap (λ k. k.recvs) b.kernel ∙ a.recvs;
}
  where
    u_unsent : u.cache.unsent ≡ ms
    u_unsent = b.unsent ∙ ap (λ c. c.unsent) a.cache

module _ (e : Env) (reconnect : M (Unit {0})) (F G : Type 0) (dbg : e.debug_build ≡ true → G)
    (rec : (s : State) → Post F G (λ _ t. Calm e s t) (reconnect s)) where
  pub attempt-Post :
      (msg : RpcMsg) (s : State) → Post F G (Attempt e msg s) (do_send_rpc_msg e reconnect msg s)
  attempt-Post msg s =
      Post-weaken _ _ (do_send_rpc_msg e reconnect msg s) (λ f. f.1) (λ g. g) (λ r t a. a)
        (do_send-Attempt e reconnect (λ _. F) G rec dbg msg s)

  -- The book-keeping of one message and the rest of the loop, which drains what is left.
  after_attempt-Drained :
      (rest : M (Unit {0})) (m : DpMsg) (ms : List DpMsg) (s : State)
      → s.cache.unsent ≡ m ∷ ms
      → ((u : State) → u.cache.unsent ≡ ms → Post F G (λ _ v. Drained e u v) (rest u))
      → (r : Rc) (t : State) → Attempt e m.msg (set_unsent ms s) r t
      → Post F G (λ _ v. Drained e s v) (after_attempt e reconnect rest m r t)
  unfolding after_attempt
  after_attempt-Drained rest m ms s is more failure t a = Drained-stop e m ms s t is a
  after_attempt-Drained rest m ms s is more success t a =
      Post-bind F G (λ _ u. Settled m t u) (λ _ v. Drained e s v) (settle_sent e m m.msg)
        (λ _. rest) t (settle_sent-Settled e F G dbg m m.msg t refl)
        (λ _ u b.
          Post-weaken _ _ (rest u) (λ f. f) (λ g. g) (λ _ v d. Drained-cons e m ms s t u v is a b d)
            (more u (b.unsent ∙ ap (λ c. c.unsent) a.cache)))

  pub send_rounds-Drained :
      (k : ℕ) (ms : List DpMsg) (s : State)
      → s.cache.unsent ≡ ms
      → length ms < k
      → Post F G (λ _ t. Drained e s t) (send_rounds e reconnect k s)
  unfolding send_rounds send_popped
  send_rounds-Drained zero ms s is h = absurd (omega arith)
  send_rounds-Drained (suc k) [] s is h =
      rw (dp_msg_pop_unsent-eq s is, send_popped) (Drained-nil e s is)
  send_rounds-Drained (suc k) (m ∷ ms) s is h =
      rw (dp_msg_pop_unsent-eq s is, send_popped)
        (Post-bind F G (Attempt e m.msg (set_unsent ms s)) (λ _ t. Drained e s t)
          (do_send_rpc_msg e reconnect m.msg)
          (after_attempt e reconnect (send_rounds e reconnect k) m) (set_unsent ms s)
          (attempt-Post m.msg (set_unsent ms s))
          (after_attempt-Drained (send_rounds e reconnect k) m ms s is
            (λ u e'. send_rounds-Drained k ms u e' (omega arith))))

  pub send_pending-Drained :
      (s : State) → Post F G (λ _ t. Drained e s t) (send_pending_rpc_msgs e reconnect s)
  unfolding send_pending_rpc_msgs
  send_pending-Drained s =
      send_rounds-Drained (suc (dp_msg_unsent_count s)) s.cache.unsent s refl (omega arith)
