-- ===== src/Invariant/Answer.antt =====
-- Handling what comes from the dataplane keeps the invariant, and gives back the context of each
-- request that is answered.
use dplane_plugin.Base.{
  ℕ, ◌+◌, ◌≡◌, refl, ◌∙◌, sym, ap, subst, List, [], ◌∷◌, ◌++◌, Option, none, some, arith, All,
  All-append, append_assoc,
}
use dplane_plugin.Rpc.{RpcMsg}
use dplane_plugin.World.Frr.{Ctx, ZebraResult, set_status}
use dplane_plugin.World.State.{State, DpMsg, on_cache, on_zebra}
use dplane_plugin.Cache.{dp_msg_pop_inflight, pop_list}
use dplane_plugin.Stats.Frame.{StatsOnly}
use dplane_plugin.Queues.{
  IsFree, IsQueueable, IsFlying, Consecutive, numbers, number, in_hand, held_in, ids_in, ctx_count,
  ids_in-append,
}
use dplane_plugin.Msg.Request.{next_seqn}
use dplane_plugin.Invariant.{Inv, Keeps}

-- Between the state `s` and the state `t` the message `m` was taken out of the lists; what it holds
-- is all that `t` lacks.
pub record Held (m : DpMsg) (s t : State) : Type 0 where
  pub inv : Inv t
  pub hand : (k : ℕ) → in_hand k t + ctx_count k m.ctx ≡ in_hand k s
  pub finalizing : t.comm.finalizing ≡ s.comm.finalizing
  pub recvs : t.kernel.recvs ≡ s.kernel.recvs

pub Held-Keeps : {m : DpMsg} {s t u : State} → Held m s t → Keeps t u → Held m s u
Held-Keeps {m} h j = record {
  inv = j.inv;
  hand = λ k. omega (arith, j.hand k, h.hand k);
  finalizing = j.finalizing ∙ h.finalizing;
  recvs = j.recvs ∙ h.recvs;
}

-- A step that changes neither the lists, nor `seqnum`, nor the provider's queues.
abbrev Aside : State → State → Type 0
Aside s t =
    (t.cache ≡ s.cache)
    × (t.seqnum ≡ s.seqnum)
    × (t.zebra.registered ≡ s.zebra.registered)
    × (t.zebra.in_queue ≡ s.zebra.in_queue)
    × (t.zebra.out_queue ≡ s.zebra.out_queue)
    × (t.comm.finalizing ≡ s.comm.finalizing)
    × (t.kernel.recvs ≡ s.kernel.recvs)

pub Aside-Keeps : {s t : State} → Aside s t → Inv s → Keeps s t
Aside-Keeps {s} {t} (c, q, r, i, o, f, v) h = record {
  inv = record {
    registered = r ∙ h.registered;
    pool = subst (λ x. All IsFree x.pool) (sym c) h.pool;
    unsent = subst (λ x. All IsQueueable x.unsent) (sym c) h.unsent;
    in_flight = subst (λ x. All IsFlying x.in_flight) (sym c) h.in_flight;
    first = h.first;
    run =
        subst (λ x. Consecutive h.first (numbers x.in_flight ++ numbers x.unsent) t.seqnum) (sym c)
          (subst (Consecutive h.first _) (sym q) h.run);
  };
  hand = λ k. omega (
    arith,
    ap (ids_in k) i,
    ap (ids_in k) o,
    ap (λ x. held_in k x.unsent) c,
    ap (λ x. held_in k x.in_flight) c,
  );
  finalizing = f;
  recvs = v;
}

pub StatsOnly-Keeps : {s t : State} → StatsOnly s t → Inv s → Keeps s t
StatsOnly-Keeps h = Aside-Keeps (
  h.cache,
  h.seqnum,
  ap (λ z. z.registered) h.zebra,
  ap (λ z. z.in_queue) h.zebra,
  ap (λ z. z.out_queue) h.zebra,
  ap (λ c. c.finalizing) h.comm,
  ap (λ k. k.recvs) h.kernel,
)

-- The context goes from the message to the end of the provider's queue.
abbrev pub given : Ctx → ZebraResult → State → State
given c r =
    on_zebra λ z. record z {
      out_queue = z.out_queue ++ set_status c r ∷ [];
      work_ready = z.work_ready + 1;
    }

pub given-Held :
    (m : DpMsg) (c : Ctx) (r : ZebraResult) {s t : State}
    → m.ctx ≡ some c
    → Held m s t
    → Held (record m { ctx = none }) s (given c r t)
given-Held m c r {s} {t} is h = record {
  inv = record {
    registered = h.inv.registered;
    pool = h.inv.pool;
    unsent = h.inv.unsent;
    in_flight = h.inv.in_flight;
    first = h.inv.first;
    run = h.inv.run;
  };
  hand = λ k. omega (
    arith,
    h.hand k,
    ap (ctx_count k) is,
    ids_in-append k t.zebra.out_queue (set_status c r ∷ []),
  );
  finalizing = h.finalizing;
  recvs = h.recvs;
}

Consecutive-drop :
    (msg : RpcMsg) (o : Option Ctx) (k j : ℕ) (xs : List ℕ)
    → Consecutive k (number msg o ++ xs) j
    → (i : ℕ) × Consecutive i xs j
Consecutive-drop (RpcMsg.request r) (some c) k j xs h = (next_seqn k, h.1)
Consecutive-drop (RpcMsg.request r) none k j xs h = (k, h)
Consecutive-drop (RpcMsg.response r) o k j xs h = (k, h)
Consecutive-drop (RpcMsg.control r) o k j xs h = (k, h)
Consecutive-drop RpcMsg.notification o k j xs h = (k, h)
Consecutive-drop RpcMsg.other o k j xs h = (k, h)

abbrev pub set_in_flight : List DpMsg → State → State
set_in_flight ms = on_cache λ c. record c { in_flight = ms }

pub dp_msg_pop_inflight-eq :
    {l : List DpMsg} (s : State)
    → s.cache.in_flight ≡ l
    → dp_msg_pop_inflight s ≡ ((pop_list l).0, set_in_flight (pop_list l).1 s)
unfolding dp_msg_pop_inflight
dp_msg_pop_inflight-eq s is = ap (λ l. ((pop_list l).0, set_in_flight (pop_list l).1 s)) is

-- The first request in flight is taken out.
pub popped-Held :
    (m : DpMsg) (ms : List DpMsg) (s : State)
    → s.cache.in_flight ≡ m ∷ ms
    → Inv s
    → Held m s (set_in_flight ms s) × IsFlying m
popped-Held m ms s is h = (
  record {
    inv = record {
      registered = h.registered;
      pool = h.pool;
      unsent = h.unsent;
      in_flight = both.1;
      first = later.0;
      run = later.1;
    };
    hand = λ k. omega (arith, ap (held_in k) is);
    finalizing = refl;
    recvs = refl;
  },
  both.0,
)
  where
    both : All IsFlying (m ∷ ms)
    both = subst (All IsFlying) is h.in_flight

    later : (i : ℕ) × Consecutive i (numbers ms ++ numbers s.cache.unsent) s.seqnum
    later = Consecutive-drop m.msg m.ctx h.first s.seqnum _ (
        subst (λ l. Consecutive h.first l s.seqnum)
          (ap (λ l. numbers l ++ numbers s.cache.unsent) is
            ∙ append_assoc (number m.msg m.ctx) (numbers ms) (numbers s.cache.unsent))
          h.run)

-- A message without a context is recycled.
pub recycled-Held :
    (m : DpMsg) {s t : State}
    → m.ctx ≡ none
    → Held m s t
    → Keeps s (on_cache (λ c. record c { pool = c.pool ++ m ∷ [] }) t)
recycled-Held m {s} {t} free h = record {
  inv = record {
    registered = h.inv.registered;
    pool = All-append IsFree t.cache.pool (m ∷ []) h.inv.pool (free, tt);
    unsent = h.inv.unsent;
    in_flight = h.inv.in_flight;
    first = h.inv.first;
    run = h.inv.run;
  };
  hand = λ k. omega (arith, h.hand k, ap (ctx_count k) free);
  finalizing = h.finalizing;
  recvs = h.recvs;
}
