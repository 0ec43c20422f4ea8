-- ===== src/Comm/Send/Settle.antt =====
-- What a message that was sent does to the lists, from src/hh_dp_comm.c and src/hh_dp_msg_cache.c.
use mathlib.Core.Bool.{false≢true}
use dplane_plugin.Base.{
  ◌⊎◌, ◌≡◌, refl, ◌∙◌, sym, ap, [], ◌∷◌, ◌++◌, Option, none, some, true, false, arith, All, is_some,
  append-nil, inl, inr, All-append,
}
use dplane_plugin.Rpc.{RpcMsg, RpcRequest}
use dplane_plugin.World.Env.{Env}
use dplane_plugin.World.State.{State, DpMsg, on_cache}
use dplane_plugin.World.Monad.{abort, Post, Post-weaken, Post-bug, Post-if, Post-bind}
use dplane_plugin.Stats.{rpc_count_request_sent, rpc_count_ctl_tx}
use dplane_plugin.Stats.Frame.{StatsOnly, rpc_count_request_sent-StatsOnly}
use dplane_plugin.Cache.{is_request, dp_msg_recycle, dp_msg_cache_inflight}
use dplane_plugin.Queues.{IsFree, request_of}
use dplane_plugin.Comm.Send.{settle_sent}

-- What `settle_sent` does with a message: a request joins the requests in flight, and any other
-- goes back to the pool.
pub record Settled (m : DpMsg) (s t : State) : Type 0 where
  pub in_flight : t.cache.in_flight ≡ s.cache.in_flight ++ request_of m.msg m
  pub unsent : t.cache.unsent ≡ s.cache.unsent
  pub pool : All IsFree s.cache.pool → All IsFree t.cache.pool
  pub seqnum : t.seqnum ≡ s.seqnum
  pub kernel : t.kernel ≡ s.kernel
  pub zebra : t.zebra ≡ s.zebra
  pub comm : t.comm ≡ s.comm

is_some-eq_false {ℓ} : {A : Type ℓ} (o : Option A) → is_some o ≡ false → o ≡ none
is_some-eq_false none h = refl
is_some-eq_false (some a) h = cc

StatsOnly-Settled :
    {m : DpMsg} {s t : State} → request_of m.msg m ≡ [] → StatsOnly s t → Settled m s t
StatsOnly-Settled {m} {s} {t} nil h = record {
  in_flight =
      ap (λ c. c.in_flight) h.cache
      ∙ sym (ap (◌++◌ s.cache.in_flight) nil ∙ append-nil s.cache.in_flight);
  unsent = ap (λ c. c.unsent) h.cache;
  pool = λ p. rw (ap (λ c. c.pool) h.cache) p;
  seqnum = h.seqnum;
  kernel = h.kernel;
  zebra = h.zebra;
  comm = h.comm;
}

recycled-Settled :
    {m : DpMsg} {s t : State}
    → request_of m.msg m ≡ []
    → m.ctx ≡ none
    → StatsOnly s t
    → Settled m s (on_cache (λ c. record c { pool = c.pool ++ m ∷ [] }) t)
recycled-Settled {m} {s} {t} nil free h = record {
  in_flight = (StatsOnly-Settled {m = m} nil h).in_flight;
  unsent = ap (λ c. c.unsent) h.cache;
  pool = λ p. All-append IsFree t.cache.pool (m ∷ []) (rw (ap (λ c. c.pool) h.cache) p) (free, tt);
  seqnum = h.seqnum;
  kernel = h.kernel;
  zebra = h.zebra;
  comm = h.comm;
}

in_flight-Settled :
    {m : DpMsg} {s t : State}
    → request_of m.msg m ≡ m ∷ []
    → StatsOnly s t
    → Settled m s (on_cache (λ c. record c { in_flight = c.in_flight ++ m ∷ [] }) t)
in_flight-Settled {m} {s} {t} is h = record {
  in_flight = ap (λ c. c.in_flight ++ m ∷ []) h.cache ∙ sym (ap (◌++◌ s.cache.in_flight) is);
  unsent = ap (λ c. c.unsent) h.cache;
  pool = λ p. rw (ap (λ c. c.pool) h.cache) p;
  seqnum = h.seqnum;
  kernel = h.kernel;
  zebra = h.zebra;
  comm = h.comm;
}

module _ (e : Env) (F G : Type 0) (dbg : e.debug_build ≡ true → G) where
  -- A message that is recycled joins the pool, if it holds no context; a release build drops any other.
  pub dp_msg_recycle-Post :
      (m : DpMsg) (s : State)
      → Post F G
          (λ _ t.
            ((e.debug_build ≡ false) × (t ≡ s))
            ⊎ ((m.ctx ≡ none) × (t ≡ on_cache (λ c. record c { pool = c.pool ++ m ∷ [] }) s)))
          (dp_msg_recycle e m s)
  unfolding dp_msg_recycle
  dp_msg_recycle-Post m s =
      Post-if F G _ (is_some m.ctx) _ _ s (λ _. Post-bug F G _ e tt s dbg (λ b. inl (b, refl)))
        (λ free. inr (is_some-eq_false m.ctx free, refl))

  cache_inflight-Settled :
      (m : DpMsg) (r : RpcRequest) (s t : State)
      → m.msg ≡ RpcMsg.request r
      → StatsOnly s t
      → Post F G (λ _ u. Settled m s u) (dp_msg_cache_inflight m t)
  unfolding dp_msg_cache_inflight
  cache_inflight-Settled m r s t is h =
      Post-if F G (λ _ u. Settled m s u) (is_request m.msg) _ abort t
        (λ _. in_flight-Settled (ap (λ x. request_of x m) is) h)
        (λ not_request. absurd (false≢true (sym not_request ∙ ap is_request is)))

  settle_request :
      (m : DpMsg) (r : RpcRequest) (s : State)
      → m.msg ≡ RpcMsg.request r
      → Post F G (λ _ t. Settled m s t) (settle_sent e m (RpcMsg.request r) s)
  unfolding settle_sent
  settle_request m r s is =
      Post-bind F G (λ _ t. StatsOnly s t) (λ _ t. Settled m s t)
        (rpc_count_request_sent e r.op r.object.type) (λ _. dp_msg_cache_inflight m) s
        (rpc_count_request_sent-StatsOnly F G e dbg r.op r.object.type s)
        (λ _ t h. cache_inflight-Settled m r s t is h)

  settle_recycled :
      (m : DpMsg) (s t : State)
      → request_of m.msg m ≡ []
      → StatsOnly s t
      → Post F G (λ _ u. Settled m s u) (dp_msg_recycle e m t)
  settle_recycled m s t nil h =
      Post-weaken _ _ (dp_msg_recycle e m t) (λ f. f) (λ g. g)
        (λ _ u r. elim r [
          | inl (_, same) ↦ rw same (StatsOnly-Settled nil h)
          | inr (free, more) ↦ rw more (recycled-Settled nil free h)
        ])
        (dp_msg_recycle-Post m t)

  pub settle_sent-Settled :
      (m : DpMsg) (msg : RpcMsg) (s : State)
      → m.msg ≡ msg
      → Post F G (λ _ t. Settled m s t) (settle_sent e m msg s)
  unfolding settle_sent rpc_count_ctl_tx
  settle_sent-Settled m (RpcMsg.request r) s is = settle_request m r s is
  settle_sent-Settled m (RpcMsg.control k) s is =
      settle_recycled m s (rpc_count_ctl_tx s) (ap (λ x. request_of x m) is) (ground arith)
  settle_sent-Settled m (RpcMsg.response r) s is =
      settle_recycled m s s (ap (λ x. request_of x m) is) (ground arith)
  settle_sent-Settled m RpcMsg.notification s is =
      settle_recycled m s s (ap (λ x. request_of x m) is) (ground arith)
  settle_sent-Settled m RpcMsg.other s is =
      settle_recycled m s s (ap (λ x. request_of x m) is) (ground arith)
