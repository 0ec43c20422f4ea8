-- ===== src/Msg/Response/Answered.antt =====
-- The response to the first request in flight, from src/hh_dp_msg.c, and one to another request.
use dplane_plugin.Base.{
  suc, is_some, ◌+◌, ◌≡◌, ◌∙◌, sym, ap, subst, List, [], ◌∷◌, ◌++◌, Option, none, some, true, false,
  not, if◌then◌else◌,
}
use dplane_plugin.Rpc.{RpcMsg, RpcOp, RpcRequest, RpcResponse, ResultCode}
use dplane_plugin.World.Env.{Env}
use dplane_plugin.World.Frr.{Ctx, ZebraResult, set_status}
use dplane_plugin.World.State.{State, DpMsg, Cache, Zebra, on_cache}
use dplane_plugin.World.Monad.{
  M, Outcome, returns, aborts, no_fuel, bug, modify, Post, Post-bind, ◌>>=◌, ◌>>◌,
}
use dplane_plugin.Stats.{rpc_count_request_replied}
use dplane_plugin.Stats.Frame.{StatsOnly, rpc_count_request_replied-StatsOnly}
use dplane_plugin.Cache.{dp_msg_recycle, dp_msg_in_flight_count}
use dplane_plugin.Queues.{Carries}
use dplane_plugin.Msg.Response.{
  got_expected_response, match_request, match_popped, recover_request, handle_rpc_response,
  finish_response, do_handle_rpc_response, answer, purge, handle_rpc_ctx_response, zebra_result,
}
use dplane_plugin.Msg.Response.Steps.{
  verdict, zebra_result-verdict, popped, pop-eq, recover-eq, Carries-not_restarted, given,
  ctx_response-eq, goes_on, first_part,
}

-- The context goes back to zebra with the result, the message to the pool, and nothing else changes
-- but the statistics.
pub record Gave (c : Ctx) (r : ZebraResult) (m : DpMsg) (ms : List DpMsg) (s t : State)
    : Type 0 where
  pub cache :
      t.cache
      ≡ record s.cache { in_flight = ms; pool = s.cache.pool ++ record m { ctx = none } ∷ [] }
  pub zebra : t.zebra ≡ record s.zebra {
    out_queue = s.zebra.out_queue ++ set_status c r ∷ [];
    work_ready = s.zebra.work_ready + 1;
  }
  pub comm : t.comm ≡ s.comm
  pub seqnum : t.seqnum ≡ s.seqnum
  pub kernel : t.kernel ≡ s.kernel

module _ (e : Env) (reconnect : M (Unit {0})) (G : Type 0) (dbg : e.debug_build ≡ true → G) where
  -- The handler of a response that has a context, and the recycling after it.
  given-Gave :
      (c : Ctx) (rc : ResultCode) (m : DpMsg) (ms : List DpMsg) (s t : State)
      → m.ctx ≡ some c
      → s.zebra.registered ≡ true
      → StatsOnly (popped ms s) t
      → Post ⊥ G
          (λ _ u. Gave c (zebra_result rc) m ms s u)
          ((handle_rpc_ctx_response e m rc >>= dp_msg_recycle e) t)
  unfolding dp_msg_recycle given
  given-Gave c rc m ms s t is reg only =
      goes_on G (λ _ u. Gave c (zebra_result rc) m ms s u) (handle_rpc_ctx_response e m rc)
        (dp_msg_recycle e) t (record m { ctx = none }) (given c (zebra_result rc) t)
        (ctx_response-eq e c rc m t is (ap (λ z. z.registered) only.zebra ∙ reg))
        (record {
          cache =
              ap (λ (x : Cache). record x { pool = x.pool ++ record m { ctx = none } ∷ [] })
                only.cache;
          zebra =
              ap
                (λ (z : Zebra). record z {
                  out_queue = z.out_queue ++ set_status c (zebra_result rc) ∷ [];
                  work_ready = z.work_ready + 1;
                })
                only.zebra;
          comm = only.comm;
          seqnum = only.seqnum;
          kernel = only.kernel;
        })

  answer-Gave :
      (op : RpcOp) (c : Ctx) (resp : RpcResponse) (m : DpMsg) (ms : List DpMsg) (s t : State)
      → Carries op
      → m.ctx ≡ some c
      → s.zebra.registered ≡ true
      → StatsOnly (popped ms s) t
      → Post ⊥ G
          (λ _ u. Gave c (zebra_result resp.rescode) m ms s u)
          ((answer e reconnect op resp m false >>= dp_msg_recycle e) t)
  unfolding answer
  answer-Gave RpcOp.add c resp m ms s t q is reg only =
      given-Gave c resp.rescode m ms s t is reg only
  answer-Gave RpcOp.del c resp m ms s t q is reg only =
      given-Gave c resp.rescode m ms s t is reg only
  answer-Gave RpcOp.update c resp m ms s t q is reg only =
      given-Gave c resp.rescode m ms s t is reg only
  answer-Gave RpcOp.connect c resp m ms s t q is reg only = elim q [ ]
  answer-Gave (RpcOp.other_op k) c resp m ms s t q is reg only = elim q [ ]

  finish-Gave :
      (c : Ctx) (resp : RpcResponse) (req : RpcRequest) (m : DpMsg) (ms : List DpMsg) (s : State)
      → Carries resp.op
      → m.ctx ≡ some c
      → m.msg ≡ RpcMsg.request req
      → s.zebra.registered ≡ true
      → Post ⊥ G
          (λ _ u. Gave c (zebra_result resp.rescode) m ms s u)
          (finish_response e reconnect resp (some m) (popped ms s))
  unfolding finish_response do_handle_rpc_response
  finish-Gave c resp req m ms s q is msg reg =
      subst
        (λ x.
          Post ⊥ G (λ _ u. Gave c (zebra_result resp.rescode) m ms s u)
            ((do_handle_rpc_response e reconnect resp m x false >>= dp_msg_recycle e)
              (popped ms s)))
        (sym msg)
        (Post-bind ⊥ G (λ m' u. Post ⊥ G P (dp_msg_recycle e m' u)) P
          (rpc_count_request_replied e req.op req.object.type resp.rescode
            >> answer e reconnect resp.op resp m false)
          (dp_msg_recycle e) (popped ms s)
          (Post-bind ⊥ G (λ _ t. StatsOnly (popped ms s) t)
            (λ m' u. Post ⊥ G P (dp_msg_recycle e m' u))
            (rpc_count_request_replied e req.op req.object.type resp.rescode)
            (λ _. answer e reconnect resp.op resp m false) (popped ms s)
            (rpc_count_request_replied-StatsOnly ⊥ G e dbg req.op req.object.type resp.rescode
              (popped ms s))
            (λ _ t only.
              first_part G P (answer e reconnect resp.op resp m false) (dp_msg_recycle e) t
                (answer-Gave resp.op c resp m ms s t q is reg only)))
          (λ m' u h. h))
    where
      P : Unit {0} → State → Type 0
      P _ u = Gave c (zebra_result resp.rescode) m ms s u

  -- A response to an Add, Del or Update that is the first request in flight, while the provider is
  -- registered: its context goes back to zebra, as a success if the dataplane accepted or ignored it and
  -- as a failure otherwise, the message goes to the pool, and nothing else changes but the statistics.
  -- An abort is that of a debug build.
  pub handle_rpc_response-Gave :
      (c : Ctx) (resp : RpcResponse) (req : RpcRequest) (m : DpMsg) (ms : List DpMsg) (s : State)
      → Carries resp.op
      → s.cache.in_flight ≡ m ∷ ms
      → m.ctx ≡ some c
      → m.msg ≡ RpcMsg.request req
      → got_expected_response resp req ≡ true
      → s.zebra.registered ≡ true
      → Post ⊥ G
          (λ _ u. Gave c (verdict resp.rescode) m ms s u)
          (handle_rpc_response e reconnect resp s)
  unfolding handle_rpc_response
  handle_rpc_response-Gave c resp req m ms s q ins is msg ok reg =
      subst (λ r. Post ⊥ G (λ _ u. Gave c r m ms s u) (handle_rpc_response e reconnect resp s))
        (zebra_result-verdict resp.rescode)
        (rw (Carries-not_restarted e resp s q) (
          goes_on G (λ _ u. Gave c (zebra_result resp.rescode) m ms s u) (recover_request e resp)
            (finish_response e reconnect resp) s (some m) (popped ms s)
            (recover-eq e resp req m ms s ins msg ok) (finish-Gave c resp req m ms s q is msg reg)))

module _ (e : Env) (reconnect : M (Unit {0})) where
  -- In a release build, if the first request in flight has a context, a response to an Add, Del or Update
  -- that does not match that request takes it out of the queue and drops it. Its context is then in no
  -- queue, and nothing else changes.
  pub handle_rpc_response-drops :
      (c : Ctx) (resp : RpcResponse) (req : RpcRequest) (m : DpMsg) (ms : List DpMsg) (s : State)
      → e.debug_build ≡ false
      → Carries resp.op
      → s.cache.in_flight ≡ m ∷ ms
      → m.ctx ≡ some c
      → m.msg ≡ RpcMsg.request req
      → got_expected_response resp req ≡ false
      → handle_rpc_response e reconnect resp s
        ≡ returns tt (record s { cache = record s.cache { in_flight = ms } })
  unfolding handle_rpc_response recover_request match_popped match_request dp_msg_recycle
      finish_response
  handle_rpc_response-drops c resp req m ms s release q ins is msg bad =
      path ∙ ap (λ b. after ((if b then aborts else returns tt) (popped ms s))) release
    where
      bind1 : Outcome (Unit {0}) → Outcome (Option DpMsg)
      bind1 o = elim o [ returns a t ↦ returns none t | aborts t ↦ aborts t | no_fuel ↦ no_fuel ]

      bind2 : Outcome (Option DpMsg) → Outcome (Unit {0})
      bind2 o = elim o [
        | returns x t ↦ finish_response e reconnect resp x t
        | aborts t ↦ aborts t
        | no_fuel ↦ no_fuel
      ]

      after : Outcome (Unit {0}) → Outcome (Unit {0})
      after o = bind2 (bind1 o)

      recycle : Option Ctx → M (Unit {0})
      recycle o =
          if is_some o
          then bug e tt
          else modify (on_cache λ x. record x { pool = x.pool ++ m ∷ [] })

      recovered : recover_request e resp s ≡ bind1 (bug e tt (popped ms s))
      recovered =
          ap (λ (r : Option DpMsg × State). match_popped e resp r.0 r.1) (pop-eq s ins)
          ∙ ap (λ x. match_request e resp m x (popped ms s)) msg
          ∙ ap
              (λ b.
                (if not b then (dp_msg_recycle e m >> returns none) else returns (some m))
                  (popped ms s))
              bad
          ∙ ap (λ o. bind1 (recycle o (popped ms s))) is

      path :
          handle_rpc_response e reconnect resp s
          ≡ after ((if e.debug_build then aborts else returns tt) (popped ms s))
      path =
          ap
            (λ b.
              if b
              then purge e reconnect (suc (dp_msg_in_flight_count s)) resp s
              else bind2 (recover_request e resp s))
            (Carries-not_restarted e resp s q)
          ∙ ap bind2 recovered
