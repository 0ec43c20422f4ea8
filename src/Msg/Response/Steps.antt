-- ===== src/Msg/Response/Steps.antt =====
-- The steps that the handling of a response is made of, one by one.
use dplane_plugin.Base.{
  ◌+◌, ◌≡◌, refl, ◌∙◌, sym, ap, subst, List, [], ◌∷◌, ◌++◌, Option, none, some, Bool, true, false,
  not, ◌&&◌, if◌then◌else◌,
}
use dplane_plugin.Rpc.{RpcMsg, RpcOp, RpcRequest, RpcResponse, ResultCode, is_connect}
use dplane_plugin.World.Env.{Env}
use dplane_plugin.World.Frr.{Ctx, ZebraResult, request_success, request_failure, set_status}
use dplane_plugin.World.State.{State, DpMsg, on_cache, on_zebra}
use dplane_plugin.World.Monad.{
  bind-returns, M, Outcome, returns, aborts, no_fuel, bug, Post, ◌>>=◌, ◌>>◌,
}
use dplane_plugin.Cache.{dp_msg_recycle, dp_msg_pop_inflight, pop_list}
use dplane_plugin.Queues.{Carries}
use dplane_plugin.Msg.Response.{
  got_expected_response, match_request, match_popped, recover_request, dataplane_restarted,
  restarted_by, handle_rpc_ctx_response, answer_ctx, dp_msg_hand_off, hand_off_ctx, zebra_result,
}

-- What zebra is to be told: only a request that was neither accepted nor ignored has failed.
abbrev pub verdict : ResultCode → ZebraResult
verdict (ResultCode.other_code k) = request_failure
verdict _ = request_success

pub zebra_result-verdict : (rc : ResultCode) → zebra_result rc ≡ verdict rc
zebra_result-verdict ResultCode.ok = refl
zebra_result-verdict ResultCode.ignored = refl
zebra_result-verdict (ResultCode.other_code k) = refl

abbrev pub popped : List DpMsg → State → State
popped ms = on_cache λ c. record c { in_flight = ms }

pub pop-eq :
    {l : List DpMsg} (s : State)
    → s.cache.in_flight ≡ l
    → dp_msg_pop_inflight s ≡ ((pop_list l).0, popped (pop_list l).1 s)
unfolding dp_msg_pop_inflight
pop-eq s is = ap (λ l. ((pop_list l).0, popped (pop_list l).1 s)) is

pub recover-eq :
    (e : Env) (resp : RpcResponse) (req : RpcRequest) (m : DpMsg) (ms : List DpMsg) (s : State)
    → s.cache.in_flight ≡ m ∷ ms
    → m.msg ≡ RpcMsg.request req
    → got_expected_response resp req ≡ true
    → recover_request e resp s ≡ returns (some m) (popped ms s)
unfolding recover_request match_popped match_request
recover-eq e resp req m ms s is msg ok =
    ap (λ (r : Option DpMsg × State). match_popped e resp r.0 r.1) (pop-eq s is)
    ∙ ap (λ x. match_request e resp m x (popped ms s)) msg
    ∙ ap
        (λ b.
          (if not b then (dp_msg_recycle e m >> returns none) else returns (some m)) (popped ms s))
        ok

pub Carries-not_restarted :
    (e : Env) (resp : RpcResponse) (s : State)
    → Carries resp.op
    → dataplane_restarted e resp s ≡ false
unfolding dataplane_restarted
Carries-not_restarted e resp s h = by_op resp.op (restarted_by e s.comm.synt resp.objects) h
  where
    by_op : (op : RpcOp) (b : Bool) → Carries op → (is_connect op && b) ≡ false
    by_op RpcOp.connect b h = elim h [ ]
    by_op RpcOp.add b h = refl
    by_op RpcOp.del b h = refl
    by_op RpcOp.update b h = refl
    by_op (RpcOp.other_op k) b h = elim h [ ]

-- The provider's queue and its signal.
unfoldable pub given : Ctx → ZebraResult → State → State
given c r =
    on_zebra λ z. record z {
      out_queue = z.out_queue ++ set_status c r ∷ [];
      work_ready = z.work_ready + 1;
    }

pub ctx_response-eq :
    (e : Env) (c : Ctx) (rc : ResultCode) (m : DpMsg) (t : State)
    → m.ctx ≡ some c
    → t.zebra.registered ≡ true
    → handle_rpc_ctx_response e m rc t
      ≡ returns (record m { ctx = none }) (given c (zebra_result rc) t)
unfolding handle_rpc_ctx_response answer_ctx dp_msg_hand_off hand_off_ctx given
ctx_response-eq e c rc m t is reg =
    ap (λ b. if not b then bug e m t else answer_ctx e m m.ctx rc t) reg
    ∙ ap (λ o. answer_ctx e m o rc t) is
    ∙ ap (λ o. hand_off_ctx m o (zebra_result rc) t) is

module _ {A B : Type 0} (G : Type 0) (P : B → State → Type 0) where
  pub goes_on :
      (m : M A) (f : A → M B) (s : State) (a : A) (t : State)
      → m s ≡ returns a t
      → Post ⊥ G P (f a t)
      → Post ⊥ G P ((m >>= f) s)
  goes_on m f s a t is h = subst (Post ⊥ G P) (sym (bind-returns m f s a t is)) h

  -- What the first part of a sequence leaves for the second to do.
  pub first_part :
      (m : M A) (f : A → M B) (s : State)
      → Post ⊥ G P ((m >>= f) s)
      → Post ⊥ G (λ a t. Post ⊥ G P (f a t)) (m s)
  first_part m f s h = split (m s) h
    where
      split :
          (o : Outcome A)
          → Post ⊥ G P (elim o [ returns b u ↦ f b u | aborts u ↦ aborts u | no_fuel ↦ no_fuel ])
          → Post ⊥ G (λ a t. Post ⊥ G P (f a t)) o
      split (returns a t) h = h
      split (aborts t) h = h
      split no_fuel h = h
