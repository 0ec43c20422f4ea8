-- ===== src/Invariant/Handle.antt =====
-- The entry points for messages from the dataplane.
use mathlib.Core.Bool.{false≢true}
use dplane_plugin.Base.{
  ◌⊎◌, ℕ, ◌≤◌, ◌≡◌, refl, ◌∙◌, sym, ap, subst, List, [], ◌∷◌, Option, none, some, arith, Bool, true,
  false, not, inl, inr, ◌&&◌, ◌==◌,
}
use dplane_plugin.Rpc.{RpcMsg, RpcOp, RpcRequest, RpcResponse, op_eq}
use dplane_plugin.World.Env.{Env}
use dplane_plugin.World.State.{State, DpMsg}
use dplane_plugin.World.Monad.{pure, Post, Post-weaken, Post-bind, Post-if, ◌>>◌}
use dplane_plugin.Cache.{dp_msg_recycle}
use dplane_plugin.Queues.{IsFlying, Flying, in_hand}
use dplane_plugin.Comm.Send.Settle.{dp_msg_recycle-Post}
use dplane_plugin.Msg.Response.{got_expected_response, match_request, match_popped, recover_request}
use dplane_plugin.Invariant.{Inv, Keeps}
use dplane_plugin.Invariant.Answer.{
  Held, Aside-Keeps, recycled-Held, set_in_flight, dp_msg_pop_inflight-eq, popped-Held,
}
use dplane_plugin.Invariant.Purge.{op_of}

-- The step keeps the invariant, and no context is in hand more often than it was.
pub record Loses (s t : State) : Type 0 where
  pub inv : Inv t
  pub hand : (k : ℕ) → in_hand k t ≤ in_hand k s
  pub finalizing : t.comm.finalizing ≡ s.comm.finalizing
  pub recvs : t.kernel.recvs ≡ s.kernel.recvs

pub Keeps-Loses : {s t : State} → Keeps s t → Loses s t
Keeps-Loses h = record {
  inv = h.inv;
  hand = λ k. omega (arith, h.hand k);
  finalizing = h.finalizing;
  recvs = h.recvs;
}

pub Loses-trans : {s t u : State} → Loses s t → Loses t u → Loses s u
Loses-trans h j = record {
  inv = j.inv;
  hand = λ k. omega (arith, h.hand k, j.hand k);
  finalizing = j.finalizing ∙ h.finalizing;
  recvs = j.recvs ∙ h.recvs;
}

-- The step keeps every context if `E` holds, and takes none twice in any case.
abbrev pub Fate : Type 0 → State → State → Type 0
Fate E s t = (E → Keeps s t) × Loses s t

pub sure : {E : Type 0} {s t : State} → Keeps s t → Fate E s t
sure k = (λ _. k, Keeps-Loses k)

-- The build aborts at what the code calls a bug, or `E` holds.
abbrev pub Sound : Env → Type 0 → Type 0
Sound e E = (e.debug_build ≡ true) ⊎ E

-- A response that answers the first request in flight, if there is one.
abbrev pub AnswersMsg : RpcResponse → RpcMsg → Type 0
AnswersMsg resp (RpcMsg.request req) = got_expected_response resp req ≡ true
AnswersMsg resp _ = ⊥

abbrev pub Answers : RpcResponse → List DpMsg → Type 0
Answers resp [] = Unit
Answers resp (m ∷ ms) = AnswersMsg resp m.msg

op_eq-eq : (a b : RpcOp) → op_eq a b ≡ true → a ≡ b
op_eq-eq a b h = ground arith

same_op :
    (resp : RpcResponse) (req : RpcRequest)
    → got_expected_response resp req ≡ true
    → resp.op ≡ req.op
unfolding got_expected_response
same_op resp req h = op_eq-eq resp.op req.op (and_right (resp.seqn == req.seqn) _ h)
  where
    and_right : (a b : Bool) → (a && b) ≡ true → b ≡ true
    and_right true b h = h
    and_right false b h = cc

dropped-Loses : {m : DpMsg} {s t : State} → Held m s t → Loses s t
dropped-Loses h = record {
  inv = h.inv;
  hand = λ k. omega (arith, h.hand k);
  finalizing = h.finalizing;
  recvs = h.recvs;
}

-- What `recover_request` yields.
abbrev pub Recovered : Env → RpcResponse → State → Option DpMsg → State → Type 0
Recovered e resp s none t = Fate (Sound e (Answers resp s.cache.in_flight)) s t
Recovered e resp s (some m) t =
    Held m s t × IsFlying m × ((req : RpcRequest) → m.msg ≡ RpcMsg.request req → resp.op ≡ req.op)

is_true : (b : Bool) → not b ≡ false → b ≡ true
is_true b h = ground arith

is_false : (b : Bool) → not b ≡ true → b ≡ true → ⊥
is_false b h j = ground arith

-- A response that is not the expected one does not answer the first request in flight.
wrong :
    (resp : RpcResponse) (m : DpMsg) (ms : List DpMsg) (req : RpcRequest) (l : List DpMsg)
    → l ≡ m ∷ ms
    → m.msg ≡ RpcMsg.request req
    → not (got_expected_response resp req) ≡ true
    → Answers resp l
    → ⊥
wrong resp m ms req l ins is bad a =
    is_false (got_expected_response resp req) bad
      (subst (AnswersMsg resp) is (subst (Answers resp) ins a))

module _ (e : Env) (F G : Type 0) (dbg : e.debug_build ≡ true → G) where
  recycle-Dropped :
      (resp : RpcResponse) (m : DpMsg) (ms : List DpMsg) (req : RpcRequest) (s t : State)
      → s.cache.in_flight ≡ m ∷ ms
      → m.msg ≡ RpcMsg.request req
      → not (got_expected_response resp req) ≡ true
      → Held m s t
      → Post F G (Recovered e resp s) ((dp_msg_recycle e m >> pure none) t)
  recycle-Dropped resp m ms req s t ins is bad h =
      Post-bind F G (λ _ u. Fate (e.debug_build ≡ true) s u) (Recovered e resp s)
        (dp_msg_recycle e m) (λ _. pure none) t
        (Post-weaken _ _ (dp_msg_recycle e m t) (λ f. f) (λ g. g)
          (λ _ u r. elim r [
            | inl (rel, same) ↦ (
              λ d. absurd (false≢true (sym rel ∙ d)),
              subst (Loses s) (sym same) (dropped-Loses h),
            )
            | inr (free, more) ↦ sure (subst (Keeps s) (sym more) (recycled-Held m free h))
          ])
          (dp_msg_recycle-Post e F G dbg m t))
        (λ _ u l. (
          λ a. elim a [
            | inl d ↦ l.0 d
            | inr ans ↦ absurd (wrong resp m ms req s.cache.in_flight ins is bad ans)
          ],
          l.1,
        ))

  match-Recovered :
      (resp : RpcResponse) (m : DpMsg) (ms : List DpMsg) (msg : RpcMsg) (s t : State)
      → s.cache.in_flight ≡ m ∷ ms
      → m.msg ≡ msg
      → IsFlying m
      → Held m s t
      → Post F G (Recovered e resp s) (match_request e resp m msg t)
  unfolding match_request
  match-Recovered resp m ms (RpcMsg.request req) s t ins is fly h =
      Post-if F G (Recovered e resp s) (not (got_expected_response resp req))
        (dp_msg_recycle e m >> pure none) (pure (some m)) t
        (λ bad. recycle-Dropped resp m ms req s t ins is bad h)
        (λ ok. (h, fly, λ req' is'. same_op resp req (is_true _ ok) ∙ ap op_of (sym is ∙ is')))
  match-Recovered resp m ms (RpcMsg.response r) s t ins is fly h =
      absurd (subst (λ x. Flying x m.ctx) is fly)
  match-Recovered resp m ms (RpcMsg.control r) s t ins is fly h =
      absurd (subst (λ x. Flying x m.ctx) is fly)
  match-Recovered resp m ms RpcMsg.notification s t ins is fly h =
      absurd (subst (λ x. Flying x m.ctx) is fly)
  match-Recovered resp m ms RpcMsg.other s t ins is fly h =
      absurd (subst (λ x. Flying x m.ctx) is fly)

  pub recover-Recovered :
      (resp : RpcResponse) (ms : List DpMsg) (s : State)
      → s.cache.in_flight ≡ ms
      → Inv s
      → Post F G (Recovered e resp s) (recover_request e resp s)
  unfolding recover_request match_popped
  recover-Recovered resp [] s is h =
      rw (dp_msg_pop_inflight-eq s is, match_popped)
        (sure (
          Aside-Keeps
            (
              ap (λ l. record s.cache { in_flight = l }) (sym is),
              refl,
              refl,
              refl,
              refl,
              refl,
              refl,
            )
            h))
  recover-Recovered resp (m ∷ ms) s is h =
      let (held, fly) = popped-Held m ms s is h in
      rw (dp_msg_pop_inflight-eq s is, match_popped)
        (match-Recovered resp m ms m.msg s (set_in_flight ms s) is refl fly held)
