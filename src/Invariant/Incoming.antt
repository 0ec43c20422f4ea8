-- ===== src/Invariant/Incoming.antt =====
-- One message from the dataplane, from src/hh_dp_msg.c: what its handling keeps, and what it loses.
use mathlib.Core.Bool.{false≢true}
use dplane_plugin.Base.{
  ℕ, suc, ◌≡◌, refl, ◌∙◌, sym, Option, none, some, arith, Bool, true, false, not, inl, inr, ◌⊎◌,
  ◌&&◌, ◌==◌, if◌then◌else◌,
}
use dplane_plugin.Rpc.{RpcMsg, RpcResponse, is_connect}
use dplane_plugin.World.Env.{Env}
use dplane_plugin.World.State.{State, DpMsg}
use dplane_plugin.World.Monad.{
  M, pure, modify, Post, Post-weaken, Post-bind, Post-if, Post-ite, ◌>>=◌, ◌>>◌,
}
use dplane_plugin.Cache.{dp_msg_recycle, dp_msg_in_flight_count}
use dplane_plugin.Stats.{rpc_count_ctl_rx}
use dplane_plugin.Comm.Send.Calm.{Calm}
use dplane_plugin.Msg.Request.{send_rpc_control}
use dplane_plugin.Msg.Response.{
  recover_request, do_handle_rpc_response, finish_response, purge, dataplane_restarted,
  handle_rpc_response, handle_rpc_control, handle_rpc_msg, is_ok, set_refreshed,
}
use dplane_plugin.Invariant.{Inv, Keeps, Keeps-refl, Keeps-trans}
use dplane_plugin.Invariant.Submit.{send_rpc_control-Keeps}
use dplane_plugin.Invariant.Answer.{Aside-Keeps}
use dplane_plugin.Invariant.Response.{Answered, do_handle-Answered, recycle-Keeps}
use dplane_plugin.Invariant.Purge.{purge-Keeps}
use dplane_plugin.Invariant.Handle.{Fate, Sound, sure, Answers, Recovered, recover-Recovered}

-- Either the dataplane has restarted, or the response is to the first request in flight.
abbrev pub Matched : Env → RpcResponse → State → Type 0
Matched e resp s = (dataplane_restarted e resp s ≡ true) ⊎ Answers resp s.cache.in_flight

abbrev pub IsMatched : Env → RpcMsg → State → Type 0
IsMatched e (RpcMsg.response resp) s = Matched e resp s
IsMatched e _ s = Unit

-- A Connect that the dataplane refuses.
abbrev pub IsRefusal : RpcResponse → Type 0
IsRefusal resp = (is_connect resp.op ≡ true) × (is_ok resp.rescode ≡ false)

abbrev pub IsRefusalMsg : RpcMsg → Type 0
IsRefusalMsg (RpcMsg.response resp) = IsRefusal resp
IsRefusalMsg _ = ⊥

-- What a control message may ask for.
abbrev refresh : Env → M (Unit {0}) → M (Unit {0})
refresh e reconnect = modify set_refreshed >> (send_rpc_control e reconnect 1 >>= λ _. pure tt)

and_left : (a b : Bool) → (a && b) ≡ true → a ≡ true
and_left true b h = refl
and_left false b h = h

restarted-is_connect :
    (e : Env) (resp : RpcResponse) (s : State)
    → dataplane_restarted e resp s ≡ true
    → is_connect resp.op ≡ true
unfolding dataplane_restarted
restarted-is_connect e resp s h = and_left (is_connect resp.op) _ h

module _ (e : Env) (reconnect : M (Unit {0})) (F G : Type 0) (dbg : e.debug_build ≡ true → G)
    (rec : (s : State) → Post F G (λ _ t. Calm e s t) (reconnect s)) where
  finish-Fate :
      (resp : RpcResponse) (o : Option DpMsg) (s t : State)
      → (IsRefusal resp → G)
      → Recovered e resp s o t
      → Post F G
          (λ _ u. Fate (Sound e (Answers resp s.cache.in_flight)) s u)
          (finish_response e reconnect resp o t)
  unfolding finish_response
  finish-Fate resp none s t ref h = h
  finish-Fate resp (some m) s t ref (h, fly, same) =
      Post-bind F G (λ m' u. Answered s m' u) _
        (do_handle_rpc_response e reconnect resp m m.msg false) (dp_msg_recycle e) t
        (do_handle-Answered e reconnect F G dbg rec resp m m.msg false s t refl fly same
          (λ c n. ref (c, n)) h)
        (λ m' u a.
          Post-weaken _ _ (dp_msg_recycle e m' u) (λ f. f) (λ g. g) (λ _ v k. sure k)
            (recycle-Keeps e F G dbg m' s u a))

  answered-Fate :
      (resp : RpcResponse) (s : State)
      → (IsRefusal resp → G)
      → Inv s
      → Post F G
          (λ _ t. Fate (Sound e (Answers resp s.cache.in_flight)) s t)
          ((recover_request e resp >>= finish_response e reconnect resp) s)
  answered-Fate resp s ref h =
      Post-bind F G (Recovered e resp s) _ (recover_request e resp)
        (finish_response e reconnect resp) s
        (recover-Recovered e F G dbg resp s.cache.in_flight s refl h)
        (λ o t r. finish-Fate resp o s t ref r)

  handle_rpc_response-Fate :
      (resp : RpcResponse) (s : State)
      → (IsRefusal resp → G)
      → Inv s
      → Post F G
          (λ _ t. Fate (Sound e (Matched e resp s)) s t)
          (handle_rpc_response e reconnect resp s)
  unfolding handle_rpc_response
  handle_rpc_response-Fate resp s ref h =
      Post-ite F G _ (dataplane_restarted e resp s) _ _
        (λ again.
          let conn = restarted-is_connect e resp s again in
          Post-weaken _ _ (purge e reconnect (suc (dp_msg_in_flight_count s)) resp s) (λ f. f)
            (λ g. g) (λ _ t k. sure k.0)
            (purge-Keeps e reconnect F G dbg rec (suc (dp_msg_in_flight_count s)) resp
              s.cache.in_flight s refl (omega arith) conn (λ n. ref (conn, n)) h))
        (λ same.
          Post-weaken _ _ ((recover_request e resp >>= finish_response e reconnect resp) s) (λ f. f)
            (λ g. g)
            (λ _ t k. (
              λ m. elim m [
                | inl d ↦ k.0 (inl d)
                | inr (inl bad) ↦ absurd (false≢true (sym same ∙ bad))
                | inr (inr a) ↦ k.0 (inr a)
              ],
              k.1,
            ))
            (answered-Fate resp s ref h))

  refresh-Keeps : (s : State) → Inv s → Post F G (λ _ t. Keeps s t) (refresh e reconnect s)
  refresh-Keeps s h =
      let j =
        Aside-Keeps {s = s} {t = set_refreshed s} (refl, refl, refl, refl, refl, refl, refl) h in
      Post-bind F G (λ _ t. Keeps (set_refreshed s) t) (λ _ t. Keeps s t)
        (send_rpc_control e reconnect 1) (λ _. pure tt) (set_refreshed s)
        (send_rpc_control-Keeps e reconnect F G dbg rec 1 (set_refreshed s) j.inv)
        (λ _ t k. Keeps-trans j k)

  handle_rpc_control-Keeps :
      (r : ℕ) (s : State) → Inv s → Post F G (λ _ t. Keeps s t) (handle_rpc_control e reconnect r s)
  unfolding handle_rpc_control rpc_count_ctl_rx
  handle_rpc_control-Keeps r s h =
      Post-bind F G (λ _ t. Keeps s t) (λ _ t. Keeps s t)
        (if not (r == 0) then refresh e reconnect else pure tt) (λ _. modify rpc_count_ctl_rx) s
        (Post-if F G (λ _ t. Keeps s t) (not (r == 0)) (refresh e reconnect) (pure tt) s
          (λ _. refresh-Keeps s h) (λ _. Keeps-refl h))
        (λ _ t k. Keeps-trans k (Aside-Keeps (refl, refl, refl, refl, refl, refl, refl) k.inv))

  pub handle_rpc_msg-Fate :
      (msg : RpcMsg) (s : State)
      → (IsRefusalMsg msg → G)
      → Inv s
      → Post F G (λ _ t. Fate (Sound e (IsMatched e msg s)) s t) (handle_rpc_msg e reconnect msg s)
  unfolding handle_rpc_msg
  handle_rpc_msg-Fate (RpcMsg.response resp) s ref h = handle_rpc_response-Fate resp s ref h
  handle_rpc_msg-Fate (RpcMsg.control r) s ref h =
      Post-weaken _ _ (handle_rpc_control e reconnect r s) (λ f. f) (λ g. g) (λ _ t k. sure k)
        (handle_rpc_control-Keeps r s h)
  handle_rpc_msg-Fate (RpcMsg.request r) s ref h = sure (Keeps-refl h)
  handle_rpc_msg-Fate RpcMsg.notification s ref h = sure (Keeps-refl h)
  handle_rpc_msg-Fate RpcMsg.other s ref h = sure (Keeps-refl h)
