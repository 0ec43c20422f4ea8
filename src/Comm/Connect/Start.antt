-- ===== src/Comm/Connect/Start.antt =====
-- Starting the RPC, from src/hh_dp_comm.c: the invariant holds at first, and a failure leaves neither
-- a socket nor the buffer for formatting.
use dplane_plugin.Base.{
  ℕ, zero, suc, ◌≡◌, refl, ◌∙◌, sym, ap, subst, replicate, All, true, false, none, not, is_some,
  inl, inr, Bool-cases, ◌&&◌,
}
use dplane_plugin.World.Env.{Env}
use dplane_plugin.World.State.{State, DpMsg, Cache, on_comm}
use dplane_plugin.World.Monad.{
  Rc, success, failure, pure, Post, Post-weaken, Post-bind, Post-ite, ◌>>◌,
}
use dplane_plugin.Cache.{zeroed_msg, init_dp_msg_cache, fini_dp_msg_cache}
use dplane_plugin.Cache.Pool.{init_dp_msg_cache-replicate}
use dplane_plugin.Queues.{IsFree}
use dplane_plugin.Comm.Socket.{dp_unix_sock_open}
use dplane_plugin.Comm.Socket.Descriptors.{dp_unix_sock_close-none}
use dplane_plugin.Comm.Still.{dp_unix_sock_open-Still, dp_unix_sock_close-Still}
use dplane_plugin.Comm.Send.Calm.{Calm}
use dplane_plugin.Comm.Connect.{
  dp_connect, dp_send_keepalive, fini_dplane_rpc, init_rpc_buffers, fail_init, start_rpc,
  after_buffers, init_dplane_rpc,
}
use dplane_plugin.Events.Callbacks.{dp_send_keepalive-Keeps}
use dplane_plugin.Invariant.{Inv, Keeps}
use dplane_plugin.Invariant.Sending.{Calm-Keeps}

-- What the start yields: the invariant, or nothing left to release.
abbrev pub Started : Rc → State → Type 0
Started success t = Inv t
Started failure t = (t.comm.dp_sock ≡ none) × (t.comm.fb ≡ false)

replicate-All : (P : DpMsg → Type 0) (m : DpMsg) (n : ℕ) → P m → All P (replicate n m)
replicate-All P m zero h = tt
replicate-All P m (suc n) h = (h, replicate-All P m n h)

init_dp_msg_cache-Inv : (s : State) → s.zebra.registered ≡ true → Inv (init_dp_msg_cache s)
unfolding init_dp_msg_cache
init_dp_msg_cache-Inv s reg =
    let is = init_dp_msg_cache-replicate s in
    record {
      registered = reg;
      pool =
          subst (λ (c : Cache). All IsFree c.pool) (sym is)
            (replicate-All IsFree zeroed_msg 1000 refl);
      unsent = tt;
      in_flight = tt;
      first = s.seqnum;
      run = refl;
    }

fini_dplane_rpc-registered : (s : State) → (fini_dplane_rpc s).zebra.registered ≡ s.zebra.registered
unfolding fini_dplane_rpc fini_dp_msg_cache
fini_dplane_rpc-registered s = ap (λ z. z.registered) (dp_unix_sock_close-Still s).zebra

init_rpc_buffers-registered :
    (e : Env) (s : State) → (init_rpc_buffers e s).1.zebra.registered ≡ s.zebra.registered
unfolding init_rpc_buffers
init_rpc_buffers-registered e s = elim (Bool-cases (e.tx_buff_ok && e.rx_buff_ok)) [
  | inl b ↦ rw b refl
  | inr b ↦ rw b (fini_dplane_rpc-registered _)
]

module _ (e : Env) (n : ℕ) (F G : Type 0) (dbg : e.debug_build ≡ true → G)
    (rec : (s : State) → Post F G (λ _ t. Calm e s t) (dp_connect e n s)) where
  fail_init-Started : (s : State) → Post F G Started (fail_init s)
  unfolding fail_init
  fail_init-Started s = (dp_unix_sock_close-none s, refl)

  start_rpc-Started : (s : State) → s.zebra.registered ≡ true → Post F G Started (start_rpc e n s)
  unfolding start_rpc
  start_rpc-Started s reg =
      let h = init_dp_msg_cache-Inv s reg in
      Post-bind F G (λ _ t. Keeps (init_dp_msg_cache s) t) Started (dp_connect e n)
        (λ _. dp_send_keepalive e n >> pure success) (init_dp_msg_cache s)
        (Post-weaken _ _ (dp_connect e n (init_dp_msg_cache s)) (λ f. f) (λ g. g)
          (λ _ t c. Calm-Keeps e c h) (rec (init_dp_msg_cache s)))
        (λ _ t k.
          Post-bind F G (λ _ u. Keeps t u) Started (dp_send_keepalive e n) (λ _. pure success) t
            (dp_send_keepalive-Keeps e n F G dbg rec t k.inv) (λ _ u j. j.inv))

  after_buffers-Started :
      (r : Rc) (s : State) → s.zebra.registered ≡ true → Post F G Started (after_buffers e n r s)
  unfolding after_buffers
  after_buffers-Started failure s reg = fail_init-Started s
  after_buffers-Started success s reg = start_rpc-Started s reg

  -- The start ends in the invariant, or in a failure that leaves no socket and no buffer for
  -- formatting.
  pub init_dplane_rpc-Started :
      (s : State)
      → s.zebra.registered ≡ true
      → s.comm.dp_sock ≡ none
      → s.comm.fb ≡ false
      → Post F G Started (init_dplane_rpc e n s)
  unfolding init_dplane_rpc
  init_dplane_rpc-Started s reg sock fb =
      let t = on_comm (λ c. record c { fb = true }) s in
      let o = dp_unix_sock_open e t.comm.plugin_sock_path t in
      let v = on_comm (λ c. record c { dp_sock = o.0 }) o.1 in
      Post-ite F G Started (not e.fmt_buff_ok) _ _ (λ _. (sock, fb))
        (λ _.
          Post-ite F G Started (not (is_some o.0)) (fail_init v)
            (after_buffers e n (init_rpc_buffers e v).0 (init_rpc_buffers e v).1)
            (λ _. fail_init-Started v)
            (λ _. after_buffers-Started (init_rpc_buffers e v).0 (init_rpc_buffers e v).1 (
              init_rpc_buffers-registered e v
              ∙ ap (λ z. z.registered) (dp_unix_sock_open-Still e t.comm.plugin_sock_path t).zebra
              ∙ reg)))
