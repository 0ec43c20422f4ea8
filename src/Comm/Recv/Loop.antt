-- ===== src/Comm/Recv/Loop.antt =====
-- The read callback of src/hh_dp_comm.c: what a run of `dp_rpc_recv` keeps, and when it ends.
use native.Mathlib.Numerals.{add-one}
use dplane_plugin.Base.{
  ℕ, zero, suc, ◌≤◌, All, ◌++◌, ◌≡◌, refl, ◌∙◌, sym, ap, subst, List, Option, none, some, arith,
  true, length, ◌==◌, inl, inr, ◌⊎◌,
}
use dplane_plugin.Rpc.{RpcMsg}
use dplane_plugin.World.Env.{Env, RecvResult}
use dplane_plugin.World.State.{State}
use dplane_plugin.World.Monad.{M, pure, Post, Post-weaken, Post-bind, Post-if}
use dplane_plugin.Stats.{
  rpc_count_rx, rpc_count_rx_failure, rpc_count_rx_eagain, rpc_count_decode_failure,
}
use dplane_plugin.Comm.Send.Calm.{Calm}
use dplane_plugin.Comm.Connect.{dp_connect, add_recv}
use dplane_plugin.Comm.Recv.{
  sock_recv, after_recv, handle_received, handle_decoded, recv_rounds, dp_rpc_recv,
  count_recv_error,
}
use dplane_plugin.Msg.Response.{handle_rpc_msg}
use dplane_plugin.Queues.{
  IsFree, IsQueueable, IsFlying, Consecutive, numbers, in_hand, held_in, ids_in,
}
use dplane_plugin.Invariant.{Inv, Keeps}
use dplane_plugin.Invariant.Answer.{Aside-Keeps}
use dplane_plugin.Invariant.Handle.{Fate, Sound, sure}
use dplane_plugin.Invariant.Incoming.{IsMatched, IsRefusalMsg, handle_rpc_msg-Fate}

-- A datagram after which the loop goes on.
abbrev pub Decodes : Env → RecvResult → RpcMsg → Type 0
Decodes e (RecvResult.recv_error err) msg = ⊥
Decodes e (RecvResult.received bytes) msg = e.decode_msg bytes ≡ some msg

-- From the r-th call of `recv` on, k datagrams in a row decode.
abbrev pub Flood : Env → ℕ → ℕ → Type 0
Flood e zero r = Unit
Flood e (suc k) r = ((msg : RpcMsg) × Decodes e (e.recv_result r) msg) × Flood e k (suc r)

-- A Connect was refused by some datagram.
abbrev pub Refused : Env → Type 0
Refused e = (r : ℕ) × (msg : RpcMsg) × Decodes e (e.recv_result r) msg × IsRefusalMsg msg

-- What the call of `recv` does to the state: it is counted, and the queues are left alone.
record Read (e : Env) (s : State) (got : Option (List ℕ)) (t : State) : Type 0 where
  cache : t.cache ≡ s.cache
  seqnum : t.seqnum ≡ s.seqnum
  zebra : t.zebra ≡ s.zebra
  finalizing : t.comm.finalizing ≡ s.comm.finalizing
  recvs : t.kernel.recvs ≡ suc s.kernel.recvs
  result :
      (bytes : List ℕ) → got ≡ some bytes → e.recv_result s.kernel.recvs ≡ RecvResult.received bytes

sock_recv-Read : (e : Env) (s : State) → Read e s (sock_recv e s).0 (sock_recv e s).1
unfolding sock_recv after_recv count_recv_error rpc_count_rx rpc_count_rx_failure
    rpc_count_rx_eagain
sock_recv-Read e s = ground (arith, add-one s.kernel.recvs)

-- A run of the callback: the invariant stays, no context is in hand more often than it was, and in a
-- debug build none less often.
pub record Runs (e : Env) (s t : State) : Type 0 where
  pub inv : Inv t
  pub exact : e.debug_build ≡ true → (k : ℕ) → in_hand k t ≡ in_hand k s
  pub hand : (k : ℕ) → in_hand k t ≤ in_hand k s
  pub finalizing : t.comm.finalizing ≡ s.comm.finalizing

Runs-trans : {e : Env} {s t u : State} → Runs e s t → Runs e t u → Runs e s u
Runs-trans h j = record {
  inv = j.inv;
  exact = λ d k. j.exact d k ∙ h.exact d k;
  hand = λ k. omega (arith, h.hand k, j.hand k);
  finalizing = j.finalizing ∙ h.finalizing;
}

Fate-Runs : (e : Env) {E : Type 0} {s t : State} → Fate (Sound e E) s t → Runs e s t
Fate-Runs e h = record {
  inv = h.1.inv;
  exact = λ d k. (h.0 (inl d)).hand k;
  hand = h.1.hand;
  finalizing = h.1.finalizing;
}

Keeps-Runs : (e : Env) {s t : State} → Keeps s t → Runs e s t
Keeps-Runs e h = Fate-Runs e {E = Unit {0}} (sure h)

Read-in_hand :
    (e : Env) {s t : State} (got : Option (List ℕ))
    → Read e s got t
    → (k : ℕ) → in_hand k t ≡ in_hand k s
Read-in_hand e got r k = omega (
  arith,
  ap (λ z. ids_in k z.in_queue) r.zebra,
  ap (λ z. ids_in k z.out_queue) r.zebra,
  ap (λ x. held_in k x.unsent) r.cache,
  ap (λ x. held_in k x.in_flight) r.cache,
)

Read-Runs : (e : Env) {s t : State} (got : Option (List ℕ)) → Read e s got t → Inv s → Runs e s t
Read-Runs e {s} {t} got r h = record {
  inv = record {
    registered = ap (λ z. z.registered) r.zebra ∙ h.registered;
    pool = subst (λ x. All IsFree x.pool) (sym r.cache) h.pool;
    unsent = subst (λ x. All IsQueueable x.unsent) (sym r.cache) h.unsent;
    in_flight = subst (λ x. All IsFlying x.in_flight) (sym r.cache) h.in_flight;
    first = h.first;
    run =
        subst (λ x. Consecutive h.first (numbers x.in_flight ++ numbers x.unsent) t.seqnum)
          (sym r.cache) (subst (Consecutive h.first _) (sym r.seqnum) h.run);
  };
  exact = λ _. Read-in_hand e got r;
  hand = λ k. omega (arith, Read-in_hand e got r k);
  finalizing = r.finalizing;
}

module _ (e : Env) (n : ℕ) (F G : Type 0) (dbg : e.debug_build ≡ true → G) (ref : Refused e → G)
    (rec : (s : State) → Post F G (λ _ t. Calm e s t) (dp_connect e n s)) where
  -- The rest of the loop from a state that follows.
  abbrev Continues : ℕ → M (Unit {0}) → Type 0
  Continues k rest =
      (t : State) → Inv t → Post (F ⊎ Flood e k t.kernel.recvs) G (λ _ u. Runs e t u) (rest t)

  decoded-Runs :
      (k : ℕ) (rest : M (Unit {0})) (bytes : List ℕ) (o : Option RpcMsg) (r : ℕ) (t : State)
      → e.recv_result r ≡ RecvResult.received bytes
      → e.decode_msg bytes ≡ o
      → t.kernel.recvs ≡ suc r
      → Continues k rest
      → Inv t
      → Post (F ⊎ Flood e (suc k) r) G (λ _ u. Runs e t u) (handle_decoded e n rest o t)
  unfolding handle_decoded rpc_count_decode_failure
  decoded-Runs k rest bytes none r t got is next c h =
      Keeps-Runs e (Aside-Keeps (refl, refl, refl, refl, refl, refl, refl) h)
  decoded-Runs k rest bytes (some msg) r t got is next c h =
      Post-bind _ G (λ _ u. Fate (Sound e (IsMatched e msg t)) t u) (λ _ u. Runs e t u)
        (handle_rpc_msg e (dp_connect e n) msg) (λ _. rest) t
        (Post-weaken _ _ (handle_rpc_msg e (dp_connect e n) msg t) inl (λ g. g) (λ _ u f. f)
          (handle_rpc_msg-Fate e (dp_connect e n) F G dbg rec msg t
            (λ bad. ref (r, msg, decodes, bad)) h))
        (λ _ u l.
          Post-weaken _ _ (rest u)
            (λ o. elim o [
              | inl f ↦ inl f
              | inr flood ↦ inr ((msg, decodes), subst (Flood e k) (l.1.recvs ∙ next) flood)
            ])
            (λ g. g) (λ _ v j. Runs-trans (Fate-Runs e l) j) (c u l.1.inv))
    where
      decodes : Decodes e (e.recv_result r) msg
      decodes = subst (λ x. Decodes e x msg) (sym got) is

  received-Runs :
      (k : ℕ) (rest : M (Unit {0})) (o : Option (List ℕ)) (s t : State)
      → Read e s o t
      → Continues k rest
      → Inv s
      → Post
          (F ⊎ Flood e (suc k) s.kernel.recvs)
          G
          (λ _ u. Runs e s u)
          (handle_received e n rest o t)
  unfolding handle_received
  received-Runs k rest none s t r c h = Read-Runs e none r h
  received-Runs k rest (some bytes) s t r c h =
      let j = Read-Runs e (some bytes) r h in
      Post-if _ G (λ _ u. Runs e s u) (length bytes == 0) (pure tt) _ t (λ _. j)
        (λ _.
          Post-weaken _ _ (handle_decoded e n rest (e.decode_msg bytes) t) (λ f. f) (λ g. g)
            (λ _ u i. Runs-trans j i)
            (decoded-Runs k rest bytes (e.decode_msg bytes) s.kernel.recvs t (r.result bytes refl)
              refl r.recvs c j.inv))

  recv_rounds-Runs : (k : ℕ) → Continues k (recv_rounds e n k)
  unfolding recv_rounds
  recv_rounds-Runs zero s h = inr tt
  recv_rounds-Runs (suc k) s h =
      received-Runs k (recv_rounds e n k) (sock_recv e s).0 s (sock_recv e s).1 (sock_recv-Read e s)
        (recv_rounds-Runs k) h

  -- The callback runs out of its `k` rounds only if `k` datagrams in a row decode.
  pub dp_rpc_recv-Runs :
      (k : ℕ) (s : State)
      → Inv s
      → Post (F ⊎ Flood e k s.kernel.recvs) G (λ _ t. Runs e s t) (dp_rpc_recv e n k s)
  unfolding dp_rpc_recv
  dp_rpc_recv-Runs k s h =
      let j = Aside-Keeps {s = s} {t = add_recv s} (refl, refl, refl, refl, refl, refl, refl) h in
      Post-weaken _ _ (recv_rounds e n k (add_recv s)) (λ f. f) (λ g. g)
        (λ _ u i. Runs-trans (Keeps-Runs e j) i) (recv_rounds-Runs k (add_recv s) j.inv)
