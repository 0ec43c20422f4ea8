-- ===== src/Invariant/Sending.antt =====
-- Sending keeps the invariant and every context.
use dplane_plugin.Base.{
  ℕ, ◌≡◌, ◌∙◌, sym, ap, subst, [], ◌++◌, arith, All, All-append, append-nil, append_assoc,
}
use dplane_plugin.World.Env.{Env}
use dplane_plugin.World.State.{State}
use dplane_plugin.Queues.{
  IsQueueable, IsFlying, Consecutive, numbers, in_hand, held_in, ids_in, requests, held_in-append,
  numbers-append, held_in-requests, numbers-requests, requests-IsFlying, held_in-connects,
  numbers-connects, connects-IsFlying, All-append_left, All-append_right,
}
use dplane_plugin.Comm.Still.{Still}
use dplane_plugin.Comm.Send.Calm.{Calm, Still-Calm}
use dplane_plugin.Comm.Send.Drain.{Drained}
use dplane_plugin.Invariant.{Inv, Keeps}

-- The numbers that wait are the same before and after a run over the queue.
waiting_numbers :
    (e : Env) {s t : State} (d : Drained e s t)
    → All IsQueueable d.sent
    → numbers s.cache.in_flight ++ numbers s.cache.unsent
      ≡ numbers t.cache.in_flight ++ numbers t.cache.unsent
waiting_numbers e {s} {t} d q = sym (
    ap (λ l. numbers l ++ numbers t.cache.unsent) d.in_flight
    ∙ simp
        (
          numbers-append,
          numbers-requests d.sent q,
          numbers-connects d.fresh d.connects,
          append-nil,
          append_assoc,
        )
        (ap (◌++◌ (numbers s.cache.in_flight))
          (sym (ap numbers d.unsent ∙ numbers-append d.sent t.cache.unsent))))

Drained-Inv : (e : Env) {s t : State} → Drained e s t → Inv s → Inv t
Drained-Inv e {s} {t} d h = record {
  registered = ap (λ z. z.registered) d.zebra ∙ h.registered;
  pool = d.pool h.pool;
  unsent = All-append_right IsQueueable d.sent t.cache.unsent both;
  in_flight = subst (All IsFlying) (sym d.in_flight) (
      All-append IsFlying s.cache.in_flight (requests d.sent ++ d.fresh) h.in_flight (
        All-append IsFlying (requests d.sent) d.fresh (requests-IsFlying d.sent gone)
          (connects-IsFlying d.fresh d.connects)));
  first = h.first;
  run =
      subst (λ l. Consecutive h.first l t.seqnum) (waiting_numbers e d gone)
        (subst (Consecutive h.first _) (sym d.seqnum) h.run);
}
  where
    both : All IsQueueable (d.sent ++ t.cache.unsent)
    both = subst (All IsQueueable) d.unsent h.unsent

    gone : All IsQueueable d.sent
    gone = All-append_left IsQueueable d.sent t.cache.unsent both

Drained-hand :
    (e : Env) {s t : State} (d : Drained e s t) (k : ℕ)
    → All IsQueueable d.sent
    → in_hand k t ≡ in_hand k s
Drained-hand e {s} {t} d k q = omega (
  arith,
  ap (λ z. ids_in k z.in_queue) d.zebra,
  ap (λ z. ids_in k z.out_queue) d.zebra,
  ap (held_in k) d.unsent,
  ap (held_in k) d.in_flight,
  held_in-append k s.cache.in_flight (requests d.sent ++ d.fresh),
  held_in-append k (requests d.sent) d.fresh,
  held_in-append k d.sent t.cache.unsent,
  held_in-requests k d.sent q,
  held_in-connects k d.fresh d.connects,
)

-- A run over the queue.
pub Drained-Keeps : (e : Env) {s t : State} → Drained e s t → Inv s → Keeps s t
Drained-Keeps e {s} {t} d h = record {
  inv = Drained-Inv e d h;
  hand = λ k. Drained-hand e d k (
      All-append_left IsQueueable d.sent t.cache.unsent
        (subst (All IsQueueable) d.unsent h.unsent));
  finalizing = d.finalizing;
  recvs = d.recvs;
}

-- An attempt to connect is such a run that sends nothing from the queue.
Calm-Drained : (e : Env) {s t : State} → Calm e s t → Drained e s t
Calm-Drained e c = record {
  sent = [];
  fresh = c.fresh;
  connects = c.connects;
  unsent = sym c.unsent;
  in_flight = c.in_flight;
  wire = c.wire;
  allowed = tt;
  pool = c.pool;
  seqnum = c.seqnum;
  zebra = c.zebra;
  synt = c.synt;
  finalizing = c.finalizing;
  recvs = c.recvs;
}

pub Calm-Keeps : (e : Env) {s t : State} → Calm e s t → Inv s → Keeps s t
Calm-Keeps e c = Drained-Keeps e (Calm-Drained e c)

pub Still-Keeps : (e : Env) {s t : State} → Still s t → Inv s → Keeps s t
Still-Keeps e h = Calm-Keeps e (Still-Calm e h)
