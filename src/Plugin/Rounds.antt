-- ===== src/Plugin/Rounds.antt =====
-- The work callback of src/hh_dp_plugin.c: each context that it dequeues is queued for the dataplane
-- or given back, once.
use dplane_plugin.Base.{ℕ, zero, suc, ◌≡◌, refl, sym, ap, List, [], ◌∷◌, arith, true, if◌then◌else◌}
use dplane_plugin.World.Env.{Env}
use dplane_plugin.World.Frr.{Ctx, request_failure}
use dplane_plugin.World.State.{State, on_zebra}
use dplane_plugin.World.Monad.{M, returns, Post, Post-weaken, Post-bind, Post-ite}
use dplane_plugin.Queues.{ids_in}
use dplane_plugin.Comm.Send.Calm.{Calm}
use dplane_plugin.Comm.Connect.{dp_connect}
use dplane_plugin.Process.Placed.{zd_hh_process_update-Adds, give_back-Adds}
use dplane_plugin.Plugin.{
  process_ctx, process_rounds, process_next, dequeue_in_ctx, zd_hh_process, pop_ctx, signal_work,
}
use dplane_plugin.Invariant.{Inv, Keeps, Keeps-refl, Keeps-trans}
use dplane_plugin.Invariant.Submit.{Adds}
use dplane_plugin.Invariant.Answer.{Aside-Keeps}

abbrev set_in_queue : List Ctx → State → State
set_in_queue cs = on_zebra λ z. record z { in_queue = cs }

dequeue_in_ctx-eq :
    {l : List Ctx} (s : State)
    → s.zebra.in_queue ≡ l
    → dequeue_in_ctx s ≡ ((pop_ctx l).0, set_in_queue (pop_ctx l).1 s)
unfolding dequeue_in_ctx
dequeue_in_ctx-eq s is = ap (λ l. ((pop_ctx l).0, set_in_queue (pop_ctx l).1 s)) is

set_in_queue-Inv : (cs : List Ctx) (s : State) → Inv s → Inv (set_in_queue cs s)
set_in_queue-Inv cs s h = record {
  registered = h.registered;
  pool = h.pool;
  unsent = h.unsent;
  in_flight = h.in_flight;
  first = h.first;
  run = h.run;
}

-- A context that was dequeued and put somewhere again.
placed-Keeps :
    (c : Ctx) (cs : List Ctx) {s t : State}
    → s.zebra.in_queue ≡ c ∷ cs
    → Adds c (set_in_queue cs s) t
    → Keeps s t
placed-Keeps c cs is a = record {
  inv = a.inv;
  hand = λ k. omega (arith, a.hand k, ap (ids_in k) is);
  finalizing = a.finalizing;
  recvs = a.recvs;
}

-- What `zd_hh_process` does after its loop.
abbrev signal_end : M (Unit {0})
signal_end s = if s.comm.finalizing then returns tt (signal_work s) else returns tt s

module _ (e : Env) (n : ℕ) (F G : Type 0) (dbg : e.debug_build ≡ true → G)
    (rec : (s : State) → Post F G (λ _ t. Calm e s t) (dp_connect e n s)) where
  signal_end-Keeps : {s t : State} → Keeps s t → Post F G (λ _ u. Keeps s u) (signal_end t)
  signal_end-Keeps {s} {t} k =
      Post-ite F G (λ _ u. Keeps s u) t.comm.finalizing _ _
        (λ _. Keeps-trans k (Aside-Keeps (refl, refl, refl, refl, refl, refl, refl) k.inv)) (λ _. k)

  process_ctx-Adds :
      (c : Ctx) (s : State) → Inv s → Post F G (λ _ t. Adds c s t) (process_ctx e n c s)
  unfolding process_ctx
  process_ctx-Adds c s h =
      Post-ite F G (λ _ t. Adds c s t) s.comm.finalizing _ _
        (λ _. give_back-Adds c request_failure (Keeps-refl h))
        (λ _. zd_hh_process_update-Adds e (dp_connect e n) F G dbg rec c s h)

  process_rounds-Keeps :
      (k : ℕ) (cs : List Ctx) (s : State)
      → s.zebra.in_queue ≡ cs
      → Inv s
      → Post F G (λ _ t. Keeps s t) (process_rounds e n k s)
  unfolding process_rounds process_next
  process_rounds-Keeps zero cs s is h = Keeps-refl h
  process_rounds-Keeps (suc k) [] s is h =
      rw (dequeue_in_ctx-eq s is, process_next)
        (Aside-Keeps (refl, refl, refl, sym is, refl, refl, refl) h)
  process_rounds-Keeps (suc k) (c ∷ cs) s is h =
      rw (dequeue_in_ctx-eq s is, process_next)
        (Post-bind F G (λ _ t. Keeps s t) (λ _ t. Keeps s t) (process_ctx e n c)
          (λ _. process_rounds e n k) (set_in_queue cs s)
          (Post-weaken _ _ (process_ctx e n c (set_in_queue cs s)) (λ f. f) (λ g. g)
            (λ _ t a. placed-Keeps c cs is a)
            (process_ctx-Adds c (set_in_queue cs s) (set_in_queue-Inv cs s h)))
          (λ _ t j.
            Post-weaken _ _ (process_rounds e n k t) (λ f. f) (λ g. g) (λ _ u i. Keeps-trans j i)
              (process_rounds-Keeps k t.zebra.in_queue t refl j.inv)))

  pub zd_hh_process-Keeps : (s : State) → Inv s → Post F G (λ _ t. Keeps s t) (zd_hh_process e n s)
  unfolding zd_hh_process
  zd_hh_process-Keeps s h =
      Post-bind F G (λ _ t. Keeps s t) (λ _ t. Keeps s t) (process_rounds e n e.work_limit)
        (λ _. signal_end) s (process_rounds-Keeps e.work_limit s.zebra.in_queue s refl h)
        (λ _ t k. signal_end-Keeps k)
