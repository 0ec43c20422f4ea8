-- ===== src/Events/Safety.antt =====
-- The invariant holds throughout, and no context is multiplied.
use dplane_plugin.Base.{ℕ, ◌+◌, ◌≤◌, ◌≡◌, refl, subst, arith, true, List, [], ◌∷◌}
use dplane_plugin.World.Env.{Env}
use dplane_plugin.World.Frr.{Ctx}
use dplane_plugin.World.State.{State}
use dplane_plugin.World.Monad.{Post, Post-weaken}
use dplane_plugin.Queues.{in_hand, ids_in, ids_in-append}
use dplane_plugin.Comm.Send.Calm.{Calm}
use dplane_plugin.Comm.Connect.{dp_connect, dp_send_keepalive}
use dplane_plugin.Comm.Send.{dp_sock_send_cb}
use dplane_plugin.Comm.Recv.{dp_rpc_recv}
use dplane_plugin.Comm.Connect.Calm.{dp_connect-Calm}
use dplane_plugin.Comm.Recv.Loop.{Runs, dp_rpc_recv-Runs}
use dplane_plugin.Plugin.{zd_hh_fini, zd_hh_process}
use dplane_plugin.Plugin.Rounds.{zd_hh_process-Keeps}
use dplane_plugin.Invariant.{Inv, Keeps, Keeps-refl}
use dplane_plugin.Invariant.Sending.{Calm-Keeps}
use dplane_plugin.Invariant.Answer.{Aside-Keeps}
use dplane_plugin.Events.{
  Event, callback, unschedule, hand_in, taken, Step, fire, Reach, here, next,
}
use dplane_plugin.Events.Callbacks.{dp_sock_send_cb-Keeps, dp_send_keepalive-Keeps}

-- The step keeps the invariant, and each context is in hand at most as often as it was and was handed
-- in meanwhile, and in a debug build exactly as often.
pub record Grows (e : Env) (cs : List Ctx) (s t : State) : Type 0 where
  pub inv : Inv t
  pub exact : e.debug_build ≡ true → (i : ℕ) → in_hand i t ≡ in_hand i s + ids_in i cs
  pub hand : (i : ℕ) → in_hand i t ≤ in_hand i s + ids_in i cs

Keeps-Grows : (e : Env) {s t : State} → Keeps s t → Grows e [] s t
Keeps-Grows e k = record {
  inv = k.inv;
  exact = λ _ i. omega (arith, k.hand i);
  hand = λ i. omega (arith, k.hand i);
}

Runs-Grows : (e : Env) {s t : State} → Runs e s t → Grows e [] s t
Runs-Grows e r = record {
  inv = r.inv;
  exact = λ d i. omega (arith, r.exact d i);
  hand = λ i. omega (arith, r.hand i);
}

Keeps-after :
    (e : Env) {s t : State} (cs : List Ctx) (u : State)
    → Keeps s t
    → Grows e cs t u
    → Grows e cs s u
Keeps-after e cs u k g = record {
  inv = g.inv;
  exact = λ d i. omega (arith, k.hand i, g.exact d i);
  hand = λ i. omega (arith, k.hand i, g.hand i);
}

unschedule-Keeps : (v : Event) (s : State) → Inv s → Keeps s (unschedule v s)
unschedule-Keeps Event.connect_timer s h = Aside-Keeps (refl, refl, refl, refl, refl, refl, refl) h
unschedule-Keeps Event.recv s h = Aside-Keeps (refl, refl, refl, refl, refl, refl, refl) h
unschedule-Keeps Event.send s h = Aside-Keeps (refl, refl, refl, refl, refl, refl, refl) h
unschedule-Keeps Event.keepalive s h = Aside-Keeps (refl, refl, refl, refl, refl, refl, refl) h
unschedule-Keeps Event.work s h = Keeps-refl h
unschedule-Keeps Event.ending s h = Keeps-refl h
unschedule-Keeps (Event.handed ctx) s h = Keeps-refl h

hand_in-Grows : (e : Env) (c : Ctx) (s : State) → Inv s → Grows e (c ∷ []) s (hand_in c s)
hand_in-Grows e c s h = record {
  inv = record {
    registered = h.registered;
    pool = h.pool;
    unsent = h.unsent;
    in_flight = h.in_flight;
    first = h.first;
    run = h.run;
  };
  exact = λ _ i. omega (arith, ids_in-append i s.zebra.in_queue (c ∷ []));
  hand = λ i. omega (arith, ids_in-append i s.zebra.in_queue (c ∷ []));
}

ending-Grows : (e : Env) (s : State) → Inv s → Grows e [] s (zd_hh_fini true s)
unfolding zd_hh_fini
ending-Grows e s h = record {
  inv = record {
    registered = h.registered;
    pool = h.pool;
    unsent = h.unsent;
    in_flight = h.in_flight;
    first = h.first;
    run = h.run;
  };
  exact = λ _ i. omega arith;
  hand = λ i. omega arith;
}

module _ (e : Env) (n k : ℕ) where
  calm : (s : State) → Post (Unit {0}) (Unit {0}) (λ _ t. Calm e s t) (dp_connect e n s)
  calm s =
      Post-weaken _ _ (dp_connect e n s) (λ _. tt) (λ g. g) (λ _ t c. c)
        (dp_connect-Calm e (Unit {0}) (λ _. tt) n s)

  callback-Grows :
      (v : Event) (s : State)
      → Inv s
      → Post (Unit {0}) (Unit {0}) (λ _ t. Grows e (taken v) s t) (callback e n k v s)
  callback-Grows Event.connect_timer s h =
      Post-weaken _ _ (dp_connect e n s) (λ f. f) (λ g. g)
        (λ _ t c. Keeps-Grows e (Calm-Keeps e c h)) (calm s)
  callback-Grows Event.recv s h =
      Post-weaken _ _ (dp_rpc_recv e n k s) (λ _. tt) (λ g. g) (λ _ t r. Runs-Grows e r)
        (dp_rpc_recv-Runs e n (Unit {0}) (Unit {0}) (λ _. tt) (λ _. tt) calm k s h)
  callback-Grows Event.send s h =
      Post-weaken _ _ (dp_sock_send_cb e (dp_connect e n) s) (λ f. f) (λ g. g)
        (λ _ t c. Keeps-Grows e c)
        (dp_sock_send_cb-Keeps e n (Unit {0}) (Unit {0}) (λ _. tt) calm s h)
  callback-Grows Event.keepalive s h =
      Post-weaken _ _ (dp_send_keepalive e n s) (λ f. f) (λ g. g) (λ _ t c. Keeps-Grows e c)
        (dp_send_keepalive-Keeps e n (Unit {0}) (Unit {0}) (λ _. tt) calm s h)
  callback-Grows Event.work s h =
      Post-weaken _ _ (zd_hh_process e n s) (λ f. f) (λ g. g) (λ _ t c. Keeps-Grows e c)
        (zd_hh_process-Keeps e n (Unit {0}) (Unit {0}) (λ _. tt) calm s h)
  callback-Grows Event.ending s h = ending-Grows e s h
  callback-Grows (Event.handed c) s h = hand_in-Grows e c s h

  Step-Grows : {v : Event} {s t : State} → Step e n k v s t → Inv s → Grows e (taken v) s t
  Step-Grows {s} {t} (fire v on ends) h =
      let j = unschedule-Keeps v s h in
      Keeps-after e (taken v) t j (
        subst (Post (Unit {0}) (Unit {0}) (λ _ u. Grows e (taken v) (unschedule v s) u)) ends
          (callback-Grows v (unschedule v s) j.inv))

  -- From a state of the invariant, in whatever order the loop runs the callbacks, the invariant holds, and
  -- zebra's queues and the plugin hold each context between them at most as often as they did at first
  -- and zebra handed it in since, and in a debug build exactly as often.
  pub Reach-Grows :
      {s : State} {cs : List Ctx} {t : State} → Reach e n k s cs t → Inv s → Grows e cs s t
  Reach-Grows here h = Keeps-Grows e (Keeps-refl h)
  Reach-Grows {cs} (next v r step) h =
      let g = Reach-Grows r h in
      let j = Step-Grows step g.inv in
      record {
        inv = j.inv;
        exact = λ d i. omega (arith, g.exact d i, j.exact d i, ids_in-append i _ (taken v));
        hand = λ i. omega (arith, g.hand i, j.hand i, ids_in-append i _ (taken v));
      }
