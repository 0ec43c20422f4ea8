-- ===== src/Events/Tally.antt =====
-- Over every run of the event loop, the statistics of requests agree with the requests in flight.
use dplane_plugin.Base.{ℕ, ◌<◌, ap, List, sym, subst}
use dplane_plugin.World.Env.{Env}
use dplane_plugin.World.Frr.{Ctx}
use dplane_plugin.World.State.{State}
use dplane_plugin.World.Monad.{Rc, success, failure}
use dplane_plugin.Comm.Still.{Still, dp_unix_connect-Still}
use dplane_plugin.Comm.Socket.{dp_unix_connect}
use dplane_plugin.Comm.Connect.Stays.{Linked, tried}
use dplane_plugin.Stats.Tally.{Tallied, Tallied-refl}
use dplane_plugin.Stats.Tally.Kept.{Tallied-Counts}
use dplane_plugin.Stays.{View, view_of}
use dplane_plugin.Events.{Reach}
use dplane_plugin.Events.Links.{Reach-After}

module _ (e : Env) (ot op : ℕ) (s : View) where
  tried-Tallied :
      (r : Rc) {t u : State}
      → Still t u
      → Tallied e ot op s 0 0 (view_of t)
      → Tallied e ot op s 0 0 (tried r (view_of u))
  tried-Tallied r {t} {u} still h = by_result r (
      subst (Tallied e ot op s 0 0)
        (λ i. record (view_of u) {
          requests = sym still.requests i;
          in_flight = ap (λ c. c.in_flight) (sym still.cache) i;
          recvs = sym still.recvs i;
        })
        (as_view h))
    where
      as_view :
          Tallied e ot op s 0 0 (view_of t)
          → Tallied e ot op s 0 0 (record (view_of u) {
            requests = t.stats.requests;
            in_flight = t.cache.in_flight;
            recvs = t.kernel.recvs;
          })
      as_view h = record { dropped = h.dropped; few = h.few; same = h.same }

      by_result :
          (r : Rc) → Tallied e ot op s 0 0 (view_of u) → Tallied e ot op s 0 0 (tried r (view_of u))
      by_result success h = record { dropped = h.dropped; few = h.few; same = h.same }
      by_result failure h = record { dropped = h.dropped; few = h.few; same = h.same }

  pub Tallied-Linked : Linked e (Tallied e ot op s 0 0) (Tallied e ot op s 0 0)
  Tallied-Linked = record {
    idle = λ k is h. h;
    attempt = λ fd t is h.
        let r = dp_unix_connect e t.comm.dp_sock_path t in
        tried-Tallied r.0 (dp_unix_connect-Still e t.comm.dp_sock_path t) h;
    await = λ k armed h. record { dropped = h.dropped; few = h.few; same = h.same };
    retry = λ k h. record { dropped = h.dropped; few = h.few; same = h.same };
  }

-- Whatever callbacks run, in any order, the statistics of an object type and an operation in their range
-- are, up to the wrap at 2 ^ 64: those sent meanwhile, with those in flight before, are those replied meanwhile, those in
-- flight now, and those dropped, of which there is at most one for each call of `recv`.
pub Reach-Tallied :
    (e : Env) (n k ot op : ℕ) {s : State} {cs : List Ctx} {t : State}
    → op < e.max_rpc_op
    → ot < e.max_obj_type
    → Reach e n k s cs t
    → Tallied e ot op (view_of s) 0 0 (view_of t)
Reach-Tallied e n k ot op {s} op_in ot_in run =
    Reach-After e n k (Tallied-Linked e ot op (view_of s))
      (Tallied-Counts e ot op op_in ot_in (view_of s))
      (λ q h. record { dropped = h.dropped; few = h.few; same = h.same }) run
      (Tallied-refl e ot op (view_of s))
