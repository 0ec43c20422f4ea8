-- ===== src/Events/Links.antt =====
-- The socket over every run of the event loop: no descriptor is lost, the connection is tried again,
-- and a plugin that has lost its socket never gets another.
use dplane_plugin.Base.{ℕ, ◌≡◌, refl, subst, List, none, false}
use dplane_plugin.World.Env.{Env}
use dplane_plugin.World.Frr.{Ctx}
use dplane_plugin.World.State.{State, DpMsg}
use dplane_plugin.Comm.Socket.Descriptors.{NoLeak}
use dplane_plugin.Comm.Send.Stays.{dp_sock_send_cb-Stays}
use dplane_plugin.Comm.Connect.{dp_connect}
use dplane_plugin.Comm.Connect.Stays.{Linked, dp_connect-Ends, lost-Stays, dp_send_keepalive-Stays}
use dplane_plugin.Comm.Connect.Links.{
  Retries, Tidy-Linked, Tidy-Counts, Retries-Counts, Stranded-Counts, Retries-Linked,
  Stranded-Linked,
}
use dplane_plugin.Comm.Recv.Stays.{dp_rpc_recv-Stays}
use dplane_plugin.Plugin.{zd_hh_fini}
use dplane_plugin.Plugin.Stays.{zd_hh_process-Stays}
use dplane_plugin.Events.{Event, callback, unschedule, Step, fire, Reach, here, next}
use dplane_plugin.Stays.Counts.{Counts}
use dplane_plugin.Stays.{View, view_of, Ends}

module _ (e : Env) (n k : ℕ) {Before After : View → Type 0} (link : Linked e Before After)
    {Q : View → Type 0} {Out Gone : DpMsg → View → Type 0} (counts : Counts e After Q Out Gone)
    (fires : (q : View) → After q → Before (record q { timer = false })) where
  -- An event's callback, from where its event is no longer scheduled.
  callback-Ends :
      (v : Event) (s : State) → After (view_of s) → Ends After (callback e n k v (unschedule v s))
  callback-Ends Event.connect_timer s h =
      dp_connect-Ends e link counts.books n (unschedule Event.connect_timer s) (fires (view_of s) h)
  callback-Ends Event.recv s h =
      (dp_rpc_recv-Stays e n counts (lost-Stays e link counts.books n) k).at
        (unschedule Event.recv s) h
  callback-Ends Event.send s h =
      (dp_sock_send_cb-Stays e (dp_connect e n) counts.books (lost-Stays e link counts.books n)).at
        (unschedule Event.send s) h
  callback-Ends Event.keepalive s h =
      (dp_send_keepalive-Stays e link counts.books n).at (unschedule Event.keepalive s) h
  callback-Ends Event.work s h =
      (zd_hh_process-Stays e n counts.books (lost-Stays e link counts.books n)).at s h
  callback-Ends Event.ending s h = unfold zd_hh_fini in h
  callback-Ends (Event.handed c) s h = h

  Step-After : {v : Event} {s t : State} → Step e n k v s t → After (view_of s) → After (view_of t)
  Step-After {s} (fire v on ends) h = subst (Ends After) ends (callback-Ends v s h)

  pub Reach-After :
      {s : State} {cs : List Ctx} {t : State}
      → Reach e n k s cs t
      → After (view_of s)
      → After (view_of t)
  Reach-After here h = h
  Reach-After (next v r step) h = Step-After step (Reach-After r h)

module _ (e : Env) (n k : ℕ) where
  -- If at first each descriptor was closed as often as it was opened, but the one in use, which was
  -- opened once more, then so it is whatever callbacks run, in any order.
  pub Reach-NoLeak :
      {s : State} {cs : List Ctx} {t : State} → Reach e n k s cs t → NoLeak e s → NoLeak e t
  Reach-NoLeak = Reach-After e n k (Tidy-Linked e) (Tidy-Counts e) (λ q h. h)

  -- If at first there is no socket, or the socket is connected, or the timer for the next attempt to
  -- connect runs, then so it is between the callbacks, whatever callbacks run, in any order.
  pub Reach-Retries :
      {s : State} {cs : List Ctx} {t : State}
      → Reach e n k s cs t
      → Retries (view_of s)
      → Retries (view_of t)
  Reach-Retries = Reach-After e n k (Retries-Linked e) (Retries-Counts e) (λ q h. tt)

  -- A plugin without a socket never opens another: whatever callbacks run, there is still none, and no
  -- descriptor was opened, closed, bound or connected.
  pub Reach-Stranded :
      {s : State} {cs : List Ctx} {t : State}
      → Reach e n k s cs t
      → s.comm.dp_sock ≡ none
      → (t.comm.dp_sock ≡ none)
        × (t.kernel.opens ≡ s.kernel.opens)
        × (t.kernel.calls ≡ s.kernel.calls)
  Reach-Stranded {s} r none_left =
      Reach-After e n k (Stranded-Linked e s.kernel.opens s.kernel.calls)
        (Stranded-Counts e s.kernel.opens s.kernel.calls) (λ q h. h) r (none_left, refl, refl)
