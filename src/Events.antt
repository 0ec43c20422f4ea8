-- ===== src/Events.antt =====
-- The plugin between its start and its end: zebra's event loop runs the callbacks of
-- src/hh_dp_comm.c and src/hh_dp_plugin.c one at a time, in any order, each while it is scheduled.
pub mod Callbacks
pub mod Safety
pub mod Conserved
pub mod Tally
pub mod Links
pub mod Life
use dplane_plugin.Base.{ℕ, ◌≡◌, true, false, List, [], ◌∷◌, ◌++◌}
use dplane_plugin.World.Env.{Env}
use dplane_plugin.World.Frr.{Ctx}
use dplane_plugin.World.State.{State, on_comm, on_zebra}
use dplane_plugin.World.Monad.{M, returns, modify}
use dplane_plugin.Comm.Connect.{dp_connect, dp_send_keepalive}
use dplane_plugin.Comm.Send.{dp_sock_send_cb}
use dplane_plugin.Comm.Recv.{dp_rpc_recv}
use dplane_plugin.Plugin.{zd_hh_process, zd_hh_fini}

-- What the loop may do next: run one of the four callbacks, call the provider's work function, take
-- one more context for it from zebra, or tell the provider that the end begins.
pub data Event : Type 0 where
  connect_timer recv send keepalive work ending : Event
  handed : Ctx → Event

abbrev pub IsScheduled : Event → State → Type 0
IsScheduled Event.connect_timer s = s.comm.ev_connect_timer ≡ true
IsScheduled Event.recv s = s.comm.ev_recv ≡ true
IsScheduled Event.send s = s.comm.ev_send ≡ true
IsScheduled Event.keepalive s = s.comm.ev_keepalive ≡ true
IsScheduled _ s = Unit

-- The loop sets the pointer to an event to NULL before it runs the callback.
abbrev pub unschedule : Event → State → State
unschedule Event.connect_timer = on_comm λ c. record c { ev_connect_timer = false }
unschedule Event.recv = on_comm λ c. record c { ev_recv = false }
unschedule Event.send = on_comm λ c. record c { ev_send = false }
unschedule Event.keepalive = on_comm λ c. record c { ev_keepalive = false }
unschedule _ = λ s. s

abbrev pub hand_in : Ctx → State → State
hand_in ctx = on_zebra λ z. record z { in_queue = z.in_queue ++ ctx ∷ [] }

module _ (e : Env) (n k : ℕ) where
  -- The callback of an event; `n` bounds the connections that it may lose, and `k` the datagrams that
  -- it may receive.
  abbrev pub callback : Event → M (Unit {0})
  callback Event.connect_timer = dp_connect e n
  callback Event.recv = dp_rpc_recv e n k
  callback Event.send = dp_sock_send_cb e (dp_connect e n)
  callback Event.keepalive = dp_send_keepalive e n
  callback Event.work = zd_hh_process e n
  callback Event.ending = modify (zd_hh_fini true)
  callback (Event.handed ctx) = modify (hand_in ctx)

  -- One turn of the loop.
  pub data Step : Event → State → State → Type 0 where
    fire :
        {s t : State} (v : Event)
        → IsScheduled v s
        → callback v (unschedule v s) ≡ returns tt t
        → Step v s t

abbrev pub taken : Event → List Ctx
taken (Event.handed ctx) = ctx ∷ []
taken _ = []

-- The loop has run from `s` to `t`, and zebra has handed in the contexts of the list meanwhile.
pub data Reach (e : Env) (n k : ℕ) (s : State) : List Ctx → State → Type 0 where
  here : Reach e n k s [] s
  next :
      {cs : List Ctx} {t u : State} (v : Event)
      → Reach e n k s cs t
      → Step e n k v t u
      → Reach e n k s (cs ++ taken v) u
