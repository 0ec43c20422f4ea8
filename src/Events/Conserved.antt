-- ===== src/Events/Conserved.antt =====
-- Over every run of the event loop, the requests for a context that wait have different numbers.
use dplane_plugin.Base.{ℕ, ◌≤◌, ◌^◌, List, length}
use dplane_plugin.World.Env.{Env}
use dplane_plugin.World.Frr.{Ctx}
use dplane_plugin.World.State.{State}
use dplane_plugin.Invariant.{Inv}
use dplane_plugin.Invariant.Numbers.{AreDistinct, waiting_numbers, waiting-AreDistinct}
use dplane_plugin.Events.{Reach}
use dplane_plugin.Events.Safety.{Reach-Grows}

module _ (e : Env) (n k : ℕ) where
  -- From a state of the invariant, whatever callbacks run, in any order, the requests for a context
  -- that wait, in flight or unsent, all have different numbers, as long as no more than 2 ^ 64 of them
  -- wait. A Connect request has no context and the number 0.
  pub Reach-AreDistinct :
      {s : State} {cs : List Ctx} {t : State}
      → Reach e n k s cs t
      → Inv s
      → length (waiting_numbers t) ≤ 2 ^ 64
      → AreDistinct (waiting_numbers t)
  Reach-AreDistinct {t} run h few = waiting-AreDistinct t (Reach-Grows e n k run h).inv few
