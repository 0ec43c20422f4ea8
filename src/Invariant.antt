-- ===== src/Invariant.antt =====
-- The invariant of the plugin's state, and what it means for a step to keep it and to lose no context.
pub mod Sending
pub mod Submit
pub mod Answer
pub mod Response
pub mod Purge
pub mod Handle
pub mod Incoming
pub mod Numbers
use dplane_plugin.Base.{ℕ, ◌≡◌, refl, ◌∙◌, List, [], ◌++◌, true, arith, All}
use dplane_plugin.World.State.{State}
use dplane_plugin.Queues.{IsFree, IsQueueable, IsFlying, Consecutive, numbers, in_hand}

-- The provider is registered; the messages of each list are of its kind; and the requests with a context
-- that wait, those in flight before those unsent, carry consecutive numbers that end just before `seqnum`.
pub record Inv (s : State) : Type 0 where
  pub registered : s.zebra.registered ≡ true
  pub pool : All IsFree s.cache.pool
  pub unsent : All IsQueueable s.cache.unsent
  pub in_flight : All IsFlying s.cache.in_flight
  pub first : ℕ
  pub run : Consecutive first (numbers s.cache.in_flight ++ numbers s.cache.unsent) s.seqnum

-- The step keeps the invariant, and every context stays in hand as often as it was.
pub record Keeps (s t : State) : Type 0 where
  pub inv : Inv t
  pub hand : (k : ℕ) → in_hand k t ≡ in_hand k s
  pub finalizing : t.comm.finalizing ≡ s.comm.finalizing
  pub recvs : t.kernel.recvs ≡ s.kernel.recvs

pub Keeps-refl : {s : State} → Inv s → Keeps s s
Keeps-refl h = record { inv = h; hand = λ k. refl; finalizing = refl; recvs = refl }

pub Keeps-trans : {s t u : State} → Keeps s t → Keeps t u → Keeps s u
Keeps-trans h j = record {
  inv = j.inv;
  hand = λ k. j.hand k ∙ h.hand k;
  finalizing = j.finalizing ∙ h.finalizing;
  recvs = j.recvs ∙ h.recvs;
}
