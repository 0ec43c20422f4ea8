-- ===== src/Invariant/Numbers.antt =====
-- The numbers of the requests that wait, from `seqnum` of src/hh_dp_msg.c: consecutive numbers that wrap
-- at 2 ^ 64 are distinct while no more than 2 ^ 64 requests wait.
use dplane_plugin.Base.{
  ℕ, suc, ◌+◌, ◌-◌, ◌≤◌, ◌≢◌, ◌%◌, ◌^◌, List, [], ◌∷◌, ◌++◌, All, arith, length, subst,
}
use dplane_plugin.World.State.{State}
use dplane_plugin.Queues.{Consecutive, numbers}
use dplane_plugin.Msg.Request.{next_seqn}
use dplane_plugin.Invariant.{Inv}

-- No number occurs twice.
abbrev pub AreDistinct : List ℕ → Type 0
AreDistinct [] = Unit
AreDistinct (x ∷ xs) = All (λ y. y ≢ x) xs × AreDistinct xs

-- The numbers that follow `k` after `i` others are not `k` again.
later-differ :
    (k i j : ℕ) (xs : List ℕ)
    → Consecutive ((k + suc i) % 2 ^ 64) xs j
    → i + length xs ≤ 2 ^ 64 - 1
    → All (λ y. y ≢ k) xs
later-differ k i j [] run few = tt
later-differ k i j (x ∷ xs) run few = (
  λ same. omega (arith, same, run.0, few),
  later-differ k (suc i) j xs (subst (λ a. Consecutive a xs j) (omega arith) run.1)
      (omega (arith, few)),
)

Consecutive-AreDistinct :
    (k j : ℕ) (xs : List ℕ) → Consecutive k xs j → length xs ≤ 2 ^ 64 → AreDistinct xs
Consecutive-AreDistinct k j [] run few = tt
Consecutive-AreDistinct k j (x ∷ xs) (same, run) few = (
  subst (λ a. All (λ y. y ≢ a) xs) (omega (arith, same))
      (later-differ k 0 j xs (subst (λ a. Consecutive a xs j) (omega arith) run)
        (omega (arith, few))),
  Consecutive-AreDistinct (next_seqn k) j xs run (omega (arith, few)),
)

abbrev pub waiting_numbers : State → List ℕ
waiting_numbers s = numbers s.cache.in_flight ++ numbers s.cache.unsent

pub waiting-AreDistinct :
    (s : State) → Inv s → length (waiting_numbers s) ≤ 2 ^ 64 → AreDistinct (waiting_numbers s)
waiting-AreDistinct s h few = Consecutive-AreDistinct h.first s.seqnum (waiting_numbers s) h.run few
