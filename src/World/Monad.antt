-- ===== src/World/Monad.antt =====
-- How a function of the plugin ends: it returns a value, the process aborts (`abort()`, a failed
-- `assert`, a read through NULL), or the fuel of the model's recursions has run out.
use dplane_plugin.Base.{ap, ◌≡◌, refl, inl, inr, Bool, true, false, Bool-cases, if◌then◌else◌}
use dplane_plugin.World.Env.{Env}
use dplane_plugin.World.State.{State}

pub data Outcome (A : Type 0) : Type 0 where
  returns : A → State → Outcome A
  aborts : State → Outcome A
  no_fuel : Outcome A

abbrev pub M : Type 0 → Type 0
M A = State → Outcome A

-- The C results 0 and -1.
pub data Rc : Type 0 where
  success failure : Rc

abbrev pub pure : {A : Type 0} → A → M A
pure a s = returns a s

abbrev pub abort : {A : Type 0} → M A
abort s = aborts s

abbrev pub modify : (State → State) → M (Unit {0})
modify f s = returns tt (f s)

infixl 5 ◌>>=◌ ◌>>◌
abbrev pub ◌>>=◌ : {A B : Type 0} → M A → (A → M B) → M B
◌>>=◌ m f s = elim (m s) [ returns a t ↦ f a t | aborts t ↦ aborts t | no_fuel ↦ no_fuel ]

abbrev pub ◌>>◌ : {B : Type 0} → M (Unit {0}) → M B → M B
m >> k = m >>= λ _. k

-- The macro `BUG(cond, value)` once `cond` holds: it aborts a debug build, and returns otherwise.
abbrev pub bug : {A : Type 0} → Env → A → M A
bug e a = if e.debug_build then abort else pure a

-- What a call does: `P` holds of the value and the state if it returns, `G` if it aborts, and `F` if
-- the fuel runs out. With `⊥` for `F` the fuel is enough.
abbrev pub Post : {A : Type 0} → Type 0 → Type 0 → (A → State → Type 0) → Outcome A → Type 0
Post F G P (returns a t) = P a t
Post F G P (aborts t) = G
Post F G P no_fuel = F

-- The rule for a sequence, from what the first part does to what both do.
module _ {A B : Type 0} (F G : Type 0) where
  pub Post-bind :
      (Q : A → State → Type 0) (P : B → State → Type 0) (m : M A) (f : A → M B) (s : State)
      → Post F G Q (m s)
      → ((a : A) (t : State) → Q a t → Post F G P (f a t))
      → Post F G P ((m >>= f) s)
  Post-bind Q P m f s h k = split (m s) h
    where
      split :
          (o : Outcome A)
          → Post F G Q o
          → Post F G P (elim o [ returns a t ↦ f a t | aborts t ↦ aborts t | no_fuel ↦ no_fuel ])
      split (returns a t) h = k a t h
      split (aborts t) h = h
      split no_fuel h = h

-- Consequence: each of the three may be weakened.
module _ {A : Type 0} {F G F' G' : Type 0} where
  pub Post-weaken :
      (P Q : A → State → Type 0) (o : Outcome A)
      → (F → F')
      → (G → G')
      → ((a : A) (t : State) → P a t → Q a t)
      → Post F G P o
      → Post F' G' Q o
  Post-weaken P Q (returns a t) f g k h = k a t h
  Post-weaken P Q (aborts t) f g k h = g h
  Post-weaken P Q no_fuel f g k h = f h

-- `BUG`: an abort is that of a debug build.
module _ {A : Type 0} (F G : Type 0) (P : A → State → Type 0) where
  pub Post-bug :
      (e : Env) (a : A) (s : State)
      → (e.debug_build ≡ true → G)
      → (e.debug_build ≡ false → P a s)
      → Post F G P (bug e a s)
  Post-bug e a s g h = elim (Bool-cases e.debug_build) [ inl b ↦ rw b (g b) | inr b ↦ rw b (h b) ]

  -- A test in front of two calls.
  pub Post-if :
      (b : Bool) (m k : M A) (s : State)
      → (b ≡ true → Post F G P (m s))
      → (b ≡ false → Post F G P (k s))
      → Post F G P ((if b then m else k) s)
  Post-if true m k s h j = h refl
  Post-if false m k s h j = j refl

  -- The same with the state handed to each.
  pub Post-ite :
      (b : Bool) (o p : Outcome A)
      → (b ≡ true → Post F G P o)
      → (b ≡ false → Post F G P p)
      → Post F G P (if b then o else p)
  Post-ite true o p h j = h refl
  Post-ite false o p h j = j refl

module _ {A : Type 0} (F G : Type 0) where
  -- Two facts about one call.
  pub Post-and :
      (P Q : A → State → Type 0) (o : Outcome A)
      → Post F G P o
      → Post (Unit {0}) (Unit {0}) Q o
      → Post F G (λ a t. P a t × Q a t) o
  Post-and P Q (returns a t) h k = (h, k)
  Post-and P Q (aborts t) h k = h
  Post-and P Q no_fuel h k = h

-- A sequence whose first part is known.
pub bind-no_fuel :
    {A B : Type 0} (m : M A) (f : A → M B) (s : State) → m s ≡ no_fuel → (m >>= f) s ≡ no_fuel
bind-no_fuel m f s h =
    ap (λ o. elim o [ returns a t ↦ f a t | aborts t ↦ aborts t | no_fuel ↦ no_fuel ]) h

pub bind-returns :
    {A B : Type 0} (m : M A) (f : A → M B) (s : State) (a : A) (t : State)
    → m s ≡ returns a t
    → (m >>= f) s ≡ f a t
bind-returns m f s a t h =
    ap (λ o. elim o [ returns b u ↦ f b u | aborts u ↦ aborts u | no_fuel ↦ no_fuel ]) h
