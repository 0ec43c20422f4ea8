-- ===== src/Stays.antt =====
-- Properties of the socket and of the statistics of requests that the plugin keeps: the rules for an action that, whenever it
-- returns, keeps a property of the state. What the property may read is
-- listed in `View`.
pub mod Counts
use dplane_plugin.Base.{ℕ, ◌≡◌, subst, List, Option, Bool, true, false, if◌then◌else◌}
use dplane_plugin.World.Env.{Env}
use dplane_plugin.World.State.{State, Syscall, Cell, DpMsg}
use dplane_plugin.World.Monad.{M, Outcome, Post, Post-bind, pure, abort, modify, bug, ◌>>=◌, ◌>>◌}

-- The descriptor in use, the flags of the connection, its timer, and the calls that open and close; the
-- statistics of requests, the requests in flight, and how often `recv` was called.
pub record View : Type 0 where
  pub dp_sock : Option ℕ
  pub connected : Bool
  pub timer : Bool
  pub opens : ℕ
  pub calls : List Syscall
  pub requests : ℕ → ℕ → Cell
  pub in_flight : List DpMsg
  pub recvs : ℕ

abbrev pub view_of : State → View
view_of s = record {
  dp_sock = s.comm.dp_sock;
  connected = s.comm.dp_sock_connected;
  timer = s.comm.ev_connect_timer;
  opens = s.kernel.opens;
  calls = s.kernel.calls;
  requests = s.stats.requests;
  in_flight = s.cache.in_flight;
  recvs = s.kernel.recvs;
}

abbrev pub SameView : State → State → Type 0
SameView s t = view_of s ≡ view_of t

abbrev pub Ends : {A : Type 0} → (View → Type 0) → Outcome A → Type 0
Ends P o = Post (Unit {0}) (Unit {0}) (λ _ t. P (view_of t)) o

pub record Stays {A : Type 0} (P : View → Type 0) (m : M A) : Type 0 where
  pub at : (s : State) → P (view_of s) → Ends P (m s)

module _ {A : Type 0} (P : View → Type 0) where
  pub Ends-if : (b : Bool) (o p : Outcome A) → Ends P o → Ends P p → Ends P (if b then o else p)
  Ends-if true o p h j = h
  Ends-if false o p h j = j

module _ {A : Type 0} {P : View → Type 0} where
  pub Stays-pure : (a : A) → Stays P (pure a)
  Stays-pure a = record { at = λ s h. h }

  pub Stays-abort : Stays P (abort {A = A})
  Stays-abort = record { at = λ s h. tt }

  pub Stays-if : (b : Bool) (m k : M A) → Stays P m → Stays P k → Stays P (if b then m else k)
  Stays-if true m k h j = h
  Stays-if false m k h j = j

  pub Stays-bug : (e : Env) (a : A) → Stays P (bug e a)
  Stays-bug e a = Stays-if e.debug_build abort (pure a) Stays-abort (Stays-pure a)

module _ {A B : Type 0} (P : View → Type 0) where
  pub Ends-bind :
      (m : M A) (f : A → M B) (s : State)
      → Ends P (m s)
      → ((a : A) → Stays P (f a))
      → Ends P ((m >>= f) s)
  Ends-bind m f s h k =
      Post-bind (Unit {0}) (Unit {0}) (λ _ t. P (view_of t)) (λ _ t. P (view_of t)) m f s h
        (λ a t. (k a).at t)

module _ {A B : Type 0} {P : View → Type 0} where
  pub Stays-bind :
      (m : M A) (f : A → M B) → Stays P m → ((a : A) → Stays P (f a)) → Stays P (m >>= f)
  Stays-bind m f h k = record { at = λ s p. Ends-bind P m f s (h.at s p) k }

module _ {B : Type 0} {P : View → Type 0} where
  pub Stays-then : (m : M (Unit {0})) (k : M B) → Stays P m → Stays P k → Stays P (m >> k)
  Stays-then m k h j = Stays-bind m (λ _. k) h (λ _. j)

module _ {P : View → Type 0} where
  pub Stays-modify : (f : State → State) → ((s : State) → SameView s (f s)) → Stays P (modify f)
  Stays-modify f same = record { at = λ s h. subst P (same s) h }
