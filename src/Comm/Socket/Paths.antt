-- ===== src/Comm/Socket/Paths.antt =====
-- The paths of the two ends of the socket, from src/hh_dp_comm.c: which are accepted, and which work.
use dplane_plugin.Base.{
  ℕ, zero, suc, ◌≤◌, ◌<◌, ◌≡◌, refl, ap, arith, List, [], ◌∷◌, none, true, false, ◌⊎◌, length, take,
}
use dplane_plugin.World.Env.{Env}
use dplane_plugin.World.State.{State, on_comm}
use dplane_plugin.World.Monad.{success, failure}
use dplane_plugin.Comm.Socket.{
  max_sun_path, is_valid_unix_path, set_dp_sock_local_path, set_dp_sock_remote_path, bind_sock,
  dp_unix_sock_open, dp_unix_connect,
}

pub take-length {ℓ} : {A : Type ℓ} (n : ℕ) (xs : List A) → length xs ≤ n → take n xs ≡ xs
take-length zero [] h = refl
take-length zero (x ∷ xs) h = absurd (omega arith)
take-length (suc n) [] h = refl
take-length (suc n) (x ∷ xs) h = ap (◌∷◌ x) (take-length n xs (omega arith))

abbrev pub IsAccepted : List ℕ → Type 0
IsAccepted p = (0 < length p) × (length p ≤ max_sun_path)

is_valid-accepted : (p : List ℕ) → IsAccepted p → is_valid_unix_path p ≡ true
unfolding is_valid_unix_path
is_valid-accepted p h = ground (arith, h)

is_valid-refused :
    (p : List ℕ) → (length p ≡ 0) ⊎ (max_sun_path < length p) → is_valid_unix_path p ≡ false
unfolding is_valid_unix_path
is_valid-refused p h = ground (arith, h)

-- Each setter stores a path of 1 to 108 octets whole, and succeeds.
pub set_dp_sock_path-stores :
    (p : List ℕ) (s : State)
    → IsAccepted p
    → (set_dp_sock_local_path p s ≡ (success, on_comm (λ c. record c { plugin_sock_path = p }) s))
      × (set_dp_sock_remote_path p s ≡ (success, on_comm (λ c. record c { dp_sock_path = p }) s))
unfolding set_dp_sock_local_path set_dp_sock_remote_path
set_dp_sock_path-stores p s h = rw (is_valid-accepted p h) (
  ap (λ l. (success, on_comm (λ c. record c { plugin_sock_path = l }) s))
      (take-length max_sun_path p h.1),
  ap (λ l. (success, on_comm (λ c. record c { dp_sock_path = l }) s))
      (take-length max_sun_path p h.1),
)

-- Each setter refuses the empty path and a path of more than 108 octets, and leaves the state alone.
pub set_dp_sock_path-refuses :
    (p : List ℕ) (s : State)
    → (length p ≡ 0) ⊎ (max_sun_path < length p)
    → (set_dp_sock_local_path p s ≡ (failure, s)) × (set_dp_sock_remote_path p s ≡ (failure, s))
unfolding set_dp_sock_local_path set_dp_sock_remote_path
set_dp_sock_path-refuses p s h = rw (is_valid-refused p h) (refl, refl)

-- A path of 108 octets is accepted by both setters, but no socket is ever bound or connected to it.
pub longest_path-fails :
    (e : Env) (p : List ℕ) (s : State)
    → length p ≡ max_sun_path
    → ((set_dp_sock_local_path p s).0 ≡ success)
      × ((set_dp_sock_remote_path p s).0 ≡ success)
      × ((dp_unix_sock_open e p s).0 ≡ none)
      × (dp_unix_connect e p s ≡ (failure, s))
unfolding set_dp_sock_local_path set_dp_sock_remote_path is_valid_unix_path dp_unix_sock_open
    bind_sock dp_unix_connect
longest_path-fails e p s h = ground (arith, h)
