-- ===== src/Comm/Connect/Calm.antt =====
-- `dp_connect` keeps the contract that the sending functions take of it, and how deep its calls of
-- itself go.
use native.Mathlib.Numerals.{add-one}
use dplane_plugin.Base.{
  ℕ, zero, suc, ◌≡◌, refl, ◌∙◌, ap, subst, List, Option, none, some, true, arith,
}
use dplane_plugin.World.Env.{Env, Errno, ConnectResult}
use dplane_plugin.World.State.{State}
use dplane_plugin.World.Monad.{Rc, success, failure, modify, Post, Post-weaken, Post-bind}
use dplane_plugin.Comm.Socket.{dp_unix_connect, after_connect}
use dplane_plugin.Comm.Still.{Still, Still-trans, Still-refl, dp_unix_connect-Still}
use dplane_plugin.Comm.Send.Calm.{Calm, Lost, IsLost, Still-Calm, Still-before}
use dplane_plugin.Msg.Request.{send_rpc_request_connect}
use dplane_plugin.Comm.Connect.{
  dp_connect, on_connect_result, connect_sock, mark_connected, add_recv, add_connect_timer,
}
use dplane_plugin.Comm.Connect.Greet.{Calm-after, send_rpc_request_connect-Calm}

-- `connect` gave a connection, or there was one.
abbrev pub Accepts : ConnectResult → Type 0
Accepts ConnectResult.connected = Unit
Accepts (ConnectResult.connect_error Errno.eisconn) = Unit
Accepts (ConnectResult.connect_error _) = ⊥

-- From the c-th call of `connect` and the t-th call of `send` on, n times in a row the connection is
-- accepted and then lost.
abbrev pub Storm : Env → ℕ → ℕ → ℕ → Type 0
Storm e zero c t = Unit
Storm e (suc n) c t =
    Accepts (e.connect_result c) × IsLost (e.send_result t) × Storm e n (suc c) (suc t)

-- After a connection that was accepted.
dp_unix_connect-Accepts :
    (e : Env) (p : List ℕ) (s : State)
    → (dp_unix_connect e p s).0 ≡ success
    → Accepts (e.connect_result s.kernel.connects)
      × ((dp_unix_connect e p s).1.kernel.connects ≡ suc s.kernel.connects)
unfolding dp_unix_connect after_connect
dp_unix_connect-Accepts e p s h = ground (arith, add-one s.kernel.connects)

add_connect_timer-Still : (s : State) → Still s (add_connect_timer s)
add_connect_timer-Still s = ground arith

mark_connected-Still : (s : State) → Still s (mark_connected s)
mark_connected-Still s = ground arith

pub add_recv-Still : (s : State) → Still s (add_recv s)
add_recv-Still s = ground arith

Storm-goes_on :
    (e : Env) (n : ℕ) (s t : State)
    → Still s t
    → Accepts (e.connect_result s.kernel.connects) × (t.kernel.connects ≡ suc s.kernel.connects)
    → Lost e (λ u. Storm e n u.kernel.connects u.kernel.sends) (mark_connected t)
    → Storm e (suc n) s.kernel.connects s.kernel.sends
Storm-goes_on e n s t h a (u, storm, c, k, lost) = (
  a.0,
  subst (λ x. IsLost (e.send_result x)) h.sends lost,
  subst (λ x. Storm e n x (suc s.kernel.sends)) (c ∙ a.1)
      (subst (λ x. Storm e n u.kernel.connects x) (k ∙ ap suc h.sends) storm),
)

module _ (e : Env) (G : Type 0) (dbg : e.debug_build ≡ true → G) where
  on_connect_result-Calm :
      (n : ℕ) (s t : State) (r : Rc)
      → ((u : State)
          → Post
              (Storm e n u.kernel.connects u.kernel.sends)
              G
              (λ _ v. Calm e u v)
              (dp_connect e n u))
      → Still s t
      → (r ≡ success
          → Accepts (e.connect_result s.kernel.connects)
            × (t.kernel.connects ≡ suc s.kernel.connects))
      → Post
          (Storm e (suc n) s.kernel.connects s.kernel.sends)
          G
          (λ _ v. Calm e s v)
          (on_connect_result e (dp_connect e n) r t)
  unfolding on_connect_result
  on_connect_result-Calm n s t failure rec h a =
      Still-before e h (Still-Calm e (add_connect_timer-Still t))
  on_connect_result-Calm n s t success rec h a =
      Post-bind (Storm e (suc n) s.kernel.connects s.kernel.sends) G
        (λ _ v. Calm e (mark_connected t) v) (λ _ v. Calm e s v)
        (send_rpc_request_connect e (dp_connect e n)) (λ _. modify add_recv) (mark_connected t)
        (Post-weaken
          {F = Lost e (λ u. Storm e n u.kernel.connects u.kernel.sends) (mark_connected t)}
          {F' = Storm e (suc n) s.kernel.connects s.kernel.sends} _
          (λ _ v. Calm e (mark_connected t) v)
          (send_rpc_request_connect e (dp_connect e n) (mark_connected t))
          (Storm-goes_on e n s t h (a refl)) (λ g. g) (λ _ v c. c)
          (send_rpc_request_connect-Calm e (dp_connect e n)
            (λ u. Storm e n u.kernel.connects u.kernel.sends) G dbg rec (mark_connected t)))
        (λ _ v c.
          Still-before e (Still-trans h (mark_connected-Still t))
            (Calm-after e c (add_recv-Still v)))

  connect_sock-Calm :
      (n : ℕ) (o : Option ℕ) (s : State)
      → ((u : State)
          → Post
              (Storm e n u.kernel.connects u.kernel.sends)
              G
              (λ _ v. Calm e u v)
              (dp_connect e n u))
      → Post
          (Storm e (suc n) s.kernel.connects s.kernel.sends)
          G
          (λ _ v. Calm e s v)
          (connect_sock e (dp_connect e n) o s)
  unfolding connect_sock
  connect_sock-Calm n none s rec = Still-Calm e (Still-refl s)
  connect_sock-Calm n (some fd) s rec =
      let (r, t) = dp_unix_connect e s.comm.dp_sock_path s in
      on_connect_result-Calm n s t r rec (dp_unix_connect-Still e s.comm.dp_sock_path s)
        (dp_unix_connect-Accepts e s.comm.dp_sock_path s)

  -- `dp_connect` sends Connect requests and touches nothing else of the queues; its fuel runs out in
  -- a storm only.
  pub dp_connect-Calm :
      (n : ℕ) (s : State)
      → Post (Storm e n s.kernel.connects s.kernel.sends) G (λ _ t. Calm e s t) (dp_connect e n s)
  unfolding dp_connect
  dp_connect-Calm zero s = tt
  dp_connect-Calm (suc n) s = connect_sock-Calm n s.comm.dp_sock s (dp_connect-Calm n)
