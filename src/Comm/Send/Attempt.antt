-- ===== src/Comm/Send/Attempt.antt =====
-- One call of `do_send_rpc_msg`, given what the call of `dp_connect` inside it may do.
use native.Mathlib.Numerals.{add-one}
use dplane_plugin.Base.{
  ℕ, ◌≡◌, refl, ◌∙◌, sym, ap, List, ◌++◌, some, true, false, not, ◌||◌, arith, ◌==◌, length,
  is_some, Bool-cases, inl, inr, Option-cases,
}
use dplane_plugin.Rpc.{RpcMsg}
use dplane_plugin.World.Env.{Env, Errno, SendResult}
use dplane_plugin.World.State.{State, on_comm}
use dplane_plugin.World.Monad.{
  M, failure, pure, Post, Post-weaken, Post-bug, Post-ite, Post-if, Post-bind, ◌>>◌,
}
use dplane_plugin.Queues.{octets}
use dplane_plugin.Stats.{
  rpc_count_encode_failure, rpc_count_tx, rpc_count_tx_failure, rpc_count_tx_eagain,
}
use dplane_plugin.Comm.Socket.{dplane_set_ready}
use dplane_plugin.Comm.Still.{Still, Still-refl, wakeon-Still}
use dplane_plugin.Comm.Send.{
  is_connect_request, do_send_rpc_msg, transmit, after_send, on_send_error, lost_connection,
  count_send_error, count_send, set_tx_buff, can_send_rpc_request,
}
use dplane_plugin.Comm.Send.Calm.{
  Calm, Still-Calm, Attempt, failed-Attempt, counted, IsLost, Lost, Still-before,
}

count_send_error-Still :
    (err : Errno) (s : State)
    → Still s (count_send_error err s)
      × ((count_send_error err s).kernel.connects ≡ s.kernel.connects)
unfolding count_send_error rpc_count_tx_failure rpc_count_tx_eagain
count_send_error-Still err s = ground arith

flags_down : State → State
unfolding dplane_set_ready
flags_down s = dplane_set_ready false (on_comm (λ c. record c { dp_sock_connected = false }) s)

flags_down-Still : (s : State) → Still s (flags_down s) × ((flags_down s).kernel ≡ s.kernel)
unfolding flags_down
flags_down-Still s = ground arith

module _ (e : Env) (reconnect : M (Unit {0})) (F : State → Type 0) (G : Type 0) where
  -- The fuel ran out in an attempt that began with these counters.
  abbrev Below : State → Type 0
  Below s =
      (u : State) × F u
      × (u.kernel.connects ≡ s.kernel.connects)
      × (u.kernel.sends ≡ s.kernel.sends)

  module _ (rec : (s : State) → Post (F s) G (λ _ t. Calm e s t) (reconnect s)) where
    lost_connection-Post :
        (s : State)
        → Post (Below s) G (λ r t. (r ≡ failure) × Calm e s t) (lost_connection e reconnect s)
    unfolding lost_connection flags_down
    lost_connection-Post s =
        Post-if (Below s) G _ (not (flags_down s).comm.ev_connect_timer) (reconnect >> pure failure)
          (pure failure) (flags_down s)
          (λ _.
            Post-bind (Below s) G (λ _ t. Calm e (flags_down s) t)
              (λ r t. (r ≡ failure) × Calm e s t) reconnect (λ _. pure failure) (flags_down s)
              (Post-weaken _ _ (reconnect (flags_down s)) (λ f. (flags_down s, f, refl, refl))
                (λ g. g) (λ _ t c. c) (rec (flags_down s)))
              (λ _ t c. (refl, Still-before e (flags_down-Still s).0 c)))
          (λ _. (refl, Still-Calm e (flags_down-Still s).0))

    -- The four errors that mean a lost connection.
    lost :
        {L : Type 0} (s : State)
        → L
        → Post (Below s) G (λ r t. (r ≡ failure) × Calm e s t) (lost_connection e reconnect s)
        → Post (Below s × L) G (λ r t. (r ≡ failure) × Calm e s t) (lost_connection e reconnect s)
    lost s l h =
        Post-weaken _ _ (lost_connection e reconnect s) (λ f. (f, l)) (λ g. g) (λ r t c. c) h

    on_send_error-Post :
        (err : Errno) (s : State)
        → Post
            (Below s × IsLost (SendResult.send_error err))
            G
            (λ r t. (r ≡ failure) × Calm e s t)
            (on_send_error e reconnect err s)
    unfolding on_send_error
    on_send_error-Post Errno.enobufs s = (refl, Still-Calm e (wakeon-Still s))
    on_send_error-Post Errno.enomem s = (refl, Still-Calm e (wakeon-Still s))
    on_send_error-Post Errno.eagain s = (refl, Still-Calm e (wakeon-Still s))
    on_send_error-Post Errno.eintr s = (refl, Still-Calm e (Still-refl s))
    on_send_error-Post Errno.epipe s = lost s tt (lost_connection-Post s)
    on_send_error-Post Errno.enotconn s = lost s tt (lost_connection-Post s)
    on_send_error-Post Errno.econnrefused s = lost s tt (lost_connection-Post s)
    on_send_error-Post Errno.econnreset s = lost s tt (lost_connection-Post s)
    on_send_error-Post Errno.eisconn s = (refl, Still-Calm e (Still-refl s))
    on_send_error-Post (Errno.other_errno k) s = (refl, Still-Calm e (Still-refl s))

    after_send-Post :
        (msg : RpcMsg) (bytes : List ℕ) (r : SendResult) (s : State)
        → e.encode_msg msg ≡ some bytes
        → (is_connect_request msg || s.comm.dplane_is_ready) ≡ true
        → Post (Below s × IsLost r) G (Attempt e msg s) (after_send e reconnect bytes r s)
    unfolding after_send rpc_count_tx
    after_send-Post msg bytes (SendResult.send_error err) s enc ok =
        let (still, same) = count_send_error-Still err s in
        Post-weaken _ (Attempt e msg s) (on_send_error e reconnect err (count_send_error err s))
          (λ f. ((f.0.0, f.0.1, f.0.2 ∙ same, f.0.3 ∙ still.sends), f.1)) (λ g. g)
          (λ r t c. failed-Attempt e msg r c.0 (Still-before e still c.1))
          (on_send_error-Post err (count_send_error err s))
    after_send-Post msg bytes (SendResult.sent n) s enc ok =
        Post-ite (Below s × IsLost (SendResult.sent n)) G (Attempt e msg s) (n == length bytes) _ _
          (λ _. record {
            cache = refl;
            wire = ap (λ o. s.kernel.wire ++ octets o) (sym enc);
            seqnum = refl;
            zebra = refl;
            synt = refl;
            finalizing = refl;
            recvs = refl;
            ready = refl;
            allowed = ok;
          })
          (λ _. Still-Calm e (Still-refl s))

    transmit-Post :
        (msg : RpcMsg) (s : State)
        → (is_connect_request msg || s.comm.dplane_is_ready) ≡ true
        → Post (Lost e F s) G (Attempt e msg s) (transmit e reconnect msg s)
    unfolding transmit rpc_count_encode_failure
    transmit-Post msg s ok = elim (Option-cases (e.encode_msg msg)) [
      | inl bad ↦ rw (bad, transmit) (Still-Calm e (ground arith))
      | inr (bytes, enc) ↦
          rw (enc, transmit)
            (Post-weaken
              {F = Below (count_send (set_tx_buff bytes s)) × IsLost (e.send_result s.kernel.sends)}
              {G = G} {F' = Lost e F s} _ (Attempt e msg s)
              (after_send e reconnect bytes (e.send_result s.kernel.sends)
                (count_send (set_tx_buff bytes s)))
              (λ f. (f.0.0, f.0.1, f.0.2, f.0.3 ∙ add-one s.kernel.sends, f.1)) (λ g. g)
              (λ r t. counted e msg bytes s t r)
              (after_send-Post msg bytes (e.send_result s.kernel.sends)
                (count_send (set_tx_buff bytes s)) enc ok))
    ]

    -- A call of `do_send_rpc_msg` puts the message on the wire and changes no queue, or it fails and
    -- does what a connection attempt may do.
    pub do_send-Attempt :
        (dbg : e.debug_build ≡ true → G) (msg : RpcMsg) (s : State)
        → Post (Lost e F s) G (Attempt e msg s) (do_send_rpc_msg e reconnect msg s)
    unfolding do_send_rpc_msg can_send_rpc_request
    do_send-Attempt dbg msg s =
        Post-ite (Lost e F s) G (Attempt e msg s) (not (is_some s.comm.tx_buff)) _ _
          (λ _.
            Post-bug (Lost e F s) G (Attempt e msg s) e failure s dbg
              (λ _. Still-Calm e (Still-refl s)))
          (λ _. elim (Bool-cases (is_connect_request msg || s.comm.dplane_is_ready)) [
            | inl ok ↦ rw ok (transmit-Post msg s ok)
            | inr bad ↦ rw bad (Still-Calm e (Still-refl s))
          ])
