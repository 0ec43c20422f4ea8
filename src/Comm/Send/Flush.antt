-- ===== src/Comm/Send/Flush.antt =====
-- The queue of unsent messages in the two plain cases: the dataplane is not ready, and the socket
-- takes every datagram.
use native.Mathlib.Numerals.{add-one}
use dplane_plugin.Base.{
  ℕ, zero, suc, ◌<◌, ◌≡◌, refl, ◌∙◌, sym, ap, subst, arith, List, [], ◌∷◌, ◌++◌, append-nil,
  append_assoc, some, is_some, Bool, true, false, ◌||◌, ==_refl, All, length,
}
use dplane_plugin.World.Env.{Env, SendResult}
use dplane_plugin.World.State.{State, DpMsg}
use dplane_plugin.World.Monad.{
  M, Rc, success, failure, returns, aborts, no_fuel, Post, Post-weaken, Post-bind, ◌>>=◌,
}
use dplane_plugin.Rpc.{RpcMsg}
use dplane_plugin.Stats.{rpc_count_tx}
use dplane_plugin.Cache.{dp_msg_unsent_push_back, dp_msg_unsent_count}
use dplane_plugin.Queues.{requests, request_of, datagrams, octets}
use dplane_plugin.Comm.Send.{
  is_connect_request, can_send_rpc_request, do_send_rpc_msg, transmit, after_send, settle_sent,
  send_rounds, send_popped, after_attempt, send_pending_rpc_msgs, set_tx_buff, count_send,
  put_on_wire,
}
use dplane_plugin.Comm.Send.Settle.{Settled, settle_sent-Settled}
use dplane_plugin.Comm.Send.Drain.{set_unsent, dp_msg_pop_unsent-eq}

-- Nothing but a Connect may be sent.
abbrev pub HeldBack : State → Type 0
HeldBack s =
    (is_some s.comm.tx_buff ≡ true)
    × (s.comm.dplane_is_ready ≡ false)
    × All (λ m. is_connect_request m.msg ≡ false) s.cache.unsent

refused-eq :
    (e : Env) (reconnect : M (Unit {0})) (msg : RpcMsg) (s : State)
    → is_some s.comm.tx_buff ≡ true
    → (is_connect_request msg || s.comm.dplane_is_ready) ≡ false
    → do_send_rpc_msg e reconnect msg s ≡ returns failure s
unfolding do_send_rpc_msg can_send_rpc_request
refused-eq e reconnect msg s buff off = rw (buff, off) refl

-- As long as the buffer for sending is there and the dataplane is not ready, a run over a queue without
-- Connect requests changes nothing at all.
pub send_pending-idle :
    (e : Env) (reconnect : M (Unit {0})) (s : State)
    → HeldBack s
    → send_pending_rpc_msgs e reconnect s ≡ returns tt s
unfolding send_pending_rpc_msgs send_rounds send_popped after_attempt dp_msg_unsent_push_back
send_pending-idle e reconnect s (buff, off, no_connect) = by_list s.cache.unsent refl no_connect
  where
    rest : M (Unit {0})
    rest = send_rounds e reconnect (dp_msg_unsent_count s)

    by_list :
        (ms : List DpMsg)
        → s.cache.unsent ≡ ms
        → All (λ m. is_connect_request m.msg ≡ false) ms
        → send_rounds e reconnect (suc (dp_msg_unsent_count s)) s ≡ returns tt s
    by_list [] is h =
        ap (λ r. send_popped e reconnect rest r.0 r.1) (dp_msg_pop_unsent-eq s is)
        ∙ ap (λ l. returns tt (set_unsent l s)) (sym is)
    by_list (m ∷ ms) is h =
        ap (λ r. send_popped e reconnect rest r.0 r.1) (dp_msg_pop_unsent-eq s is)
        ∙ ap
            (λ o. elim o [
              | returns a t ↦ after_attempt e reconnect rest m a t
              | aborts t ↦ aborts t
              | no_fuel ↦ no_fuel
            ])
            (refused-eq e reconnect m.msg (set_unsent ms s) buff
              (ap (λ b. b || s.comm.dplane_is_ready) h.0 ∙ off))
        ∙ ap (λ l. returns tt (set_unsent l s)) (sym is)

-- From the k-th call on, `send` takes the datagrams of the messages whole, and each has one.
abbrev pub Takes : Env → ℕ → List DpMsg → Type 0
Takes e k [] = Unit
Takes e k (m ∷ ms) =
    ((bytes : List ℕ) × (e.encode_msg m.msg ≡ some bytes)
      × (e.send_result k ≡ SendResult.sent (length bytes)))
    × Takes e (suc k) ms

-- The queue is empty, and all that was in it is on the wire and, if a request, in flight.
pub record Flushed (e : Env) (s t : State) : Type 0 where
  pub unsent : t.cache.unsent ≡ []
  pub in_flight : t.cache.in_flight ≡ s.cache.in_flight ++ requests s.cache.unsent
  pub wire : t.kernel.wire ≡ s.kernel.wire ++ datagrams e s.cache.unsent

-- The state after a datagram that was taken.
transmitted : List ℕ → State → State
transmitted bytes s = rpc_count_tx (put_on_wire bytes (count_send (set_tx_buff bytes s)))

or_true : (a b : Bool) → b ≡ true → (a || b) ≡ true
or_true true b h = refl
or_true false b h = h

sent-eq :
    (e : Env) (reconnect : M (Unit {0})) (bytes : List ℕ) (s : State)
    → after_send e reconnect bytes (SendResult.sent (length bytes)) s
      ≡ returns success (rpc_count_tx (put_on_wire bytes s))
unfolding after_send
sent-eq e reconnect bytes s = rw (==_refl (length bytes)) refl

transmit-eq :
    (e : Env) (reconnect : M (Unit {0})) (msg : RpcMsg) (bytes : List ℕ) (s : State)
    → e.encode_msg msg ≡ some bytes
    → e.send_result s.kernel.sends ≡ SendResult.sent (length bytes)
    → transmit e reconnect msg s ≡ returns success (transmitted bytes s)
unfolding transmit transmitted
transmit-eq e reconnect msg bytes s enc took =
    rw (enc, transmit)
      (ap (λ r. after_send e reconnect bytes r (count_send (set_tx_buff bytes s))) took
        ∙ sent-eq e reconnect bytes (count_send (set_tx_buff bytes s)))

taken-eq :
    (e : Env) (reconnect : M (Unit {0})) (msg : RpcMsg) (bytes : List ℕ) (s : State)
    → is_some s.comm.tx_buff ≡ true
    → s.comm.dplane_is_ready ≡ true
    → e.encode_msg msg ≡ some bytes
    → e.send_result s.kernel.sends ≡ SendResult.sent (length bytes)
    → do_send_rpc_msg e reconnect msg s ≡ returns success (transmitted bytes s)
unfolding do_send_rpc_msg can_send_rpc_request
taken-eq e reconnect msg bytes s buff on enc took =
    rw (buff, or_true (is_connect_request msg) s.comm.dplane_is_ready on)
      (transmit-eq e reconnect msg bytes s enc took)

-- One message that was taken and settled, in front of the rest.
Flushed-cons :
    (e : Env) (m : DpMsg) (ms : List DpMsg) (bytes : List ℕ) (s u v : State)
    → s.cache.unsent ≡ m ∷ ms
    → e.encode_msg m.msg ≡ some bytes
    → Settled m (transmitted bytes (set_unsent ms s)) u
    → Flushed e u v
    → Flushed e s v
unfolding transmitted rpc_count_tx
Flushed-cons e m ms bytes s u v is enc b d = record {
  unsent = d.unsent;
  in_flight =
      d.in_flight
      ∙ ap (λ (l : List DpMsg). l ++ requests u.cache.unsent) b.in_flight
      ∙ append_assoc s.cache.in_flight (request_of m.msg m) (requests u.cache.unsent)
      ∙ ap (λ l. s.cache.in_flight ++ (request_of m.msg m ++ requests l)) b.unsent
      ∙ ap (λ l. s.cache.in_flight ++ requests l) (sym is);
  wire =
      d.wire
      ∙ ap (λ (l : List (List ℕ)). l ++ datagrams e u.cache.unsent) (ap (λ k. k.wire) b.kernel)
      ∙ append_assoc s.kernel.wire (bytes ∷ []) (datagrams e u.cache.unsent)
      ∙ ap (λ l. s.kernel.wire ++ (bytes ∷ datagrams e l)) b.unsent
      ∙ ap (λ o. s.kernel.wire ++ (octets o ++ datagrams e ms)) (sym enc)
      ∙ ap (λ l. s.kernel.wire ++ datagrams e l) (sym is);
}

module _ (e : Env) (reconnect : M (Unit {0})) (G : Type 0) (dbg : e.debug_build ≡ true → G) where
  goes_on :
      (P : Unit {0} → State → Type 0) (m : M Rc) (f : Rc → M (Unit {0})) (s : State) {t : State}
      → m s ≡ returns success t
      → Post ⊥ G P (f success t)
      → Post ⊥ G P ((m >>= f) s)
  goes_on P m f s is h =
      subst
        (λ o. Post ⊥ G P (elim o [ returns a t ↦ f a t | aborts t ↦ aborts t | no_fuel ↦ no_fuel ]))
        (sym is) h

  send_rounds-Flushed :
      (k : ℕ) (ms : List DpMsg) (s : State)
      → s.cache.unsent ≡ ms
      → length ms < k
      → is_some s.comm.tx_buff ≡ true
      → s.comm.dplane_is_ready ≡ true
      → Takes e s.kernel.sends ms
      → Post ⊥ G (λ _ t. Flushed e s t) (send_rounds e reconnect k s)
  unfolding send_rounds send_popped after_attempt transmitted rpc_count_tx
  send_rounds-Flushed zero ms s is lt buff on t = absurd (omega arith)
  send_rounds-Flushed (suc k) [] s is lt buff on t =
      rw (dp_msg_pop_unsent-eq s is, send_popped)
        (record {
          unsent = refl;
          in_flight =
              sym (ap (λ l. s.cache.in_flight ++ requests l) is ∙ append-nil s.cache.in_flight);
          wire = sym (ap (λ l. s.kernel.wire ++ datagrams e l) is ∙ append-nil s.kernel.wire);
        })
  send_rounds-Flushed (suc k) (m ∷ ms) s is lt buff on ((bytes, enc, took), more) =
      rw (dp_msg_pop_unsent-eq s is, send_popped)
        (goes_on (λ _ v. Flushed e s v) (do_send_rpc_msg e reconnect m.msg)
          (after_attempt e reconnect (send_rounds e reconnect k) m) (set_unsent ms s)
          (taken-eq e reconnect m.msg bytes (set_unsent ms s) buff on enc took)
          (Post-bind ⊥ G (λ _ u. Settled m (transmitted bytes (set_unsent ms s)) u)
            (λ _ v. Flushed e s v) (settle_sent e m m.msg) (λ _. send_rounds e reconnect k)
            (transmitted bytes (set_unsent ms s))
            (settle_sent-Settled e ⊥ G dbg m m.msg (transmitted bytes (set_unsent ms s)) refl)
            (λ _ u b.
              Post-weaken _ _ (send_rounds e reconnect k u) (λ f. f) (λ g. g)
                (λ _ v d. Flushed-cons e m ms bytes s u v is enc b d)
                (send_rounds-Flushed k ms u b.unsent (omega arith)
                  (ap (λ c. is_some c.tx_buff) b.comm) (ap (λ c. c.dplane_is_ready) b.comm ∙ on)
                  (subst (λ i. Takes e i ms)
                    (sym (ap (λ k. k.sends) b.kernel ∙ add-one s.kernel.sends)) more)))))

  -- If the buffer for sending is there, the dataplane is ready, and each message that waits has a
  -- datagram, which the socket takes, the run ends with an empty queue: all of it is on the wire in
  -- order, and its requests are in flight.
  pub send_pending-Flushed :
      (s : State)
      → is_some s.comm.tx_buff ≡ true
      → s.comm.dplane_is_ready ≡ true
      → Takes e s.kernel.sends s.cache.unsent
      → Post ⊥ G (λ _ t. Flushed e s t) (send_pending_rpc_msgs e reconnect s)
  unfolding send_pending_rpc_msgs
  send_pending-Flushed s buff on t =
      send_rounds-Flushed (suc (dp_msg_unsent_count s)) s.cache.unsent s refl (omega arith) buff on
        t
