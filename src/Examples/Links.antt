-- ===== src/Examples/Links.antt =====
-- The socket, the connection and the plugin's life on the example.
use dplane_plugin.Base.{false, ◌≡◌, arith, refl, [], ◌∷◌, none, true, inr, inl}
use dplane_plugin.World.Env.{Env, Errno, SendResult}
use dplane_plugin.World.State.{State}
use dplane_plugin.World.Monad.{returns, no_fuel}
use dplane_plugin.Comm.Socket.Descriptors.{NoLeak}
use dplane_plugin.Comm.Connect.{dp_connect, connect_sock}
use dplane_plugin.Comm.Connect.Links.{Retries}
use dplane_plugin.Comm.Connect.Failed.{CanTry, Waits, dp_connect-storms, dp_connect-Waits}
use dplane_plugin.Events.{callback, Event, Reach, fire, here, next, unschedule}
use dplane_plugin.Events.Conserved.{Reach-AreDistinct}
use dplane_plugin.Invariant.Numbers.{AreDistinct, waiting_numbers}
use dplane_plugin.Events.Links.{Reach-NoLeak, Reach-Retries, Reach-Stranded}
use dplane_plugin.Plugin.{zd_hh_fini}
use dplane_plugin.Stays.{view_of}
use dplane_plugin.Examples.{env, state, comm, state-Inv, route}
use dplane_plugin.Examples.Runs.{run, answered, handed_in, state_of}
use dplane_plugin.Guarantees.Counted.{Balanced, Reach-Balanced}
use dplane_plugin.Stats.{rpc_count_request_sent, rpc_count_tx}
use dplane_plugin.Cache.{dp_msg_pop_unsent, dp_msg_cache_inflight}
use dplane_plugin.Comm.Send.{
  dp_sock_send_cb, send_pending_rpc_msgs, send_rounds, send_popped, do_send_rpc_msg,
  can_send_rpc_request, settle_sent, after_attempt,
}

Reach-NoLeak_example : NoLeak env (zd_hh_fini true answered)
Reach-NoLeak_example = Reach-NoLeak env 1 2 (run false) (λ fd. omega arith)

Reach-Retries_example : Retries (view_of (zd_hh_fini true answered))
Reach-Retries_example = Reach-Retries env 1 2 (run false) (inr (inl refl))

-- The socket could not be opened again, and the timer runs.
abbrev stranded : State
stranded = record state { comm = record comm { dp_sock = none; ev_connect_timer = true } }

stranded_run : Reach env 1 2 stranded [] (unschedule Event.connect_timer stranded)
unfolding dp_connect connect_sock
stranded_run =
    next {t = stranded} Event.connect_timer here (fire {s = stranded} Event.connect_timer refl refl)

Reach-Stranded_example :
    ((unschedule Event.connect_timer stranded).comm.dp_sock ≡ none)
    × ((unschedule Event.connect_timer stranded).kernel.opens ≡ stranded.kernel.opens)
    × ((unschedule Event.connect_timer stranded).kernel.calls ≡ stranded.kernel.calls)
Reach-Stranded_example = Reach-Stranded env 1 2 stranded_run refl

state-CanTry : CanTry state
state-CanTry = record { fd = 9; dp_sock = refl; tx_buff = refl; path = refl }

abbrev flapping : Env
flapping = record env { send_result = λ k. SendResult.send_error Errno.epipe }

abbrev busy : Env
busy = record env { send_result = λ k. SendResult.send_error Errno.eagain }

dp_connect-storms_example : dp_connect flapping 100 state ≡ no_fuel
dp_connect-storms_example =
    dp_connect-storms flapping
      (record { accepts = λ c. refl; loses = λ t. refl; encodes = λ r. (1 ∷ r.seqn ∷ [], refl) })
      100 state state-CanTry

dp_connect-Waits_example : (t : State) × (dp_connect busy 1 state ≡ returns tt t) × Waits state t
dp_connect-Waits_example =
    dp_connect-Waits busy 0 Errno.eagain state state-CanTry tt (λ r. (1 ∷ r.seqn ∷ [], refl)) refl
      refl

Reach-AreDistinct_example : AreDistinct (waiting_numbers handed_in)
Reach-AreDistinct_example =
    Reach-AreDistinct env 1 2
      (next (Event.handed (route 4)) here (fire (Event.handed (route 4)) tt refl)) state-Inv
      (omega arith)

-- The write callback is scheduled, and sends the message that waits.
abbrev writable : State
writable = record state { comm = record comm { ev_send = true } }

abbrev written : State
written = state_of writable (callback env 1 2 Event.send (unschedule Event.send writable))

written-returns : callback env 1 2 Event.send (unschedule Event.send writable) ≡ returns tt written
unfolding dp_sock_send_cb send_pending_rpc_msgs send_rounds dp_msg_pop_unsent after_attempt
    send_popped do_send_rpc_msg can_send_rpc_request settle_sent rpc_count_request_sent rpc_count_tx
    dp_msg_cache_inflight
written-returns = refl

Reach-Balanced_example : Balanced env 4 2 writable written
unfolding dp_sock_send_cb send_pending_rpc_msgs send_rounds send_popped dp_msg_pop_unsent
    do_send_rpc_msg after_attempt settle_sent rpc_count_request_sent dp_msg_cache_inflight
    rpc_count_tx
Reach-Balanced_example =
    Reach-Balanced env 1 2 4 2 (omega arith) (omega arith)
      (next {t = writable} Event.send here
        (fire {s = writable} {t = written} Event.send refl written-returns))
      refl
