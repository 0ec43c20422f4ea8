-- ===== src/Comm/Recv/Stays.antt =====
-- Receiving, from src/hh_dp_comm.c, keeps what a lost connection keeps.
use dplane_plugin.Base.{
  ◌≡◌, ◌+◌, ℕ, zero, suc, List, Option, none, some, ◌==◌, length, refl, [], subst, arith,
}
use dplane_plugin.Rpc.{RpcMsg}
use dplane_plugin.World.Env.{Env, Errno, RecvResult}
use dplane_plugin.World.State.{State, DpMsg}
use dplane_plugin.World.Monad.{M, pure, Post-if}
use dplane_plugin.Stats.{
  rpc_count_rx, rpc_count_rx_failure, rpc_count_rx_eagain, rpc_count_decode_failure,
}
use dplane_plugin.Comm.Send.{lost_connection}
use dplane_plugin.Comm.Connect.{dp_connect, add_recv}
use dplane_plugin.Comm.Recv.{
  count_recv_error, after_recv, sock_recv, handle_decoded, handle_received, recv_rounds,
  dp_rpc_recv, count_recv, set_rx_buff,
}
use dplane_plugin.Msg.Response.{handle_rpc_msg}
use dplane_plugin.Msg.Response.Stays.{handle_rpc_msg-Ends}
use dplane_plugin.Stays.Counts.{Counts}
use dplane_plugin.Stays.{view_of, Ends, Ends-bind, View, SameView, Stays, Stays-then, Stays-modify}

count_recv_error-SameView : (err : Errno) (s : State) → SameView s (count_recv_error err s)
unfolding count_recv_error rpc_count_rx_eagain rpc_count_rx_failure
count_recv_error-SameView err s = ground arith

after_recv-SameView : (r : RecvResult) (s : State) → SameView s (after_recv r s).1
unfolding after_recv rpc_count_rx
after_recv-SameView (RecvResult.received bytes) s = refl
after_recv-SameView (RecvResult.recv_error err) s = count_recv_error-SameView err s

-- A call of `recv` is counted, and nothing else that is in view changes.
sock_recv-view :
    (e : Env) (s : State)
    → record (view_of s) { recvs = s.kernel.recvs + 1 } ≡ view_of (sock_recv e s).1
unfolding sock_recv
sock_recv-view e s =
    after_recv-SameView (e.recv_result s.kernel.recvs) (count_recv (set_rx_buff [] s))

module _ (e : Env) (n : ℕ) {P Q : View → Type 0} {Out Gone : DpMsg → View → Type 0}
    (counts : Counts e P Q Out Gone) (lost : Stays P (lost_connection e (dp_connect e n))) where
  handle_decoded-Ends :
      (rest : M (Unit {0})) (o : Option RpcMsg) (s : State)
      → Stays P rest
      → Q (view_of s)
      → Ends P (handle_decoded e n rest o s)
  unfolding handle_decoded rpc_count_decode_failure
  handle_decoded-Ends rest none s h q = counts.close (view_of s) q
  handle_decoded-Ends rest (some msg) s h q =
      Ends-bind P (handle_rpc_msg e (dp_connect e n) msg) (λ _. rest) s
        (handle_rpc_msg-Ends e (dp_connect e n) counts lost msg s q) (λ _. h)

  handle_received-Ends :
      (rest : M (Unit {0})) (o : Option (List ℕ)) (s : State)
      → Stays P rest
      → Q (view_of s)
      → Ends P (handle_received e n rest o s)
  unfolding handle_received
  handle_received-Ends rest none s h q = counts.close (view_of s) q
  handle_received-Ends rest (some bytes) s h q =
      Post-if (Unit {0}) (Unit {0}) (λ _ t. P (view_of t)) (length bytes == 0) (pure tt) _ s
        (λ _. counts.close (view_of s) q) (λ _. handle_decoded-Ends rest (e.decode_msg bytes) s h q)

  recv_rounds-Stays : (k : ℕ) → Stays P (recv_rounds e n k)
  unfolding recv_rounds
  recv_rounds-Stays zero = record { at = λ s h. tt }
  recv_rounds-Stays (suc k) = record {
    at = λ s h.
        let (got, t) = sock_recv e s in
        handle_received-Ends (recv_rounds e n k) got t (recv_rounds-Stays k)
          (subst Q (sock_recv-view e s) (counts.read (view_of s) h));
  }

  pub dp_rpc_recv-Stays : (k : ℕ) → Stays P (dp_rpc_recv e n k)
  unfolding dp_rpc_recv
  dp_rpc_recv-Stays k = Stays-then _ _ (Stays-modify add_recv (λ s. refl)) (recv_rounds-Stays k)
