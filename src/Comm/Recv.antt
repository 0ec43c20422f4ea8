-- ===== src/Comm/Recv.antt =====
-- src/hh_dp_comm.c, receiving: `sock_recv` and the read callback `dp_rpc_recv`.
pub mod Loop
pub mod Stays
use dplane_plugin.Base.{
  ℕ, zero, suc, ◌+◌, List, [], Option, none, some, length, if◌then◌else◌, ◌==◌,
}
use dplane_plugin.Rpc.{RpcMsg}
use dplane_plugin.World.Env.{Env, Errno, RecvResult}
use dplane_plugin.World.State.{State, on_comm, on_kernel}
use dplane_plugin.World.Monad.{M, pure, no_fuel, modify, ◌>>◌}
use dplane_plugin.Stats.{
  rpc_count_rx, rpc_count_rx_failure, rpc_count_rx_eagain, rpc_count_decode_failure,
}
use dplane_plugin.Comm.Connect.{add_recv, dp_connect}
use dplane_plugin.Msg.Response.{handle_rpc_msg}

abbrev set_rx_buff : List ℕ → State → State
set_rx_buff bytes = on_comm λ c. record c { rx_buff = some bytes }

abbrev count_recv : State → State
count_recv = on_kernel λ k. record k { recvs = k.recvs + 1 }

count_recv_error : Errno → State → State
count_recv_error Errno.eagain = rpc_count_rx_eagain
count_recv_error _ = rpc_count_rx_failure

-- The octets received, or `none` for -1.
after_recv : RecvResult → State → Option (List ℕ) × State
unfolding count_recv_error
after_recv (RecvResult.recv_error err) s = (none, count_recv_error err s)
after_recv (RecvResult.received bytes) s = (some bytes, rpc_count_rx (set_rx_buff bytes s))

unfoldable pub sock_recv : Env → State → Option (List ℕ) × State
unfolding after_recv
sock_recv e s = after_recv (e.recv_result s.kernel.recvs) (count_recv (set_rx_buff [] s))

module _ (e : Env) (n : ℕ) where
  -- A datagram that decodes is handled, and the loop goes on; one that does not ends it.
  unfoldable pub handle_decoded : M (Unit {0}) → Option RpcMsg → M (Unit {0})
  handle_decoded rest none = modify rpc_count_decode_failure
  handle_decoded rest (some msg) = handle_rpc_msg e (dp_connect e n) msg >> rest

  -- The body of the loop of `dp_rpc_recv`, on what was received.
  unfoldable pub handle_received : M (Unit {0}) → Option (List ℕ) → M (Unit {0})
  handle_received rest none = pure tt
  handle_received rest (some bytes) =
      if length bytes == 0 then pure tt else handle_decoded rest (e.decode_msg bytes)

  -- The loop of `dp_rpc_recv`, `k` datagrams of it at most: it ends when nothing was received, or
  -- when a datagram does not decode.
  unfoldable pub recv_rounds : ℕ → M (Unit {0})
  recv_rounds zero s = no_fuel
  recv_rounds (suc k) s = let (got, t) = sock_recv e s in handle_received (recv_rounds k) got t

  unfoldable pub dp_rpc_recv : ℕ → M (Unit {0})
  dp_rpc_recv k = modify add_recv >> recv_rounds k
