-- ===== src/Stats.antt =====
-- src/hh_dp_rpc_stats.c and .h: the counters. An atomic add of a `uint64_t` wraps at 2 ^ 64.
pub mod Frame
pub mod Show
pub mod Tally
use dplane_plugin.Base.{ℕ, ◌+◌, ◌%◌, ◌^◌, leb, ltb, ◌==◌, ◌&&◌, if◌then◌else◌}
use dplane_plugin.Rpc.{RpcOp, ObjType, ResultCode}
use dplane_plugin.World.Env.{Env}
use dplane_plugin.World.State.{State, Stats, Cell, on_stats}
use dplane_plugin.World.Monad.{M, modify, bug}

-- `atomic_fetch_add_explicit(&counter, 1, …)`
abbrev pub bump : ℕ → ℕ
bump n = (n + 1) % 2 ^ 64

unfoldable pub rpc_count_tx : State → State
rpc_count_tx = on_stats λ c. record c { tx_ok = bump c.tx_ok }

unfoldable pub rpc_count_tx_failure : State → State
rpc_count_tx_failure = on_stats λ c. record c { tx_failure = bump c.tx_failure }

unfoldable pub rpc_count_tx_eagain : State → State
rpc_count_tx_eagain = on_stats λ c. record c { tx_eagain = bump c.tx_eagain }

unfoldable pub rpc_count_rx : State → State
rpc_count_rx = on_stats λ c. record c { rx_ok = bump c.rx_ok }

unfoldable pub rpc_count_rx_failure : State → State
rpc_count_rx_failure = on_stats λ c. record c { rx_failure = bump c.rx_failure }

unfoldable pub rpc_count_rx_eagain : State → State
rpc_count_rx_eagain = on_stats λ c. record c { rx_eagain = bump c.rx_eagain }

unfoldable pub rpc_count_encode_failure : State → State
rpc_count_encode_failure = on_stats λ c. record c { msg_encode_failure = bump c.msg_encode_failure }

unfoldable pub rpc_count_decode_failure : State → State
rpc_count_decode_failure = on_stats λ c. record c { msg_decode_failure = bump c.msg_decode_failure }

unfoldable pub rpc_count_ctl_tx : State → State
rpc_count_ctl_tx = on_stats λ c. record c { control_tx = bump c.control_tx }

unfoldable pub rpc_count_ctl_rx : State → State
rpc_count_ctl_rx = on_stats λ c. record c { control_rx = bump c.control_rx }

-- A write to `requests[otype][op]`.
abbrev pub set_cell : ℕ → ℕ → (Cell → Cell) → Stats → Stats
set_cell ot op f c = record c {
  requests = λ i j. if i == ot && j == op then f (c.requests i j) else c.requests i j;
}

module _ (e : Env) where
  unfoldable pub rpc_count_request_sent : RpcOp → ObjType → M (Unit {0})
  rpc_count_request_sent op otype =
      if leb e.max_rpc_op (e.op_code op)
      then bug e tt
      else (if leb e.max_obj_type otype
          then bug e tt
          else modify
              (on_stats (set_cell otype (e.op_code op) λ r. record r { sent = bump r.sent })))

  -- The cell of a request that was answered with `rescode`.
  abbrev pub count_reply : ResultCode → Cell → Cell
  count_reply rescode r =
      let n = e.rescode_number rescode in
      let replied = record r { replied = bump r.replied } in
      if ltb n e.rescode_max
      then record replied { rescode = λ k. if k == n then bump (r.rescode k) else r.rescode k }
      else record replied { unk_err = bump r.unk_err }

  unfoldable pub rpc_count_request_replied : RpcOp → ObjType → ResultCode → M (Unit {0})
  rpc_count_request_replied op otype rescode =
      if leb e.max_rpc_op (e.op_code op)
      then bug e tt
      else (if leb e.max_obj_type otype
          then bug e tt
          else modify (on_stats (set_cell otype (e.op_code op) (count_reply rescode))))
