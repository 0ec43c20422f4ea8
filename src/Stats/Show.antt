-- ===== src/Stats/Show.antt =====
-- src/hh_dp_rpc_stats.c, the vty command that prints the counters: what it appends to the terminal. The
-- names and the numbers of the tags belong to the dplane-rpc library and are a parameter.
pub mod Columns
pub mod Io
pub mod Rows
use dplane_plugin.Base.{
  ℕ, zero, suc, ◌+◌, ◌-◌, List, [], ◌∷◌, ◌++◌, Bool, true, false, not, ◌&&◌, ◌||◌, ◌==◌,
  if◌then◌else◌,
}
use dplane_plugin.Base.Text.{text, decimal, right, fit_right, fit_left}
use dplane_plugin.Rpc.{RpcOp, ResultCode}
use dplane_plugin.World.Env.{Env}
use dplane_plugin.World.State.{State, Cell}
use dplane_plugin.Comm.Socket.{dplane_sock_is_connected}

-- The object types None, ConnectInfo and IpRoute, and the names of the tags by their numbers.
pub record Tags : Type 0 where
  pub none_type : ℕ
  pub conn_info_type : ℕ
  pub ip_route_type : ℕ
  pub str_object_type : ℕ → List ℕ
  pub str_rpc_op : ℕ → List ℕ
  pub str_rescode : ℕ → List ℕ

-- The values of the loops `for (x = a; x < b; x++)`, b - a of them.
abbrev pub upto : ℕ → ℕ → List ℕ
upto zero a = []
upto (suc n) a = a ∷ upto n (a + 1)

abbrev pub range : ℕ → ℕ → List ℕ
range a b = upto (b - a) a

-- " %14.14s %14.14s … \n" and " %14llu %14llu … \n"
unfoldable pub headings : List (List ℕ) → List ℕ
headings [] = b'\n' ∷ []
headings (c ∷ cs) = b' ' ∷ (fit_right 14 c ++ headings cs)

unfoldable pub counters : List ℕ → List ℕ
counters [] = b'\n' ∷ []
counters (n ∷ ns) = b' ' ∷ (right 14 (decimal n) ++ counters ns)

unfoldable pub hh_vty_show_stats_io : State → List ℕ
hh_vty_show_stats_io s =
    text
      "  ─────────────────────────────────────────────── IO stats ───────────────────────────────────────────────\n"
    ++ (headings (
          text "tx"
          ∷ text "tx-fail"
          ∷ text "tx-retry"
          ∷ text "rx"
          ∷ text "rx-fail"
          ∷ text "rx-retry"
          ∷ [])
        ++ counters (
            s.stats.tx_ok ∷ s.stats.tx_failure ∷ s.stats.tx_eagain ∷ s.stats.rx_ok
            ∷ s.stats.rx_failure ∷ s.stats.rx_eagain ∷ []))

-- A line with one counter.
abbrev line : List ℕ → ℕ → List ℕ
line label n = label ++ (decimal n ++ b'\n' ∷ [])

unfoldable pub hh_vty_show_stats_serialization : State → List ℕ
hh_vty_show_stats_serialization s =
    text
      "  ───────────────────────────────────────── Serialization errors ─────────────────────────────────────────\n"
    ++ (line (text "   encoding failures: ") s.stats.msg_encode_failure
        ++ line (text "   decoding failures: ") s.stats.msg_decode_failure)

unfoldable pub hh_vty_show_stats_rpc_control : State → List ℕ
hh_vty_show_stats_rpc_control s =
    text
      "  ───────────────────────────────────────── Control / Keepalives ─────────────────────────────────────────\n"
    ++ (line (text "   control tx: ") s.stats.control_tx
        ++ line (text "   control rx: ") s.stats.control_rx)

module _ (e : Env) (tags : Tags) where
  -- "%10.10s:%-9.9s: "
  abbrev pub label : List ℕ → List ℕ → List ℕ
  label object op = fit_right 10 object ++ (b':' ∷ (fit_left 9 op ++ text ": "))

  -- The result codes from Ok on.
  abbrev pub rescodes : List ℕ
  rescodes = range (e.rescode_number ResultCode.ok) e.rescode_max

  -- `rc == RpcResultCodeMax - 1 ? '\n' : ' '`
  abbrev pub separator : ℕ → ℕ
  separator rc = if rc == e.rescode_max - 1 then b'\n' else b' '

  unfoldable pub rescode_headings : List ℕ → List ℕ
  rescode_headings [] = []
  rescode_headings (rc ∷ rcs) =
      fit_right 14 (tags.str_rescode rc) ++ (separator rc ∷ rescode_headings rcs)

  unfoldable pub rescode_counters : Cell → List ℕ → List ℕ
  rescode_counters cell [] = []
  rescode_counters cell (rc ∷ rcs) =
      right 14 (decimal (cell.rescode rc)) ++ (separator rc ∷ rescode_counters cell rcs)

  -- The heading of the table, after the empty line above it.
  unfoldable pub rpc_heading : List ℕ
  unfolding rescode_headings
  rpc_heading =
      label (text "Object") (text "Operation")
      ++ (fit_right 14 (text "sent")
          ++ (b' '
              ∷ (fit_right 14 (text "replied")
                  ++ (b' '
                      ∷ (fit_right 14 (text "unk-error") ++ (b' ' ∷ rescode_headings rescodes))))))

  -- The row of an object type and an operation.
  unfoldable pub rpc_row : Cell → ℕ → ℕ → List ℕ
  unfolding rescode_counters
  rpc_row cell ot op =
      label (tags.str_object_type ot) (tags.str_rpc_op op)
      ++ (right 14 (decimal cell.sent)
          ++ (b' '
              ∷ (right 14 (decimal cell.replied)
                  ++ (b' '
                      ∷ (right 14 (decimal cell.unk_err)
                          ++ (b' ' ∷ rescode_counters cell rescodes))))))

  -- The combinations that the source calls not possible.
  unfoldable pub excluded : ℕ → ℕ → Bool
  excluded ot op =
      ((ot == tags.conn_info_type && not (op == e.op_code RpcOp.connect))
        || (not (ot == tags.conn_info_type) && op == e.op_code RpcOp.connect))
      || (op == e.op_code RpcOp.update && not (ot == tags.ip_route_type))

  -- The operations of one object type that have a row: the inner loop.
  unfoldable pub shown_ops : ℕ → List ℕ → List (ℕ × ℕ)
  unfolding excluded
  shown_ops ot [] = []
  shown_ops ot (op ∷ ops) = if excluded ot op then shown_ops ot ops else (ot, op) ∷ shown_ops ot ops

  -- The outer loop.
  unfoldable pub shown_of : List ℕ → List (ℕ × ℕ)
  unfolding shown_ops
  shown_of [] = []
  shown_of (ot ∷ ots) = shown_ops ot (range (e.op_code RpcOp.connect) e.max_rpc_op) ++ shown_of ots

  unfoldable pub shown : List (ℕ × ℕ)
  unfolding shown_of
  shown = shown_of (range (tags.none_type + 1) e.max_obj_type)

  unfoldable pub rpc_rows : State → List (ℕ × ℕ) → List ℕ
  unfolding rpc_row
  rpc_rows s [] = []
  rpc_rows s ((ot, op) ∷ more) = rpc_row (s.stats.requests ot op) ot op ++ rpc_rows s more

  unfoldable pub hh_vty_show_stats_rpc : State → List ℕ
  unfolding rpc_rows rpc_heading shown
  hh_vty_show_stats_rpc s =
      text
        "  ──────────────────────────────────────────── RPC statistics ────────────────────────────────────────────\n"
      ++ (b'\n' ∷ (rpc_heading ++ (rpc_rows s shown ++ text "\n\n")))

  abbrev yes_no : Bool → List ℕ
  yes_no true = text "yes\n"
  yes_no false = text "no\n"

  unfoldable pub hh_vty_show_stats : State → List ℕ
  unfolding hh_vty_show_stats_io hh_vty_show_stats_serialization hh_vty_show_stats_rpc_control
      hh_vty_show_stats_rpc
  hh_vty_show_stats s =
      text " Dataplane sock connected: "
      ++ (yes_no (dplane_sock_is_connected s)
          ++ (text " Dataplane ready (configured): "
              ++ (yes_no s.comm.dplane_is_ready
                  ++ (hh_vty_show_stats_io s
                      ++ (hh_vty_show_stats_serialization s
                          ++ (hh_vty_show_stats_rpc_control s ++ hh_vty_show_stats_rpc s))))))
