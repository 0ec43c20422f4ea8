-- ===== src/Examples/Terminal.antt =====
-- The commands on the example.
use dplane_plugin.Base.{◌≤◌, ◌<◌, ◌≡◌, ◌↔◌, [], ◌∷◌, length, arith}
use dplane_plugin.Base.Text.{text}
use dplane_plugin.World.State.{State, Cell}
use dplane_plugin.Stats.Show.{Tags, hh_vty_show_stats_io, shown, rpc_row, rpc_heading}
use dplane_plugin.Stats.Show.Columns.{rpc_row-heading}
use dplane_plugin.Stats.Show.Io.{read_table, read_table-hh_vty_show_stats_io}
use dplane_plugin.Stats.Show.Rows.{Has, IsPossible, shown-IsPossible}
use dplane_plugin.Examples.{env, state}

abbrev tags : Tags
tags = record {
  none_type = 0;
  conn_info_type = 1;
  ip_route_type = 4;
  str_object_type = λ k. text "Object";
  str_rpc_op = λ k. text "Op";
  str_rescode = λ k. text "Ok";
}

abbrev cell : Cell
cell = record { sent = 12; replied = 11; unk_err = 0; rescode = λ k. 7 }

abbrev counted : State
counted = record state {
  stats = record state.stats {
    tx_ok = 12;
    tx_failure = 0;
    tx_eagain = 3;
    rx_ok = 9999;
    rx_failure = 1;
    rx_eagain = 2;
  };
}

shown-IsPossible_example :
    Has (4, 4) (shown env tags) ↔ ((0 < 4) × (4 < 5) × (1 ≤ 4) × (4 < 5) × IsPossible env tags 4 4)
shown-IsPossible_example = shown-IsPossible env tags 4 4

read_table-hh_vty_show_stats_io_example :
    read_table 6 (hh_vty_show_stats_io counted)
    ≡ (text "tx", 12)
      ∷ (text "tx-fail", 0)
      ∷ (text "tx-retry", 3)
      ∷ (text "rx", 9999)
      ∷ (text "rx-fail", 1)
      ∷ (text "rx-retry", 2)
      ∷ []
read_table-hh_vty_show_stats_io_example = read_table-hh_vty_show_stats_io counted (record {
  tx_ok = omega arith;
  tx_failure = omega arith;
  tx_eagain = omega arith;
  rx_ok = omega arith;
  rx_failure = omega arith;
  rx_eagain = omega arith;
})

rpc_row-heading_example : length (rpc_row env tags cell 4 2) ≡ length (rpc_heading env tags)
rpc_row-heading_example = rpc_row-heading env tags cell 4 2 (record {
  sent = omega arith;
  replied = omega arith;
  unk_err = omega arith;
  rescode = λ rc. omega arith;
})
