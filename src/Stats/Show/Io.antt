-- ===== src/Stats/Show/Io.antt =====
-- What src/hh_dp_rpc_stats.c prints of the datagrams, read back as a table: each label of the heading
-- with the number that stands under it.
use dplane_plugin.Base.{ℕ, zero, suc, ◌≡◌, ap, List, [], ◌∷◌, All, take, ◌==◌, if◌then◌else◌}
use dplane_plugin.Base.Text.{text}
use dplane_plugin.World.State.{State, Stats}
use dplane_plugin.Stats.Show.{headings, hh_vty_show_stats_io}
use dplane_plugin.Stats.Show.Columns.{IsShort, drop, read_columns, read_columns-counters}

-- What follows the first end of a line.
abbrev after_line : List ℕ → List ℕ
after_line [] = []
after_line (c ∷ s) = if c == b'\n' then s else after_line s

abbrev skip_blanks : List ℕ → List ℕ
skip_blanks [] = []
skip_blanks (c ∷ s) = if c == b' ' then skip_blanks s else c ∷ s

-- The words of a line by its columns of 14, a blank before each.
abbrev read_labels : ℕ → List ℕ → List (List ℕ)
read_labels zero s = []
read_labels (suc k) s = skip_blanks (take 14 (drop 1 s)) ∷ read_labels k (drop 15 s)

abbrev paired : List (List ℕ) → List ℕ → List (List ℕ × ℕ)
paired (l ∷ ls) (n ∷ ns) = (l, n) ∷ paired ls ns
paired _ _ = []

-- The table of a text whose second line is a heading of k columns and whose third has the numbers.
abbrev pub read_table : ℕ → List ℕ → List (List ℕ × ℕ)
read_table k s = paired (read_labels k (after_line s)) (read_columns k (after_line (after_line s)))

-- Every counter of datagrams fits into its column.
pub record IsShortIo (c : Stats) : Type 0 where
  pub tx_ok : IsShort c.tx_ok
  pub tx_failure : IsShort c.tx_failure
  pub tx_eagain : IsShort c.tx_eagain
  pub rx_ok : IsShort c.rx_ok
  pub rx_failure : IsShort c.rx_failure
  pub rx_eagain : IsShort c.rx_eagain

-- The text on the datagrams, read back as a table, has under each label the counter that it names: those
-- sent, failed and to be retried, and those received, failed and to be retried, if none of the six has
-- more than 14 digits.
pub read_table-hh_vty_show_stats_io :
    (s : State)
    → IsShortIo s.stats
    → read_table 6 (hh_vty_show_stats_io s)
      ≡ (text "tx", s.stats.tx_ok)
        ∷ (text "tx-fail", s.stats.tx_failure)
        ∷ (text "tx-retry", s.stats.tx_eagain)
        ∷ (text "rx", s.stats.rx_ok)
        ∷ (text "rx-fail", s.stats.rx_failure)
        ∷ (text "rx-retry", s.stats.rx_eagain)
        ∷ []
unfolding hh_vty_show_stats_io headings
read_table-hh_vty_show_stats_io s h =
    let labels =
      text "tx"
      ∷ text "tx-fail"
      ∷ text "tx-retry"
      ∷ text "rx"
      ∷ text "rx-fail"
      ∷ text "rx-retry"
      ∷ [] in
    let c = s.stats in
    let numbers =
      c.tx_ok ∷ c.tx_failure ∷ c.tx_eagain ∷ c.rx_ok ∷ c.rx_failure ∷ c.rx_eagain ∷ [] in
    let short : All IsShort numbers =
      (h.tx_ok, (h.tx_failure, (h.tx_eagain, (h.rx_ok, (h.rx_failure, (h.rx_eagain, tt)))))) in
    ap (paired labels) (read_columns-counters numbers short)
