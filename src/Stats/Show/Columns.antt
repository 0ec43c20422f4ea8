-- ===== src/Stats/Show/Columns.antt =====
-- The table of src/hh_dp_rpc_stats.c while its counters have 14 digits at most: its columns are straight,
-- and a line read back by its columns gives the counters.
use dplane_plugin.Base.{
  ℕ, zero, suc, ◌+◌, ◌-◌, ◌*◌, ◌^◌, ◌<◌, ◌≡◌, refl, ◌∙◌, sym, ap, arith, List, [], ◌∷◌, ◌++◌, All,
  length, length-append, take, replicate,
}
use dplane_plugin.Base.Text.{
  text, decimal, right, fit_right, fit_left, length-right, length-left, length-take_le,
  length-digits, value, value-decimal,
}
use dplane_plugin.World.Env.{Env}
use dplane_plugin.World.State.{Cell}
use dplane_plugin.Stats.Show.{
  Tags, label, rescodes, rescode_headings, rescode_counters, rpc_heading, rpc_row, counters,
  separator,
}

-- The number fits into its column.
abbrev pub IsShort : ℕ → Type 0
IsShort n = n < 10 ^ 14

pub length-decimal : (n : ℕ) → IsShort n → length (right 14 (decimal n)) ≡ 14
unfolding decimal
length-decimal n h = length-right 14 (decimal n) (omega (arith, length-digits 20 13 n [] h))

length-fit_right : (w : ℕ) (s : List ℕ) → length (fit_right w s) ≡ w
length-fit_right w s = length-right w (take w s) (length-take_le w s)

length-fit_left : (w : ℕ) (s : List ℕ) → length (fit_left w s) ≡ w
length-fit_left w s = length-left w (take w s) (length-take_le w s)

-- Every counter of the cell fits.
pub record IsNarrow (c : Cell) : Type 0 where
  pub sent : IsShort c.sent
  pub replied : IsShort c.replied
  pub unk_err : IsShort c.unk_err
  pub rescode : (rc : ℕ) → IsShort (c.rescode rc)

module _ (e : Env) (tags : Tags) where
  length-label : (object op : List ℕ) → length (label e tags object op) ≡ 22
  length-label object op = omega (
    arith,
    length-append (fit_right 10 object) (b':' ∷ (fit_left 9 op ++ text ": ")),
    length-append (fit_left 9 op) (text ": "),
    length-fit_right 10 object,
    length-fit_left 9 op,
  )

  length-rescode_headings : (rcs : List ℕ) → length (rescode_headings e tags rcs) ≡ 15 * length rcs
  unfolding rescode_headings
  length-rescode_headings [] = omega arith
  length-rescode_headings (rc ∷ rcs) = omega (
    arith,
    length-append (fit_right 14 (tags.str_rescode rc))
        (separator e tags rc ∷ rescode_headings e tags rcs),
    length-fit_right 14 (tags.str_rescode rc),
    length-rescode_headings rcs,
  )

  length-rescode_counters :
      (c : Cell) (rcs : List ℕ)
      → IsNarrow c
      → length (rescode_counters e tags c rcs) ≡ 15 * length rcs
  unfolding rescode_counters
  length-rescode_counters c [] h = omega arith
  length-rescode_counters c (rc ∷ rcs) h = omega (
    arith,
    length-append (right 14 (decimal (c.rescode rc)))
        (separator e tags rc ∷ rescode_counters e tags c rcs),
    length-decimal (c.rescode rc) (h.rescode rc),
    length-rescode_counters c rcs h,
  )

-- Three columns of 14, each with a blank behind it.
length-three :
    (l a b c r : List ℕ)
    → length a ≡ 14
    → length b ≡ 14
    → length c ≡ 14
    → length (l ++ (a ++ (b' ' ∷ (b ++ (b' ' ∷ (c ++ (b' ' ∷ r))))))) ≡ length l + 45 + length r
length-three l a b c r ha hb hc = omega (
  arith,
  length-append l (a ++ (b' ' ∷ (b ++ (b' ' ∷ (c ++ (b' ' ∷ r)))))),
  length-append a (b' ' ∷ (b ++ (b' ' ∷ (c ++ (b' ' ∷ r))))),
  length-append b (b' ' ∷ (c ++ (b' ' ∷ r))),
  length-append c (b' ' ∷ r),
  ha,
  hb,
  hc,
)

-- Each row of the table is as long as its heading, if no counter of the row has more than 14 digits.
pub rpc_row-heading :
    (e : Env) (tags : Tags) (c : Cell) (ot op : ℕ)
    → IsNarrow c
    → length (rpc_row e tags c ot op) ≡ length (rpc_heading e tags)
unfolding rpc_row rpc_heading
rpc_row-heading e tags c ot op h =
    length-three (label e tags (tags.str_object_type ot) (tags.str_rpc_op op)) _ _ _
      (rescode_counters e tags c (rescodes e tags)) (length-decimal c.sent h.sent)
      (length-decimal c.replied h.replied) (length-decimal c.unk_err h.unk_err)
    ∙ omega (
      arith,
      length-label e tags (tags.str_object_type ot) (tags.str_rpc_op op),
      length-label e tags (text "Object") (text "Operation"),
      length-rescode_counters e tags c (rescodes e tags) h,
      length-rescode_headings e tags (rescodes e tags),
    )
    ∙ sym (
        length-three (label e tags (text "Object") (text "Operation")) (fit_right 14 (text "sent"))
          (fit_right 14 (text "replied")) (fit_right 14 (text "unk-error"))
          (rescode_headings e tags (rescodes e tags)) (length-fit_right 14 (text "sent"))
          (length-fit_right 14 (text "replied")) (length-fit_right 14 (text "unk-error")))

-- Reading a line by its columns: a blank, and 14 characters of which the blanks count for nothing.
abbrev pub drop : ℕ → List ℕ → List ℕ
drop zero s = s
drop (suc n) [] = []
drop (suc n) (c ∷ s) = drop n s

abbrev pub read_columns : ℕ → List ℕ → List ℕ
read_columns zero s = []
read_columns (suc k) s = value 0 (take 14 (drop 1 s)) ∷ read_columns k (drop 15 s)

take-append : (n : ℕ) (xs ys : List ℕ) → length xs ≡ n → take n (xs ++ ys) ≡ xs
take-append zero [] ys h = refl
take-append zero (x ∷ xs) ys h = absurd (omega (arith, h))
take-append (suc n) [] ys h = absurd (omega (arith, h))
take-append (suc n) (x ∷ xs) ys h = ap (λ l. x ∷ l) (take-append n xs ys (omega (arith, h)))

drop-append : (n : ℕ) (xs ys : List ℕ) → length xs ≡ n → drop n (xs ++ ys) ≡ ys
drop-append zero [] ys h = refl
drop-append zero (x ∷ xs) ys h = absurd (omega (arith, h))
drop-append (suc n) [] ys h = absurd (omega (arith, h))
drop-append (suc n) (x ∷ xs) ys h = drop-append n xs ys (omega (arith, h))

-- Blanks in front of a number count for nothing.
value-blanks : (k : ℕ) (s : List ℕ) → value 0 (replicate k 32 ++ s) ≡ value 0 s
value-blanks zero s = refl
value-blanks (suc k) s = value-blanks k s

value-column : (n : ℕ) → IsShort n → value 0 (right 14 (decimal n)) ≡ n
value-column n h =
    value-blanks (14 - length (decimal n)) (decimal n) ∙ value-decimal n (omega (arith, h))

-- A line of counters, read back by its columns, gives the counters, if none has more than 14 digits.
pub read_columns-counters :
    (ns : List ℕ) → All IsShort ns → read_columns (length ns) (counters ns) ≡ ns
unfolding counters
read_columns-counters [] h = refl
read_columns-counters (n ∷ ns) (h, hs) =
    let column = right 14 (decimal n) in
    let same : length column ≡ 14 = length-decimal n h in
    let first : value 0 (take 14 (column ++ counters ns)) ≡ n =
      ap (value 0) (take-append 14 column (counters ns) same) ∙ value-column n h in
    let others : read_columns (length ns) (drop 14 (column ++ counters ns)) ≡ ns =
      ap (read_columns (length ns)) (drop-append 14 column (counters ns) same)
      ∙ read_columns-counters ns hs in
    λ i. first i ∷ others i
