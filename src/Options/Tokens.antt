-- ===== src/Options/Tokens.antt =====
-- The words of a text, and that `strtok_r` takes the next one, for src/hh_dp_utils.c.
use dplane_plugin.Base.{
  ℕ, ◌≡◌, refl, ◌∙◌, sym, ap, arith, List, [], ◌∷◌, Option, none, some, Bool, true, false, not,
  Bool-cases, inl, inr, ◌⊎◌, if◌then◌else◌,
}
use dplane_plugin.Options.{is_delim, skip_delims, split_token, token_of, strtok}

-- The maximal runs of octets other than the blank.
abbrev begins_word : List ℕ → Bool
begins_word [] = false
begins_word (c ∷ cs) = not (is_delim c)

abbrev glue : ℕ → Bool → List (List ℕ) → List (List ℕ)
glue c true (w ∷ ws) = (c ∷ w) ∷ ws
glue c _ ws = (c ∷ []) ∷ ws

abbrev pub words : List ℕ → List (List ℕ)
words [] = []
words (c ∷ cs) = if is_delim c then words cs else glue c (begins_word cs) (words cs)

words-skip_delims : (t : List ℕ) → words (skip_delims t) ≡ words t
unfolding skip_delims
words-skip_delims [] = refl
words-skip_delims (c ∷ cs) = elim (Bool-cases (is_delim c)) [
  | inl b ↦ rw b (words-skip_delims cs)
  | inr b ↦ ap (λ x. words (if x then skip_delims cs else c ∷ cs)) b
]

-- The token and the words of the rest.
abbrev first_word : List ℕ × List ℕ → List (List ℕ)
first_word p = p.0 ∷ words p.1

is_false : (b : Bool) → not b ≡ true → b ≡ false
is_false b h = ground arith

words-split_token :
    (c : ℕ) (cs : List ℕ)
    → is_delim c ≡ false
    → words (c ∷ cs) ≡ (split_token (c ∷ cs)).0 ∷ words (split_token (c ∷ cs)).1
unfolding split_token
words-split_token c [] h = rw h refl
words-split_token c (d ∷ ds) h = elim (Bool-cases (is_delim d)) [
  | inl b ↦ rw (h, b) refl
  | inr b ↦
      ap (λ x. if x then words (d ∷ ds) else glue c (begins_word (d ∷ ds)) (words (d ∷ ds))) h
      ∙ ap (λ x. glue c (not x) (words (d ∷ ds))) b
      ∙ ap (glue c true) (words-split_token d ds b)
      ∙ ap
          (λ x.
            first_word (
              if x then ([], d ∷ ds) else (c ∷ (split_token (d ∷ ds)).0, (split_token (d ∷ ds)).1)))
          (sym h)
]

-- The words of a text, by the token that `strtok` finds.
abbrev pub from_token : Option (List ℕ) × List ℕ → List (List ℕ)
from_token (none, rest) = []
from_token (some t, rest) = t ∷ words rest

-- What `skip_delims` leaves begins with no delimiter.
token_of-words :
    (t : List ℕ)
    → (begins_word (skip_delims t) ≡ true) ⊎ (skip_delims t ≡ [])
    → words (skip_delims t) ≡ from_token (strtok t)
unfolding strtok token_of
token_of-words t h = by_list (skip_delims t) h
  where
    by_list : (l : List ℕ) → (begins_word l ≡ true) ⊎ (l ≡ []) → words l ≡ from_token (token_of l)
    by_list [] h = refl
    by_list (c ∷ cs) (inl b) = words-split_token c cs (is_false (is_delim c) b)
    by_list (c ∷ cs) (inr e) = cc

skip_delims-begins : (t : List ℕ) → (begins_word (skip_delims t) ≡ true) ⊎ (skip_delims t ≡ [])
unfolding skip_delims
skip_delims-begins [] = inr refl
skip_delims-begins (c ∷ cs) = elim (Bool-cases (is_delim c)) [
  | inl b ↦ rw b (skip_delims-begins cs)
  | inr b ↦ inl (ap (λ x. begins_word (if x then skip_delims cs else c ∷ cs)) b ∙ ap not b)
]

pub words-strtok : (t : List ℕ) → words t ≡ from_token (strtok t)
words-strtok t = sym (words-skip_delims t) ∙ token_of-words t (skip_delims-begins t)
