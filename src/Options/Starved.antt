-- ===== src/Options/Starved.antt =====
-- Splitting the options of src/hh_dp_utils.c once `strdup` finds no memory: `strtok_r` is started at the
-- same place again and again.
use dplane_plugin.Base.{
  ℕ, zero, suc, ◌+◌, ◌≡◌, refl, ◌∙◌, sym, ap, subst, arith, List, [], ◌∷◌, Option, none, some, true,
  false, ltb, ◌==◌, length, Bool-cases, inl, inr, if◌then◌else◌,
}
use dplane_plugin.World.Monad.{success}
use dplane_plugin.Options.{
  Supply, Heap, PluginArgs, strdup, plugin_args_push, plugin_args_init, is_delim, skip_delims,
  split_token, token_of, strtok, cut, Tokenized, done, spins, push_found, push_next, push_tokens,
  free_dup, split_dup, plugin_args_tokenize, max_args,
}

-- The text has a token, and this is the first.
abbrev pub Begins : List ℕ → List ℕ → Type 0
Begins t text = (strtok text).0 ≡ some t

module _ (c : ℕ) (cs : List ℕ) where
  split_token-cons :
      is_delim c ≡ false → split_token (c ∷ cs) ≡ (c ∷ (split_token cs).0, (split_token cs).1)
  unfolding split_token
  split_token-cons b =
      ap (λ x. if x then ([], cs) else (c ∷ (split_token cs).0, (split_token cs).1)) b

  strtok-skip : is_delim c ≡ true → strtok (c ∷ cs) ≡ strtok cs
  unfolding strtok skip_delims
  strtok-skip b = ap (λ x. token_of (if x then skip_delims cs else c ∷ cs)) b

  strtok-token : is_delim c ≡ false → (strtok (c ∷ cs)).0 ≡ some (split_token (c ∷ cs)).0
  unfolding strtok skip_delims token_of
  strtok-token b = ap (λ x. (token_of (if x then skip_delims cs else c ∷ cs)).0) b

  cut-skip : is_delim c ≡ true → cut (c ∷ cs) ≡ c ∷ cut cs
  unfolding cut
  cut-skip b = ap (λ x. if x then c ∷ cut cs else (split_token (c ∷ cs)).0) b

  cut-token : is_delim c ≡ false → cut (c ∷ cs) ≡ (split_token (c ∷ cs)).0
  unfolding cut
  cut-token b = ap (λ x. if x then c ∷ cut cs else (split_token (c ∷ cs)).0) b

-- A token has no delimiter in it: splitting it again takes it whole.
split_token-token : (text : List ℕ) → (split_token (split_token text).0).0 ≡ (split_token text).0
split_token-token [] = unfold split_token in refl
split_token-token (c ∷ cs) = elim (Bool-cases (is_delim c)) [
  | inl b ↦ unfold split_token in rw b refl
  | inr b ↦
      ap (λ p. (split_token p.0).0) (split_token-cons c cs b)
      ∙ ap (λ p. p.0) (split_token-cons c (split_token cs).0 b)
      ∙ ap (λ l. c ∷ l) (split_token-token cs)
      ∙ sym (ap (λ p. p.0) (split_token-cons c cs b))
]

-- What `strtok_r` leaves of the text begins with the same token.
cut-Begins : (t text : List ℕ) → Begins t text → Begins t (cut text)
cut-Begins t [] h = unfold cut in h
cut-Begins t (c ∷ cs) h = elim (Bool-cases (is_delim c)) [
  | inl b ↦
      ap (λ l. (strtok l).0) (cut-skip c cs b)
      ∙ ap (λ r. r.0) (strtok-skip c (cut cs) b)
      ∙ cut-Begins t cs (ap (λ r. r.0) (sym (strtok-skip c cs b)) ∙ h)
  | inr b ↦
      ap (λ l. (strtok l).0) (cut-token c cs b ∙ ap (λ p. p.0) (split_token-cons c cs b))
      ∙ strtok-token c (split_token cs).0 b
      ∙ ap (λ l. some (split_token l).0) (sym (ap (λ p. p.0) (split_token-cons c cs b)))
      ∙ ap some (split_token-token (c ∷ cs))
      ∙ sym (strtok-token c cs b)
      ∙ h
]

-- From the call with this number on, `strdup` finds nothing.
abbrev pub FailsFrom : Supply → ℕ → Type 0
FailsFrom supply n = (j : ℕ) → supply (n + j) ≡ false

module _ (supply : Supply) where
  -- A copy that finds no memory leaves the arguments as they are.
  push-fails :
      (t : List ℕ) (a : PluginArgs)
      → length a.argv ≡ 1
      → supply a.heap.calls ≡ false
      → (plugin_args_push supply t a).1 ≡ record {
        argv = a.argv;
        heap = record a.heap { calls = a.heap.calls + 1; allocs = a.heap.allocs };
      }
  unfolding plugin_args_push strdup
  push-fails t a one dry = ground (arith, one, dry)

  init-succeeds :
      (argv0 : List ℕ) (h : Heap)
      → supply h.calls ≡ true
      → (plugin_args_init supply argv0 h).1 ≡ record {
        argv = argv0 ∷ [];
        heap = record h { calls = h.calls + 1; allocs = h.allocs + 1 };
      }
  unfolding plugin_args_init plugin_args_push strdup
  init-succeeds argv0 h name = ground (arith, name)

  push_tokens-spins :
      (k : ℕ) (t dup : List ℕ) (saveptr : Option (List ℕ)) (a : PluginArgs)
      → length a.argv ≡ 1
      → FailsFrom supply a.heap.calls
      → Begins t dup
      → push_tokens supply k dup saveptr a ≡ spins
  unfolding push_tokens push_next push_found
  push_tokens-spins zero t dup saveptr a one dry begins = refl
  push_tokens-spins (suc k) t dup saveptr a one dry begins =
      ap
        (λ x.
          push_next supply (λ rest. push_tokens supply k (if x then cut dup else dup) (some rest))
            (if x then some dup else saveptr) a)
        (is_one (length a.argv) one)
      ∙ ap (λ o. push_found supply more o a) begins
      ∙ ap (λ b. if ltb (length b.argv) max_args then more b else done success b)
          (push-fails t a one (subst (λ n. supply n ≡ false) (omega arith) (dry 0)))
      ∙ ap (λ n. if ltb n max_args then more b else done success b) one
      ∙ push_tokens-spins k t (cut dup) (some (strtok dup).1) b one
          (λ j. subst (λ n. supply n ≡ false) (omega arith) (dry (1 + j))) (cut-Begins t dup begins)
    where
      more : PluginArgs → Tokenized
      more = push_tokens supply k (cut dup) (some (strtok dup).1)

      b : PluginArgs
      b = record {
        argv = a.argv;
        heap = record a.heap { calls = a.heap.calls + 1; allocs = a.heap.allocs };
      }

      is_one : (n : ℕ) → n ≡ 1 → (n == 1) ≡ true
      is_one n h = ground (arith, h)

  -- If `strdup` finds memory for the name and for the text and for nothing after that, splitting a text
  -- that has a word never ends: it takes the first word again and again.
  pub plugin_args_tokenize-spins :
      (k : ℕ) (argv0 t text : List ℕ) (h : Heap)
      → Begins t text
      → supply h.calls ≡ true
      → supply (h.calls + 1) ≡ true
      → FailsFrom supply (h.calls + 2)
      → plugin_args_tokenize supply k argv0 text h ≡ spins
  unfolding plugin_args_tokenize split_dup strdup free_dup
  plugin_args_tokenize-spins k argv0 t [] h begins name copy dry = absurd (none_begins begins)
    where
      none_begins : ¬ Begins t []
      none_begins b = unfold strtok skip_delims token_of in cc
  plugin_args_tokenize-spins k argv0 t (c ∷ cs) h begins name copy dry =
      ap
        (λ b.
          if length (c ∷ cs) == 0
          then done success b
          else split_dup supply k (c ∷ cs) b.argv (strdup supply b.heap))
        (init-succeeds argv0 h name)
      ∙ ap
          (λ x.
            if x
            then done success named
            else split_dup supply k (c ∷ cs) named.argv (strdup supply named.heap))
          (nonempty (length cs))
      ∙ ap
          (λ ok. split_dup supply k (c ∷ cs) named.argv (
            ok,
            record named.heap {
              calls = h.calls + 1 + 1;
              allocs = if ok then h.allocs + 1 + 1 else h.allocs + 1;
            },
          ))
          copy
      ∙ ap free_dup (
          push_tokens-spins k t (c ∷ cs) none
            (record {
              argv = named.argv;
              heap = record named.heap { calls = h.calls + 1 + 1; allocs = h.allocs + 1 + 1 };
            })
            (omega arith) (λ j. subst (λ n. supply n ≡ false) (omega arith) (dry j)) begins)
    where
      named : PluginArgs
      named = record {
        argv = argv0 ∷ [];
        heap = record h { calls = h.calls + 1; allocs = h.allocs + 1 };
      }

      nonempty : (n : ℕ) → (suc n == 0) ≡ false
      nonempty n = ground arith
