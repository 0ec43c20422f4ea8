-- ===== src/Options/Words.antt =====
-- The arguments are the words of the text, as many as there is room for, if memory is found for each.
use dplane_plugin.Base.{
  ℕ, zero, suc, ◌+◌, ◌-◌, ◌≤◌, ◌<◌, ◌≡◌, refl, ◌∙◌, sym, ap, subst, arith, List, [], ◌∷◌, ◌++◌,
  append-nil, append_assoc, Option, none, some, Bool, true, false, ltb, leb, ◌==◌, length, take,
  length-append, Bool-cases, inl, inr, ◌⊎◌, if◌then◌else◌,
}
use dplane_plugin.World.Monad.{success, failure}
use dplane_plugin.Options.{
  Supply, Heap, ArgV, PluginArgs, strdup, push_copy, plugin_args_push, plugin_args_init, strtok,
  cut, Tokenized, done, undefined, spins, push_found, push_next, push_tokens, free_dup, split_dup,
  plugin_args_tokenize,
}
use dplane_plugin.Options.Tokens.{words, from_token, words-strtok}

-- `strdup` finds memory whenever it is called.
abbrev pub IsPlenty : Supply → Type 0
IsPlenty supply = (k : ℕ) → supply k ≡ true

-- Splitting has succeeded with these arguments.
abbrev pub Yields : ArgV → Tokenized → Type 0
Yields l (done success a) = a.argv ≡ l
Yields l _ = ⊥

leb-false : (a b : ℕ) → b < a → leb a b ≡ false
leb-false a b h = ground (arith, h)

-- A token is pushed while there is room.
pub push-room :
    (supply : Supply) (t : List ℕ) (a : PluginArgs)
    → IsPlenty supply
    → length a.argv < 63
    → ((plugin_args_push supply t a).1).argv ≡ a.argv ++ t ∷ []
unfolding plugin_args_push strdup
push-room supply t a plenty room =
    ap (λ b. ((if b then (failure, a) else push_copy t a.argv (strdup supply a.heap)).1).argv)
      (leb-false 63 (length a.argv) room)
    ∙ ap (λ b. ((push_copy t a.argv (b, (strdup supply a.heap).1)).1).argv) (plenty a.heap.calls)

take-nil : (n : ℕ) → take {A = List ℕ} n [] ≡ []
take-nil zero = refl
take-nil (suc n) = refl

abbrev filled : ArgV → List (List ℕ) → ArgV
filled a ws = a ++ take (63 - length a) ws

-- One more word, where there is room for it.
filled-cons :
    (a : ArgV) (t : List ℕ) (ws : List (List ℕ))
    → length a < 63
    → filled (a ++ t ∷ []) ws ≡ filled a (t ∷ ws)
filled-cons a t ws room =
    append_assoc a (t ∷ []) (take (63 - length (a ++ t ∷ [])) ws)
    ∙ ap (λ n. a ++ take n (t ∷ ws)) one_less
  where
    one_less : suc (63 - length (a ++ t ∷ [])) ≡ 63 - length a
    one_less = omega (arith, length-append a (t ∷ []), room)

-- Where there is no room, nothing more is taken.
filled-full : (a : ArgV) (ws : List (List ℕ)) → ltb (length a) 63 ≡ false → a ≡ filled a ws
filled-full a ws full = sym (ap (λ n. a ++ take n ws) none_left ∙ append-nil a)
  where
    none_left : 63 - length a ≡ 0
    none_left = ground (arith, full)

module _ (supply : Supply) (plenty : IsPlenty supply) where
  found-words :
      (more : PluginArgs → Tokenized) (r : Option (List ℕ) × List ℕ) (a : PluginArgs)
      → length a.argv < 63
      → ((b : PluginArgs)
          → length b.argv ≡ suc (length a.argv)
          → length b.argv < 63
          → Yields (filled b.argv (words r.1)) (more b))
      → Yields (filled a.argv (from_token r)) (push_found supply more r.0 a)
  unfolding push_found
  found-words more (none, rest) a room ih =
      sym (ap (◌++◌ a.argv) (take-nil (63 - length a.argv)) ∙ append-nil a.argv)
  found-words more (some t, rest) a room ih = by_room (Bool-cases (ltb (length b.argv) 63))
    where
      b : PluginArgs
      b = (plugin_args_push supply t a).1

      pushed : b.argv ≡ a.argv ++ t ∷ []
      pushed = push-room supply t a plenty room

      longer : length b.argv ≡ suc (length a.argv)
      longer = ap length pushed ∙ omega (arith, length-append a.argv (t ∷ []))

      same : filled b.argv (words rest) ≡ filled a.argv (t ∷ words rest)
      same = ap (λ l. filled l (words rest)) pushed ∙ filled-cons a.argv t (words rest) room

      by_room :
          (ltb (length b.argv) 63 ≡ true) ⊎ (ltb (length b.argv) 63 ≡ false)
          → Yields
              (filled a.argv (t ∷ words rest))
              (if ltb (length b.argv) 63 then more b else done success b)
      by_room (inl h) =
          subst
            (λ x. Yields (filled a.argv (t ∷ words rest)) (if x then more b else done success b))
            (sym h) (subst (λ l. Yields l (more b)) same (ih b longer (ground (arith, h))))
      by_room (inr h) =
          subst
            (λ x. Yields (filled a.argv (t ∷ words rest)) (if x then more b else done success b))
            (sym h) (filled-full b.argv (words rest) h ∙ same)

  -- The rounds of the loop push the words that there is room for.
  push_tokens-words :
      (k : ℕ) (dup : List ℕ) (saveptr : Option (List ℕ)) (text : List ℕ) (a : PluginArgs)
      → (if length a.argv == 1 then some dup else saveptr) ≡ some text
      → 0 < length a.argv
      → length a.argv < 63
      → 63 ≤ k + length a.argv
      → Yields (filled a.argv (words text)) (push_tokens supply k dup saveptr a)
  unfolding push_tokens push_next
  push_tokens-words zero dup saveptr text a from some_arg room enough =
      absurd (omega (arith, room, enough))
  push_tokens-words (suc k) dup saveptr text a from some_arg room enough =
      subst (λ o. Yields (filled a.argv (words text)) (push_next supply more o a)) (sym from)
        (subst (λ ws. Yields (filled a.argv ws) (push_next supply more (some text) a))
          (sym (words-strtok text))
          (found-words (more (strtok text).1) (strtok text) a room (λ b longer short.
            push_tokens-words k (if length a.argv == 1 then cut dup else dup) (some (strtok text).1)
              (strtok text).1 b (goes_on b longer) (omega (arith, longer)) short
              (omega (arith, longer, enough)))))
    where
      more : List ℕ → PluginArgs → Tokenized
      more rest = push_tokens supply k (if length a.argv == 1 then cut dup else dup) (some rest)

      goes_on :
          (b : PluginArgs)
          → length b.argv ≡ suc (length a.argv)
          → (if length b.argv == 1
              then some (if length a.argv == 1 then cut dup else dup)
              else some (strtok text).1)
            ≡ some (strtok text).1
      goes_on b longer =
          ap
            (λ x.
              if x
              then some (if length a.argv == 1 then cut dup else dup)
              else some (strtok text).1)
            (later (length b.argv) (omega (arith, longer, some_arg)))
        where
          later : (n : ℕ) → 1 < n → (n == 1) ≡ false
          later n h = ground (arith, h)

  free_dup-Yields : (l : ArgV) (o : Tokenized) → Yields l o → Yields l (free_dup o)
  unfolding free_dup
  free_dup-Yields l (done success a) h = h
  free_dup-Yields l (done failure a) h = elim h [ ]
  free_dup-Yields l undefined h = elim h [ ]
  free_dup-Yields l spins h = elim h [ ]

  split-words :
      (k : ℕ) (text : List ℕ) (argv : ArgV) (r : Bool × Heap)
      → r.0 ≡ true
      → length argv ≡ 1
      → 62 ≤ k
      → Yields (filled argv (words text)) (split_dup supply k text argv r)
  unfolding split_dup
  split-words k text argv (true, h) got one enough = free_dup-Yields (filled argv (words text)) _ (
      push_tokens-words k text none text (record { argv = argv; heap = h })
        (ap (λ n. if n == 1 then some text else none) one) (omega (arith, one)) (omega (arith, one))
        (omega (arith, one, enough)))
  split-words k text argv (false, h) got one enough = cc

  -- If memory is found for each copy, the arguments are the name and, in their order, the first 62 words
  -- of the text; 62 rounds are enough for every text.
  pub plugin_args_tokenize-words :
      (k : ℕ) (argv0 text : List ℕ) (h : Heap)
      → 62 ≤ k
      → Yields (argv0 ∷ take 62 (words text)) (plugin_args_tokenize supply k argv0 text h)
  unfolding plugin_args_tokenize plugin_args_init
  plugin_args_tokenize-words k argv0 text h enough = by_text text
    where
      a : PluginArgs
      a = (plugin_args_init supply argv0 h).1

      name : a.argv ≡ argv0 ∷ []
      name = push-room supply argv0 (record { argv = []; heap = h }) plenty (omega arith)

      by_text :
          (t : List ℕ)
          → Yields (argv0 ∷ take 62 (words t)) (
              if length t == 0
              then done success a
              else split_dup supply k t a.argv (strdup supply a.heap))
      by_text [] = name
      by_text (c ∷ cs) =
          subst
            (λ x. Yields (argv0 ∷ take 62 (words (c ∷ cs))) (
              if x
              then done success a
              else split_dup supply k (c ∷ cs) a.argv (strdup supply a.heap)))
            (sym (nonempty (length cs)))
            (subst
              (λ l.
                Yields (filled l (words (c ∷ cs)))
                  (split_dup supply k (c ∷ cs) a.argv (strdup supply a.heap)))
              name
              (split-words k (c ∷ cs) a.argv (strdup supply a.heap)
                (unfold strdup in plenty a.heap.calls) (ap length name) enough))
        where
          nonempty : (n : ℕ) → (suc n == 0) ≡ false
          nonempty n = ground arith
