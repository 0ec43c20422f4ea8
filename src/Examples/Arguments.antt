-- ===== src/Examples/Arguments.antt =====
-- The options on the example.
use dplane_plugin.Base.{
  ℕ, zero, suc, ◌≡◌, List, [], ◌∷◌, none, some, take, ltb, true, refl, inl, inr, arith,
}
use dplane_plugin.World.Monad.{Post}
use dplane_plugin.Options.{
  plugin_args_tokenize, ArgV, Supply, Heap, spins, strtok, token_of, skip_delims, split_token,
}
use dplane_plugin.Options.Memory.{Owes}
use dplane_plugin.Options.Starved.{plugin_args_tokenize-spins}
use dplane_plugin.Options.Getopts.Frame.{PathsOnly, plugin_args_parse-Frees}
use dplane_plugin.Options.Tokens.{words}
use dplane_plugin.Options.Words.{Yields, plugin_args_tokenize-words}
use dplane_plugin.Options.Getopts.{
  GetoptResult, plugin_long_opts, build_short_opts, plugin_args_parse, process_plugin_opt,
}
use dplane_plugin.Options.Getopts.Parse.{HasPaths, Requires, plugin_args_parse-HasPaths}
use dplane_plugin.Examples.{env, state}

-- "-l  a"
abbrev pub text : List ℕ
text = b'-' ∷ b'l' ∷ b' ' ∷ b' ' ∷ b'a' ∷ []

-- The option that the text has, and the end.
abbrev pub getopt_long : ArgV → List ℕ → ℕ → GetoptResult
getopt_long args short zero = GetoptResult.option b'l' (some (b'a' ∷ [])) none
getopt_long args short (suc k) = GetoptResult.eof

getopt_long-Requires : (args : ArgV) (short : List ℕ) (k : ℕ) → Requires (getopt_long args short k)
getopt_long-Requires args short zero = tt
getopt_long-Requires args short (suc k) = tt

-- Memory is found always, and for the first two copies only.
abbrev pub plenty : Supply
plenty k = true

abbrev scarce : Supply
scarce k = ltb k 2

abbrev pub heap : Heap
heap = record { calls = 0; allocs = 0; frees = 0 }

plugin_args_tokenize-words_example :
    Yields
      ((b'p' ∷ []) ∷ (b'-' ∷ b'l' ∷ []) ∷ (b'a' ∷ []) ∷ [])
      (plugin_args_tokenize plenty 62 (b'p' ∷ []) text heap)
plugin_args_tokenize-words_example =
    plugin_args_tokenize-words plenty (λ k. refl) 62 (b'p' ∷ []) text heap (omega arith)

plugin_args_tokenize-spins_example : plugin_args_tokenize scarce 1000 (b'p' ∷ []) text heap ≡ spins
unfolding strtok token_of skip_delims split_token
plugin_args_tokenize-spins_example =
    plugin_args_tokenize-spins scarce 1000 (b'p' ∷ []) (b'-' ∷ b'l' ∷ []) text heap refl refl refl
      (λ j. ground arith)

plugin_args_parse-Frees_example :
    Post
      (Unit {0})
      (Unit {0})
      (λ r t. PathsOnly state t × Owes heap 0 r.1)
      (plugin_args_parse plenty 62 getopt_long
        (b'p' ∷ [])
        text
        plugin_long_opts
        (process_plugin_opt env)
        2
        heap
        state)
plugin_args_parse-Frees_example =
    plugin_args_parse-Frees env plenty 62 getopt_long (b'p' ∷ []) text plugin_long_opts 2 heap state

plugin_args_parse-HasPaths_example :
    Post ⊥ ⊥
      (λ _ t. HasPaths t)
      (plugin_args_parse plenty 62 getopt_long
        (b'p' ∷ [])
        text
        plugin_long_opts
        (process_plugin_opt env)
        2
        heap
        state)
plugin_args_parse-HasPaths_example =
    plugin_args_parse-HasPaths env plenty 62 getopt_long (b'p' ∷ []) text 2 heap state (λ k. refl)
      (omega arith) (inr (inl tt))
      (getopt_long-Requires ((b'p' ∷ []) ∷ take 62 (words text))
        (build_short_opts plugin_long_opts))
      ((omega arith, omega arith), (omega arith, omega arith))
