-- ===== src/Options.antt =====
-- src/hh_dp_utils.c: splitting the text of the plugin's options into arguments. A text is the list of
-- its octets, and a pointer that the source takes to be set is a value. Memory is a parameter: what
-- `strdup` finds.
pub mod Tokens
pub mod Words
pub mod Memory
pub mod Starved
pub mod Getopts
use dplane_plugin.Base.{
  ℕ, zero, suc, ◌+◌, List, [], ◌∷◌, ◌++◌, Option, none, some, Bool, true, false, ltb, leb, ◌==◌,
  length, if◌then◌else◌,
}
use dplane_plugin.World.Monad.{Rc, success, failure}

-- `MAX_ARGS - 1`, the room for arguments.
abbrev pub max_args : ℕ
max_args = 63

-- Whether the k-th call of `strdup` finds memory.
abbrev pub Supply : Type 0
Supply = ℕ → Bool

-- How often `strdup` was called, how often it found memory, and how often a text was freed.
pub record Heap : Type 0 where
  pub calls : ℕ
  pub allocs : ℕ
  pub frees : ℕ

unfoldable pub strdup : Supply → Heap → Bool × Heap
strdup supply h =
    let ok = supply h.calls in
    (ok, record h { calls = h.calls + 1; allocs = if ok then h.allocs + 1 else h.allocs })

abbrev pub free : Heap → Heap
free h = record h { frees = h.frees + 1 }

-- The first `argc` entries of `argv`.
abbrev pub ArgV : Type 0
ArgV = List (List ℕ)

-- `struct plugin_args`, and the memory that its texts are in.
pub record PluginArgs : Type 0 where
  pub argv : ArgV
  pub heap : Heap

-- The loop of `plugin_args_free`, which ends with `argc` at 0.
free_args : ArgV → Heap → Heap
free_args [] h = h
free_args (t ∷ ts) h = free_args ts (free h)

unfoldable pub plugin_args_free : PluginArgs → PluginArgs
unfolding free_args
plugin_args_free a = record { argv = []; heap = free_args a.argv a.heap }

-- The entry that `strdup` made, if it did.
abbrev push_copy : List ℕ → ArgV → Bool × Heap → Rc × PluginArgs
push_copy token argv (true, h) = (success, record { argv = argv ++ token ∷ []; heap = h })
push_copy token argv (false, h) = (failure, record { argv = argv; heap = h })

unfoldable pub plugin_args_push : Supply → List ℕ → PluginArgs → Rc × PluginArgs
plugin_args_push supply token a =
    if leb max_args (length a.argv)
    then (failure, a)
    else push_copy token a.argv (strdup supply a.heap)

unfoldable pub plugin_args_init : Supply → List ℕ → Heap → Rc × PluginArgs
plugin_args_init supply argv0 h = plugin_args_push supply argv0 (record { argv = []; heap = h })

abbrev pub is_delim : ℕ → Bool
is_delim c = c == 32

-- `strtok_r` with the delimiter " ", on the text that is left: it skips delimiters, and the token ends
-- before the next delimiter, which is consumed.
unfoldable pub skip_delims : List ℕ → List ℕ
skip_delims [] = []
skip_delims (c ∷ cs) = if is_delim c then skip_delims cs else c ∷ cs

unfoldable pub split_token : List ℕ → List ℕ × List ℕ
split_token [] = ([], [])
split_token (c ∷ cs) =
    let (token, rest) = split_token cs in if is_delim c then ([], cs) else (c ∷ token, rest)

unfoldable pub token_of : List ℕ → Option (List ℕ) × List ℕ
token_of [] = (none, [])
token_of (c ∷ cs) = let (token, rest) = split_token (c ∷ cs) in (some token, rest)

unfoldable pub strtok : List ℕ → Option (List ℕ) × List ℕ
strtok text = token_of (skip_delims text)

-- What `strtok_r` leaves of the text that it is given: it ends the text after the token.
unfoldable pub cut : List ℕ → List ℕ
cut [] = []
cut (c ∷ cs) = if is_delim c then c ∷ cut cs else (split_token (c ∷ cs)).0

-- How splitting ends: with a result, with `strtok_r` reading a place that was never set, or not within
-- the rounds of the model.
pub data Tokenized : Type 0 where
  done : Rc → PluginArgs → Tokenized
  undefined spins : Tokenized

-- The body of the loop of `plugin_args_tokenize` on the token that was found, and the test at its end.
unfoldable pub push_found :
    Supply → (PluginArgs → Tokenized) → Option (List ℕ) → PluginArgs → Tokenized
push_found supply more none a = done success a
push_found supply more (some t) a =
    let b = (plugin_args_push supply t a).1 in
    if ltb (length b.argv) max_args then more b else done success b

-- `strtok_r` on the place given, with what is left behind it.
unfoldable pub push_next :
    Supply → (List ℕ → PluginArgs → Tokenized) → Option (List ℕ) → PluginArgs → Tokenized
push_next supply more none a = undefined
push_next supply more (some text) a =
    let (token, rest) = strtok text in push_found supply (more rest) token a

-- The loop, `k` rounds of it at most: `strtok_r` starts at `dup` while there is one argument, and goes
-- on at `saveptr` otherwise.
unfoldable pub push_tokens : Supply → ℕ → List ℕ → Option (List ℕ) → PluginArgs → Tokenized
push_tokens supply zero dup saveptr a = spins
push_tokens supply (suc k) dup saveptr a =
    let first = length a.argv == 1 in
    push_next supply (λ rest. push_tokens supply k (if first then cut dup else dup) (some rest))
      (if first then some dup else saveptr) a

-- `free(dup)`
unfoldable pub free_dup : Tokenized → Tokenized
free_dup (done r a) = done r (record a { heap = free a.heap })
free_dup undefined = undefined
free_dup spins = spins

-- Once `strdup(args_str)` has returned: the loop, or the label `fail`.
unfoldable pub split_dup : Supply → ℕ → List ℕ → ArgV → Bool × Heap → Tokenized
split_dup supply k text argv (true, h) =
    free_dup (push_tokens supply k text none (record { argv = argv; heap = h }))
split_dup supply k text argv (false, h) =
    done failure (plugin_args_free (record { argv = argv; heap = h }))

unfoldable pub plugin_args_tokenize : Supply → ℕ → List ℕ → List ℕ → Heap → Tokenized
plugin_args_tokenize supply k argv0 text h =
    let a = (plugin_args_init supply argv0 h).1 in
    if length text == 0
    then done success a
    else split_dup supply k text a.argv (strdup supply a.heap)
