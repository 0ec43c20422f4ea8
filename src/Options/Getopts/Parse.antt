-- ===== src/Options/Getopts/Parse.antt =====
-- Parsing the plugin's options: it ends, it reads no argument that is not there, and it leaves two
-- paths that were accepted.
use dplane_plugin.Base.{
  ℕ, zero, suc, ◌*◌, ◌≤◌, ◌≡◌, refl, sym, subst, arith, List, [], ◌∷◌, Option, none, some, true,
  ◌==◌, ◌⊎◌, inl, inr, Bool-cases, length, length-append, take,
}
use dplane_plugin.World.Env.{Env}
use dplane_plugin.World.State.{State}
use dplane_plugin.World.Monad.{M, Rc, success, failure, Post, Post-bind, Post-if}
use dplane_plugin.Comm.Socket.{
  max_sun_path, is_valid_unix_path, set_dp_sock_local_path, set_dp_sock_remote_path,
}
use dplane_plugin.Comm.Socket.Paths.{IsAccepted, take-length}
use dplane_plugin.Options.{
  Supply, Heap, ArgV, Tokenized, done, undefined, spins, plugin_args_tokenize,
}
use dplane_plugin.Options.Tokens.{words}
use dplane_plugin.Options.Words.{IsPlenty, Yields, plugin_args_tokenize-words}
use dplane_plugin.Options.Getopts.{
  finish_parse, parse_args, plugin_args_parse, HasArg, LongOpt, GetoptResult, colons,
  build_short_opts, find_opt, is_required, after_callback, process_hit, process_opt, plugin_getopts,
  plugin_long_opts, local_option, remote_option, set_path, process_plugin_opt,
}

-- The short options need at most three octets for each option.
pub build_short_opts-length :
    (opts : List LongOpt) → length (build_short_opts opts) ≤ 3 * length opts
unfolding build_short_opts
build_short_opts-length [] = omega arith
build_short_opts-length (o ∷ os) = omega (
  arith,
  build_short_opts-length os,
  length-append (colons o.has_arg) (build_short_opts os),
  short o.has_arg,
)
  where
    short : (h : HasArg) → length (colons h) ≤ 2
    short HasArg.no_argument = omega arith
    short HasArg.required_argument = omega arith
    short HasArg.optional_argument = omega arith

-- Both paths are of 1 to 108 octets.
abbrev pub HasPaths : State → Type 0
HasPaths s = IsAccepted s.comm.plugin_sock_path × IsAccepted s.comm.dp_sock_path

-- An entry that `getopt_long` reports requires an argument, as all of the plugin's do.
abbrev pub Requires : GetoptResult → Type 0
Requires (GetoptResult.option val optarg (some o)) = is_required o.has_arg ≡ true
Requires _ = Unit

-- `getopt_long` has come to the end, or to an option that it does not know.
abbrev IsStop : GetoptResult → Type 0
IsStop (GetoptResult.option val optarg entry) = ⊥
IsStop _ = Unit

-- It does so within n calls from the k-th on.
abbrev pub Stops : (ℕ → GetoptResult) → ℕ → ℕ → Type 0
Stops getopt zero k = ⊥
Stops getopt (suc n) k = IsStop (getopt k) ⊎ Stops getopt n (suc k)

taken : (p : List ℕ) → is_valid_unix_path p ≡ true → IsAccepted (take max_sun_path p)
unfolding is_valid_unix_path
taken p h = subst IsAccepted (sym (take-length max_sun_path p fits.1)) fits
  where
    fits : IsAccepted p
    fits = ground (arith, h)

local-HasPaths : (p : List ℕ) (s : State) → HasPaths s → HasPaths (set_dp_sock_local_path p s).1
unfolding set_dp_sock_local_path
local-HasPaths p s h = elim (Bool-cases (is_valid_unix_path p)) [
  | inl b ↦ rw b (taken p b, h.1)
  | inr b ↦ rw b h
]

remote-HasPaths : (p : List ℕ) (s : State) → HasPaths s → HasPaths (set_dp_sock_remote_path p s).1
unfolding set_dp_sock_remote_path
remote-HasPaths p s h = elim (Bool-cases (is_valid_unix_path p)) [
  | inl b ↦ rw b (h.0, taken p b)
  | inr b ↦ rw b h
]

module _ (e : Env) where
  process-HasPaths :
      (val : ℕ) (p : List ℕ) (o : LongOpt) (s : State)
      → HasPaths s
      → Post ⊥ ⊥ (λ _ t. HasPaths t) (process_plugin_opt e val (some p) o s)
  unfolding process_plugin_opt set_path
  process-HasPaths val p o s h =
      Post-if ⊥ ⊥ (λ _ t. HasPaths t) (val == 0) _ _ s (λ _. h)
        (λ _.
          Post-if ⊥ ⊥ (λ _ t. HasPaths t) (val == 108) _ _ s (λ _. local-HasPaths p s h)
            (λ _.
              Post-if ⊥ ⊥ (λ _ t. HasPaths t) (val == 114) _ _ s (λ _. remote-HasPaths p s h)
                (λ _. h)))

  hit-HasPaths :
      (rest : M Rc) (val : ℕ) (optarg : Option (List ℕ)) (o : LongOpt) (s : State)
      → is_required o.has_arg ≡ true
      → ((t : State) → HasPaths t → Post ⊥ ⊥ (λ _ u. HasPaths u) (rest t))
      → HasPaths s
      → Post ⊥ ⊥ (λ _ t. HasPaths t) (process_hit (process_plugin_opt e) rest val optarg (some o) s)
  unfolding process_hit after_callback
  hit-HasPaths rest val none o s req more h = rw req h
  hit-HasPaths rest val (some p) o s req more h = rw req (
      Post-bind ⊥ ⊥ (λ _ t. HasPaths t) (λ _ t. HasPaths t) (process_plugin_opt e val (some p) o)
        (after_callback rest) s (process-HasPaths val p o s h) (goes_on rest more))
    where
      goes_on :
          (rest : M Rc)
          → ((t : State) → HasPaths t → Post ⊥ ⊥ (λ _ u. HasPaths u) (rest t))
          → (r : Rc) (t : State) → HasPaths t
          → Post ⊥ ⊥ (λ _ u. HasPaths u) (after_callback rest r t)
      goes_on rest more success t j = more t j
      goes_on rest more failure t j = j

  -- An option that is not reported with its entry is looked up.
  looked_up-HasPaths :
      (rest : M Rc) (val : ℕ) (optarg : Option (List ℕ)) (s : State)
      → ((t : State) → HasPaths t → Post ⊥ ⊥ (λ _ u. HasPaths u) (rest t))
      → HasPaths s
      → Post ⊥ ⊥
          (λ _ t. HasPaths t)
          (process_hit (process_plugin_opt e) rest val optarg (find_opt val plugin_long_opts) s)
  unfolding find_opt process_hit
  looked_up-HasPaths rest val optarg s more h = elim (Bool-cases (108 == val)) [
    | inl b ↦ rw b (hit-HasPaths rest val optarg local_option s refl more h)
    | inr b ↦ elim (Bool-cases (114 == val)) [
      | inl c ↦ rw (b, c) (hit-HasPaths rest val optarg remote_option s refl more h)
      | inr c ↦ rw (b, c) (unknown h)
    ]
  ]
    where
      unknown :
          HasPaths s
          → Post ⊥ ⊥ (λ _ t. HasPaths t) (process_hit (process_plugin_opt e) rest val optarg none s)
      unknown h = h

  opt-HasPaths :
      (rest : M Rc) (g : GetoptResult) (s : State)
      → Requires g
      → (¬ IsStop g → (t : State) → HasPaths t → Post ⊥ ⊥ (λ _ u. HasPaths u) (rest t))
      → HasPaths s
      → Post ⊥ ⊥ (λ _ t. HasPaths t) (process_opt (process_plugin_opt e) plugin_long_opts rest g s)
  unfolding process_opt
  opt-HasPaths rest GetoptResult.eof s req more h = h
  opt-HasPaths rest GetoptResult.unknown s req more h = h
  opt-HasPaths rest (GetoptResult.option val optarg none) s req more h =
      looked_up-HasPaths rest val optarg s (more (λ x. x)) h
  opt-HasPaths rest (GetoptResult.option val optarg (some o)) s req more h =
      hit-HasPaths rest val optarg o s req (more (λ x. x)) h

  -- If `getopt_long` ends within n calls and reports only entries that require an argument, parsing
  -- the options ends without an abort, and two paths of 1 to 108 octets stay such.
  pub plugin_getopts-HasPaths :
      (getopt : ℕ → GetoptResult) (n k : ℕ) (s : State)
      → Stops getopt n k
      → ((j : ℕ) → Requires (getopt j))
      → HasPaths s
      → Post ⊥ ⊥
          (λ _ t. HasPaths t)
          (plugin_getopts getopt plugin_long_opts (process_plugin_opt e) n k s)
  unfolding plugin_getopts
  plugin_getopts-HasPaths getopt zero k s stops req h = stops
  plugin_getopts-HasPaths getopt (suc n) k s stops req h =
      opt-HasPaths (plugin_getopts getopt plugin_long_opts (process_plugin_opt e) n (suc k))
        (getopt k) s (req k)
        (λ go t j. plugin_getopts-HasPaths getopt n (suc k) t (later stops go) req j) h
    where
      later : {A B : Type 0} → A ⊎ B → ¬ A → B
      later (inl a) no_a = absurd (no_a a)
      later (inr b) no_a = b

  parse_args-HasPaths :
      (getopt_long : ArgV → List ℕ → ℕ → GetoptResult) (l : ArgV) (n : ℕ) (o : Tokenized)
      (s : State)
      → Yields l o
      → Stops (getopt_long l (build_short_opts plugin_long_opts)) n 0
      → ((j : ℕ) → Requires (getopt_long l (build_short_opts plugin_long_opts) j))
      → HasPaths s
      → Post ⊥ ⊥
          (λ _ t. HasPaths t)
          (parse_args getopt_long plugin_long_opts (process_plugin_opt e) n o s)
  unfolding parse_args finish_parse
  parse_args-HasPaths getopt_long l n (done success a) s is stops req h =
      Post-bind ⊥ ⊥ (λ _ t. HasPaths t) (λ _ t. HasPaths t)
        (plugin_getopts (getopt_long a.argv (build_short_opts plugin_long_opts)) plugin_long_opts
          (process_plugin_opt e) n 0)
        (finish_parse a) s
        (plugin_getopts-HasPaths (getopt_long a.argv (build_short_opts plugin_long_opts)) n 0 s
          (subst (λ v. Stops (getopt_long v (build_short_opts plugin_long_opts)) n 0) (sym is)
            stops)
          (λ j.
            subst (λ v. Requires (getopt_long v (build_short_opts plugin_long_opts) j)) (sym is)
              (req j))
          h)
        (λ r t j. j)
  parse_args-HasPaths getopt_long l n (done failure a) s is stops req h = elim is [ ]
  parse_args-HasPaths getopt_long l n undefined s is stops req h = elim is [ ]
  parse_args-HasPaths getopt_long l n spins s is stops req h = elim is [ ]

  -- If memory is found for each copy, the arguments that `getopt_long` gets are the name and the first
  -- 62 words of the text. If it ends within n calls on them and reports only entries that require an
  -- argument, parsing the text ends without an abort, and two paths of 1 to 108 octets stay such.
  pub plugin_args_parse-HasPaths :
      (supply : Supply) (k : ℕ) (getopt_long : ArgV → List ℕ → ℕ → GetoptResult)
      (argv0 text : List ℕ) (n : ℕ) (h : Heap) (s : State)
      → IsPlenty supply
      → 62 ≤ k
      → Stops (getopt_long (argv0 ∷ take 62 (words text)) (build_short_opts plugin_long_opts)) n 0
      → ((j : ℕ)
          → Requires
              (getopt_long (argv0 ∷ take 62 (words text)) (build_short_opts plugin_long_opts) j))
      → HasPaths s
      → Post ⊥ ⊥
          (λ _ t. HasPaths t)
          (plugin_args_parse supply k getopt_long argv0 text plugin_long_opts
            (process_plugin_opt e)
            n
            h
            s)
  unfolding plugin_args_parse
  plugin_args_parse-HasPaths supply k getopt_long argv0 text n h s plenty enough stops req paths =
      parse_args-HasPaths getopt_long (argv0 ∷ take 62 (words text)) n
        (plugin_args_tokenize supply k argv0 text h) s
        (plugin_args_tokenize-words supply plenty k argv0 text h enough) stops req paths
