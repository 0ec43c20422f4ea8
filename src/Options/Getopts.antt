-- ===== src/Options/Getopts.antt =====
-- src/hh_dp_utils.c, the options themselves, and the callback of src/hh_dp_plugin.c that takes them.
-- `getopt_long` is a parameter: what its k-th call returns, with `optarg` and the entry at `indexp`.
pub mod Parse
pub mod Frame
use dplane_plugin.Base.{
  ℕ, zero, suc, ◌+◌, List, [], ◌∷◌, ◌++◌, Option, none, some, Bool, true, false, not, ◌&&◌, is_some,
  ◌==◌, if◌then◌else◌,
}
use dplane_plugin.World.Env.{Env}
use dplane_plugin.World.State.{State}
use dplane_plugin.World.Monad.{M, Rc, success, failure, returns, no_fuel, pure, abort, bug, ◌>>=◌}
use dplane_plugin.Comm.Socket.{set_dp_sock_local_path, set_dp_sock_remote_path}
use dplane_plugin.Options.{
  Supply, Heap, ArgV, PluginArgs, plugin_args_free, Tokenized, done, undefined, spins,
  plugin_args_tokenize,
}

pub data HasArg : Type 0 where
  no_argument required_argument optional_argument : HasArg

-- `struct option`; the array ends before its entry without a name.
pub record LongOpt : Type 0 where
  pub name : List ℕ
  pub has_arg : HasArg
  pub val : ℕ

pub data GetoptResult : Type 0 where
  eof unknown : GetoptResult
  option : ℕ → Option (List ℕ) → Option LongOpt → GetoptResult

abbrev colons : HasArg → List ℕ
colons HasArg.no_argument = []
colons HasArg.required_argument = b':' ∷ []
colons HasArg.optional_argument = b':' ∷ b':' ∷ []

unfoldable pub build_short_opts : List LongOpt → List ℕ
build_short_opts [] = []
build_short_opts (o ∷ os) = o.val ∷ (colons o.has_arg ++ build_short_opts os)

unfoldable pub find_opt : ℕ → List LongOpt → Option LongOpt
find_opt val [] = none
find_opt val (o ∷ os) = if o.val == val then some o else find_opt val os

abbrev pub Callback : Type 0
Callback = ℕ → Option (List ℕ) → LongOpt → M Rc

abbrev pub is_required : HasArg → Bool
is_required HasArg.required_argument = true
is_required _ = false

-- `indexp != INDEXP_UNSET ? &long_opts[indexp] : find_opt(opt, long_opts)`
abbrev pub hit_opt : List LongOpt → ℕ → Option LongOpt → Option LongOpt
hit_opt opts val none = find_opt val opts
hit_opt opts val (some o) = some o

-- `if (cb(…) != 0) return -1`
unfoldable pub after_callback : M Rc → Rc → M Rc
after_callback rest success = rest
after_callback rest failure = pure failure

-- The body of the loop once the option is looked up.
unfoldable pub process_hit : Callback → M Rc → ℕ → Option (List ℕ) → Option LongOpt → M Rc
process_hit cb rest val optarg none = pure failure
process_hit cb rest val optarg (some o) =
    if is_required o.has_arg && not (is_some optarg)
    then pure failure
    else (cb val optarg o >>= after_callback rest)

-- The body of the loop on what `getopt_long` returned.
unfoldable pub process_opt : Callback → List LongOpt → M Rc → GetoptResult → M Rc
process_opt cb opts rest GetoptResult.eof = pure success
process_opt cb opts rest GetoptResult.unknown = pure failure
process_opt cb opts rest (GetoptResult.option val optarg entry) =
    process_hit cb rest val optarg (hit_opt opts val entry)

-- The loop of `plugin_getopts` from the k-th call on, `n` rounds of it at most.
unfoldable pub plugin_getopts : (ℕ → GetoptResult) → List LongOpt → Callback → ℕ → ℕ → M Rc
plugin_getopts getopt opts cb zero k = λ s. no_fuel
plugin_getopts getopt opts cb (suc n) k =
    process_opt cb opts (plugin_getopts getopt opts cb n (suc k)) (getopt k)

abbrev local_dp_sock_path : List ℕ
local_dp_sock_path =
    b'l' ∷ b'o' ∷ b'c' ∷ b'a' ∷ b'l' ∷ b'-' ∷ b'd' ∷ b'p' ∷ b'-' ∷ b's' ∷ b'o' ∷ b'c' ∷ b'k' ∷ b'-'
    ∷ b'p' ∷ b'a' ∷ b't' ∷ b'h' ∷ []

abbrev remote_dp_sock_path : List ℕ
remote_dp_sock_path =
    b'r' ∷ b'e' ∷ b'm' ∷ b'o' ∷ b't' ∷ b'e' ∷ b'-' ∷ b'd' ∷ b'p' ∷ b'-' ∷ b's' ∷ b'o' ∷ b'c' ∷ b'k'
    ∷ b'-' ∷ b'p' ∷ b'a' ∷ b't' ∷ b'h' ∷ []

-- The options 'l' and 'r'.
abbrev pub local_option : LongOpt
local_option = record { name = local_dp_sock_path; has_arg = HasArg.required_argument; val = 108 }

abbrev pub remote_option : LongOpt
remote_option = record { name = remote_dp_sock_path; has_arg = HasArg.required_argument; val = 114 }

abbrev pub plugin_long_opts : List LongOpt
plugin_long_opts = local_option ∷ remote_option ∷ []

-- The two setters begin with `BUG(!path, -1)`.
unfoldable pub set_path : Env → (List ℕ → State → Rc × State) → Option (List ℕ) → M Rc
set_path e set none = bug e failure
set_path e set (some path) = λ s. let (r, t) = set path s in returns r t

unfoldable pub process_plugin_opt : Env → Callback
process_plugin_opt e val optarg long_opt =
    if val == 0
    then pure success
    else if val == 108
    then set_path e set_dp_sock_local_path optarg
    else if val == 114
    then set_path e set_dp_sock_remote_path optarg
    else pure failure

-- `plugin_args_free(&a)`, and the result.
unfoldable pub finish_parse : PluginArgs → Rc → M (Rc × Heap)
finish_parse a r = pure (r, (plugin_args_free a).heap)

-- `getopt_long` on the arguments and the short options is a function of the number of the call. A place
-- that was never set may be anywhere: reading there is taken to end the process.
unfoldable pub parse_args :
    (ArgV → List ℕ → ℕ → GetoptResult) → List LongOpt → Callback → ℕ → Tokenized → M (Rc × Heap)
parse_args getopt_long opts cb n spins = λ s. no_fuel
parse_args getopt_long opts cb n undefined = abort
parse_args getopt_long opts cb n (done failure a) = pure (failure, a.heap)
parse_args getopt_long opts cb n (done success a) =
    plugin_getopts (getopt_long a.argv (build_short_opts opts)) opts cb n 0 >>= finish_parse a

-- `k` bounds the rounds of the splitting, and `n` those of the loop over the options.
unfoldable pub plugin_args_parse :
    Supply
    → ℕ
    → (ArgV → List ℕ → ℕ → GetoptResult)
    → List ℕ
    → List ℕ
    → List LongOpt
    → Callback
    → ℕ
    → Heap
    → M (Rc × Heap)
plugin_args_parse supply k getopt_long argv0 args_str opts cb n h =
    parse_args getopt_long opts cb n (plugin_args_tokenize supply k argv0 args_str h)
