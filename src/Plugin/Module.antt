-- ===== src/Plugin/Module.antt =====
-- src/hh_dp_plugin.c, the start of the module: FRR loads it (`module_init`), calls its hook
-- (`init_hh_dplane_plugin`), and later the callbacks of the provider that the hook registers.
use dplane_plugin.Base.{ℕ, List, [], ◌∷◌, Option, none, some, Bool, true, ◌==◌, if◌then◌else◌}
use dplane_plugin.World.Env.{Env}
use dplane_plugin.World.State.{State, on_zebra}
use dplane_plugin.World.Monad.{M, Rc, success, failure, returns, pure, abort, ◌>>=◌}
use dplane_plugin.Options.{Supply, Heap, ArgV}
use dplane_plugin.Options.Getopts.{
  GetoptResult, plugin_long_opts, process_plugin_opt, plugin_args_parse,
}
use dplane_plugin.Plugin.{zd_hh_start, zd_hh_process, zd_hh_fini}

-- "Hedgehog-GW-plugin"
abbrev pub plugin_name : List ℕ
plugin_name =
    b'H' ∷ b'e' ∷ b'd' ∷ b'g' ∷ b'e' ∷ b'h' ∷ b'o' ∷ b'g' ∷ b'-' ∷ b'G' ∷ b'W' ∷ b'-' ∷ b'p' ∷ b'l'
    ∷ b'u' ∷ b'g' ∷ b'i' ∷ b'n' ∷ []

pub data Priority : Type 0 where
  pre_kernel : Priority

pub data Flags : Type 0 where
  default_flags : Flags

-- What is registered with FRR: the callbacks of the provider.
pub record Provider : Type 0 where
  pub name : List ℕ
  pub priority : Priority
  pub flags : Flags
  pub start : M (Unit {0})
  pub process : M (Unit {0})
  pub fini : Bool → State → State

-- What FRR keeps of the module: its hook, its provider, the extra info on interfaces that it asked for;
-- and the memory of its options.
pub record Module : Type 0 where
  pub late_init : Bool
  pub provider : Option Provider
  pub extra_info : Bool
  pub heap : Heap

-- The arguments of `dplane_provider_register`; `n` bounds the connections that are lost in a row.
abbrev pub hh_provider : Env → ℕ → Provider
hh_provider e n = record {
  name = plugin_name;
  priority = pre_kernel;
  flags = default_flags;
  start = zd_hh_start e n;
  process = zd_hh_process e n;
  fini = zd_hh_fini;
}

-- `dplane_provider_register` returns `ret`; once it succeeds it has set `prov_p`.
unfoldable pub init_hh_dplane_plugin : Env → ℕ → ℕ → Module → M (ℕ × Module)
init_hh_dplane_plugin e n ret m s =
    if ret == 0
    then returns (0, record m { provider = some (hh_provider e n); extra_info = true })
        (on_zebra (λ z. record z { registered = true }) s)
    else returns (ret, m) s

-- The hook is registered once the options were parsed.
unfoldable pub after_parse : Module → Rc × Heap → M (ℕ × Module)
after_parse m (failure, h) = pure (1, record m { heap = h })
after_parse m (success, h) = pure (0, record m { late_init = true; heap = h })

-- `load_args` is NULL where the module is loaded without arguments; `strlen` then reads through it.
unfoldable pub module_init :
    Env
    → Supply
    → ℕ
    → (ArgV → List ℕ → ℕ → GetoptResult)
    → ℕ
    → Option (List ℕ)
    → Module
    → M (ℕ × Module)
module_init e supply k getopt_long n none m = abort
module_init e supply k getopt_long n (some load_args) m =
    plugin_args_parse supply k getopt_long plugin_name load_args plugin_long_opts
      (process_plugin_opt e) n m.heap
    >>= after_parse m
