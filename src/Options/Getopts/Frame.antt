-- ===== src/Options/Getopts/Frame.antt =====
-- Parsing the options touches nothing but the two paths, and frees what it allocates.
use dplane_plugin.Base.{
  ℕ, zero, suc, ◌≡◌, refl, ◌∙◌, ap, List, Option, none, some, ◌==◌, not, ◌&&◌, is_some, Bool-cases,
  inl, inr,
}
use dplane_plugin.World.Env.{Env}
use dplane_plugin.World.State.{State, on_comm}
use dplane_plugin.World.Monad.{
  M, Rc, success, failure, Post, Post-bind, Post-bug, Post-if, Post-weaken,
}
use dplane_plugin.Comm.Socket.{
  is_valid_unix_path, set_dp_sock_local_path, set_dp_sock_remote_path, strncpy_path,
}
use dplane_plugin.Options.{
  Supply, Heap, ArgV, Tokenized, done, undefined, spins, plugin_args_tokenize,
}
use dplane_plugin.Options.Memory.{Owes, Leaves, plugin_args_free-Owes, plugin_args_tokenize-Leaves}
use dplane_plugin.Options.Getopts.{
  GetoptResult, LongOpt, is_required, hit_opt, after_callback, process_hit, process_opt,
  plugin_getopts, set_path, process_plugin_opt, finish_parse, parse_args, plugin_args_parse,
  build_short_opts,
}

-- Nothing but the two paths has changed.
pub record PathsOnly (s t : State) : Type 0 where
  pub local_path : List ℕ
  pub remote_path : List ℕ
  pub rest :
      t ≡ on_comm (λ c. record c { plugin_sock_path = local_path; dp_sock_path = remote_path }) s

PathsOnly-refl : (s : State) → PathsOnly s s
PathsOnly-refl s = record {
  local_path = s.comm.plugin_sock_path;
  remote_path = s.comm.dp_sock_path;
  rest = refl;
}

PathsOnly-trans : {s t u : State} → PathsOnly s t → PathsOnly t u → PathsOnly s u
PathsOnly-trans {s} {t} {u} h j = record {
  local_path = j.local_path;
  remote_path = j.remote_path;
  rest =
      j.rest
      ∙ ap
          (on_comm
            (λ c. record c { plugin_sock_path = j.local_path; dp_sock_path = j.remote_path }))
          h.rest;
}

local-PathsOnly : (p : List ℕ) (s : State) → PathsOnly s (set_dp_sock_local_path p s).1
unfolding set_dp_sock_local_path
local-PathsOnly p s = elim (Bool-cases (is_valid_unix_path p)) [
  | inl b ↦
      rw b (record { local_path = strncpy_path p; remote_path = s.comm.dp_sock_path; rest = refl })
  | inr b ↦ rw b (PathsOnly-refl s)
]

remote-PathsOnly : (p : List ℕ) (s : State) → PathsOnly s (set_dp_sock_remote_path p s).1
unfolding set_dp_sock_remote_path
remote-PathsOnly p s = elim (Bool-cases (is_valid_unix_path p)) [
  | inl b ↦
      rw b
        (record { local_path = s.comm.plugin_sock_path; remote_path = strncpy_path p; rest = refl })
  | inr b ↦ rw b (PathsOnly-refl s)
]

-- What an action does whenever it returns.
abbrev Touches : {A : Type 0} → M A → Type 0
Touches m = (s : State) → Post (Unit {0}) (Unit {0}) (λ _ t. PathsOnly s t) (m s)

module _ (e : Env) where
  process_plugin_opt-Touches :
      (val : ℕ) (optarg : Option (List ℕ)) (o : LongOpt)
      → Touches (process_plugin_opt e val optarg o)
  unfolding process_plugin_opt
  process_plugin_opt-Touches val optarg o s =
      Post-if (Unit {0}) (Unit {0}) (λ _ t. PathsOnly s t) (val == 0) _ _ s (λ _. PathsOnly-refl s)
        (λ _.
          Post-if (Unit {0}) (Unit {0}) (λ _ t. PathsOnly s t) (val == 108) _ _ s
            (λ _. set-Touches set_dp_sock_local_path local-PathsOnly optarg)
            (λ _.
              Post-if (Unit {0}) (Unit {0}) (λ _ t. PathsOnly s t) (val == 114) _ _ s
                (λ _. set-Touches set_dp_sock_remote_path remote-PathsOnly optarg)
                (λ _. PathsOnly-refl s)))
    where
      set-Touches :
          (set : List ℕ → State → Rc × State)
          → ((p : List ℕ) (t : State) → PathsOnly t (set p t).1)
          → (o : Option (List ℕ))
          → Post (Unit {0}) (Unit {0}) (λ _ t. PathsOnly s t) (set_path e set o s)
      set-Touches set touch none =
          unfold set_path in
          Post-bug (Unit {0}) (Unit {0}) (λ _ t. PathsOnly s t) e failure s (λ _. tt)
            (λ _. PathsOnly-refl s)
      set-Touches set touch (some p) = unfold set_path in touch p s

  hit-Touches :
      (rest : M Rc) (val : ℕ) (optarg : Option (List ℕ)) (o : Option LongOpt)
      → Touches rest
      → Touches (process_hit (process_plugin_opt e) rest val optarg o)
  unfolding process_hit
  hit-Touches rest val optarg none more s = PathsOnly-refl s
  hit-Touches rest val optarg (some o) more s =
      Post-if (Unit {0}) (Unit {0}) (λ _ t. PathsOnly s t)
        (is_required o.has_arg && not (is_some optarg)) _ _ s (λ _. PathsOnly-refl s)
        (λ _.
          Post-bind (Unit {0}) (Unit {0}) (λ _ t. PathsOnly s t) (λ _ t. PathsOnly s t)
            (process_plugin_opt e val optarg o) (after_callback rest) s
            (process_plugin_opt-Touches val optarg o s) (goes_on s))
    where
      goes_on :
          (s : State) (r : Rc) (t : State)
          → PathsOnly s t
          → Post (Unit {0}) (Unit {0}) (λ _ u. PathsOnly s u) (after_callback rest r t)
      goes_on s success t h =
          unfold after_callback in
          Post-weaken _ _ (rest t) (λ f. f) (λ g. g) (λ _ u j. PathsOnly-trans h j) (more t)
      goes_on s failure t h = unfold after_callback in h

  plugin_getopts-Touches :
      (getopt : ℕ → GetoptResult) (opts : List LongOpt) (n k : ℕ)
      → Touches (plugin_getopts getopt opts (process_plugin_opt e) n k)
  unfolding plugin_getopts
  plugin_getopts-Touches getopt opts zero k s = tt
  plugin_getopts-Touches getopt opts (suc n) k s =
      by_result (getopt k) (plugin_getopts getopt opts (process_plugin_opt e) n (suc k))
        (plugin_getopts-Touches getopt opts n (suc k)) s
    where
      by_result :
          (g : GetoptResult) (rest : M Rc)
          → Touches rest
          → Touches (process_opt (process_plugin_opt e) opts rest g)
      by_result GetoptResult.eof rest more s = unfold process_opt in PathsOnly-refl s
      by_result GetoptResult.unknown rest more s = unfold process_opt in PathsOnly-refl s
      by_result (GetoptResult.option val optarg entry) rest more s =
          unfold process_opt in hit-Touches rest val optarg (hit_opt opts val entry) more s

  parse_args-Frees :
      (getopt_long : ArgV → List ℕ → ℕ → GetoptResult) (opts : List LongOpt) (n : ℕ) (h : Heap)
      (o : Tokenized) (s : State)
      → Leaves h 0 o
      → Post
          (Unit {0})
          (Unit {0})
          (λ r t. PathsOnly s t × Owes h 0 r.1)
          (parse_args getopt_long opts (process_plugin_opt e) n o s)
  unfolding parse_args finish_parse
  parse_args-Frees getopt_long opts n h (done success a) s i =
      Post-bind (Unit {0}) (Unit {0}) (λ _ t. PathsOnly s t) (λ r t. PathsOnly s t × Owes h 0 r.1)
        (plugin_getopts (getopt_long a.argv (build_short_opts opts)) opts (process_plugin_opt e) n
          0)
        (finish_parse a) s
        (plugin_getopts-Touches (getopt_long a.argv (build_short_opts opts)) opts n 0 s)
        (λ r t j. (j, plugin_args_free-Owes h a i))
  parse_args-Frees getopt_long opts n h (done failure a) s i = (PathsOnly-refl s, i)
  parse_args-Frees getopt_long opts n h undefined s i = tt
  parse_args-Frees getopt_long opts n h spins s i = tt

  -- Whatever memory `strdup` finds and whatever `getopt_long` reports, parsing the options changes
  -- nothing of the plugin but the two paths whenever it returns, and has freed as many texts as it has
  -- allocated.
  pub plugin_args_parse-Frees :
      (supply : Supply) (k : ℕ) (getopt_long : ArgV → List ℕ → ℕ → GetoptResult)
      (argv0 text : List ℕ) (opts : List LongOpt) (n : ℕ) (h : Heap) (s : State)
      → Post
          (Unit {0})
          (Unit {0})
          (λ r t. PathsOnly s t × Owes h 0 r.1)
          (plugin_args_parse supply k getopt_long argv0 text opts (process_plugin_opt e) n h s)
  unfolding plugin_args_parse
  plugin_args_parse-Frees supply k getopt_long argv0 text opts n h s =
      parse_args-Frees getopt_long opts n h (plugin_args_tokenize supply k argv0 text h) s
        (plugin_args_tokenize-Leaves supply h k argv0 text)
