-- ===== src/Events/Life.antt =====
-- The plugin from its loading to its end: module_init,
-- init_hh_dplane_plugin, zd_hh_start, any run of the event loop, and zd_hh_fini, from
-- src/hh_dp_plugin.c.
use dplane_plugin.Base.{
  ℕ, ◌+◌, ◌≡◌, refl, ◌∙◌, sym, ap, subst, List, [], Option, some, none, true, false, arith,
}
use dplane_plugin.World.Env.{Env}
use dplane_plugin.World.Frr.{Ctx}
use dplane_plugin.World.State.{on_zebra, State}
use dplane_plugin.World.Monad.{
  Rc, success, failure, Post, Post-weaken, Post-bind, Post-and, returns,
}
use dplane_plugin.Cache.{fini_dp_msg_cache}
use dplane_plugin.Cache.Pool.{fini_dp_msg_cache-ids_in}
use dplane_plugin.Comm.Still.{dp_unix_sock_close-Still}
use dplane_plugin.Comm.Socket.{dp_unix_sock_close}
use dplane_plugin.Queues.{ids_in, held_in}
use dplane_plugin.Comm.Socket.Descriptors.{
  NoLeak, opened_by, closed_in, held, dp_unix_sock_close-none,
}
use dplane_plugin.Comm.Send.Calm.{Calm}
use dplane_plugin.Comm.Connect.{dp_connect, fini_dplane_rpc, init_dplane_rpc}
use dplane_plugin.Comm.Connect.Calm.{dp_connect-Calm}
use dplane_plugin.Comm.Connect.Start.{Started, init_dplane_rpc-Started}
use dplane_plugin.Comm.Connect.Links.{
  Retries, LinkedBy, init_dplane_rpc-Linked, fini_dplane_rpc-NoLeak,
}
use dplane_plugin.Plugin.{abort_on, zd_hh_start, zd_hh_fini}
use dplane_plugin.Events.{Reach}
use dplane_plugin.Events.Links.{Reach-NoLeak, Reach-Retries}
use dplane_plugin.Events.Safety.{Reach-Grows}
use dplane_plugin.Invariant.{Inv}
use dplane_plugin.Options.{Supply, Heap, ArgV}
use dplane_plugin.Options.Memory.{Owes}
use dplane_plugin.Options.Getopts.{
  GetoptResult, plugin_long_opts, process_plugin_opt, plugin_args_parse,
}
use dplane_plugin.Options.Getopts.Frame.{PathsOnly, plugin_args_parse-Frees}
use dplane_plugin.Plugin.Module.{
  plugin_name, Provider, Module, hh_provider, init_hh_dplane_plugin, after_parse, module_init,
}
use dplane_plugin.Stays.{view_of}

-- Before the start: the provider is registered, and nothing is open.
pub record IsFresh (e : Env) (s : State) : Type 0 where
  pub registered : s.zebra.registered ≡ true
  pub dp_sock : s.comm.dp_sock ≡ none
  pub fb : s.comm.fb ≡ false
  pub tidy : NoLeak e s

-- Before the module is loaded: nothing is open.
pub record IsUnloaded (e : Env) (s : State) : Type 0 where
  pub dp_sock : s.comm.dp_sock ≡ none
  pub fb : s.comm.fb ≡ false
  pub tidy : NoLeak e s

-- After the end `t` that follows `s`: each descriptor was closed as often as it was opened, each context
-- was freed as often as a message of the plugin held it, and no message and no buffer is left.
pub record IsOver (e : Env) (s t : State) : Type 0 where
  pub closed : (fd : ℕ) → opened_by e fd t.kernel.opens ≡ closed_in fd t.kernel.calls
  pub freed :
      (k : ℕ)
      → ids_in k t.zebra.freed
        ≡ ids_in k s.zebra.freed
          + held_in k s.cache.pool
          + held_in k s.cache.unsent
          + held_in k s.cache.in_flight
  pub dp_sock : t.comm.dp_sock ≡ none
  pub cache : t.cache ≡ record { pool = []; unsent = []; in_flight = [] }
  pub tx_buff : t.comm.tx_buff ≡ none
  pub rx_buff : t.comm.rx_buff ≡ none
  pub fb : t.comm.fb ≡ false

-- What the start establishes.
pub record IsUp (e : Env) (s : State) : Type 0 where
  pub inv : Inv s
  pub tidy : NoLeak e s
  pub retries : Retries (view_of s)

fini_dplane_rpc-none : (s : State) → (fini_dplane_rpc s).comm.dp_sock ≡ none
unfolding fini_dplane_rpc fini_dp_msg_cache
fini_dplane_rpc-none s = dp_unix_sock_close-none s

fini_dplane_rpc-cache :
    (s : State) → (fini_dplane_rpc s).cache ≡ record { pool = []; unsent = []; in_flight = [] }
unfolding fini_dplane_rpc fini_dp_msg_cache
fini_dplane_rpc-cache s = refl

-- The end frees each context that a message holds.
fini_dplane_rpc-freed :
    (k : ℕ) (s : State)
    → ids_in k (fini_dplane_rpc s).zebra.freed
      ≡ ids_in k s.zebra.freed
        + held_in k s.cache.pool
        + held_in k s.cache.unsent
        + held_in k s.cache.in_flight
unfolding fini_dplane_rpc fini_dp_msg_cache
fini_dplane_rpc-freed k s =
    let still = dp_unix_sock_close-Still s in
    omega (
      arith,
      fini_dp_msg_cache-ids_in k (dp_unix_sock_close s),
      ap (λ z. ids_in k z.freed) still.zebra,
      ap (λ c. held_in k c.pool) still.cache,
      ap (λ c. held_in k c.unsent) still.cache,
      ap (λ c. held_in k c.in_flight) still.cache,
    )

fini_dplane_rpc-IsOver : (e : Env) (s : State) → NoLeak e s → IsOver e s (fini_dplane_rpc s)
unfolding fini_dplane_rpc fini_dp_msg_cache
fini_dplane_rpc-IsOver e s h = record {
  closed = λ fd.
      fini_dplane_rpc-NoLeak e s h fd
      ∙ ap (λ o. closed_in fd (fini_dplane_rpc s).kernel.calls + held fd o) (fini_dplane_rpc-none s)
      ∙ omega arith;
  freed = λ k. fini_dplane_rpc-freed k s;
  dp_sock = fini_dplane_rpc-none s;
  cache = fini_dplane_rpc-cache s;
  tx_buff = refl;
  rx_buff = refl;
  fb = refl;
}

module _ (e : Env) (n : ℕ) where
  calm : (s : State) → Post (Unit {0}) (Unit {0}) (λ _ t. Calm e s t) (dp_connect e n s)
  calm s =
      Post-weaken _ _ (dp_connect e n s) (λ _. tt) (λ g. g) (λ _ t c. c)
        (dp_connect-Calm e (Unit {0}) (λ _. tt) n s)

  zd_hh_start-IsUp :
      (s : State) → IsFresh e s → Post (Unit {0}) (Unit {0}) (λ _ t. IsUp e t) (zd_hh_start e n s)
  unfolding zd_hh_start
  zd_hh_start-IsUp s h =
      Post-bind (Unit {0}) (Unit {0}) (λ r t. Started r t × LinkedBy e r t) (λ _ t. IsUp e t)
        (init_dplane_rpc e n) (abort_on e n) s
        (Post-and (Unit {0}) (Unit {0}) Started (LinkedBy e) (init_dplane_rpc e n s)
          (init_dplane_rpc-Started e n (Unit {0}) (Unit {0}) (λ _. tt) calm s h.registered h.dp_sock
            h.fb)
          (init_dplane_rpc-Linked e n s h.dp_sock h.tidy))
        up
    where
      up :
          (r : Rc) (t : State)
          → Started r t × LinkedBy e r t
          → Post (Unit {0}) (Unit {0}) (λ _ u. IsUp e u) (abort_on e n r t)
      up success t (inv, (tidy, retries)) = record { inv = inv; tidy = tidy; retries = retries }
      up failure t h = tt

  -- The provider's life, from its start on.
  start-Reach-fini :
      (k : ℕ) {s t : State} {cs : List Ctx} {u : State}
      → IsFresh e s
      → zd_hh_start e n s ≡ returns tt t
      → Reach e n k t cs u
      → Inv u × Retries (view_of u) × IsOver e u (zd_hh_fini false u)
  unfolding zd_hh_fini
  start-Reach-fini k {s} fresh started run =
      let up =
        subst (Post (Unit {0}) (Unit {0}) (λ _ t. IsUp e t)) started (zd_hh_start-IsUp s fresh) in
      (
        (Reach-Grows e n k run up.inv).inv,
        Reach-Retries e n k run up.retries,
        fini_dplane_rpc-IsOver e _ (Reach-NoLeak e n k run up.tidy),
      )

  -- What the module's start leaves alone.
  loaded :
      (supply : Supply) (j : ℕ) (getopt_long : ArgV → List ℕ → ℕ → GetoptResult) (o : ℕ)
      (load_args : Option (List ℕ)) (m : Module) (s : State)
      → Post
          (Unit {0})
          (Unit {0})
          (λ _ t. PathsOnly s t)
          (module_init e supply j getopt_long o load_args m s)
  unfolding module_init after_parse
  loaded supply j getopt_long o none m s = tt
  loaded supply j getopt_long o (some load_args) m s =
      Post-bind (Unit {0}) (Unit {0}) (λ r t. PathsOnly s t × Owes m.heap 0 r.1)
        (λ _ t. PathsOnly s t)
        (plugin_args_parse supply j getopt_long plugin_name load_args plugin_long_opts
          (process_plugin_opt e) o m.heap)
        (after_parse m) s
        (plugin_args_parse-Frees e supply j getopt_long plugin_name load_args plugin_long_opts o
          m.heap s)
        goes_on
    where
      goes_on :
          (r : Rc × Heap) (t : State)
          → PathsOnly s t × Owes m.heap 0 r.1
          → Post (Unit {0}) (Unit {0}) (λ _ u. PathsOnly s u) (after_parse m r t)
      goes_on (success, h) t (p, i) = p
      goes_on (failure, h) t (p, i) = p

  registered :
      (ret : ℕ) (m m' : Module) (s t : State)
      → init_hh_dplane_plugin e n ret m s ≡ returns (0, m') t
      → (m'.provider ≡ some (hh_provider e n))
        × (t ≡ on_zebra (λ z. record z { registered = true }) s)
  unfolding init_hh_dplane_plugin
  registered ret m m' s t h = ground (arith, h)

  Unloaded-IsFresh :
      (s t : State)
      → IsUnloaded e s
      → PathsOnly s t
      → IsFresh e (on_zebra (λ z. record z { registered = true }) t)
  Unloaded-IsFresh s t h p = record {
    registered = refl;
    dp_sock = ap (λ u. u.comm.dp_sock) p.rest ∙ h.dp_sock;
    fb = ap (λ u. u.comm.fb) p.rest ∙ h.fb;
    tidy = subst (NoLeak e) (sym p.rest) h.tidy;
  }

  -- The plugin from its loading to its end. It is loaded with nothing open, its options are parsed, its
  -- provider is registered, and the start of that provider returns: then after any run of the event loop
  -- the invariant holds, and there is no socket, or it is connected, or the next attempt is scheduled;
  -- and after the provider's end each descriptor was closed as often as it was opened, each context was
  -- freed as often as a message of the plugin held it, and no message and no buffer is left.
  pub load-to-end :
      (supply : Supply) (j : ℕ) (getopt_long : ArgV → List ℕ → ℕ → GetoptResult) (o : ℕ)
      (load_args : Option (List ℕ)) (ret k : ℕ) (p : Provider) (m parsed hooked : Module)
      (s s' s'' t u : State) {cs : List Ctx}
      → IsUnloaded e s
      → module_init e supply j getopt_long o load_args m s ≡ returns (0, parsed) s'
      → init_hh_dplane_plugin e n ret parsed s' ≡ returns (0, hooked) s''
      → hooked.provider ≡ some p
      → p.start s'' ≡ returns tt t
      → Reach e n k t cs u
      → Inv u × Retries (view_of u) × IsOver e u (p.fini false u)
  load-to-end supply j getopt_long o load_args ret k p m parsed hooked s s' s'' t u unloaded init
        late is started run =
      let (same, set) = registered ret parsed hooked s' s'' late in
      let paths =
        subst (Post (Unit {0}) (Unit {0}) (λ _ v. PathsOnly s v)) init
          (loaded supply j getopt_long o load_args m s) in
      let ours : hh_provider e n ≡ p = cc in
      subst (λ (q : Provider). Inv u × Retries (view_of u) × IsOver e u (q.fini false u)) ours
        (start-Reach-fini k (Unloaded-IsFresh s s' unloaded paths)
          (subst (λ v. zd_hh_start e n v ≡ returns tt t) set
            (subst (λ (q : Provider). q.start s'' ≡ returns tt t) (sym ours) started))
          run)
