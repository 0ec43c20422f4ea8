-- ===== src/Plugin.antt =====
-- src/hh_dp_plugin.c: the callbacks of the dataplane provider.
pub mod Rounds
pub mod Module
pub mod Stays
use dplane_plugin.Base.{
  ℕ, zero, suc, ◌+◌, Bool, true, false, List, [], ◌∷◌, Option, none, some, if◌then◌else◌,
}
use dplane_plugin.World.Env.{Env}
use dplane_plugin.World.State.{State, on_comm, on_zebra}
use dplane_plugin.World.Frr.{Ctx, request_failure}
use dplane_plugin.World.Monad.{M, Rc, success, failure, returns, pure, abort, ◌>>=◌, ◌>>◌}
use dplane_plugin.Comm.Connect.{dp_connect, init_dplane_rpc, fini_dplane_rpc}
use dplane_plugin.Process.{zd_hh_process_update, give_back}

-- `dplane_provider_dequeue_in_ctx`: the first context to process and the rest.
abbrev pop_ctx : List Ctx → Option Ctx × List Ctx
pop_ctx [] = (none, [])
pop_ctx (c ∷ cs) = (some c, cs)

unfoldable pub dequeue_in_ctx : State → Option Ctx × State
dequeue_in_ctx s =
    let (c, rest) = pop_ctx s.zebra.in_queue in (c, on_zebra (λ z. record z { in_queue = rest }) s)

abbrev signal_work : State → State
signal_work = on_zebra λ z. record z { work_ready = z.work_ready + 1 }

module _ (e : Env) (n : ℕ) where
  -- One context: once the plugin is ending, it goes back as a failure.
  unfoldable pub process_ctx : Ctx → M (Unit {0})
  process_ctx ctx s =
      if s.comm.finalizing
      then returns tt (give_back ctx request_failure s)
      else zd_hh_process_update e (dp_connect e n) ctx s

  -- The body of the loop of `zd_hh_process`, on what was dequeued.
  unfoldable pub process_next : M (Unit {0}) → Option Ctx → M (Unit {0})
  process_next rest none = pure tt
  process_next rest (some ctx) = process_ctx ctx >> rest

  -- The loop of `zd_hh_process`; `k` is `limit - counter`.
  unfoldable pub process_rounds : ℕ → M (Unit {0})
  process_rounds zero s = returns tt s
  process_rounds (suc k) s =
      let (next, t) = dequeue_in_ctx s in process_next (process_rounds k) next t

  unfoldable pub zd_hh_process : M (Unit {0})
  zd_hh_process = process_rounds e.work_limit >> λ s.
      (if s.comm.finalizing then returns tt (signal_work s) else returns tt s)

  -- A failure to start aborts the process.
  abbrev pub abort_on : Rc → M (Unit {0})
  abort_on success = pure tt
  abort_on failure = abort

  unfoldable pub zd_hh_start : M (Unit {0})
  zd_hh_start = init_dplane_rpc e n >>= abort_on

unfoldable pub zd_hh_fini : Bool → State → State
zd_hh_fini true = on_comm λ c. record c { finalizing = true }
zd_hh_fini false = fini_dplane_rpc
