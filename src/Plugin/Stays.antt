-- ===== src/Plugin/Stays.antt =====
-- The work callback of src/hh_dp_plugin.c keeps what a lost connection keeps.
use dplane_plugin.Base.{ℕ, zero, suc, Option, none, some, if◌then◌else◌}
use dplane_plugin.World.Env.{Env}
use dplane_plugin.World.Frr.{Ctx}
use dplane_plugin.World.Monad.{M, returns}
use dplane_plugin.Comm.Send.{lost_connection}
use dplane_plugin.Comm.Connect.{dp_connect}
use dplane_plugin.Process.Stays.{zd_hh_process_update-Stays}
use dplane_plugin.Plugin.{
  dequeue_in_ctx, process_ctx, process_next, process_rounds, zd_hh_process, signal_work,
}
use dplane_plugin.Stays.Counts.{Books}
use dplane_plugin.Stays.{View, Stays, Stays-pure, Stays-then, Ends-if}

module _ (e : Env) (n : ℕ) {P : View → Type 0} (books : Books e P)
    (lost : Stays P (lost_connection e (dp_connect e n))) where
  process_ctx-Stays : (ctx : Ctx) → Stays P (process_ctx e n ctx)
  unfolding process_ctx
  process_ctx-Stays ctx = record {
    at = λ s h.
        Ends-if P s.comm.finalizing _ _ h
          ((zd_hh_process_update-Stays e (dp_connect e n) books lost ctx).at s h);
  }

  process_next-Stays :
      (rest : M (Unit {0})) (o : Option Ctx) → Stays P rest → Stays P (process_next e n rest o)
  unfolding process_next
  process_next-Stays rest none h = Stays-pure tt
  process_next-Stays rest (some ctx) h = Stays-then _ rest (process_ctx-Stays ctx) h

  process_rounds-Stays : (k : ℕ) → Stays P (process_rounds e n k)
  unfolding process_rounds dequeue_in_ctx
  process_rounds-Stays zero = record { at = λ s h. h }
  process_rounds-Stays (suc k) = record {
    at = λ s h.
        let (next, t) = dequeue_in_ctx s in
        (process_next-Stays (process_rounds e n k) next (process_rounds-Stays k)).at t h;
  }

  pub zd_hh_process-Stays : Stays P (zd_hh_process e n)
  unfolding zd_hh_process
  zd_hh_process-Stays = Stays-then _ signal_end (process_rounds-Stays e.work_limit) signalled
    where
      signal_end : M (Unit {0})
      signal_end s = if s.comm.finalizing then returns tt (signal_work s) else returns tt s

      signalled : Stays P signal_end
      signalled = record { at = λ s h. Ends-if P s.comm.finalizing _ _ h h }
