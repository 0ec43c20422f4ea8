-- ===== src/World.antt =====
-- What the plugin runs in: FRR's objects, the kernel's answers, the plugin's global state, and the
-- monad in which its functions run.
pub mod Frr
pub mod Env
pub mod State
pub mod Monad
