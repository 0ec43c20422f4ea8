-- ===== src/Guarantees/Counted.antt =====
-- What the handling of a message from the dataplane counts, in src/hh_dp_rpc_stats.c.
use dplane_plugin.Base.{ℕ, ◌+◌, ◌%◌, ◌^◌, ◌<◌, ◌≡◌, ◌⊎◌, arith, List}
use dplane_plugin.Rpc.{RpcMsg}
use dplane_plugin.World.Env.{Env}
use dplane_plugin.World.State.{State}
use dplane_plugin.World.Monad.{Post, Post-and, Post-weaken}
use dplane_plugin.Comm.Connect.{dp_connect}
use dplane_plugin.Comm.Connect.Stays.{lost-Stays}
use dplane_plugin.Msg.Response.{handle_rpc_msg}
use dplane_plugin.Msg.Response.Matched.{handle_rpc_msg-matched}
use dplane_plugin.Stats.Tally.{Tallied, Tallied-refl, in_cells}
use dplane_plugin.Stats.Tally.Kept.{Tallied-Counts}
use dplane_plugin.Events.{Reach}
use dplane_plugin.World.Frr.{Ctx}
use dplane_plugin.Events.Tally.{Tallied-Linked, Reach-Tallied}
use dplane_plugin.Stays.{view_of}
use dplane_plugin.Invariant.{Inv, Keeps}
use dplane_plugin.Invariant.Incoming.{IsMatched, IsRefusalMsg}
use dplane_plugin.Guarantees.{IsDebug, Settles, handle_rpc_msg-Keeps}

-- Of the requests of object type `ot` and operation `op`, those counted as sent since, with those in
-- flight before, are those counted as replied since, with those in flight after; modulo 2 ^ 64, at
-- which the counters wrap.
abbrev pub Balanced : Env → ℕ → ℕ → State → State → Type 0
Balanced e ot op s t =
    ((t.stats.requests ot op).sent
        + (s.stats.requests ot op).replied
        + in_cells e ot op s.cache.in_flight)
      % 2 ^ 64
    ≡ ((s.stats.requests ot op).sent
        + (t.stats.requests ot op).replied
        + in_cells e ot op t.cache.in_flight)
      % 2 ^ 64

-- If `recv` was not called, no request was dropped.
Tallied-Balanced :
    (e : Env) (ot op : ℕ) (s t : State)
    → Tallied e ot op (view_of s) 0 0 (view_of t)
    → t.kernel.recvs ≡ s.kernel.recvs
    → Balanced e ot op s t
Tallied-Balanced e ot op s t h recvs = omega (arith, h.few, h.same, recvs)

-- From a state of the invariant, and if there are never n connections in a row that are accepted and
-- lost at once, the handling of a message that is no response, of a response to the first request in
-- flight, and of one that shows a restart of the dataplane ends with exact counters: for every object
-- type and operation in the range of the statistics, the requests sent meanwhile and those in flight
-- before are the requests replied meanwhile and those in flight after, modulo 2 ^ 64. It aborts only in
-- a debug build or if the message refuses a Connect.
pub handle_rpc_msg-Balanced :
    (e : Env) (n : ℕ)
    → Settles e n
    → (ot op : ℕ) → op < e.max_rpc_op
    → ot < e.max_obj_type
    → (msg : RpcMsg) (s : State) → Inv s
    → IsMatched e msg s
    → Post ⊥
        (IsDebug e ⊎ IsRefusalMsg msg)
        (λ _ t. Balanced e ot op s t)
        (handle_rpc_msg e (dp_connect e n) msg s)
handle_rpc_msg-Balanced e n settles ot op op_in ot_in msg s inv matched =
    let v = view_of s in
    let counts = Tallied-Counts e ot op op_in ot_in v in
    let lost = lost-Stays e (Tallied-Linked e ot op v) counts.books n in
    let handled = handle_rpc_msg e (dp_connect e n) msg s in
    Post-weaken _ _ handled (λ f. f) (λ g. g) (λ _ t k. Tallied-Balanced e ot op s t k.1 k.0.recvs)
      (Post-and ⊥ (IsDebug e ⊎ IsRefusalMsg msg) (λ _ t. Keeps s t)
        (λ _ t. Tallied e ot op v 0 0 (view_of t)) handled
        (handle_rpc_msg-Keeps e n settles msg s inv matched)
        (handle_rpc_msg-matched e (dp_connect e n) counts lost msg s matched
          (Tallied-refl e ot op v)))

-- Whatever callbacks run, in any order, if `recv` was not called among them: for every object type and
-- operation in the range of the statistics, the requests sent meanwhile and those in flight before are
-- the requests replied meanwhile and those in flight after, modulo 2 ^ 64.
pub Reach-Balanced :
    (e : Env) (n k ot op : ℕ) {s : State} {cs : List Ctx} {t : State}
    → op < e.max_rpc_op
    → ot < e.max_obj_type
    → Reach e n k s cs t
    → t.kernel.recvs ≡ s.kernel.recvs
    → Balanced e ot op s t
Reach-Balanced e n k ot op {s} {t = t} op_in ot_in run =
    Tallied-Balanced e ot op s t (Reach-Tallied e n k ot op op_in ot_in run)
