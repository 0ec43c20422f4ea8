-- ===== src/Stats/Tally.antt =====
-- The counters of requests against the requests in flight: what is counted as sent is counted as
-- replied, in flight, or was dropped, and a call of `recv` leads to one that is dropped at most. The
-- counters are those of src/hh_dp_rpc_stats.c and wrap at 2 ^ 64.
pub mod Kept
use dplane_plugin.Base.{
  ℕ, suc, ◌+◌, ◌%◌, ◌^◌, ◌≤◌, ◌<◌, ◌≡◌, refl, ◌∙◌, sym, ap, subst, List, [], ◌∷◌, ◌++◌, arith, Bool,
  true, false, Bool-cases, inl, inr, ltb, leb, ◌==◌, ◌&&◌, if◌then◌else◌,
}
use dplane_plugin.Rpc.{RpcMsg, RpcOp, RpcRequest, ObjType, ResultCode}
use dplane_plugin.World.Env.{Env}
use dplane_plugin.World.State.{State, DpMsg, Cell, on_cache, on_stats}
use dplane_plugin.World.Monad.{abort, modify, pure, bug, Post, Post-bug, Post-if, Post-bind, ◌>>◌}
use dplane_plugin.Stats.{
  bump, set_cell, count_reply, rpc_count_request_sent, rpc_count_request_replied,
}
use dplane_plugin.Cache.{dp_msg_cache_inflight, is_request}
use dplane_plugin.Stays.Counts.{Books, Counts}
use dplane_plugin.Stays.{View, view_of, Ends, Stays}

-- Whether the message is a request of the cell, as a number.
abbrev pub in_cell : Env → ℕ → ℕ → RpcMsg → ℕ
in_cell e ot op (RpcMsg.request r) = if ot == r.object.type && op == e.op_code r.op then 1 else 0
in_cell e ot op _ = 0

-- How many of the messages are.
abbrev pub in_cells : Env → ℕ → ℕ → List DpMsg → ℕ
in_cells e ot op [] = 0
in_cells e ot op (m ∷ ms) = in_cell e ot op m.msg + in_cells e ot op ms

in_cells-append :
    (e : Env) (ot op : ℕ) (xs ys : List DpMsg)
    → in_cells e ot op (xs ++ ys) ≡ in_cells e ot op xs + in_cells e ot op ys
in_cells-append e ot op [] ys = omega arith
in_cells-append e ot op (x ∷ xs) ys = omega (arith, in_cells-append e ot op xs ys)

-- Since the view `s`, `out` requests of the cell were taken out and not yet counted, and `spare` more
-- may be dropped.
pub record Tallied (e : Env) (ot op : ℕ) (s : View) (out spare : ℕ) (t : View) : Type 0 where
  pub dropped : ℕ
  pub few : dropped + spare + s.recvs ≤ t.recvs
  pub same :
      ((t.requests ot op).sent + (s.requests ot op).replied + in_cells e ot op s.in_flight) % 2 ^ 64
      ≡ ((s.requests ot op).sent
          + (t.requests ot op).replied
          + in_cells e ot op t.in_flight
          + out
          + dropped)
        % 2 ^ 64

pub Tallied-refl : (e : Env) (ot op : ℕ) (s : View) → Tallied e ot op s 0 0 s
Tallied-refl e ot op s = record { dropped = 0; few = omega arith; same = omega arith }

-- One more request of the cell sent, and one more answered: `b` tells whether it is of the cell.
sent-balance :
    (b : Bool) (c : Cell) (r0 f0 s0 f d : ℕ)
    → (c.sent + r0 + f0) % 2 ^ 64 ≡ (s0 + c.replied + f + 0 + d) % 2 ^ 64
    → let u = if b then record c { sent = bump c.sent } else c in
      (u.sent + r0 + f0) % 2 ^ 64 ≡ (s0 + u.replied + f + (if b then 1 else 0) + d) % 2 ^ 64
sent-balance true c r0 f0 s0 f d h = omega (arith, h)
sent-balance false c r0 f0 s0 f d h = h

count_reply-cell :
    (e : Env) (rc : ResultCode) (c : Cell)
    → ((count_reply e rc c).sent ≡ c.sent) × ((count_reply e rc c).replied ≡ bump c.replied)
count_reply-cell e rc c = elim (Bool-cases (ltb (e.rescode_number rc) e.rescode_max)) [
  | inl b ↦ rw b (refl, refl)
  | inr b ↦ rw b (refl, refl)
]

replied-balance :
    (e : Env) (rc : ResultCode) (b : Bool) (c : Cell) (r0 f0 s0 f d : ℕ)
    → (c.sent + r0 + f0) % 2 ^ 64 ≡ (s0 + c.replied + f + (if b then 1 else 0) + d) % 2 ^ 64
    → let u = if b then count_reply e rc c else c in
      (u.sent + r0 + f0) % 2 ^ 64 ≡ (s0 + u.replied + f + 0 + d) % 2 ^ 64
replied-balance e rc true c r0 f0 s0 f d h =
    let (s_same, r_same) = count_reply-cell e rc c in omega (arith, h, s_same, r_same)
replied-balance e rc false c r0 f0 s0 f d h = h

module _ (e : Env) (ot op : ℕ) (s : View) where
  -- The counter of requests sent, and the request out until it joins those in flight.
  pub counted :
      (r : RpcRequest) (t : State)
      → Tallied e ot op s 0 0 (view_of t)
      → Tallied e ot op s (in_cell e ot op (RpcMsg.request r)) 0 (
          view_of (
            on_stats
              (set_cell r.object.type (e.op_code r.op) λ c. record c { sent = bump c.sent })
              t))
  counted r t h = record {
    dropped = h.dropped;
    few = h.few;
    same =
        sent-balance (ot == r.object.type && op == e.op_code r.op) (t.stats.requests ot op)
          (s.requests ot op).replied (in_cells e ot op s.in_flight) (s.requests ot op).sent
          (in_cells e ot op t.cache.in_flight) h.dropped h.same;
  }

  -- The counter of replies, and the request no longer out.
  pub replied :
      (r : RpcRequest) (rc : ResultCode) (t : State)
      → Tallied e ot op s (in_cell e ot op (RpcMsg.request r)) 0 (view_of t)
      → Tallied e ot op s 0 0
          (view_of (on_stats (set_cell r.object.type (e.op_code r.op) (count_reply e rc)) t))
  replied r rc t h = record {
    dropped = h.dropped;
    few = h.few;
    same =
        replied-balance e rc (ot == r.object.type && op == e.op_code r.op) (t.stats.requests ot op)
          (s.requests ot op).replied (in_cells e ot op s.in_flight) (s.requests ot op).sent
          (in_cells e ot op t.cache.in_flight) h.dropped h.same;
  }

  -- The request joins those in flight.
  pub joined :
      (m : DpMsg) (t : State)
      → Tallied e ot op s (in_cell e ot op m.msg) 0 (view_of t)
      → Tallied e ot op s 0 0
          (view_of (on_cache (λ c. record c { in_flight = c.in_flight ++ m ∷ [] }) t))
  joined m t h = record {
    dropped = h.dropped;
    few = h.few;
    same = omega (arith, h.same, in_cells-append e ot op t.cache.in_flight (m ∷ []));
  }

  -- The first request in flight is taken out, and one that was taken out is dropped.
  pub taken :
      (spare : ℕ) (m : DpMsg) (ms : List DpMsg) (k : View)
      → k.in_flight ≡ m ∷ ms
      → Tallied e ot op s 0 spare k
      → Tallied e ot op s (in_cell e ot op m.msg) spare (record k { in_flight = ms })
  taken spare m ms k is h = record {
    dropped = h.dropped;
    few = h.few;
    same = omega (arith, h.same, ap (in_cells e ot op) is);
  }

  in_cell-few : (msg : RpcMsg) → in_cell e ot op msg ≤ 1
  in_cell-few (RpcMsg.request r) = few (ot == r.object.type && op == e.op_code r.op)
    where
      few : (b : Bool) → (if b then 1 else 0) ≤ 1
      few true = omega arith
      few false = omega arith
  in_cell-few (RpcMsg.response r) = omega arith
  in_cell-few (RpcMsg.control c) = omega arith
  in_cell-few RpcMsg.notification = omega arith
  in_cell-few RpcMsg.other = omega arith

  pub dropped_out :
      (m : DpMsg) (k : View)
      → Tallied e ot op s (in_cell e ot op m.msg) 1 k
      → Tallied e ot op s 0 0 k
  dropped_out m k h = record {
    dropped = h.dropped + in_cell e ot op m.msg;
    few = omega (arith, h.few, in_cell-few m.msg);
    same = omega (arith, h.same);
  }

  pub less_spare : (out : ℕ) (k : View) → Tallied e ot op s out 1 k → Tallied e ot op s out 0 k
  less_spare out k h = record { dropped = h.dropped; few = omega (arith, h.few); same = h.same }

  pub another_recv :
      (k : View)
      → Tallied e ot op s 0 0 k
      → Tallied e ot op s 0 1 (record k { recvs = k.recvs + 1 })
  another_recv k h = record { dropped = h.dropped; few = omega (arith, h.few); same = h.same }

  pub none_left :
      (k : View)
      → k.in_flight ≡ []
      → Tallied e ot op s 0 0 k
      → Tallied e ot op s 0 0 (record k { in_flight = [] })
  none_left k is h = record {
    dropped = h.dropped;
    few = h.few;
    same = omega (arith, h.same, ap (in_cells e ot op) is);
  }
