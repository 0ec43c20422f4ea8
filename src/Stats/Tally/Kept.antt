-- ===== src/Stats/Tally/Kept.antt =====
-- The tally is kept by the book-keeping of requests.
use dplane_plugin.Base.{ℕ, ◌<◌, ◌≡◌, sym, subst, arith, true, leb, ◌++◌, ◌∷◌, [], ap}
use dplane_plugin.Rpc.{RpcMsg, RpcRequest, ResultCode}
use dplane_plugin.World.Env.{Env}
use dplane_plugin.World.State.{State, DpMsg, on_cache, on_stats}
use dplane_plugin.World.Monad.{abort, modify, Post-bug, Post-if, Post-bind, ◌>>◌}
use dplane_plugin.Stats.{
  bump, set_cell, count_reply, rpc_count_request_sent, rpc_count_request_replied,
}
use dplane_plugin.Cache.{dp_msg_cache_inflight, is_request}
use dplane_plugin.Stays.Counts.{Counts}
use dplane_plugin.Stays.{View, view_of, Ends}
use dplane_plugin.Stats.Tally.{
  Tallied, in_cell, counted, replied, joined, taken, dropped_out, less_spare, another_recv,
  none_left,
}

module _ (e : Env) (ot op : ℕ) (op_in : op < e.max_rpc_op) (ot_in : ot < e.max_obj_type)
    (s : View) where
  -- A request that is counted nowhere is not one of the cell.
  other_op :
      (r : RpcRequest)
      → leb e.max_rpc_op (e.op_code r.op) ≡ true
      → in_cell e ot op (RpcMsg.request r) ≡ 0
  other_op r h = ground (arith, h, op_in)

  other_type :
      (r : RpcRequest)
      → leb e.max_obj_type r.object.type ≡ true
      → in_cell e ot op (RpcMsg.request r) ≡ 0
  other_type r h = ground (arith, h, ot_in)

  moved :
      {out out' : ℕ} {k : View}
      → out ≡ out'
      → Tallied e ot op s out 0 k
      → Tallied e ot op s out' 0 k
  moved {k} is h = subst (λ o. Tallied e ot op s o 0 k) is h

  count_sent :
      (r : RpcRequest) (t : State)
      → Tallied e ot op s 0 0 (view_of t)
      → Ends
          (Tallied e ot op s (in_cell e ot op (RpcMsg.request r)) 0)
          (rpc_count_request_sent e r.op r.object.type t)
  unfolding rpc_count_request_sent
  count_sent r t h =
      let P = λ (k : View). Tallied e ot op s (in_cell e ot op (RpcMsg.request r)) 0 k in
      Post-if (Unit {0}) (Unit {0}) (λ _ u. P (view_of u)) (leb e.max_rpc_op (e.op_code r.op)) _ _ t
        (λ out.
          Post-bug (Unit {0}) (Unit {0}) (λ _ u. P (view_of u)) e tt t (λ _. tt)
            (λ _. moved (sym (other_op r out)) h))
        (λ _.
          Post-if (Unit {0}) (Unit {0}) (λ _ u. P (view_of u)) (leb e.max_obj_type r.object.type) _
            (modify (
              on_stats
                (set_cell r.object.type (e.op_code r.op) λ c. record c { sent = bump c.sent })))
            t
            (λ out.
              Post-bug (Unit {0}) (Unit {0}) (λ _ u. P (view_of u)) e tt t (λ _. tt)
                (λ _. moved (sym (other_type r out)) h))
            (λ _. counted e ot op s r t h))

  count_replied :
      (r : RpcRequest) (rc : ResultCode) (t : State)
      → Tallied e ot op s (in_cell e ot op (RpcMsg.request r)) 0 (view_of t)
      → Ends (Tallied e ot op s 0 0) (rpc_count_request_replied e r.op r.object.type rc t)
  unfolding rpc_count_request_replied
  count_replied r rc t h =
      let P = λ (k : View). Tallied e ot op s 0 0 k in
      Post-if (Unit {0}) (Unit {0}) (λ _ u. P (view_of u)) (leb e.max_rpc_op (e.op_code r.op)) _ _ t
        (λ out.
          Post-bug (Unit {0}) (Unit {0}) (λ _ u. P (view_of u)) e tt t (λ _. tt)
            (λ _. moved (other_op r out) h))
        (λ _.
          Post-if (Unit {0}) (Unit {0}) (λ _ u. P (view_of u)) (leb e.max_obj_type r.object.type) _
            (modify (on_stats (set_cell r.object.type (e.op_code r.op) (count_reply e rc)))) t
            (λ out.
              Post-bug (Unit {0}) (Unit {0}) (λ _ u. P (view_of u)) e tt t (λ _. tt)
                (λ _. moved (other_type r out) h))
            (λ _. replied e ot op s r rc t h))

  cache_inflight :
      (m : DpMsg) (t : State)
      → Tallied e ot op s (in_cell e ot op m.msg) 0 (view_of t)
      → Ends (Tallied e ot op s 0 0) (dp_msg_cache_inflight m t)
  unfolding dp_msg_cache_inflight
  cache_inflight m t h =
      Post-if (Unit {0}) (Unit {0}) (λ _ u. Tallied e ot op s 0 0 (view_of u)) (is_request m.msg)
        (modify (on_cache λ c. record c { in_flight = c.in_flight ++ m ∷ [] })) abort t
        (λ _. joined e ot op s m t h) (λ _. tt)

  count_and_cache :
      (m : DpMsg) (r : RpcRequest) (t : State)
      → m.msg ≡ RpcMsg.request r
      → Tallied e ot op s 0 0 (view_of t)
      → Ends
          (Tallied e ot op s 0 0)
          ((rpc_count_request_sent e r.op r.object.type >> dp_msg_cache_inflight m) t)
  count_and_cache m r t is h =
      Post-bind (Unit {0}) (Unit {0})
        (λ _ u. Tallied e ot op s (in_cell e ot op (RpcMsg.request r)) 0 (view_of u))
        (λ _ u. Tallied e ot op s 0 0 (view_of u)) (rpc_count_request_sent e r.op r.object.type)
        (λ _. dp_msg_cache_inflight m) t (count_sent r t h)
        (λ _ u k. cache_inflight m u (moved (ap (in_cell e ot op) (sym is)) k))

  pub Tallied-Counts :
      Counts e
        (Tallied e ot op s 0 0)
        (Tallied e ot op s 0 1)
        (λ m. Tallied e ot op s (in_cell e ot op m.msg) 0)
        (λ m. Tallied e ot op s (in_cell e ot op m.msg) 1)
  Tallied-Counts = record {
    books = record { sent = λ m r is. record { at = λ t h. count_and_cache m r t is h } };
    read = another_recv e ot op s;
    close = less_spare e ot op s 0;
    spare = none_left e ot op s;
    take = taken e ot op s 0;
    lose = taken e ot op s 1;
    keep = λ m. less_spare e ot op s (in_cell e ot op m.msg);
    drop = dropped_out e ot op s;
    reply = λ m r rc is t h. count_replied r rc t (moved (ap (in_cell e ot op) is) h);
  }
