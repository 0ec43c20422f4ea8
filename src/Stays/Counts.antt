-- ===== src/Stays/Counts.antt =====
-- What a property needs to be kept by the book-keeping of requests: one that is sent is counted and
-- joins the requests in flight, and one that is taken out of them is counted as replied or dropped.
use dplane_plugin.Base.{ℕ, ◌+◌, ◌≡◌, List, [], ◌∷◌, ◌++◌, leb}
use dplane_plugin.Rpc.{RpcMsg, RpcOp, RpcRequest, ObjType, ResultCode}
use dplane_plugin.World.Env.{Env}
use dplane_plugin.World.State.{State, DpMsg, Cell, on_cache, on_stats}
use dplane_plugin.World.Monad.{modify, ◌>>◌}
use dplane_plugin.Stats.{
  bump, set_cell, count_reply, rpc_count_request_sent, rpc_count_request_replied,
}
use dplane_plugin.Cache.{dp_msg_cache_inflight, is_request}
use dplane_plugin.Stays.{View, view_of, Ends, Stays, Stays-abort, Stays-if, Stays-bug, Stays-then}

-- A request that was sent.
pub record Books (e : Env) (P : View → Type 0) : Type 0 where
  pub sent :
      (m : DpMsg) (r : RpcRequest)
      → m.msg ≡ RpcMsg.request r
      → Stays P (rpc_count_request_sent e r.op r.object.type >> dp_msg_cache_inflight m)

-- A request that was taken out: `Out` holds meanwhile. After a call of `recv` the property holds with
-- room for a request that is dropped: `Q`, and `Gone` while the request is out.
pub record Counts (e : Env) (P Q : View → Type 0) (Out Gone : DpMsg → View → Type 0) : Type 0 where
  pub books : Books e P
  pub read : (k : View) → P k → Q (record k { recvs = k.recvs + 1 })
  pub close : (k : View) → Q k → P k
  pub spare : (k : View) → k.in_flight ≡ [] → P k → P (record k { in_flight = [] })
  pub take :
      (m : DpMsg) (ms : List DpMsg) (k : View)
      → k.in_flight ≡ m ∷ ms
      → P k
      → Out m (record k { in_flight = ms })
  pub lose :
      (m : DpMsg) (ms : List DpMsg) (k : View)
      → k.in_flight ≡ m ∷ ms
      → Q k
      → Gone m (record k { in_flight = ms })
  pub keep : (m : DpMsg) (k : View) → Gone m k → Out m k
  pub drop : (m : DpMsg) (k : View) → Gone m k → P k
  pub reply :
      (m : DpMsg) (r : RpcRequest) (rc : ResultCode)
      → m.msg ≡ RpcMsg.request r
      → (s : State) → Out m (view_of s)
      → Ends P (rpc_count_request_replied e r.op r.object.type rc s)

-- A property that reads none of it.
abbrev pub IsBlind : (View → Type 0) → Type 0
IsBlind P =
    (k : View) (r : ℕ → ℕ → Cell) (f : List DpMsg) (n : ℕ)
    → P k
    → P (record k { requests = r; in_flight = f; recvs = n })

module _ (e : Env) {P : View → Type 0} (blind : IsBlind P) where
  count-Stays :
      (f : State → State) → ((s : State) → P (view_of s) → P (view_of (f s))) → Stays P (modify f)
  count-Stays f h = record { at = h }

  sent-Stays :
      (op : RpcOp) (ot : ObjType) (m : DpMsg)
      → Stays P (rpc_count_request_sent e op ot >> dp_msg_cache_inflight m)
  unfolding rpc_count_request_sent dp_msg_cache_inflight
  sent-Stays op ot m =
      Stays-then _ _
        (Stays-if (leb e.max_rpc_op (e.op_code op)) _ _ (Stays-bug e tt) (
          Stays-if (leb e.max_obj_type ot) _ (modify count) (Stays-bug e tt)
            (count-Stays count (λ s h. blind (view_of s) _ _ _ h))))
        (Stays-if (is_request m.msg) (modify put) _
          (count-Stays put (λ s h. blind (view_of s) _ _ _ h)) Stays-abort)
    where
      count : State → State
      count = on_stats (set_cell ot (e.op_code op) λ r. record r { sent = bump r.sent })

      put : State → State
      put = on_cache λ c. record c { in_flight = c.in_flight ++ m ∷ [] }

  replied-Stays :
      (op : RpcOp) (ot : ObjType) (rc : ResultCode) → Stays P (rpc_count_request_replied e op ot rc)
  unfolding rpc_count_request_replied
  replied-Stays op ot rc = Stays-if (leb e.max_rpc_op (e.op_code op)) _ _ (Stays-bug e tt) (
      Stays-if (leb e.max_obj_type ot) _ (modify count) (Stays-bug e tt)
        (count-Stays count (λ s h. blind (view_of s) _ _ _ h)))
    where
      count : State → State
      count = on_stats (set_cell ot (e.op_code op) (count_reply e rc))

  pub IsBlind-Counts : Counts e P P (λ _. P) (λ _. P)
  IsBlind-Counts = record {
    books = record { sent = λ m r is. sent-Stays r.op r.object.type m };
    read = λ k h. blind k _ _ _ h;
    close = λ k h. h;
    spare = λ k is h. blind k _ _ _ h;
    take = λ m ms k is h. blind k _ _ _ h;
    lose = λ m ms k is h. blind k _ _ _ h;
    keep = λ m k h. h;
    drop = λ m k h. h;
    reply = λ m r rc is. (replied-Stays r.op r.object.type rc).at;
  }
