-- ===== src/Cache.antt =====
-- src/hh_dp_msg_cache.c: the three lists of messages. A `struct dp_msg` is allocated once and lies
-- in one list at most, so a list of pointers is a list of the messages themselves. The allocator
-- (`XCALLOC`) aborts the process when memory runs out, so it always yields a message.
pub mod Pool
use dplane_plugin.Base.{
  ℕ, zero, suc, List, [], ◌∷◌, ◌++◌, Option, none, some, Bool, length, is_some, if◌then◌else◌,
}
use dplane_plugin.Rpc.{RpcMsg}
use dplane_plugin.World.Env.{Env}
use dplane_plugin.World.State.{State, DpMsg, on_cache, on_zebra}
use dplane_plugin.World.Frr.{Ctx}
use dplane_plugin.World.Monad.{M, abort, modify, bug}

-- A message of zeros, from `XCALLOC` or `memset`.
abbrev pub zeroed_msg : DpMsg
zeroed_msg = record { msg = RpcMsg.other; ctx = none }

-- `dp_msg_list_pop`: the first entry and the rest.
abbrev pub pop_list : List DpMsg → Option DpMsg × List DpMsg
pop_list [] = (none, [])
pop_list (m ∷ ms) = (some m, ms)

-- A message out of the pool is cleared, and a new one comes cleared.
unfoldable pub dp_msg_new : State → DpMsg × State
dp_msg_new s = (zeroed_msg, on_cache (λ c. record c { pool = (pop_list c.pool).1 }) s)

unfoldable pub dp_msg_recycle : Env → DpMsg → M (Unit {0})
dp_msg_recycle e m =
    if is_some m.ctx then bug e tt else modify (on_cache λ c. record c { pool = c.pool ++ m ∷ [] })

unfoldable pub dp_msg_cache_unsent : DpMsg → State → State
dp_msg_cache_unsent m = on_cache λ c. record c { unsent = c.unsent ++ m ∷ [] }

unfoldable pub dp_msg_unsent_push_back : DpMsg → State → State
dp_msg_unsent_push_back m = on_cache λ c. record c { unsent = m ∷ c.unsent }

unfoldable pub dp_msg_pop_unsent : State → Option DpMsg × State
dp_msg_pop_unsent s =
    let (m, rest) = pop_list s.cache.unsent in (m, on_cache (λ c. record c { unsent = rest }) s)

abbrev pub dp_msg_unsent_count : State → ℕ
dp_msg_unsent_count s = length s.cache.unsent

abbrev pub dp_msg_pool_count : State → ℕ
dp_msg_pool_count s = length s.cache.pool

abbrev pub dp_msg_in_flight_count : State → ℕ
dp_msg_in_flight_count s = length s.cache.in_flight

abbrev pub is_request : RpcMsg → Bool
is_request (RpcMsg.request r) = Bool.true
is_request _ = Bool.false

-- The assertion is FRR's, which holds in every build.
unfoldable pub dp_msg_cache_inflight : DpMsg → M (Unit {0})
dp_msg_cache_inflight m =
    if is_request m.msg
    then modify (on_cache λ c. record c { in_flight = c.in_flight ++ m ∷ [] })
    else abort

unfoldable pub dp_msg_pop_inflight : State → Option DpMsg × State
dp_msg_pop_inflight s =
    let (m, rest) = pop_list s.cache.in_flight in
    (m, on_cache (λ c. record c { in_flight = rest }) s)

-- The loop that fills the pool, `n` rounds of it.
fill_pool : ℕ → List DpMsg → List DpMsg
fill_pool zero pool = pool
fill_pool (suc n) pool = fill_pool n (pool ++ zeroed_msg ∷ [])

unfoldable pub init_dp_msg_cache : State → State
unfolding fill_pool
init_dp_msg_cache = on_cache λ c. record { pool = fill_pool 1000 []; unsent = []; in_flight = [] }

-- `if (msg->ctx)`
abbrev ctx_list : Option Ctx → List Ctx
ctx_list none = []
ctx_list (some c) = c ∷ []

-- `dp_msg_del` frees the message, and resets and frees its context: the contexts that were freed, with
-- that one.
dp_msg_del : DpMsg → List Ctx → List Ctx
dp_msg_del m freed = freed ++ ctx_list m.ctx

-- The loop of `empty_dp_msg_list`, which ends with an empty list: what it frees.
empty_dp_msg_list : List DpMsg → List Ctx → List Ctx
unfolding dp_msg_del
empty_dp_msg_list [] freed = freed
empty_dp_msg_list (m ∷ ms) freed = empty_dp_msg_list ms (dp_msg_del m freed)

unfoldable pub fini_dp_msg_cache : State → State
unfolding empty_dp_msg_list
fini_dp_msg_cache s =
    let c = s.cache in
    on_cache (λ _. record { pool = []; unsent = []; in_flight = [] })
      (on_zebra
        (λ z. record z {
          freed =
              empty_dp_msg_list c.in_flight
                (empty_dp_msg_list c.unsent (empty_dp_msg_list c.pool z.freed));
        })
        s)
