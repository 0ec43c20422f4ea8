-- ===== src/Cache/Pool.antt =====
-- The pool of messages and the lists at the start and the end, from src/hh_dp_msg_cache.c.
use dplane_plugin.Base.{
  ◌+◌, arith, Option, none, some, ℕ, zero, suc, ◌≡◌, refl, ◌∙◌, sym, ap, List, [], ◌∷◌, ◌++◌,
  append-nil, append_assoc, replicate,
}
use dplane_plugin.World.Frr.{Ctx}
use dplane_plugin.Queues.{ids_in, held_in, ctx_count, ids_in-append}
use dplane_plugin.World.State.{State, DpMsg}
use dplane_plugin.Cache.{
  zeroed_msg, fill_pool, dp_msg_del, ctx_list, init_dp_msg_cache, empty_dp_msg_list,
  fini_dp_msg_cache,
}

fill_pool-replicate : (n : ℕ) (l : List DpMsg) → fill_pool n l ≡ l ++ replicate n zeroed_msg
unfolding fill_pool
fill_pool-replicate zero l = sym (append-nil l)
fill_pool-replicate (suc n) l =
    fill_pool-replicate n (l ++ zeroed_msg ∷ [])
    ∙ append_assoc l (zeroed_msg ∷ []) (replicate n zeroed_msg)

-- Every context of the list is freed, once.
empty-ids_in :
    (k : ℕ) (ms : List DpMsg) (freed : List Ctx)
    → ids_in k (empty_dp_msg_list ms freed) ≡ ids_in k freed + held_in k ms
unfolding empty_dp_msg_list dp_msg_del
empty-ids_in k [] freed = omega arith
empty-ids_in k (m ∷ ms) freed = omega (
  arith,
  empty-ids_in k ms (freed ++ ctx_list m.ctx),
  ids_in-append k freed (ctx_list m.ctx),
  ctx_list-count k m.ctx,
)
  where
    ctx_list-count : (k : ℕ) (o : Option Ctx) → ids_in k (ctx_list o) ≡ ctx_count k o
    ctx_list-count k none = refl
    ctx_list-count k (some c) = omega arith

-- The end frees each context that is in the lists, once.
pub fini_dp_msg_cache-ids_in :
    (k : ℕ) (s : State)
    → ids_in k (fini_dp_msg_cache s).zebra.freed
      ≡ ids_in k s.zebra.freed
        + held_in k s.cache.pool
        + held_in k s.cache.unsent
        + held_in k s.cache.in_flight
unfolding fini_dp_msg_cache
fini_dp_msg_cache-ids_in k s =
    let pool = empty_dp_msg_list s.cache.pool s.zebra.freed in
    let unsent = empty_dp_msg_list s.cache.unsent pool in
    omega (
      arith,
      empty-ids_in k s.cache.in_flight unsent,
      empty-ids_in k s.cache.unsent pool,
      empty-ids_in k s.cache.pool s.zebra.freed,
    )

-- The start leaves a pool of 1000 cleared messages and nothing else.
pub init_dp_msg_cache-replicate :
    (s : State)
    → (init_dp_msg_cache s).cache
      ≡ record { pool = replicate 1000 zeroed_msg; unsent = []; in_flight = [] }
unfolding init_dp_msg_cache
init_dp_msg_cache-replicate s =
    ap (λ l. record { pool = l; unsent = []; in_flight = [] }) (fill_pool-replicate 1000 [])
