-- ===== src/Stats/Frame.antt =====
-- The counters of requests change nothing but the statistics.
use dplane_plugin.Base.{◌≡◌, refl, true, leb}
use dplane_plugin.Rpc.{RpcOp, ObjType, ResultCode}
use dplane_plugin.World.Env.{Env}
use dplane_plugin.World.State.{State}
use dplane_plugin.World.Monad.{Post, Post-bug, Post-if}
use dplane_plugin.Stats.{rpc_count_request_sent, rpc_count_request_replied}

pub record StatsOnly (s t : State) : Type 0 where
  pub comm : t.comm ≡ s.comm
  pub cache : t.cache ≡ s.cache
  pub seqnum : t.seqnum ≡ s.seqnum
  pub kernel : t.kernel ≡ s.kernel
  pub zebra : t.zebra ≡ s.zebra

abbrev same : {s : State} → StatsOnly s s
same = record { comm = refl; cache = refl; seqnum = refl; kernel = refl; zebra = refl }

module _ (F G : Type 0) (e : Env) (dbg : e.debug_build ≡ true → G) where
  pub rpc_count_request_sent-StatsOnly :
      (op : RpcOp) (ot : ObjType) (s : State)
      → Post F G (λ _ t. StatsOnly s t) (rpc_count_request_sent e op ot s)
  unfolding rpc_count_request_sent
  rpc_count_request_sent-StatsOnly op ot s =
      Post-if F G (λ _ t. StatsOnly s t) (leb e.max_rpc_op (e.op_code op)) _ _ s
        (λ _. Post-bug F G (λ _ t. StatsOnly s t) e tt s dbg (λ _. same))
        (λ _.
          Post-if F G (λ _ t. StatsOnly s t) (leb e.max_obj_type ot) _ _ s
            (λ _. Post-bug F G (λ _ t. StatsOnly s t) e tt s dbg (λ _. same))
            (λ _. record { comm = refl; cache = refl; seqnum = refl; kernel = refl; zebra = refl }))

  pub rpc_count_request_replied-StatsOnly :
      (op : RpcOp) (ot : ObjType) (rc : ResultCode) (s : State)
      → Post F G (λ _ t. StatsOnly s t) (rpc_count_request_replied e op ot rc s)
  unfolding rpc_count_request_replied
  rpc_count_request_replied-StatsOnly op ot rc s =
      Post-if F G (λ _ t. StatsOnly s t) (leb e.max_rpc_op (e.op_code op)) _ _ s
        (λ _. Post-bug F G (λ _ t. StatsOnly s t) e tt s dbg (λ _. same))
        (λ _.
          Post-if F G (λ _ t. StatsOnly s t) (leb e.max_obj_type ot) _ _ s
            (λ _. Post-bug F G (λ _ t. StatsOnly s t) e tt s dbg (λ _. same))
            (λ _. record { comm = refl; cache = refl; seqnum = refl; kernel = refl; zebra = refl }))
