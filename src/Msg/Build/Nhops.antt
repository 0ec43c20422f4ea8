-- ===== src/Msg/Build/Nhops.antt =====
-- Which next hops of a route from zebra reach the dataplane, from src/hh_dp_msg.c.
use dplane_plugin.Base.{
  arith, ◌≡◌, refl, ◌∙◌, sym, ap, List, [], ◌∷◌, ◌++◌, map, append-nil, append_assoc, Bool, true,
  false, not, ◌&&◌, ◌||◌, if◌then◌else◌, Bool-cases, inl, inr,
}
use dplane_plugin.Rpc.{IpRoute, NextHop}
use dplane_plugin.World.Env.{Env}
use dplane_plugin.World.Frr.{Ctx, Nexthop}
use dplane_plugin.Msg.Build.{has_recursive, add_nhops, iproute_of, route_head, nhop_encode}

-- The entries that pass the test, in their order, and whether one does.
abbrev pub selected : {A : Type 0} → (A → Bool) → List A → List A
selected p [] = []
selected p (x ∷ xs) = if p x then x ∷ selected p xs else selected p xs

abbrev pub exists {ℓ} : {A : Type ℓ} → (A → Bool) → List A → Bool
exists p [] = false
exists p (x ∷ xs) = p x || exists p xs

-- Once one of the next hops is resolved recursively, only those that are count.
abbrev pub counts : List Nexthop → Nexthop → Bool
counts nhs nh = nh.active && (nh.recursive || not (exists (λ x. x.recursive) nhs))

-- `ip_route_add_nhop` appends.
abbrev pub Appends : Env → Type 0
Appends e =
    (r : IpRoute) (n : NextHop) → e.ip_route_add_nhop r n ≡ record r { nhops = r.nhops ++ n ∷ [] }

has_recursive-exists : (nhs : List Nexthop) → has_recursive nhs ≡ exists (λ x. x.recursive) nhs
unfolding has_recursive
has_recursive-exists [] = refl
has_recursive-exists (nh ∷ nhs) =
    ap (λ b. if nh.recursive then true else b) (has_recursive-exists nhs) ∙ if_true nh.recursive _
  where
    if_true : (a b : Bool) → (if a then true else b) ≡ (a || b)
    if_true true b = refl
    if_true false b = refl

wanted : Bool → Nexthop → Bool
wanted recursive nh = nh.active && (nh.recursive || not recursive)

with_nhops : IpRoute → List NextHop → IpRoute
with_nhops r ns = record r { nhops = ns }

-- One round of the second loop.
added : Env → Bool → Nexthop → IpRoute → IpRoute
added e b nh r =
    if nh.active
    then (if (b && nh.recursive) || not b then e.ip_route_add_nhop r (nhop_encode nh) else r)
    else r

added-wanted :
    (e : Env) (b : Bool) (nh : Nexthop) (r : IpRoute)
    → added e b nh r ≡ (if wanted b nh then e.ip_route_add_nhop r (nhop_encode nh) else r)
unfolding added wanted
added-wanted e b nh r = ground arith

add_nhops-append :
    (e : Env) (b : Bool) (nhs : List Nexthop) (r : IpRoute)
    → Appends e
    → add_nhops e b nhs r ≡ with_nhops r (r.nhops ++ map nhop_encode (selected (wanted b) nhs))
unfolding add_nhops with_nhops added
add_nhops-append e b [] r h = ap (λ l. record r { nhops = l }) (sym (append-nil r.nhops))
add_nhops-append e b (nh ∷ nhs) r h =
    ap (add_nhops e b nhs) (added-wanted e b nh r) ∙ elim (Bool-cases (wanted b nh)) [
      | inl w ↦
          rw (w, h r (nhop_encode nh))
            (add_nhops-append e b nhs (record r { nhops = r.nhops ++ nhop_encode nh ∷ [] }) h
              ∙ ap (with_nhops r) (append_assoc r.nhops (nhop_encode nh ∷ []) _))
      | inr w ↦ rw w (add_nhops-append e b nhs r h)
    ]

-- The route that is sent has the head of the context's and, in zebra's order, the active next hops;
-- only the recursive ones among them if any next hop is.
pub iproute_of-selected :
    (e : Env) (ctx : Ctx)
    → Appends e
    → iproute_of e ctx ≡ record (route_head ctx) {
      nhops = map nhop_encode (selected (counts ctx.nexthops) ctx.nexthops);
    }
unfolding iproute_of with_nhops wanted
iproute_of-selected e ctx h =
    ap (λ b. add_nhops e b ctx.nexthops (route_head ctx)) (has_recursive-exists ctx.nexthops)
    ∙ add_nhops-append e (exists (λ x. x.recursive) ctx.nexthops) ctx.nexthops (route_head ctx) h
