-- ===== src/Stats/Show/Rows.antt =====
-- Which rows the table of src/hh_dp_rpc_stats.c has.
use mathlib.Core.Bool.{true≢false}
use dplane_plugin.Base.{
  ℕ, zero, suc, ◌+◌, ◌-◌, ◌≤◌, ◌<◌, ◌≡◌, ◌↔◌, ◌⊎◌, ◌∙◌, sym, subst, ap, inl, inr, arith, List, [],
  ◌∷◌, ◌++◌, false, ◌==◌, Bool-cases,
}
use dplane_plugin.Rpc.{RpcOp}
use dplane_plugin.World.Env.{Env}
use dplane_plugin.Stats.Show.{Tags, upto, range, excluded, shown_ops, shown_of, shown}

-- The list has the entry.
abbrev pub Has : {A : Type 0} → A → List A → Type 0
Has a [] = ⊥
Has a (x ∷ xs) = (x ≡ a) ⊎ Has a xs

-- An object type with an operation that the plugin can request of it.
abbrev pub IsPossible : Env → Tags → ℕ → ℕ → Type 0
IsPossible e tags ot op =
    ((ot ≡ tags.conn_info_type) ↔ (op ≡ e.op_code RpcOp.connect))
    × ((op ≡ e.op_code RpcOp.update) → (ot ≡ tags.ip_route_type))

Has-upto : (x n a : ℕ) → a ≤ x → x < a + n → Has x (upto n a)
Has-upto x zero a h k = absurd (omega (arith, h, k))
Has-upto x (suc n) a h k = elim (Bool-cases (a == x)) [
  | inl here ↦ inl (ground (arith, here))
  | inr there ↦ inr (Has-upto x n (a + 1) (ground (arith, there, h)) (omega (arith, k)))
]

upto-bounds : (x n a : ℕ) → Has x (upto n a) → (a ≤ x) × (x < a + n)
upto-bounds x zero a h = absurd h
upto-bounds x (suc n) a (inl here) = omega (arith, here)
upto-bounds x (suc n) a (inr there) = omega (arith, upto-bounds x n (a + 1) there)

module _ {A : Type 0} where
  Has-append_left : (a : A) (xs ys : List A) → Has a xs → Has a (xs ++ ys)
  Has-append_left a [] ys h = elim h [ ]
  Has-append_left a (x ∷ xs) ys (inl h) = inl h
  Has-append_left a (x ∷ xs) ys (inr h) = inr (Has-append_left a xs ys h)

  Has-append_right : (a : A) (xs ys : List A) → Has a ys → Has a (xs ++ ys)
  Has-append_right a [] ys h = h
  Has-append_right a (x ∷ xs) ys h = inr (Has-append_right a xs ys h)

  Has-append_cases : (a : A) (xs ys : List A) → Has a (xs ++ ys) → Has a xs ⊎ Has a ys
  Has-append_cases a [] ys h = inr h
  Has-append_cases a (x ∷ xs) ys (inl h) = inl (inl h)
  Has-append_cases a (x ∷ xs) ys (inr h) = elim (Has-append_cases a xs ys h) [
    | inl k ↦ inl (inr k)
    | inr k ↦ inr k
  ]

module _ (e : Env) (tags : Tags) where
  excluded-IsPossible : (ot op : ℕ) → (excluded e tags ot op ≡ false) ↔ IsPossible e tags ot op
  unfolding excluded
  excluded-IsPossible ot op = (λ h. ground (arith, h), λ h. grind (arith, h))

  -- The rows of one object type.
  shown_ops-Has :
      (ot ot' op : ℕ) (ops : List ℕ)
      → Has (ot', op) (shown_ops e tags ot ops)
        ↔ ((ot ≡ ot') × Has op ops × IsPossible e tags ot op)
  unfolding shown_ops
  shown_ops-Has ot ot' op [] = (λ h. absurd h, λ h. absurd h.1)
  shown_ops-Has ot ot' op (o ∷ ops) = elim (Bool-cases (excluded e tags ot o)) [
    | inl out ↦ rw out (
      λ h. let (same, at, ok) = (shown_ops-Has ot ot' op ops).0 h in (same, inr at, ok),
      λ (same, at, ok). elim at [
        | inl here ↦
            absurd (
              true≢false
                (sym out ∙ ap (excluded e tags ot) here ∙ (excluded-IsPossible ot op).1 ok))
        | inr there ↦ (shown_ops-Has ot ot' op ops).1 (same, there, ok)
      ],
    )
    | inr kept ↦ rw kept (
      λ h. elim h [
        | inl here ↦ (
          ap (λ p. p.0) here,
          inl (ap (λ p. p.1) here),
          subst (IsPossible e tags ot) (ap (λ p. p.1) here) ((excluded-IsPossible ot o).0 kept),
        )
        | inr there ↦
            let (same, at, ok) = (shown_ops-Has ot ot' op ops).0 there in (same, inr at, ok)
      ],
      λ (same, at, ok). elim at [
        | inl here ↦ inl (λ i. (same i, here i))
        | inr there ↦ inr ((shown_ops-Has ot ot' op ops).1 (same, there, ok))
      ],
    )
  ]

  abbrev ops_shown : List ℕ
  ops_shown = range (e.op_code RpcOp.connect) e.max_rpc_op

  shown_of-Has :
      (ot op : ℕ) (ots : List ℕ)
      → Has (ot, op) (shown_of e tags ots)
        ↔ (Has ot ots × Has op ops_shown × IsPossible e tags ot op)
  unfolding shown_of
  shown_of-Has ot op [] = (λ h. absurd h, λ h. absurd h.0)
  shown_of-Has ot op (x ∷ ots) = (there (shown_of-Has ot op ots).0, back (shown_of-Has ot op ots).1)
    where
      there :
          (Has (ot, op) (shown_of e tags ots)
            → Has ot ots × Has op ops_shown × IsPossible e tags ot op)
          → Has (ot, op) (shown_ops e tags x ops_shown ++ shown_of e tags ots)
          → Has ot (x ∷ ots) × Has op ops_shown × IsPossible e tags ot op
      there ih h = elim (Has-append_cases (ot, op) (shown_ops e tags x ops_shown) _ h) [
        | inl k ↦
            let (same, at, ok) = (shown_ops-Has x ot op ops_shown).0 k in
            (inl same, at, subst (λ y. IsPossible e tags y op) same ok)
        | inr k ↦ let (at, is, ok) = ih k in (inr at, is, ok)
      ]

      back :
          (Has ot ots × Has op ops_shown × IsPossible e tags ot op
            → Has (ot, op) (shown_of e tags ots))
          → Has ot (x ∷ ots) × Has op ops_shown × IsPossible e tags ot op
          → Has (ot, op) (shown_ops e tags x ops_shown ++ shown_of e tags ots)
      back ih (inl same, is, ok) =
          Has-append_left (ot, op) (shown_ops e tags x ops_shown) _
            ((shown_ops-Has x ot op ops_shown).1
              (same, is, subst (λ y. IsPossible e tags y op) (sym same) ok))
      back ih (inr at, is, ok) =
          Has-append_right (ot, op) (shown_ops e tags x ops_shown) _ (ih (at, is, ok))

  Has-range : (x a b : ℕ) → Has x (range a b) ↔ ((a ≤ x) × (x < b))
  Has-range x a b = (
    λ h. omega (arith, upto-bounds x (b - a) a h),
    λ h. Has-upto x (b - a) a h.0 (omega (arith, h.0, h.1)),
  )

  -- The table has a row for an object type and an operation exactly when both are in the range of the
  -- statistics, the operation is Connect for ConnectInfo and for it only, and it is not an Update of
  -- anything but a route.
  pub shown-IsPossible :
      (ot op : ℕ)
      → Has (ot, op) (shown e tags) ↔ (
          (tags.none_type < ot)
          × (ot < e.max_obj_type)
          × (e.op_code RpcOp.connect ≤ op)
          × (op < e.max_rpc_op)
          × IsPossible e tags ot op)
  unfolding shown
  shown-IsPossible ot op = (
    λ h.
        let (at, is, ok) = (shown_of-Has ot op (range (tags.none_type + 1) e.max_obj_type)).0 h in
        let (a, b) = (Has-range ot (tags.none_type + 1) e.max_obj_type).0 at in
        let (c, d) = (Has-range op (e.op_code RpcOp.connect) e.max_rpc_op).0 is in
        (omega (arith, a), b, c, d, ok),
    λ (a, b, c, d, ok). (shown_of-Has ot op (range (tags.none_type + 1) e.max_obj_type)).1 (
      (Has-range ot (tags.none_type + 1) e.max_obj_type).1 (omega (arith, a), b),
      (Has-range op (e.op_code RpcOp.connect) e.max_rpc_op).1 (c, d),
      ok,
    ),
  )
