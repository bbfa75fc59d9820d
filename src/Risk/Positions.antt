-- ===== src/Risk/Positions.antt =====
-- What the position check promises of the position that fills lead to.
use flux_trade.Prelude.{
  ℕ, ◌+◌, ◌≤◌, ◌<◌, ◌^◌, ◌%◌, true, ◌≡◌, refl, ap, ap₂, subst, sym, ◌∙◌, arith,
}
use flux_trade.Prelude.Int.{ℤ, pos, negsuc, pos_part, neg_part, eq_of_parts, ◌+ℤ◌, ◌-ℤ◌}
use flux_trade.Prelude.Words.{add64, to_i64}
use flux_trade.Domain.{Side, buy, sell}
use flux_trade.Risk.Context.{RiskContext}
use flux_trade.Risk.Margin.{
  PositionState, Positions, signed_by, within_limits, validate, position_state, add_fill,
  settle_fill, update_on_fill,
}

-- The net is the longs less the shorts, and neither is near the end of 64 bits.
pub record Balanced (s : PositionState) : Type 0 where
  pub net : s.net_qty ≡ to_i64 s.long_qty -ℤ to_i64 s.short_qty
  pub long_small : s.long_qty < 2 ^ 62
  pub short_small : s.short_qty < 2 ^ 62

to_i64_small : (w : ℕ) → w < 2 ^ 63 → to_i64 w ≡ pos w
to_i64_small w h = ground arith

pos_sum : (a b q : ℕ) → pos (a + q) -ℤ pos b ≡ (pos a -ℤ pos b) +ℤ pos q
unfolding ◌+ℤ◌ ◌-ℤ◌
pos_sum a b q = eq_of_parts _ _ (ground arith)

pos_difference : (a b q : ℕ) → pos a -ℤ pos (b + q) ≡ (pos a -ℤ pos b) -ℤ pos q
unfolding ◌-ℤ◌
pos_difference a b q = eq_of_parts _ _ (ground arith)

Balanced-net : (s : PositionState) → Balanced s → s.net_qty ≡ pos s.long_qty -ℤ pos s.short_qty
Balanced-net s b =
    b.net
    ∙ ap₂ (λ l r. l -ℤ r) (to_i64_small s.long_qty (omega (arith, b.long_small)))
        (to_i64_small s.short_qty (omega (arith, b.short_small)))

no_wrap : (a q : ℕ) → a < 2 ^ 62 → q < 2 ^ 62 → to_i64 (add64 a q) ≡ pos (a + q)
no_wrap a q h k =
    let fits : add64 a q ≡ a + q = omega arith in
    ap to_i64 fits ∙ to_i64_small (a + q) (omega arith)

settled_net :
    (side : Side) (qty : ℕ) (s : PositionState)
    → Balanced s
    → qty < 2 ^ 62
    → (settle_fill (add_fill side qty s)).net_qty ≡ signed_by side s.net_qty (to_i64 qty)
unfolding settle_fill add_fill
settled_net buy qty s b small =
    ap₂ (λ l r. l -ℤ r) (no_wrap s.long_qty qty b.long_small small)
      (to_i64_small s.short_qty (omega (arith, b.short_small)))
    ∙ pos_sum s.long_qty s.short_qty qty
    ∙ ap₂ (λ l r. l +ℤ r) (sym (Balanced-net s b)) (sym (to_i64_small qty (omega arith)))
settled_net sell qty s b small =
    ap₂ (λ l r. l -ℤ r) (to_i64_small s.long_qty (omega (arith, b.long_small)))
      (no_wrap s.short_qty qty b.short_small small)
    ∙ pos_difference s.long_qty s.short_qty qty
    ∙ ap₂ (λ l r. l -ℤ r) (sym (Balanced-net s b)) (sym (to_i64_small qty (omega arith)))

within :
    (next : ℤ) (s : PositionState)
    → within_limits next s ≡ true
    → 0 < s.max_long_limit
    → 0 < s.max_short_limit
    → pos_part next < 2 ^ 63
    → neg_part next < 2 ^ 63
    → (pos_part next ≤ s.max_long_limit) × (neg_part next ≤ s.max_short_limit)
unfolding within_limits ◌-ℤ◌
within (pos n) s h l k small short = (ground arith, omega arith)
within (negsuc n) s h l k small short = (omega arith, ground arith)

difference_small :
    (a b : ℕ)
    → a < 2 ^ 63
    → b < 2 ^ 63
    → (pos_part (pos a -ℤ pos b) < 2 ^ 63) × (neg_part (pos a -ℤ pos b) < 2 ^ 63)
unfolding ◌-ℤ◌
difference_small a b h k = ground arith

-- The net position after a fill, from the longs and shorts of before.
next_net :
    (side : Side) (qty : ℕ) (s : PositionState)
    → Balanced s
    → qty < 2 ^ 62
    → (a b : ℕ) × (a < 2 ^ 63)
      × (b < 2 ^ 63)
      × (pos a -ℤ pos b ≡ signed_by side s.net_qty (to_i64 qty))
next_net buy qty s b small = (
  s.long_qty + qty,
  s.short_qty,
  omega (arith, b.long_small),
  omega (arith, b.short_small),
  pos_sum s.long_qty s.short_qty qty
      ∙ ap₂ (λ l r. l +ℤ r) (sym (Balanced-net s b)) (sym (to_i64_small qty (omega arith))),
)
next_net sell qty s b small = (
  s.long_qty,
  s.short_qty + qty,
  omega (arith, b.long_small),
  omega (arith, b.short_small),
  pos_difference s.long_qty s.short_qty qty
      ∙ ap₂ (λ l r. l -ℤ r) (sym (Balanced-net s b)) (sym (to_i64_small qty (omega arith))),
)

net_small :
    (side : Side) (qty : ℕ) (s : PositionState)
    → Balanced s
    → qty < 2 ^ 62
    → let next = signed_by side s.net_qty (to_i64 qty) in
      (pos_part next < 2 ^ 63) × (neg_part next < 2 ^ 63)
net_small side qty s b small =
    let (x, y, hx, hy, e) = next_net side qty s b small in
    subst (λ n. (pos_part n < 2 ^ 63) × (neg_part n < 2 ^ 63)) e (difference_small x y hx hy)

-- A fill updates the slot that its account and symbol have.
position-update_on_fill :
    (account symbol : ℕ) (side : Side) (qty : ℕ) (positions : Positions)
    → update_on_fill account symbol side qty positions (account % 128) (symbol % 32)
      ≡ settle_fill (add_fill side qty (position_state account symbol positions))
unfolding update_on_fill
position-update_on_fill account symbol side qty positions = ground arith

limits-settle_fill :
    (side : Side) (qty : ℕ) (s : PositionState)
    → let s' = settle_fill (add_fill side qty s) in
      (s'.max_long_limit ≡ s.max_long_limit) × (s'.max_short_limit ≡ s.max_short_limit)
unfolding settle_fill add_fill
limits-settle_fill buy qty s = (refl, refl)
limits-settle_fill sell qty s = (refl, refl)

-- Where the position's net is its longs less its shorts, those and the order's quantity are below 2 ^ 62,
-- and both limits are set, an order that the position check passes keeps the position within both limits
-- when it is filled whole: the slot that the fill writes is no longer than the long limit and no
-- shorter than the short limit.
pub filled-within_limits :
    (ctx : RiskContext) (positions : Positions)
    → let s = position_state ctx.account_id ctx.symbol_id positions in
      Balanced s
      → ctx.qty < 2 ^ 62
      → 0 < s.max_long_limit
      → 0 < s.max_short_limit
      → validate ctx s ≡ true
      → let filled =
          update_on_fill ctx.account_id ctx.symbol_id ctx.side ctx.qty positions
            (ctx.account_id % 128)
            (ctx.symbol_id % 32) in
        (pos_part filled.net_qty ≤ s.max_long_limit) × (neg_part filled.net_qty ≤ s.max_short_limit)
unfolding validate
filled-within_limits ctx positions b small l k h =
    let s = position_state ctx.account_id ctx.symbol_id positions in
    let (longs, shorts) = net_small ctx.side ctx.qty s b small in
    let e =
      ap (λ (p : PositionState). p.net_qty)
        (position-update_on_fill ctx.account_id ctx.symbol_id ctx.side ctx.qty positions)
      ∙ settled_net ctx.side ctx.qty s b small in
    let (long, short) =
      within (signed_by ctx.side s.net_qty (to_i64 ctx.qty)) s h l k longs shorts in
    (omega (arith, ap pos_part e, long), omega (arith, ap neg_part e, short))
