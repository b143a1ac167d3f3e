-- ===== src/Risk/Ceilings.antt =====
-- The ceilings of app/guardian/risk.py: a discount that keeps to its ceiling costs no overage.
use chumma.Base.{
  subst, ℕ, zero, suc, ◌+◌, ◌-◌, ◌*◌, ◌^◌, ◌≤◌, ◌≡◌, refl, sym, ap, ◌∙◌, true, false, List, [], ◌∷◌,
  map, arith, leb, if-cases, All,
}
use chumma.Base.Int.{ℤ, pos, negsuc, pos_part, neg_part, sub_ℕ, ◌*ℤ◌, ◌-ℤ◌}
use chumma.Base.Order.{AtMost, AtMost-iff, pos_scaled, neg_scaled, pow_pos}
use Prim.Native.Nat.{max}
use native.Mathlib.Nat.{pow-suc, le_of_mul-le-mul_left, mul-le-mul_left}
use chumma.Base.Decimal.{
  prec, Decimal, dec, fix, aligned, ◌-ᵈ◌, lt_dec, le_dec, eq_dec, quantize_dec, digit_count,
}
use chumma.Context.{DealContext, DealLine}
use chumma.Enums.{ApprovalLevel}
use chumma.Risk.{
  RiskSettings, line_overage, line_overages, overage_of, effective_discount, ceiling_for,
}
use chumma.Risk.Overages.{IsWithinCeiling}
use chumma.Risk.Score.{calculate_deal_risk}
use chumma.Risk.Levels.{auto_approval_iff}

pow_add : (m n : ℕ) → 10 ^ (m + n) ≡ 10 ^ m * 10 ^ n
pow_add zero n = ap (λ k. 10 ^ k) none_more ∙ omega arith
  where
    none_more : 0 + n ≡ n
    none_more = omega arith
pow_add (suc m) n =
    ap (λ k. 10 ^ k) one_more
    ∙ omega (arith, pow_add m n, pow-suc 10 (m + n), ap (λ x. x * 10 ^ n) (pow-suc 10 m))
  where
    one_more : suc m + n ≡ suc (m + n)
    one_more = omega arith

-- The same comparison at a common scale.
rescaled :
    (pa na A E pb nb B F : ℕ)
    → A * E ≡ B * F
    → 1 ≤ A * B
    → pa * B + nb * A ≤ pb * A + na * B
    → pa * E + nb * F ≤ pb * F + na * E
rescaled pa na A E pb nb B F same h k = le_of_mul-le-mul_left {k = A * B} scaled h
  where
    scaled : A * B * (pa * E + nb * F) ≤ A * B * (pb * F + na * E)
    scaled =
        omega (
          arith,
          mul-le-mul_left (A * E) k,
          ap (λ z. z * (A * nb)) same,
          ap (λ z. z * (A * pb)) same,
        )

no_more : (x y : ℤ) → pos_part x + neg_part y ≤ pos_part y + neg_part x → pos_part (x -ℤ y) ≡ 0
unfolding ◌-ℤ◌
no_more x y h = ground arith

below_zero : (m : ℕ) → pos_part (sub_ℕ 0 m) ≡ 0
below_zero m = ground arith

fix-no_more :
    (c : ℤ) (p : ℕ) → pos_part c ≡ 0 → pos_part (fix (record { coeff = c; places = p })).coeff ≡ 0
unfolding fix
fix-no_more (pos zero) p h = refl
fix-no_more (pos (suc n)) p h = absurd (omega (arith, h))
fix-no_more (negsuc n) p h =
    if-cases (λ (d : Decimal). pos_part d.coeff ≡ 0) (leb (digit_count (0 + suc n)) prec)
      (record { coeff = negsuc n; places = p }) _ (λ _. refl) (λ _. scaled_down _ _)
  where
    scaled_down : (m k : ℕ) → pos_part (sub_ℕ 0 m *ℤ pos k) ≡ 0
    scaled_down m k = omega (arith, pos_scaled (sub_ℕ 0 m) k, ap (λ x. x * k) (below_zero m))

-- The difference of a value and one that is no less has no positive part.
difference : (a b : Decimal) → le_dec a b ≡ true → pos_part (a -ᵈ b).coeff ≡ 0
unfolding ◌-ᵈ◌ AtMost
difference a b h =
    fix-no_more (aligned a p -ℤ aligned b p) p (no_more (aligned a p) (aligned b p) ordered)
  where
    p : ℕ
    p = max a.places b.places

    E : ℕ
    E = 10 ^ (p - a.places)

    F : ℕ
    F = 10 ^ (p - b.places)

    common : a.places + (p - a.places) ≡ b.places + (p - b.places)
    common = ground arith

    same : 10 ^ a.places * E ≡ 10 ^ b.places * F
    same =
        sym (pow_add a.places (p - a.places))
        ∙ ap (λ k. 10 ^ k) common
        ∙ pow_add b.places (p - b.places)

    ordered :
        pos_part (aligned a p) + neg_part (aligned b p)
        ≤ pos_part (aligned b p) + neg_part (aligned a p)
    ordered = omega (
      arith,
      pos_scaled a.coeff E,
      neg_scaled a.coeff E,
      pos_scaled b.coeff F,
      neg_scaled b.coeff F,
      rescaled (pos_part a.coeff) (neg_part a.coeff) (10 ^ a.places) E (pos_part b.coeff)
          (neg_part b.coeff) (10 ^ b.places) F same
          (subst (λ x. 1 ≤ x) (pow_add a.places b.places) (pow_pos (a.places + b.places)))
          ((AtMost-iff a b).0 h),
    )

not_above : (d : Decimal) → pos_part d.coeff ≡ 0 → lt_dec (dec 0 2) d ≡ false
unfolding lt_dec
not_above d h = ground (
  arith,
  h,
  pos_scaled d.coeff 100,
  ap (λ x. x * 100) h,
  pos_scaled (pos 0) (10 ^ d.places),
  neg_scaled (pos 0) (10 ^ d.places),
)

none_over : eq_dec (quantize_dec (dec 0 2) 4) (dec 0 0) ≡ true
unfolding eq_dec quantize_dec ◌*ℤ◌
none_over = refl

overage_of-none :
    (eff ceiling : Decimal)
    → le_dec eff ceiling ≡ true
    → eq_dec (overage_of eff ceiling) (dec 0 0) ≡ true
unfolding overage_of
overage_of-none eff ceiling h = rw (not_above (eff -ᵈ ceiling) (difference eff ceiling h)) none_over

-- The discount of a line, with the order's, keeps to the ceiling that the line has.
abbrev pub KeepsCeiling : DealContext → List (ℕ × Decimal) → DealLine → Type 0
KeepsCeiling ctx ceilings l =
    le_dec (effective_discount ctx.order_discount_pct l.discount_pct)
      (ceiling_for ceilings ctx.tier_default_ceiling l.line_id)
    ≡ true

kept :
    (ctx : DealContext) (ceilings : List (ℕ × Decimal)) (total : Decimal) (ls : List DealLine)
    → All (KeepsCeiling ctx ceilings) ls
    → All IsWithinCeiling
        (map (line_overage ctx.order_discount_pct ctx.tier_default_ceiling ceilings total) ls)
unfolding line_overage
kept ctx ceilings total [] h = tt
kept ctx ceilings total (l ∷ ls) (h, hs) = (overage_of-none _ _ h, kept ctx ceilings total ls hs)

-- A deal whose lines' discounts, with the order's, all keep to their ceilings needs no approval if
-- its score is below the manager's threshold.
pub kept_ceilings :
    (ctx : DealContext) (ceilings : List (ℕ × Decimal)) (s : RiskSettings)
    → All (KeepsCeiling ctx ceilings) ctx.lines
    → lt_dec (calculate_deal_risk ctx ceilings s).risk_score s.manager_threshold ≡ true
    → (calculate_deal_risk ctx ceilings s).required_level ≡ ApprovalLevel.none
unfolding line_overages
kept_ceilings ctx ceilings s h low = (auto_approval_iff ctx ceilings s).1 (within, low)
  where
    within : All IsWithinCeiling (line_overages ctx ceilings)
    within = kept ctx ceilings _ ctx.lines h
