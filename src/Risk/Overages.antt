-- ===== src/Risk/Overages.antt =====
-- The overages of app/guardian/risk.py: none is negative, and their maximum decides.
use chumma.Base.{ℕ, ◌≡◌, refl, ◌↔◌, true, List, [], ◌∷◌, map, All}
use chumma.Base.Int.{◌*ℤ◌}
use chumma.Base.Decimal.{Decimal, dec, ◌-ᵈ◌, lt_dec, le_dec, eq_dec, max_dec}
use chumma.Base.Order.{
  zero_le_iff, zero_le-quantize_dec, le_max_dec, le_max_from, eq_iff_le, le_trans,
}
use chumma.Base.Sort.{max_from, All-max_from}
use chumma.Context.{DealContext, DealLine}
use chumma.Risk.{max_overage, line_overage, line_overages, LineOverage, overage_of}

overage_of-nonneg : (eff ceiling : Decimal) → le_dec (dec 0 0) (overage_of eff ceiling) ≡ true
unfolding overage_of
overage_of-nonneg eff ceiling =
    zero_le-quantize_dec 0 4 over
      ((zero_le_iff 0 over).1 ((zero_le_iff 2 over).0 (le_max_dec (dec 0 2) (eff -ᵈ ceiling))))
  where
    over : Decimal
    over = max_dec (dec 0 2) (eff -ᵈ ceiling)

-- A line's overage is at least zero.
abbrev IsOverage : LineOverage → Type 0
IsOverage o = le_dec (dec 0 0) o.overage ≡ true

map-IsOverage :
    (order_pct default total : Decimal) (ceilings : List (ℕ × Decimal)) (ls : List DealLine)
    → All IsOverage (map (line_overage order_pct default ceilings total) ls)
unfolding line_overage
map-IsOverage order_pct default total ceilings [] = tt
map-IsOverage order_pct default total ceilings (l ∷ ls) =
    (overage_of-nonneg _ _, map-IsOverage order_pct default total ceilings ls)

line_overages-IsOverage :
    (ctx : DealContext) (ceilings : List (ℕ × Decimal)) → All IsOverage (line_overages ctx ceilings)
unfolding line_overages
line_overages-IsOverage ctx ceilings = map-IsOverage _ _ _ ceilings ctx.lines

-- No overage exceeds the maximum.
All-overages :
    (m : Decimal) (os : List LineOverage)
    → All (λ x. le_dec x m ≡ true) (map (λ (o : LineOverage). o.overage) os)
    → All (λ o. le_dec o.overage m ≡ true) os
All-overages m [] h = tt
All-overages m (o ∷ os) (h, k) = (h, All-overages m os k)

pub overages_le_max :
    (os : List LineOverage) → All (λ o. le_dec o.overage (max_overage os) ≡ true) os
unfolding max_overage
overages_le_max [] = tt
overages_le_max (o ∷ os) =
    All-overages (max_from lt_dec o.overage (map (λ p. p.overage) os)) (o ∷ os)
      (le_max_from o.overage (map (λ p. p.overage) os))

abbrev pub IsWithinCeiling : LineOverage → Type 0
IsWithinCeiling o = eq_dec o.overage (dec 0 0) ≡ true

zero_if_max :
    (m : Decimal) (os : List LineOverage)
    → eq_dec m (dec 0 0) ≡ true
    → All IsOverage os
    → All (λ o. le_dec o.overage m ≡ true) os
    → All IsWithinCeiling os
zero_if_max m [] no_excess h k = tt
zero_if_max m (o ∷ os) no_excess (h, hs) (k, ks) = (
  (eq_iff_le o.overage (dec 0 0)).1
      (le_trans o.overage m (dec 0 0) k ((eq_iff_le m (dec 0 0)).0 no_excess).0, h),
  zero_if_max m os no_excess hs ks,
)

max_if_zero :
    (best : LineOverage) (os : List LineOverage)
    → IsWithinCeiling best
    → All IsWithinCeiling os
    → eq_dec (max_from lt_dec best.overage (map (λ p. p.overage) os)) (dec 0 0) ≡ true
max_if_zero best os h k =
    All-max_from lt_dec (λ d. eq_dec d (dec 0 0) ≡ true) best.overage (map (λ p. p.overage) os) h
      (mapped os k)
  where
    mapped :
        (ps : List LineOverage)
        → All IsWithinCeiling ps
        → All (λ d. eq_dec d (dec 0 0) ≡ true) (map (λ p. p.overage) ps)
    mapped [] k = tt
    mapped (p ∷ ps) (k, ks) = (k, mapped ps ks)

none_zero : eq_dec (dec 0 2) (dec 0 0) ≡ true
unfolding eq_dec ◌*ℤ◌
none_zero = refl

zero_of :
    (os : List LineOverage) → All IsWithinCeiling os → eq_dec (max_overage os) (dec 0 0) ≡ true
unfolding max_overage
zero_of [] h = none_zero
zero_of (o ∷ os) (h, k) = max_if_zero o os h k

-- The maximum of the overages is zero exactly when every line is within its ceiling.
pub max_zero_iff :
    (ctx : DealContext) (ceilings : List (ℕ × Decimal))
    → (eq_dec (max_overage (line_overages ctx ceilings)) (dec 0 0) ≡ true)
      ↔ All IsWithinCeiling (line_overages ctx ceilings)
max_zero_iff ctx ceilings =
    let os = line_overages ctx ceilings in
    (
      λ h.
          zero_if_max (max_overage os) os h (line_overages-IsOverage ctx ceilings)
            (overages_le_max os),
      zero_of os,
    )
