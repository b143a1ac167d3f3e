-- ===== src/Risk/Shares.antt =====
-- Which lines the factors of app/guardian/risk.py name.
use chumma.Base.{
  ℕ, ◌-◌, ◌≡◌, refl, sym, ap, ◌∙◌, inl, inr, Option, none, some, List, [], ◌∷◌, ◌++◌, map, ◌==◌,
  if◌then◌else◌, Bool-cases, if-cases, keep_if,
}
use chumma.Base.Decimal.{Decimal, dec, ◌-ᵈ◌, lt_dec, eq_dec}
use chumma.Risk.{RiskSettings, LineOverage, RiskFactor, Source, is_over, discount_excess}
use chumma.Risk.Factors.{Shares, add_share, add_shares, add_at, settle, discount_factors}

abbrev pub sources : List RiskFactor → List Source
sources = map (λ f. f.source_reference)

abbrev pub line_of : LineOverage → Source
line_of o = Source.line o.line_id

map-append : (xs ys : List RiskFactor) → sources (xs ++ ys) ≡ sources xs ++ sources ys
map-append [] ys = refl
map-append (x ∷ xs) ys = ap (λ zs. x.source_reference ∷ zs) (map-append xs ys)

append_assoc : (xs ys zs : List Source) → (xs ++ ys) ++ zs ≡ xs ++ (ys ++ zs)
append_assoc [] ys zs = refl
append_assoc (x ∷ xs) ys zs = ap (λ rest. x ∷ rest) (append_assoc xs ys zs)

append_none : (xs : List Source) → xs ++ [] ≡ xs
append_none [] = refl
append_none (x ∷ xs) = ap (λ rest. x ∷ rest) (append_none xs)

add_shares-sources :
    (s : RiskSettings) (excess total : Decimal) (n : ℕ) (os : List LineOverage) (v : Shares)
    → sources (add_shares s excess total n os v).factors ≡ sources v.factors ++ map line_of os
unfolding add_shares
add_shares-sources s excess total n [] v = sym (append_none (sources v.factors))
add_shares-sources s excess total n (o ∷ os) v =
    add_shares-sources s excess total n os (add_share s excess total n o v)
    ∙ ap (λ xs. xs ++ map line_of os) (map-append v.factors _)
    ∙ append_assoc (sources v.factors) (line_of o ∷ []) (map line_of os)

add_at-sources :
    (i : ℕ) (diff : Decimal) (fs : List RiskFactor) → sources (add_at i diff fs) ≡ sources fs
unfolding add_at
add_at-sources i diff [] = refl
add_at-sources i diff (f ∷ fs) =
    if-cases (λ gs. sources gs ≡ sources (f ∷ fs)) (i == 0) _ _ (λ e. refl)
      (λ e. ap (λ rest. f.source_reference ∷ rest) (add_at-sources (i - 1) diff fs))

settle-sources : (excess : Decimal) (v : Shares) → sources (settle excess v) ≡ sources v.factors
unfolding settle
settle-sources excess v =
    if-cases (λ gs. sources gs ≡ sources v.factors) (eq_dec (excess -ᵈ v.accum_contrib) (dec 0 0)) _
      _ (λ e. refl) (λ e. at v.max_line_entry)
  where
    at :
        (o : Option ℕ)
        → sources
            (elim o [ none ↦ v.factors | some i ↦ add_at i (excess -ᵈ v.accum_contrib) v.factors ])
          ≡ sources v.factors
    at none = refl
    at (some i) = add_at-sources i (excess -ᵈ v.accum_contrib) v.factors

-- The discount factors name exactly the lines that exceed their ceilings, each once and in the
-- order of the deal, wherever the discounts cost any points; else there are none.
pub discount_factors-sources :
    (s : RiskSettings) (os : List LineOverage)
    → sources (discount_factors s os)
      ≡ (if lt_dec (dec 0 0) (discount_excess s os) then map line_of (keep_if is_over os) else [])
unfolding discount_factors
discount_factors-sources s os = elim (Bool-cases (lt_dec (dec 0 0) (discount_excess s os))) [
  | inl costs ↦ rw costs (
      settle-sources (discount_excess s os) _
      ∙ add_shares-sources s (discount_excess s os) _ _ (keep_if is_over os) _)
  | inr free ↦ rw free refl
]
