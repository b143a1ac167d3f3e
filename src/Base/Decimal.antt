-- ===== src/Base/Decimal.antt =====
-- Python's `decimal.Decimal` in the default context: 28 significant digits, ROUND_HALF_EVEN, and
-- `quantize_dec` of app/services/deal_context_builder.py, which rounds half up.
-- A value is `coeff / 10 ^ places`. Numerically equal values may differ in `places`, as Python's
-- do, so code compares by `eq_dec`, `lt_dec` and `le_dec`. Positive exponents are written out in
-- the coefficient. Not modelled: the limits on exponents, infinities and NaN, and the signal that
-- `quantize` raises at a result of more than 28 digits.
use Prim.Native.Nat.{ℕ, zero, suc, ◌+◌, ◌-◌, ◌*◌, ◌/◌, ◌%◌, ◌^◌, max}
use mathlib.Core.Path.{◌≡◌, refl}
use mathlib.Core.Bool.{Bool}
use mathlib.Core.List.{List, [], ◌∷◌}
use chumma.Base.Tests.{ltb, leb, ◌==◌, if◌then◌else◌}
use chumma.Base.Int.{
  ℤ, pos, negsuc, pos_part, neg_part, sub_ℕ, ◌+ℤ◌, ◌-ℤ◌, ◌*ℤ◌, ltb_ℤ, leb_ℤ, eqb_ℤ,
}

pub record Decimal : Type 0 where
  pub coeff : ℤ
  pub places : ℕ

-- `Decimal("12.34")` is `dec 1234 2`.
abbrev pub dec : ℕ → ℕ → Decimal
dec n p = record { coeff = pos n; places = p }

abbrev pub prec : ℕ
prec = 28

-- The number of decimal digits, as `len(str(n))`, up to the fuel.
unfoldable pub digits_below : ℕ → ℕ → ℕ
digits_below zero n = 1
digits_below (suc f) n = let rest = digits_below f (n / 10) in if ltb n 10 then 1 else suc rest

-- Coefficients of up to 200 digits are measured exactly.
unfoldable pub digit_count : ℕ → ℕ
unfolding digits_below
digit_count n = digits_below 200 n

-- n / d to the nearest integer, a tie to the even one, or away from zero.
unfoldable pub round_half_even : ℕ → ℕ → ℕ
round_half_even n d =
    let q = n / d in
    let r = n % d in if ltb (2 * r) d then q else if ltb d (2 * r) then q + 1 else q + q % 2

unfoldable pub round_half_up : ℕ → ℕ → ℕ
round_half_up n d = (2 * n + d) / (2 * d)

-- An operation on the magnitude keeps the sign.
abbrev pub on_magnitude : (ℕ → ℕ) → ℤ → ℤ
on_magnitude f (pos n) = pos (f n)
on_magnitude f (negsuc n) = sub_ℕ 0 (f (suc n))

-- `c / 10 ^ p * 10 ^ d`.
abbrev shift_places : ℤ → ℕ → ℕ → Decimal
shift_places c p d = record { coeff = c *ℤ pos (10 ^ (d - p)); places = p - d }

-- Rounds to the context's precision.
unfoldable pub fix : Decimal → Decimal
unfolding digit_count round_half_even ◌*ℤ◌
fix a =
    let n = digit_count (pos_part a.coeff + neg_part a.coeff) in
    if leb n prec
    then a
    else shift_places (on_magnitude (λ m. round_half_even m (10 ^ (n - prec))) a.coeff) a.places
        (n - prec)

-- The coefficient at `p` places.
abbrev pub aligned : Decimal → ℕ → ℤ
aligned a p = a.coeff *ℤ pos (10 ^ (p - a.places))

infixl 65 ◌+ᵈ◌ ◌-ᵈ◌
infixl 70 ◌*ᵈ◌ ◌/ᵈ◌
unfoldable pub ◌+ᵈ◌ : Decimal → Decimal → Decimal
unfolding fix ◌+ℤ◌
a +ᵈ b =
    let p = max a.places b.places in fix (record { coeff = aligned a p +ℤ aligned b p; places = p })

unfoldable pub ◌-ᵈ◌ : Decimal → Decimal → Decimal
unfolding fix ◌-ℤ◌
a -ᵈ b =
    let p = max a.places b.places in fix (record { coeff = aligned a p -ℤ aligned b p; places = p })

unfoldable pub ◌*ᵈ◌ : Decimal → Decimal → Decimal
unfolding fix
a *ᵈ b = fix (record { coeff = a.coeff *ℤ b.coeff; places = a.places + b.places })

-- The quotient with its last digit sticky, so that `fix` rounds the exact quotient.
sticky : ℕ → ℕ → ℕ
sticky n m = let q = n / m in if n % m == 0 then q else if q % 5 == 0 then q + 1 else q

-- The sign of a quotient, from the signs of its parts.
signed_quotient : ℤ → ℤ → ℕ → ℤ
signed_quotient (pos a) (pos b) q = pos q
signed_quotient (negsuc a) (negsuc b) q = pos q
signed_quotient (pos a) (negsuc b) q = sub_ℕ 0 q
signed_quotient (negsuc a) (pos b) q = sub_ℕ 0 q

-- Callers test the divisor first: where Python raises at a zero divisor this is 0.
unfoldable pub ◌/ᵈ◌ : Decimal → Decimal → Decimal
unfolding fix sticky signed_quotient
a /ᵈ b =
    let n = pos_part a.coeff + neg_part a.coeff in
    let m = pos_part b.coeff + neg_part b.coeff in
    let up = digit_count m + prec + 1 - digit_count n in
    let down = digit_count n - (digit_count m + prec + 1) in
    let q = signed_quotient a.coeff b.coeff (sticky (n * 10 ^ up) (m * 10 ^ down)) in
    fix (shift_places q (a.places + up) (b.places + down))

-- Comparison of values.
unfoldable pub lt_dec : Decimal → Decimal → Bool
unfolding ◌*ℤ◌
lt_dec a b = ltb_ℤ (a.coeff *ℤ pos (10 ^ b.places)) (b.coeff *ℤ pos (10 ^ a.places))

unfoldable pub le_dec : Decimal → Decimal → Bool
unfolding ◌*ℤ◌
le_dec a b = leb_ℤ (a.coeff *ℤ pos (10 ^ b.places)) (b.coeff *ℤ pos (10 ^ a.places))

unfoldable pub eq_dec : Decimal → Decimal → Bool
unfolding ◌*ℤ◌
eq_dec a b = eqb_ℤ (a.coeff *ℤ pos (10 ^ b.places)) (b.coeff *ℤ pos (10 ^ a.places))

-- Python's `min(a, b)` and `max(a, b)`: the first of equal values.
abbrev pub min_dec : Decimal → Decimal → Decimal
min_dec a b = if lt_dec b a then b else a

abbrev pub max_dec : Decimal → Decimal → Decimal
max_dec a b = if lt_dec a b then b else a

-- `abs(a)`
abbrev pub abs_dec : Decimal → Decimal
abs_dec a = record { coeff = pos (pos_part a.coeff + neg_part a.coeff); places = a.places }

-- `sum(xs, Decimal("0.00"))`, from the left.
unfoldable pub sum_from : Decimal → List Decimal → Decimal
sum_from acc [] = acc
sum_from acc (x ∷ xs) = sum_from (acc +ᵈ x) xs

unfoldable pub quantize_dec : Decimal → ℕ → Decimal
unfolding round_half_up
quantize_dec a p = record {
  coeff = on_magnitude (λ m. round_half_up (m * 10 ^ (p - a.places)) (10 ^ (a.places - p))) a.coeff;
  places = p;
}

-- `Decimal(str(n))` and `Decimal(n)` of an integer.
abbrev pub of_ℕ : ℕ → Decimal
of_ℕ n = dec n 0

one_third : dec 1 0 /ᵈ dec 3 0 ≡ dec 3333333333333333333333333333 28
unfolding ◌/ᵈ◌
one_third = refl

two_thirds : dec 200 2 /ᵈ dec 3 0 ≡ dec 6666666666666666666666666667 28
unfolding ◌/ᵈ◌
two_thirds = refl

half_up : quantize_dec (dec 12345 3) 2 ≡ dec 1235 2
unfolding quantize_dec
half_up = refl

half_up_negative :
    quantize_dec (record { coeff = negsuc 12344; places = 3 }) 2
    ≡ record { coeff = negsuc 1234; places = 2 }
unfolding quantize_dec
half_up_negative = refl
