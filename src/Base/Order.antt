-- ===== src/Base/Order.antt =====
-- The order of the decimals' values, as `lt_dec`, `le_dec` and `eq_dec` of Base/Decimal decide it.
use chumma.Base.{
  refl, ap, [], ◌∙◌, All, if-cases, ◌∷◌, List, Bool, ℕ, zero, suc, ◌+◌, ◌*◌, ◌^◌, ◌≤◌, ◌≡◌, sym,
  ◌↔◌, true, not, arith,
}
use chumma.Base.Int.{ℤ, pos, negsuc, pos_part, neg_part, ◌*ℤ◌, ltb_ℤ, leb_ℤ, eqb_ℤ}
use native.Mathlib.Nat.{le_of_mul-le-mul_left, mul-le-mul_left}
use chumma.Base.Sort.{max_from}
use chumma.Base.Decimal.{quantize_dec, dec, on_magnitude, max_dec, Decimal, lt_dec, le_dec, eq_dec}

pub pow_pos : (p : ℕ) → 1 ≤ 10 ^ p
pow_pos zero = omega arith
pow_pos (suc p) = omega (arith, pow_pos p)

-- `a ≤ b` of a / A and b / B, with the parts of the integers apart.
unfoldable pub AtMost : ℤ → ℕ → ℤ → ℕ → Type 0
AtMost a A b B = pos_part a * B + neg_part b * A ≤ pos_part b * A + neg_part a * B

pub pos_scaled : (a : ℤ) (k : ℕ) → pos_part (a *ℤ pos k) ≡ pos_part a * k
unfolding ◌*ℤ◌
pos_scaled (pos n) k = ground arith
pos_scaled (negsuc n) k = ground arith

pub neg_scaled : (a : ℤ) (k : ℕ) → neg_part (a *ℤ pos k) ≡ neg_part a * k
unfolding ◌*ℤ◌
neg_scaled (pos n) k = ground arith
neg_scaled (negsuc n) k = ground arith

between :
    (pa na A pb nb B pc nc C : ℕ)
    → 1 ≤ B
    → pa * B + nb * A ≤ pb * A + na * B
    → pb * C + nc * B ≤ pc * B + nb * C
    → pa * C + nc * A ≤ pc * A + na * C
between pa na A pb nb B pc nc C h k l = le_of_mul-le-mul_left {k = B} scaled (omega arith)
  where
    scaled : B * (pa * C + nc * A) ≤ B * (pc * A + na * C)
    scaled = omega (arith, mul-le-mul_left C k, mul-le-mul_left A l)

AtMost-trans :
    (a : ℤ) (A : ℕ) (b : ℤ) (B : ℕ) (c : ℤ) (C : ℕ)
    → 1 ≤ B
    → AtMost a A b B
    → AtMost b B c C
    → AtMost a A c C
unfolding AtMost
AtMost-trans a A b B c C h k l =
    between (pos_part a) (neg_part a) A (pos_part b) (neg_part b) B (pos_part c) (neg_part c) C h k
      l

leb_iff : (a b : ℤ) → (leb_ℤ a b ≡ true) ↔ (pos_part a + neg_part b ≤ pos_part b + neg_part a)
leb_iff a b = ground arith

at_parts :
    (p q r t x y z w : ℕ) {b : Bool}
    → (b ≡ true) ↔ (p + q ≤ r + t)
    → p ≡ x
    → q ≡ y
    → r ≡ z
    → t ≡ w
    → (b ≡ true) ↔ (x + y ≤ z + w)
at_parts p q r t x y z w h e f g i = rw (sym e, sym f, sym g, sym i) h

scaled_iff :
    (x : ℤ) (A : ℕ) (y : ℤ) (B : ℕ) → (leb_ℤ (x *ℤ pos B) (y *ℤ pos A) ≡ true) ↔ AtMost x A y B
unfolding AtMost
scaled_iff x A y B =
    at_parts _ _ _ _ _ _ _ _ (leb_iff (x *ℤ pos B) (y *ℤ pos A)) (pos_scaled x B) (neg_scaled y A)
      (pos_scaled y A) (neg_scaled x B)

pub AtMost-iff :
    (a b : Decimal) → (le_dec a b ≡ true) ↔ AtMost a.coeff (10 ^ a.places) b.coeff (10 ^ b.places)
unfolding le_dec
AtMost-iff a b = scaled_iff a.coeff (10 ^ a.places) b.coeff (10 ^ b.places)

pub le_trans : (a b c : Decimal) → le_dec a b ≡ true → le_dec b c ≡ true → le_dec a c ≡ true
le_trans a b c h k = (AtMost-iff a c).1 (
    AtMost-trans a.coeff (10 ^ a.places) b.coeff (10 ^ b.places) c.coeff (10 ^ c.places)
      (pow_pos b.places) ((AtMost-iff a b).0 h) ((AtMost-iff b c).0 k))

leb_ltb : (x y : ℤ) → leb_ℤ x y ≡ not (ltb_ℤ y x)
leb_ltb x y = ground arith

-- A value is at most another unless the other is less.
pub le_not_lt : (a b : Decimal) → le_dec a b ≡ not (lt_dec b a)
unfolding le_dec lt_dec
le_not_lt a b = leb_ltb (a.coeff *ℤ pos (10 ^ b.places)) (b.coeff *ℤ pos (10 ^ a.places))

eqb_le : (x y : ℤ) → (eqb_ℤ x y ≡ true) ↔ ((leb_ℤ x y ≡ true) × (leb_ℤ y x ≡ true))
eqb_le x y = ground arith

pub eq_iff_le : (a b : Decimal) → (eq_dec a b ≡ true) ↔ ((le_dec a b ≡ true) × (le_dec b a ≡ true))
unfolding eq_dec le_dec
eq_iff_le a b = eqb_le (a.coeff *ℤ pos (10 ^ b.places)) (b.coeff *ℤ pos (10 ^ a.places))

leb_of_ltb : (x y : ℤ) → ltb_ℤ x y ≡ true → leb_ℤ x y ≡ true
leb_of_ltb x y h = ground arith

leb_same : (x : ℤ) → leb_ℤ x x ≡ true
leb_same x = ground arith

le_of_lt : (a b : Decimal) → lt_dec a b ≡ true → le_dec a b ≡ true
unfolding lt_dec le_dec
le_of_lt a b h = leb_of_ltb (a.coeff *ℤ pos (10 ^ b.places)) (b.coeff *ℤ pos (10 ^ a.places)) h

le_same : (a : Decimal) → le_dec a a ≡ true
unfolding le_dec
le_same a = leb_same (a.coeff *ℤ pos (10 ^ a.places))

pub le_max_dec : (low x : Decimal) → le_dec low (max_dec low x) ≡ true
le_max_dec low x =
    if-cases (λ d. le_dec low d ≡ true) (lt_dec low x) x low (λ h. le_of_lt low x h)
      (λ h. le_same low)

le_second : (low x : Decimal) → le_dec x (max_dec low x) ≡ true
le_second low x =
    if-cases (λ d. le_dec x d ≡ true) (lt_dec low x) x low (λ h. le_same x)
      (λ h. le_not_lt x low ∙ ap not h)

le_max_from_start :
    (best : Decimal) (xs : List Decimal) → le_dec best (max_from lt_dec best xs) ≡ true
unfolding max_from
le_max_from_start best [] = le_same best
le_max_from_start best (x ∷ xs) =
    le_trans best (max_dec best x) _ (le_max_dec best x) (le_max_from_start (max_dec best x) xs)

-- No element exceeds the maximum.
pub le_max_from :
    (best : Decimal) (xs : List Decimal)
    → All (λ x. le_dec x (max_from lt_dec best xs) ≡ true) (best ∷ xs)
unfolding max_from
le_max_from best [] = (le_same best, tt)
le_max_from best (x ∷ xs) =
    let (start, rest) = le_max_from (max_dec best x) xs in
    (
      le_trans best (max_dec best x) _ (le_max_dec best x) start,
      (le_trans x (max_dec best x) _ (le_second best x) start, rest),
    )

zero_parts : (c : ℤ) (P X : ℕ) → 1 ≤ P → AtMost (pos 0) P c X ↔ (neg_part c ≡ 0)
unfolding AtMost
zero_parts (pos n) P X h = ground arith
zero_parts (negsuc n) P X h = ground (arith, mul-le-mul_left (suc n) h)

-- Zero is at most the values without a sign.
pub zero_le_iff : (p : ℕ) (x : Decimal) → (le_dec (dec 0 p) x ≡ true) ↔ (neg_part x.coeff ≡ 0)
zero_le_iff p x =
    let (to, from) = zero_parts x.coeff (10 ^ p) (10 ^ x.places) (pow_pos p) in
    let (there, back) = AtMost-iff (dec 0 p) x in (λ h. to (there h), λ h. back (from h))

unsigned : (f : ℕ → ℕ) (c : ℤ) → neg_part c ≡ 0 → neg_part (on_magnitude f c) ≡ 0
unsigned f (pos n) h = refl
unsigned f (negsuc n) h = omega arith

pub zero_le-quantize_dec :
    (p q : ℕ) (x : Decimal) → le_dec (dec 0 p) x ≡ true → le_dec (dec 0 p) (quantize_dec x q) ≡ true
unfolding quantize_dec
zero_le-quantize_dec p q x h =
    (zero_le_iff p (quantize_dec x q)).1 (unsigned _ x.coeff ((zero_le_iff p x).0 h))
