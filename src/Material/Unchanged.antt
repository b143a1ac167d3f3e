-- ===== src/Material/Unchanged.antt =====
-- What app/guardian/material_change.py finds when nothing changed.
use chumma.Base.{
  ◌||◌, ==_iff, sym, subst, is_some, ==_refl, not, All, if-cases, Option, some, ◌==◌, [],
  if◌then◌else◌, none, ◌∷◌, List, ℕ, ◌+◌, ◌^◌, ◌≡◌, refl, ap, ◌∙◌, Bool, true, false, ◌&&◌, arith,
}
use chumma.Base.Int.{ℤ, pos, pos_part, neg_part, ◌-ℤ◌, ◌*ℤ◌, ltb_ℤ, eqb_ℤ}
use chumma.Base.Decimal.{Decimal, dec, fix, aligned, ◌-ᵈ◌, lt_dec, eq_dec}
use chumma.Material.{
  has_shortage, is_stock_changed, is_customer_negotiated, DealContext, changes_between,
  lines_changes, is_material_change, has_missing, lines_map, put_line, get_line, DealLine, differs,
  terms_differ,
}
use Prim.Native.Nat.{max}
use chumma.Enums.{TriggerType}

-ℤ_self : (x : ℤ) → (x -ℤ x) ≡ pos 0
unfolding ◌-ℤ◌
-ℤ_self x = ground arith

fix_zero : (p : ℕ) → (fix (dec 0 p)).coeff ≡ pos 0
unfolding fix
fix_zero p = refl

-ᵈ_self : (a : Decimal) → (a -ᵈ a).coeff ≡ pos 0
unfolding ◌-ᵈ◌
-ᵈ_self a =
    ap (λ c. (fix (record { coeff = c; places = max a.places a.places })).coeff)
      (-ℤ_self (aligned a (max a.places a.places)))
    ∙ fix_zero (max a.places a.places)

zero_least : (n x y : ℕ) → ltb_ℤ (pos n *ℤ pos x) (pos 0 *ℤ pos y) ≡ false
unfolding ◌*ℤ◌
zero_least n x y = ground arith

not_above : (n t p : ℕ) → lt_dec (dec n t) (dec 0 p) ≡ false
unfolding lt_dec
not_above n t p = zero_least n (10 ^ p) (10 ^ t)

not_differs : (n t : ℕ) (a : Decimal) → differs (dec n t) a a ≡ false
unfolding differs
not_differs n t a =
    ap
      (λ c.
        lt_dec (dec n t)
          (record { coeff = pos (pos_part c + neg_part c); places = (a -ᵈ a).places }))
      (-ᵈ_self a)
    ∙ not_above n t (a -ᵈ a).places

eq_dec_same : (a : Decimal) → eq_dec a a ≡ true
unfolding eq_dec
eq_dec_same a = eqb_same (a.coeff *ℤ pos (10 ^ a.places))
  where
    eqb_same : (x : ℤ) → eqb_ℤ x x ≡ true
    eqb_same x = ground arith

not_terms_differ : (l : DealLine) → terms_differ l l ≡ false
unfolding terms_differ
not_terms_differ l =
    rw (eq_dec_same l.price_unit, eq_dec_same l.qty, eq_dec_same l.discount_pct)
      (never l.is_recurring)
  where
    never : (b : Bool) → (b && false) ≡ false
    never true = refl
    never false = refl

-- A dictionary has each key once.
abbrev Unique : List DealLine → Type 0
Unique [] = Unit
Unique (l ∷ ls) = (get_line l.line_id ls ≡ none) × Unique ls

-- The two cases of a lookup after `put_line`, by the identifiers `i` of a row and `j` of the line.
module _ {A : Type 0} (i j k : ℕ) (l m : A) (r : Option A) where
  same_key :
      (i == j) ≡ true
      → (if j == k then some l else r) ≡ (if j == k then some l else if i == k then some m else r)
  same_key h = ground arith

  other_key :
      (p : Option A)
      → (i == j) ≡ false
      → p ≡ (if j == k then some l else r)
      → (if i == k then some m else p) ≡ (if j == k then some l else if i == k then some m else r)
  other_key p h e = ground arith

get_line-put_line :
    (k : ℕ) (l : DealLine) (ms : List DealLine)
    → get_line k (put_line l ms) ≡ (if l.line_id == k then some l else get_line k ms)
get_line-put_line k l [] = refl
get_line-put_line k l (m ∷ ms) =
    if-cases
      (λ ns.
        get_line k ns
        ≡ (if l.line_id == k then some l else if m.line_id == k then some m else get_line k ms))
      (m.line_id == l.line_id) (l ∷ ms) (m ∷ put_line l ms)
      (same_key m.line_id l.line_id k l m (get_line k ms))
      (λ h.
        other_key m.line_id l.line_id k l m (get_line k ms) (get_line k (put_line l ms)) h
          (get_line-put_line k l ms))

put_line-Unique : (l : DealLine) (ms : List DealLine) → Unique ms → Unique (put_line l ms)
put_line-Unique l [] u = (refl, tt)
put_line-Unique l (m ∷ ms) u =
    if-cases Unique (m.line_id == l.line_id) (l ∷ ms) (m ∷ put_line l ms)
      (λ h. (subst (λ i. get_line i ms ≡ none) ((==_iff m.line_id l.line_id).0 h) u.0, u.1))
      (λ h. (
        get_line-put_line m.line_id l ms
            ∙ ap (λ b. if b then some l else get_line m.line_id ms) (swapped m.line_id l.line_id h)
            ∙ u.0,
        put_line-Unique l ms u.1,
      ))
  where
    swapped : (x y : ℕ) → (x == y) ≡ false → (y == x) ≡ false
    swapped x y h = ground arith

lines_map-Unique : (acc ls : List DealLine) → Unique acc → Unique (lines_map acc ls)
unfolding lines_map
lines_map-Unique acc [] u = u
lines_map-Unique acc (l ∷ ls) u = lines_map-Unique (put_line l acc) ls (put_line-Unique l acc u)

-- Each line of a list is what a dictionary has for its identifier.
abbrev Has : List DealLine → List DealLine → Type 0
Has m = All (λ l. get_line l.line_id m ≡ some l)

Has-cons :
    (x : DealLine) (m ls : List DealLine) → get_line x.line_id m ≡ none → Has m ls → Has (x ∷ m) ls
Has-cons x m [] new h = tt
Has-cons x m (l ∷ ls) new h = (
  if-cases (λ o. o ≡ some l) (x.line_id == l.line_id) (some x) (get_line l.line_id m)
      (λ e.
        clash (sym (subst (λ i. get_line i m ≡ none) ((==_iff x.line_id l.line_id).0 e) new) ∙ h.0))
      (λ e. h.0),
  Has-cons x m ls new h.1,
)
  where
    clash : {C : Type 0} → none ≡ some l → C
    clash e = cc

Unique-Has : (m : List DealLine) → Unique m → Has m m
Unique-Has [] u = tt
Unique-Has (l ∷ ls) u = (
  ap (λ b. if b then some l else get_line l.line_id ls) (==_refl l.line_id),
  Has-cons l ls ls u.0 (Unique-Has ls u.1),
)

none_missing : (m ls : List DealLine) → Has m ls → has_missing ls m ≡ false
none_missing m [] h = refl
none_missing m (l ∷ ls) h =
    ap (λ o. not (is_some o) || has_missing ls m) h.0 ∙ none_missing m ls h.1

none_changed : (m ls : List DealLine) → Has m ls → lines_changes m ls [] ≡ []
unfolding lines_changes
none_changed m [] h = refl
none_changed m (l ∷ ls) h = rw h.0 (
    rw (not_terms_differ l, not_differs 1 2 l.discount_pct, not_differs 1 3 l.qty)
      (none_changed m ls h.1))

and_not : (b c : Bool) → (b && c && not c) ≡ false
and_not true true = refl
and_not true false = refl
and_not false c = refl

-- A context that is compared with itself, when there is a previous assessment and the trigger is
-- not a customer's counteroffer, is not changed materially, and no change is listed.
pub unchanged_context :
    (c : DealContext) (trigger : TriggerType)
    → is_customer_negotiated trigger ≡ false
    → is_material_change (some c) c trigger true ≡ (false, [])
unfolding is_material_change changes_between
unchanged_context c trigger h =
    let m = lines_map [] c.lines in
    let has = Unique-Has m (lines_map-Unique [] c.lines tt) in
    rw
      (
        not_differs 1 2 c.order_discount_pct,
        none_missing m m has,
        none_changed m m has,
        h,
        and_not (is_stock_changed trigger) (has_shortage c),
      )
      refl
