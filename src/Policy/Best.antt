-- ===== src/Policy/Best.antt =====
-- The policy that app/guardian/policy.py resolves to is the best one that applies.
use chumma.Base.{
  Bool, if-cases, subst, ℕ, ◌≡◌, refl, ap, ◌⊎◌, inl, inr, true, false, Option, none, some, List, [],
  ◌∷◌, arith, if◌then◌else◌, keep_if, All,
}
use chumma.Base.Int.{ℤ, negsuc, ◌≤ℤ◌, ltb_ℤ}
use chumma.Base.Decimal.{Decimal}
use chumma.Policy.{
  policy_of, DiscountPolicy, score, best_from, is_candidate, resolve_policy_for_line,
}

keep_if-All :
    (p : DiscountPolicy → Bool) (xs : List DiscountPolicy) → All (λ x. p x ≡ true) (keep_if p xs)
keep_if-All p [] = tt
keep_if-All p (x ∷ xs) =
    if-cases (All (λ y. p y ≡ true)) (p x) _ _ (λ h. (h, keep_if-All p xs)) (λ _. keep_if-All p xs)

module _ (tier_code : ℕ) (category_id : Option ℕ) where
  -- No policy of the list that applies has a score above `s`.
  abbrev pub Dominates : ℤ → List DiscountPolicy → Type 0
  Dominates s ps = All (λ q. (t : ℤ) → score tier_code category_id q ≡ some t → t ≤ℤ s) ps

  -- What the loop returns: the policy it started from, if none is better, or the best.
  abbrev Outcome : Option DiscountPolicy → ℤ → List DiscountPolicy → Option DiscountPolicy → Type 0
  Outcome best bound ps r =
      ((r ≡ best) × Dominates bound ps)
      ⊎ ((p : DiscountPolicy) × (s : ℤ) × (r ≡ some p)
          × (score tier_code category_id p ≡ some s)
          × (bound ≤ℤ s)
          × Dominates s ps)

  only_score :
      (p : DiscountPolicy) (s bound : ℤ)
      → score tier_code category_id p ≡ some s
      → s ≤ℤ bound
      → (t : ℤ) → score tier_code category_id p ≡ some t
      → t ≤ℤ bound
  only_score p s bound e le t e2 = let same : s ≡ t = cc in subst (λ r. r ≤ℤ bound) same le

  All-overages : (a b c : ℤ) → a ≤ℤ b → b ≤ℤ c → a ≤ℤ c
  All-overages a b c h k = omega (arith, h, k)

  after_test :
      (best : Option DiscountPolicy) (bound s : ℤ) (p : DiscountPolicy) (ps : List DiscountPolicy)
      (taken left : Option DiscountPolicy)
      → score tier_code category_id p ≡ some s
      → Outcome best bound ps left
      → Outcome (some p) s ps taken
      → Outcome best bound (p ∷ ps) (if ltb_ℤ bound s then taken else left)
  after_test best bound s p ps taken left e stay go =
      if-cases (Outcome best bound (p ∷ ps)) (ltb_ℤ bound s) taken left
        (λ t. elim go [
          | inl (r, d) ↦ inr (p, s, r, e, more t, (only_score p s s e (same s), d))
          | inr (q, u, r, e2, le, d) ↦
              inr (q, u, r, e2, All-overages bound s u (more t) le, (only_score p s u e le, d))
        ])
        (λ t. elim stay [
          | inl (r, d) ↦ inl (r, (only_score p s bound e (less t), d))
          | inr (q, u, r, e2, le, d) ↦
              inr (q, u, r, e2, le, (only_score p s u e (All-overages s bound u (less t) le), d))
        ])
    where
      same : (a : ℤ) → a ≤ℤ a
      same a = omega arith

      more : ltb_ℤ bound s ≡ true → bound ≤ℤ s
      more t = ground arith

      less : ltb_ℤ bound s ≡ false → s ≤ℤ bound
      less t = ground arith

  after_score :
      (best : Option DiscountPolicy) (bound : ℤ) (p : DiscountPolicy) (ps : List DiscountPolicy)
      (o : Option ℤ) (left : Option DiscountPolicy) (taken : ℤ → Option DiscountPolicy)
      → score tier_code category_id p ≡ o
      → Outcome best bound ps left
      → ((s : ℤ) → Outcome (some p) s ps (taken s))
      → Outcome best bound
          (p ∷ ps)
          (elim o [ none ↦ left | some s ↦ if ltb_ℤ bound s then taken s else left ])
  after_score best bound p ps none left taken e stay go = elim stay [
    | inl (r, d) ↦ inl (r, ((λ t e2. cc), d))
    | inr (q, u, r, e2, le, d) ↦ inr (q, u, r, e2, le, ((λ t e3. cc), d))
  ]
  after_score best bound p ps (some s) left taken e stay go =
      after_test best bound s p ps (taken s) left e stay (go s)

  best_from_good :
      (best : Option DiscountPolicy) (bound : ℤ) (ps : List DiscountPolicy)
      → Outcome best bound ps (best_from tier_code category_id best bound ps)
  unfolding best_from
  best_from_good best bound [] = inl (refl, tt)
  best_from_good best bound (p ∷ ps) =
      after_score best bound p ps (score tier_code category_id p)
        (best_from tier_code category_id best bound ps)
        (λ s. best_from tier_code category_id (some p) s ps) refl (best_from_good best bound ps)
        (λ s. best_from_good (some p) s ps)

  -- What holds of all policies, and of the one to start from, holds of the one returned.
  best_from-All :
      (P : DiscountPolicy → Type 0) (best : Option DiscountPolicy) (bound : ℤ)
      (ps : List DiscountPolicy)
      → ((p : DiscountPolicy) → best ≡ some p → P p)
      → All P ps
      → (p : DiscountPolicy) → best_from tier_code category_id best bound ps ≡ some p
      → P p
  unfolding best_from
  best_from-All P best bound [] start h = start
  best_from-All P best bound (q ∷ qs) start h =
      step (score tier_code category_id q) (best_from-All P best bound qs start h.1)
        (λ s. best_from-All P (some q) s qs (λ p e. subst P (same p e) h.0) h.1)
    where
      same : (p : DiscountPolicy) → some q ≡ some p → q ≡ p
      same p e = cc

      step :
          (o : Option ℤ)
          → ((p : DiscountPolicy) → best_from tier_code category_id best bound qs ≡ some p → P p)
          → ((s : ℤ) (p : DiscountPolicy)
              → best_from tier_code category_id (some q) s qs ≡ some p
              → P p)
          → (p : DiscountPolicy)
          → (elim o [
            | none ↦ best_from tier_code category_id best bound qs
            | some s ↦
                if ltb_ℤ bound s
                then best_from tier_code category_id (some q) s qs
                else best_from tier_code category_id best bound qs
          ])
            ≡ some p
          → P p
      step none left taken = left
      step (some s) left taken =
          if-cases (λ o. (p : DiscountPolicy) → o ≡ some p → P p) (ltb_ℤ bound s) _ _ (λ _. taken s)
            (λ _. left)

  -- The resolved policy is an active one of the company that applies to the line, and no active
  -- one of the company that applies has a higher score; or it is the tier's default, and no active
  -- one of the company that applies has a score above -1.
  pub resolve_best :
      (company_id : ℕ) (ceiling : Decimal) (policies : List DiscountPolicy)
      → let r = resolve_policy_for_line policies company_id tier_code category_id ceiling in
        let candidates = keep_if (is_candidate company_id) policies in
        ((r.policy_id ≡ none) × (r.max_discount_pct ≡ ceiling) × Dominates (negsuc 0) candidates)
        ⊎ ((p : DiscountPolicy) × (s : ℤ) × (r.policy_id ≡ some p.id)
            × (r.max_discount_pct ≡ p.max_discount_pct)
            × (is_candidate company_id p ≡ true)
            × (score tier_code category_id p ≡ some s)
            × Dominates s candidates)
  unfolding resolve_policy_for_line
  resolve_best company_id ceiling policies =
      resolved _
        (best_from-All (λ p. is_candidate company_id p ≡ true) none (negsuc 0)
          (keep_if (is_candidate company_id) policies) (λ p e. cc)
          (keep_if-All (is_candidate company_id) policies))
        (best_from_good none (negsuc 0) (keep_if (is_candidate company_id) policies))
    where
      resolved :
          (o : Option DiscountPolicy)
          → ((p : DiscountPolicy) → o ≡ some p → is_candidate company_id p ≡ true)
          → Outcome none (negsuc 0) (keep_if (is_candidate company_id) policies) o
          → (((policy_of ceiling o).policy_id ≡ none)
              × ((policy_of ceiling o).max_discount_pct ≡ ceiling)
              × Dominates (negsuc 0) (keep_if (is_candidate company_id) policies))
            ⊎ ((p : DiscountPolicy) × (s : ℤ) × ((policy_of ceiling o).policy_id ≡ some p.id)
                × ((policy_of ceiling o).max_discount_pct ≡ p.max_discount_pct)
                × (is_candidate company_id p ≡ true)
                × (score tier_code category_id p ≡ some s)
                × Dominates s (keep_if (is_candidate company_id) policies))
      resolved none applies (inl (r, d)) = inl (refl, refl, d)
      resolved (some p) applies (inl (r, d)) = cc
      resolved none applies (inr (p, s, r, e, le, d)) = cc
      resolved (some q) applies (inr (p, s, r, e, le, d)) = inr (
        p,
        s,
        ap (λ o. (policy_of ceiling o).policy_id) r,
        ap (λ o. (policy_of ceiling o).max_discount_pct) r,
        applies p r,
        e,
        d,
      )
