-- ===== src/Deals.antt =====
-- app/services/deal_service.py: a deal and its copy of Odoo's sale order, and the counter of
-- app/services/number_sequence_service.py for its reference. The dates of delivery, and the queries
-- for lists and details, are left out.
pub mod References
use chumma.Base.{
  subst, ℕ, zero, suc, ◌+◌, ◌-◌, ◌*◌, ◌/◌, ◌%◌, ◌^◌, ◌≤◌, ◌<◌, String, ◌≡◌, refl, sym, ap, ◌∙◌, ◌≢◌,
  ◌↔◌, ◌⊎◌, inl, inr, Bool, true, false, not, ◌&&◌, ◌||◌, Option, none, some, List, [], ◌∷◌, ◌++◌,
  map, arith, ltb, leb, ◌==◌, if◌then◌else◌, leb→le, ==_iff, ==_refl, Bool-cases, Option-cases,
  if-cases, is_some, length, keep_if, any, all, find_first, sum_of, All, sum_of-append,
  length-append, All-append, All-keep_if,
}
use chumma.Base.Decimal.{
  Decimal, dec, prec, digits_below, digit_count, round_half_even, round_half_up, on_magnitude, fix,
  aligned, ◌+ᵈ◌, ◌-ᵈ◌, ◌*ᵈ◌, ◌/ᵈ◌, lt_dec, le_dec, eq_dec, min_dec, max_dec, abs_dec, sum_from,
  quantize_dec, of_ℕ,
}
use chumma.Enums.{ApprovalLevel, ApprovalState, AuditEventType, DealStatus, HealthStatus}
use chumma.Context.{DealContext}
use chumma.Context.Build.{Customers, build_deal_context}
use chumma.Policy.{DiscountPolicy}
use chumma.State.{
  ◌>>=◌, ◌>>◌, Deal, NumberSequence, ActorType, World, Gateway, Result, ok, raise_if, or_raise,
  entity_not_found, version_conflict,
}
use chumma.State.Tables.{find_row, modify_row, find_deal, modify_deal, record_audit_event}

-- The tables that the evaluation reads and never writes.
pub record Catalog : Type 0 where
  pub customers : Customers
  pub policies : List DiscountPolicy

-- `"USER" if actor_id else "SYSTEM"`: the number 0 counts as missing.
abbrev pub actor_type_of : Option ℕ → ActorType
actor_type_of none = ActorType.system
actor_type_of (some id) = if id == 0 then ActorType.system else ActorType.user

-- The key 'DEAL'.
abbrev pub deal_key : ℕ
deal_key = 0

abbrev sequence_key : NumberSequence → ℕ
sequence_key s = s.key

abbrev pub differs_from : Option ℕ → ℕ → Bool
differs_from none version = false
differs_from (some expected) version = not (version == expected)

-- The deal that a sale order is first seen with.
abbrev pub new_deal : ℕ → ℕ → DealContext → ℕ → Deal
new_deal id reference ctx now = record {
  id = id;
  reference = reference;
  odoo_sale_order_id = ctx.odoo_sale_order_id;
  odoo_partner_id = ctx.partner_id;
  owner_odoo_user_id = ctx.user_id;
  odoo_company_id = ctx.company_id;
  tier_code = some ctx.tier_code;
  status = DealStatus.draft;
  approval_state = ApprovalState.not_evaluated;
  health_status = HealthStatus.healthy;
  current_risk_score = none;
  current_severity = none;
  current_assessment_id = none;
  approved_assessment_id = none;
  required_level = ApprovalLevel.none;
  order_discount_pct = ctx.blended_discount_pct;
  amount_total_cache = ctx.amount_total;
  amount_untaxed_cache = ctx.amount_untaxed;
  margin_pct_cache = ctx.total_margin_pct;
  one_time_total_cache = ctx.one_time_total;
  recurring_first_cycle_total_cache = ctx.recurring_first_cycle_total;
  customer_confirmed_pending = false;
  confirmed_at = none;
  last_activity_at = now;
  last_synced_at = now;
  version = 1;
}

abbrev pub refresh : DealContext → ℕ → Deal → Deal
refresh ctx now d = record d {
  version = d.version + 1;
  order_discount_pct = ctx.blended_discount_pct;
  amount_total_cache = ctx.amount_total;
  amount_untaxed_cache = ctx.amount_untaxed;
  margin_pct_cache = ctx.total_margin_pct;
  one_time_total_cache = ctx.one_time_total;
  recurring_first_cycle_total_cache = ctx.recurring_first_cycle_total;
  last_synced_at = now;
  last_activity_at = now;
}

module _ {S : Type 0} where
  abbrev pub find_sequence : ℕ → World S → Option NumberSequence
  find_sequence key w = find_row sequence_key key w.sequences

  abbrev pub take_number : ℕ → ℕ → World S → World S × ℕ
  take_number key current w = (
    record w {
      sequences =
          modify_row sequence_key key (λ s. record s { next_value = current + 1 }) w.sequences;
    },
    current,
  )

  abbrev pub number_from : Option NumberSequence → ℕ → World S → World S × ℕ
  number_from (some s) key w = take_number key s.next_value w
  number_from none key w =
      take_number key 1001
        (record w { sequences = w.sequences ++ record { key = key; next_value = 1001 } ∷ [] })

  -- The number of the reference; a key that is new begins at 1001.
  unfoldable pub get_next_sequence : ℕ → World S → World S × ℕ
  get_next_sequence key w = number_from (find_sequence key w) key w

  abbrev pub find_by_order : ℕ → World S → Option Deal
  find_by_order order w = find_row (λ d. d.odoo_sale_order_id) order w.deals

  unfoldable pub create_deal : DealContext → Option ℕ → ℕ → World S → World S × ℕ
  create_deal ctx actor now w =
      let (v, reference) = get_next_sequence deal_key w in
      (
        record_audit_event AuditEventType.deal_created (some v.next_id) v.next_id
            (actor_type_of actor) actor now
            (record v {
              deals = v.deals ++ new_deal v.next_id reference ctx now ∷ [];
              next_id = v.next_id + 1;
            }),
        v.next_id,
      )

  unfoldable pub refresh_deal : DealContext → Deal → Option ℕ → ℕ → World S → World S × ℕ
  refresh_deal ctx deal actor now w = (
    record_audit_event AuditEventType.deal_synced (some deal.id) deal.id (actor_type_of actor) actor
        now (modify_deal deal.id (refresh ctx now) w),
    deal.id,
  )

  -- The branches, by the deal that the order has; with the key of the deal that is returned.
  abbrev pub store_deal :
      DealContext → Option Deal → Option ℕ → Option ℕ → ℕ → World S → Result (World S × ℕ)
  store_deal ctx none expected_version actor now w = ok (create_deal ctx actor now w)
  store_deal ctx (some deal) expected_version actor now w =
      raise_if (differs_from expected_version deal.version) version_conflict
      >> ok (refresh_deal ctx deal actor now w)

  unfoldable pub sync_deal_from_odoo :
      Gateway S → Catalog → ℕ → Option ℕ → Option ℕ → ℕ → World S → Result (World S × ℕ)
  sync_deal_from_odoo gateway catalog order expected_version actor now w = do
    ctx ←
        or_raise
          (build_deal_context catalog.customers (gateway.get_sale_order order w.odoo)
            (λ ids. gateway.get_availability ids none w.odoo)
            (elim (find_by_order order w) [ none ↦ none | some d ↦ some d.id ]))
          entity_not_found
    store_deal ctx (find_by_order order w) expected_version actor now w

  abbrev pub get_deal_by_id : ℕ → World S → Result Deal
  get_deal_by_id id w = or_raise (find_deal id w) entity_not_found

  -- `patch_deal`, with the tier of the request.
  unfoldable pub patch_deal : ℕ → Option ℕ → Option ℕ → ℕ → World S → Result (World S)
  patch_deal id tier actor now w = do
    deal ← get_deal_by_id id w
    ok (
        record_audit_event AuditEventType.line_changed (some deal.id) deal.id (actor_type_of actor)
          actor now
          (modify_deal deal.id
            (λ d. record d {
              tier_code = elim tier [ none ↦ d.tier_code | some t ↦ some t ];
              last_activity_at = now;
            })
            w))
