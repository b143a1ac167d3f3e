-- ===== src/Health.antt =====
-- app/guardian/health.py: the health score of a deal. `detail`, which repeats the inputs, is left
-- out.
pub mod Idle
use chumma.Base.{ℕ, Bool, true, false, Option, some, leb, if◌then◌else◌}
use chumma.Base.Int.{ℤ, pos_part}
use chumma.Base.Decimal.{
  Decimal, dec, ◌+ᵈ◌, ◌*ᵈ◌, ◌/ᵈ◌, le_dec, min_dec, max_dec, quantize_dec, of_ℕ,
}
use chumma.Enums.{DealStatus, HealthStatus, RiskSeverity}

pub record HealthResult : Type 0 where
  pub overall_score : Decimal
  pub health_status : HealthStatus
  pub stalled_score : Decimal
  pub approval_delay_score : Decimal
  pub discount_anomaly_score : Decimal
  pub delivery_risk_score : Decimal
  pub negotiation_score : Decimal

-- The arguments of `calculate_deal_health`.
pub record HealthInput : Type 0 where
  pub deal_status : DealStatus
  pub days_since_activity : Decimal
  pub stalled_threshold_days : ℤ
  pub days_pending_approval : Decimal
  pub anomaly_severity : Option RiskSeverity
  pub has_slipping_delivery : Bool
  pub has_backorder : Bool
  pub has_warehouse_split : Bool
  pub open_negotiation_requests : ℤ

-- `TERMINAL_DEAL_STATUSES`
abbrev pub is_terminal : DealStatus → Bool
is_terminal DealStatus.draft = false
is_terminal DealStatus.sent = false
is_terminal DealStatus.under_negotiation = false
is_terminal _ = true

-- `Decimal("0.00")`
abbrev pub nothing : Decimal
nothing = dec 0 2

-- `max(Decimal("0.00"), quantize_dec(Decimal(str(days)), 2))`
abbrev pub whole_days : Decimal → Decimal
whole_days days = max_dec nothing (quantize_dec days 2)

-- `max(1, stalled_threshold_days)`
abbrev pub stalled_thresh : ℤ → ℕ
stalled_thresh t = if leb 1 (pos_part t) then pos_part t else 1

unfoldable pub stalled_score : DealStatus → Decimal → ℤ → Decimal
stalled_score status days threshold =
    if is_terminal status
    then nothing
    else min_dec (dec 4000 2) (
        max_dec nothing (
          quantize_dec
            ((dec 4000 2 *ᵈ whole_days days) /ᵈ (dec 20 1 *ᵈ of_ℕ (stalled_thresh threshold))) 2))

unfoldable pub approval_delay_score : Decimal → Decimal
approval_delay_score days =
    min_dec (dec 2000 2) (max_dec nothing (quantize_dec (dec 500 2 *ᵈ whole_days days) 2))

abbrev pub discount_anomaly_score : Option RiskSeverity → Decimal
discount_anomaly_score (some RiskSeverity.high) = dec 2500 2
discount_anomaly_score (some RiskSeverity.medium) = dec 1500 2
discount_anomaly_score _ = nothing

abbrev pub delivery_risk_score : Bool → Bool → Bool → Decimal
delivery_risk_score slipping backorder split =
    if slipping
    then dec 3000 2
    else if backorder
    then dec 2000 2
    else if split
    then dec 1000 2
    else nothing

unfoldable pub negotiation_score : ℤ → Decimal
negotiation_score requests =
    min_dec (dec 1500 2) (quantize_dec (dec 500 2 *ᵈ of_ℕ (pos_part requests)) 2)

unfoldable pub overall_score : Decimal → Decimal → Decimal → Decimal → Decimal → Decimal
overall_score stalled delay anomaly delivery negotiation =
    min_dec (dec 10000 2) (quantize_dec (stalled +ᵈ delay +ᵈ anomaly +ᵈ delivery +ᵈ negotiation) 2)

abbrev pub status_of : Decimal → HealthStatus
status_of score =
    if le_dec score (dec 3000 2)
    then HealthStatus.healthy
    else if le_dec score (dec 6000 2)
    then HealthStatus.watch
    else HealthStatus.at_risk

unfoldable pub calculate_deal_health : HealthInput → HealthResult
calculate_deal_health i =
    let stalled = stalled_score i.deal_status i.days_since_activity i.stalled_threshold_days in
    let delay = approval_delay_score i.days_pending_approval in
    let anomaly = discount_anomaly_score i.anomaly_severity in
    let delivery =
      delivery_risk_score i.has_slipping_delivery i.has_backorder i.has_warehouse_split in
    let negotiation = negotiation_score i.open_negotiation_requests in
    let overall = overall_score stalled delay anomaly delivery negotiation in
    record {
      overall_score = overall;
      health_status = status_of overall;
      stalled_score = stalled;
      approval_delay_score = delay;
      discount_anomaly_score = anomaly;
      delivery_risk_score = delivery;
      negotiation_score = negotiation;
    }
