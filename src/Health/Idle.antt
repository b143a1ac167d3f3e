-- ===== src/Health/Idle.antt =====
-- What the idle days of a deal do to its health (app/guardian/health.py).
use chumma.Base.{◌≡◌, refl, true}
use chumma.Base.Int.{ℤ}
use chumma.Base.Decimal.{Decimal}
use chumma.Enums.{DealStatus}
use chumma.Health.{HealthInput, is_terminal, nothing, stalled_score, calculate_deal_health}

-- The statuses of a deal that is still being negotiated.
abbrev pub IsOpen : DealStatus → Type 0
IsOpen DealStatus.draft = Unit
IsOpen DealStatus.sent = Unit
IsOpen DealStatus.under_negotiation = Unit
IsOpen _ = ⊥

finished-is_terminal : (s : DealStatus) → ¬ IsOpen s → is_terminal s ≡ true
finished-is_terminal DealStatus.draft h = absurd (h tt)
finished-is_terminal DealStatus.sent h = absurd (h tt)
finished-is_terminal DealStatus.under_negotiation h = absurd (h tt)
finished-is_terminal s h = refl

no_stall :
    (status : DealStatus) (days : Decimal) (threshold : ℤ)
    → is_terminal status ≡ true
    → stalled_score status days threshold ≡ nothing
unfolding stalled_score
no_stall status days threshold h = rw h refl

-- The input after other days of rest, against another threshold.
abbrev pub rested : Decimal → ℤ → HealthInput → HealthInput
rested days threshold i = record i {
  days_since_activity = days;
  stalled_threshold_days = threshold;
}

-- The health of a deal that is no longer a draft, sent or under negotiation does not depend on how
-- long it has been idle.
pub idle_irrelevant :
    (i : HealthInput) (days : Decimal) (threshold : ℤ)
    → ¬ IsOpen i.deal_status
    → calculate_deal_health (rested days threshold i) ≡ calculate_deal_health i
unfolding calculate_deal_health
idle_irrelevant i days threshold closed =
    let over = finished-is_terminal i.deal_status closed in
    let a = no_stall i.deal_status days threshold over in
    let b = no_stall i.deal_status i.days_since_activity i.stalled_threshold_days over in
    rw (a, b) refl
