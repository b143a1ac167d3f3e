-- ===== src/Tests/Negotiating.antt =====
-- A customer's request for another quantity that is accepted.
use chumma.Base.{ℕ, ◌≡◌, refl, none, some, [], ◌∷◌, arith}
use chumma.Base.Decimal.{dec}
use chumma.Enums.{NegotiationRequestType, NegotiationRequestStatus}
use chumma.State.{NegotiationRequest, Change, World, Result, ok, err}
use chumma.Approval.Effect.{state_of}
use chumma.Approval.Consistent.{IsConsistent}
use chumma.Negotiation.Respond.{
  Answer, respond_negotiation_request, answer_request, accept_request, apply_changes,
}
use chumma.Negotiation.Answered.{respond-IsConsistent}
use chumma.Deals.{sync_deal_from_odoo, refresh_deal}
use chumma.Evaluation.{evaluate_deal, evaluate_from, context_for}
use chumma.Context.Build.{build_deal_context}
use chumma.State.Tables.{record_audit_event}
use chumma.Tests.Governance.{start, manager}
use chumma.Tests.Evaluations.{selling, catalog}

abbrev wish : NegotiationRequest
wish = record {
  id = 4;
  deal_id = 1;
  odoo_sale_order_id = 40;
  customer_partner_id = 7;
  requested_by = 70;
  type = NegotiationRequestType.qty_change;
  status = NegotiationRequestStatus.opened;
  message = none;
  counter_value = none;
  based_on_assessment_id = some 3;
  created_at = 0;
  processed_at = none;
  processed_by = none;
  response_message = none;
  applied_assessment_id = none;
}

abbrev wished : World ℕ
wished = record start {
  negotiations = wish ∷ [];
  changes =
      record {
        negotiation_request_id = 4;
        line_id = some 1;
        change = Change.product_uom_qty (some (dec 5 0));
      }
      ∷ [];
}

wished-IsConsistent : IsConsistent wished
unfolding state_of
wished-IsConsistent k s st h = ground arith

abbrev answered : Result (World ℕ)
answered = respond_negotiation_request selling catalog 4 manager Answer.accept none none 9 wished

-- The world of a result, or the start.
abbrev world_of : Result (World ℕ) → World ℕ
world_of (err problem) = wished
world_of (ok v) = v

answering : answered ≡ ok (world_of answered)
unfolding respond_negotiation_request answer_request accept_request apply_changes
    sync_deal_from_odoo build_deal_context evaluate_deal evaluate_from context_for refresh_deal
    record_audit_event
answering = refl

respond-IsConsistent_example : IsConsistent (world_of answered)
respond-IsConsistent_example =
    respond-IsConsistent selling catalog 4 manager Answer.accept none none 9 wished
      (world_of answered) wished-IsConsistent answering
