-- ===== src/Tests/Simulations.antt =====
-- The what-if risk of a deal whose company has no policies.
use chumma.Base.{◌≡◌, refl, false}
use chumma.Context.Build.{context_of}
use chumma.Policy.{resolve_policy_for_line, best_from}
use chumma.Evaluation.{assess}
use chumma.Evaluation.Simulate.{simulate, plain, simulate-plain}
use chumma.Tests.Evaluations.{catalog, deal_context}

simulate-plain_example : simulate catalog plain deal_context ≡ assess catalog deal_context false
unfolding context_of resolve_policy_for_line best_from
simulate-plain_example = simulate-plain catalog deal_context (refl, tt)
