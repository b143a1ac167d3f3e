-- ===== src/Lib.antt =====
-- A verification library for the governance core of Chumma: the deal services under app/, which
-- evaluate a quotation's risk, route it to approvers, let the customer negotiate and accept it in a
-- portal, and plan its fulfillment from several warehouses.
--
-- Parts and files:
--   Base          shared names, lists, integers, Python's Decimal (28 digits, round half even) with
--                 `quantize_dec` of app/services/deal_context_builder.py, and sorting
--   Enums         app/models/enums.py
--   State         the rows of app/models, the tables, the audit trail
--                 (app/services/audit_service.py), the creation of notifications, and the
--                 results of the services
--   Context       app/services/deal_context_builder.py: what the evaluation knows of a deal
--   Risk          app/guardian/risk.py: `Factors` finds the risk factors, `Score` adds them up
--   Deals         app/services/deal_service.py and app/services/number_sequence_service.py: a
--                 deal, its reference and its copy of Odoo's sale order
--   Evaluation    app/guardian/evaluator.py: the pipeline from context, policies, risk and
--                 coverage to the routing; `Simulate` is the what-if simulation
--   Fulfillment   app/guardian/fulfillment.py: `Select` chooses the warehouses, `Allocate` shares
--                 out the stock, `Plan` is the whole function
--   PlanService   app/services/fulfillment_service.py: stored plans; `Propose`, `Override` and the
--                 acceptance and application of the parent file make the runs of `Run`
--   Routing       app/guardian/approval_routing.py: the requests that follow an evaluation
--   Approval      app/services/approval_service.py: the decision on a request; `Run` composes it
--                 with evaluation and with the customer's operations, and `Refine` relates the
--                 runs to the abstract machine of `Machine`
--   Portal        app/services/portal_service.py: the customer's confirmation; `View` is the
--                 customer's view of a deal
--   Negotiation   app/services/negotiation_service.py: the customer's request for other terms, and
--                 in `Respond` the answer to it
--   Notifications app/services/notification_service.py: the notifications of a user
--   Outbox        app/odoo/outbox.py: the queue of calls to Odoo; `Progress` and `Processed` show
--                 what its drains come to
--   Policy        app/guardian/policy.py: the discount policy of a line
--   Health        app/guardian/health.py: the health score of a deal
--   Material      app/guardian/material_change.py: material changes, and coverage by an approval
--   NextAction    app/guardian/next_action.py: the next best action of a deal
--   Tests         concrete runs, and the properties at concrete inputs
--
-- The pure functions of app/guardian are functions here. A service is a function from the database
-- and the state of Odoo (`World`) to a new one; an exception that it raises is an `err`. The guards
-- stand before all changes, so an `err` carries no state; what an exception in the middle of an
-- accepted negotiation leaves in Odoo, what the services within have committed by then, and the
-- warehouse profiles that a proposal has committed before Odoo refuses to tell its stock, are left
-- out. The confirmation's view of the deal is read after the commit, so its failure is a part of
-- the result, beside the new state. Odoo is a parameter: any state type with the calls of
-- `Gateway`, each of which may fail. A call that the code wraps in `try ... except: pass` keeps
-- what Odoo did and goes on.
--
-- The greedy selection's loop runs on fuel, the number of warehouses: each round takes one from
-- the pool. All else is structural recursion.
--
-- Identifiers are numbers; a primary key is drawn from a counter where the code draws a UUID.
-- Texts for people, and columns that no modelled operation uses, are left out. Not modelled: the
-- last two steps of the evaluation (app/guardian/evaluator.py), which write recommendations and
-- health records, recommendations, health dashboards, and all of HTTP, authentication, reports and
-- the Odoo add-on.
pub mod Base
pub mod Context
pub mod Deals
pub mod Enums
pub mod Evaluation
pub mod Fulfillment
pub mod State
pub mod Risk
pub mod Routing
pub mod NextAction
pub mod PlanService
pub mod Policy
pub mod Negotiation
pub mod Notifications
pub mod Outbox
pub mod Portal
pub mod Material
pub mod Health
pub mod Approval
pub mod Tests
