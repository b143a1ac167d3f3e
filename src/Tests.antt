-- ===== src/Tests.antt =====
-- Concrete runs of the models, and the properties at concrete inputs.
mod Plans
mod Governance
mod Rules
mod Evaluations
mod Shipping
mod Negotiating
mod Simulations
mod Outboxes
mod Notices
mod Confirming
mod Ceilings
