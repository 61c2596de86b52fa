-- ===== src/Tests.antt =====
-- Small instances of the parameters, and the theorems at concrete inputs.
pub mod Setup
pub mod Canonical
pub mod Envelopes
pub mod Lineage
pub mod Handoff
pub mod Decision
pub mod Serving
pub mod Registry
pub mod Routes
pub mod Custody
pub mod Exchange
pub mod Genesis
pub mod Replica
pub mod Mints
pub mod Oidc
pub mod Numbers
pub mod Preapproval
pub mod Tenants
