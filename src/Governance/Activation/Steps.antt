-- ===== src/Governance/Activation/Steps.antt =====
-- src/governance-state.js: the operations of the handoff, each on the state of its own replica.
mod Certify
mod Apply
mod Finalize
mod Abort
mod Candidate
unfoldable pub use Certify.*
unfoldable pub use Apply.*
unfoldable pub use Finalize.*
unfoldable pub use Abort.*
unfoldable pub use Candidate.*
