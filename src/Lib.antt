-- ===== src/Lib.antt =====
-- The governance of the authentication broker: a service inside a trusted execution environment whose
-- signing key has no form at rest. Each release of the broker is admitted by its predecessor, which
-- certifies the successor's key and then retires, so that the certificates form one lineage.
--
-- The parts of the program and the files that model them:
--   Base: tests on natural numbers, lists, options and maps, and `Result`, the outcome of a function
--     that may throw.
--   Json: the values that the broker reads and signs; Json/Canonical: `canonicalize` of
--     src/canonical-json.js. Json/Order: the order of keys. Json/Texts and
--     Json/Numbers: what `String` and `Number` make of a value.
--   Patterns: the regular expressions for digests and UUIDs.
--   Crypto: `signGovernancePayload` and `verifyGovernanceEnvelope` of src/governance-crypto.js.
--     Hashes, key generation and signatures belong to Node's `crypto` and are the fields of the
--     parameter `Crypto`; `IsSound` is what is relied on: a fingerprint exists, and a signature that
--     was made with a key is verified with its public half. The PEM normalization is part of `verify`
--     and of `fingerprint`.
--   Certificates: src/governance-certificates.js. `verify_lineage` is `verifyLineage`, with its loop
--     as a recursion on the list; Certificates/Signing has the `sign…Certificate` functions, and
--     Certificates/Admission the checks of preapprovals and tenant admissions. The constants of
--     src/first-principles-review.js are the parameter `ReviewPolicy`.
--   Decision: src/governance-successor-decision.js, the evidence packet and the hard vetoes.
--   Attestation: src/confidential-space-attestation.js. The check of the token's signature is a
--     parameter.
--   Governance: src/governance-state.js. `State` is the module's `state`, and a function that changes
--     it and may throw is a function from a state to a result and a state. `commit` is
--     `withGovernanceCommit`: the lock makes each commit one step, and the custodian's answer is the
--     argument `replicate`. Governance/Sealing is the encrypted state of src/governance-crypto.js with
--     X25519, HKDF, AES-256-GCM and random bytes as the parameter `Cipher`; Governance/Gate is `mayServePath`; the files of
--     Governance/Activation are the handoff (`createActivationChallenge`, `completeActivation`,
--     `issueActivationReadiness`, `applyActivationBundle`, `finalizeActivation`, `abortActivation`,
--     `declineActivation`), whose checks before a commit are in Governance/Activation/Checks and whose
--     changes are in Governance/Activation/Steps. Governance/Protocol puts the operations together as
--     the steps of a replica. Governance/Replica has the custody functions of the state
--     (`buildReplicaCustodyTransfer`, `applyReplicaCustodyTransfer`, `applyReplicaSync`,
--     `promoteReplicaToPrimary`), and Governance/Tenants the tenant admissions
--     (`issueTenantAdmissionCertificate`, `verifyTenantAdmissionEnvelope`,
--     `recordAcceptedRouteVersion`). Governance/Preapproval has `issuePreapprovalCertificate` and
--     `recordGenesisSelfAdjudication`.
--     Governance/Genesis is `bootstrapGenesisFromAttestedApproval` with the provenance of the running
--     image, and Governance/Proposals is `issueSelfHealingProposal`.
--   Custody: src/governance-replica-custody.js, the exchange between two replicas. A `Node` is a
--     replica with its open challenges and health. Custody/Keys has the key attestations,
--     Custody/Challenges the challenges, Custody/Sync the replicator, the custodian's side of it and
--     the heartbeats, Custody/Exchange the service of a custody request and the promotion, and
--     Custody/Pull the request of a fresh replica. The peer's answers are arguments; in
--     Custody/Mirrored the peer is a custodian of the model.
--   Mints: src/tls-mint-log.js, the ledger of certificate mints and its token bucket.
--   Registry: src/route-registry.js. Registry/Payload, Registry/Trust and Registry/Signed are the
--     checks of a route's payload, of the trust anchors and of a signed envelope or a route document;
--     Registry/Build is `buildRegistryState`, over a state of the verifier of admissions and the
--     recorder of accepted routes. Registry/Governed gives it those of the governance state, as
--     src/server.js does. The parse of an URL is a parameter.
--   Oidc: src/github-oidc.js. Oidc/Claims is `validateClaims`, and Oidc/Token is
--     `verifyGitHubActionsOidc` with the cache of GitHub's keys. The network, the decoding of a
--     token's parts and the RSA check are parameters.
--   Routes: src/governance-routes.js, the limit on the rate of requests and `handleReplicaPromote`,
--     which joins Oidc and Custody. A reply is its status.
--   Tests: small instances of the parameters and the theorems at concrete inputs.
--
-- The time is an argument, in milliseconds since 1970. A thrown error is `err` with its message, less
-- the values that the source interpolates into it. All recursion is on the structure of a list, a
-- value or a text, so no fuel is needed but for the 21 digits of a
-- number below 10 ** 21, and no operation of the model runs without end. Numbers are natural numbers
-- without a bound, and others by their literal; the source's stay below 2 ^ 53. `Date.parse` reads the
-- form that `toISOString` prints: values in other forms that an engine may read are left out. Monitoring events, the bookkeeping
-- of the model supervisor, listeners and the log are left out, since no modelled function reads them.
-- Not modelled are the other HTTP routes, the OAuth flow, the supervisor timer of the replicas, repair
-- jobs, the reviews by a model, the other TLS material, and the clients of outside services.
pub mod Attestation
pub mod Base
pub mod Certificates
pub mod Crypto
pub mod Custody
pub mod Decision
pub mod Governance
pub mod Json
pub mod Mints
pub mod Oidc
pub mod Patterns
pub mod Registry
pub mod Routes
pub mod Tests
