-- ===== src/Tests/Setup.antt =====
-- A toy cryptography that meets the hypotheses (a key is its own public half, and a signature repeats
-- the key), and replicas that use it.
use Prim.Native.String.{◌++◌ as text_append}
use auth_broker_tee.Json.Order.{text_le, text_le-total, text_le_antisymm}
use auth_broker_tee.Base.{
  String, Bool, true, false, Option, none, some, ◌≡◌, arith, if◌then◌else◌, [], ◌∷◌, refl, str_eq,
  eq_refl, Result, ok, err,
}
use auth_broker_tee.Json.{Json, undefined, null, str, num, object}
use auth_broker_tee.Crypto.{Crypto, IsSound, KeyMaterial, key_id}
use auth_broker_tee.Crypto.Envelopes.{IsInMemory}
use auth_broker_tee.Certificates.{ReviewPolicy}
use auth_broker_tee.Certificates.Signing.{sign_genesis_certificate, Successor}
use auth_broker_tee.Json.{fields, get, same, is_object}
use auth_broker_tee.Crypto.{sign_governance_payload}
use auth_broker_tee.Crypto.Envelopes.{sign-IsSignedBy}
use auth_broker_tee.Certificates.Lineage.{Chain, genesis}
use auth_broker_tee.Governance.{
  State, active, initialize_governance, export_replica_snapshot, M, commit,
  empty_route_policy_state,
}
use auth_broker_tee.Governance.Invariant.{IsGood}
use auth_broker_tee.Governance.Sealing.{Plain, Cipher, IsCipher, transferable}
use auth_broker_tee.Governance.Activation.{Environment}
use auth_broker_tee.Governance.Activation.Checks.{CompleteRequest, SuccessorDecision}
use auth_broker_tee.Governance.Activation.Steps.{certify_successor}
use auth_broker_tee.Governance.Activation.Preserves.{certify-IsGood}

abbrev pub some_digest : String
some_digest = "sha256:0123456789abcdef0123456789abcdef0123456789abcdef0123456789abcdef"

abbrev repeats : String → String → Json → Json → Bool
repeats alg pem v (str s) = str_eq pem s
repeats alg pem v _ = false

abbrev pub toy : Crypto
toy = record {
  hash = λ v. some_digest;
  hash_text = λ v. some_digest;
  fingerprint = λ pem. some pem;
  key_type = λ k. some "ed25519";
  public_pem = λ k. k;
  exchange_pem = λ k. k;
  sign = λ k v. k;
  verify = repeats;
}

pub toy-IsSound : IsSound toy
toy-IsSound = record { fingerprint_exists = λ k. (k, refl); verify_sign = λ k v. eq_refl k }

abbrev pub keys : String → String → KeyMaterial
keys signing activation = record {
  kind = "in-memory";
  signature_algorithm = "Ed25519";
  governance_public_key_pem = signing;
  governance_key_id = text_append "sha256:" signing;
  activation_public_key_pem = activation;
  activation_key_id = text_append "sha256:" activation;
  signing_key = signing;
  activation_key = activation;
}

pub keys-IsInMemory : (signing activation : String) → IsInMemory toy (keys signing activation)
unfolding key_id
keys-IsInMemory signing activation = record {
  kind = refl;
  algorithm = refl;
  public_half = refl;
  exchange_half = refl;
  id_of = refl;
  activation_id_of = refl;
}

abbrev pub policy : ReviewPolicy
policy = record {
  policy_version = str "v1";
  prompt_digest = str some_digest;
  response_schema_digest = str some_digest;
  model = str "gemini";
  vertex_location = str "us-west1";
  model_policy_digest = str some_digest;
  temperature = num 0;
}

abbrev pub genesis_certificate : Json
genesis_certificate =
    sign_genesis_certificate toy policy (keys "g1" "a1") (str some_digest) undefined null null 1000

pub one_certificate : Chain toy (genesis_certificate ∷ []) 1 (str "g1")
unfolding sign_genesis_certificate sign_governance_payload get fields same is_object
one_certificate =
    genesis genesis_certificate refl refl refl
      (sign-IsSignedBy toy toy-IsSound (keys "g1" "a1") _ (keys-IsInMemory "g1" "a1") refl) refl

-- The replica after its genesis.
abbrev pub predecessor : State
predecessor = record (initialize_governance (keys "g1" "a1") (str some_digest)) {
  status = active;
  epoch = 1;
  lineage = genesis_certificate ∷ [];
}

pub predecessor-IsGood : IsGood toy predecessor
unfolding initialize_governance export_replica_snapshot
predecessor-IsGood = record {
  in_memory = keys-IsInMemory "g1" "a1";
  lineage_fits = one_certificate;
  pending_fits = tt;
  expired_fits = tt;
  pending_continues = tt;
  expired_continues = tt;
}

-- The two keys, in one order, as the secret of their holders.
-- A text, where a test of it passed.
abbrev read_if : Bool → Json → Option String
read_if true (str text) = some text
read_if _ _ = none

abbrev shared : String → Json → String
shared a (str b) = if text_le a b then text_append a b else text_append b a
shared a v = a

shared_comm : (a b : String) → shared a (str b) ≡ shared b (str a)
shared_comm a b = ground (arith, text_le-total a b, text_le-total b a, text_le_antisymm a b)

-- A cipher whose tag is the key, and whose text stands for one plaintext.
abbrev pub fixed_cipher : Plain → Cipher
fixed_cipher plain = record {
  diffie_hellman = shared;
  hkdf = λ secret salt info. secret;
  random_bytes = λ n aad p. "random";
  encrypt = λ key iv aad text. (text, key);
  decrypt = λ key iv aad text tag. read_if (same tag (str key)) text;
  stringify = λ p. "plain";
  parse = λ text. some plain;
}

pub fixed-IsCipher : (plain : Plain) → IsCipher toy (fixed_cipher plain) plain
unfolding same
fixed-IsCipher plain = record {
  agreement = shared_comm;
  decrypt_encrypt = λ key iv aad text. rw (eq_refl key) refl;
  parse_stringify = refl;
}

abbrev pub request : CompleteRequest
request = record {
  preapproval_envelope = object (("payloadDigest", str some_digest) ∷ []);
  candidate = object (("candidateImageDigest", str some_digest) ∷ []);
  candidate_readiness = null;
  candidate_governance_public_key_pem = str "g2";
  candidate_governance_key_id = str "sha256:g2";
  candidate_activation_public_key_pem = str "a2";
  activation_nonce = some_digest;
}

abbrev pub decision : SuccessorDecision
decision = record {
  attestation_token = str "token";
  packet_digest = some_digest;
  arbitration_digest = str some_digest;
}

abbrev pub no_state : Plain
no_state = transferable [] 0 empty_route_policy_state

-- The commit that certifies the successor at the time 2000, with a custodian that answers.
abbrev pub acknowledge : State → Result (Unit {0})
acknowledge s = ok tt

abbrev pub certify : M (Json × Json)
certify = certify_successor toy (fixed_cipher no_state) policy request decision 2000

abbrev pub certified : State
certified = (commit acknowledge certify predecessor).1

pub certified-IsGood : IsGood toy certified
certified-IsGood =
    certify-IsGood toy toy-IsSound (fixed_cipher no_state) policy request decision 2000 acknowledge
      predecessor predecessor-IsGood

abbrev pub environment : Environment
environment = record {
  production = true;
  verify_jwt = λ token. err "no attestation";
  arbitrate = λ packet. err "no arbitration";
  replicate = acknowledge;
  manifest = λ s. null;
}

abbrev pub successor : Successor
successor = record {
  candidate_image_digest = str some_digest;
  candidate_attestation_digest = str some_digest;
  candidate_attestation_nonce = str some_digest;
  preapproval_payload_digest = str some_digest;
  decision_packet_digest = str some_digest;
  arbitration_digest = str some_digest;
  governance_public_key_pem = str "g2";
  governance_key_id = str "sha256:g2";
  activation_public_key_pem = str "a2";
}
