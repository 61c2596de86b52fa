-- ===== src/Tests/Envelopes.antt =====
-- Envelopes of one payload.
use auth_broker_tee.Base.{true, ◌≡◌, refl, [], ◌∷◌, ok, err}
use auth_broker_tee.Json.{Json, time, str, object, fields, get, is_object, truthy, date_parse}
use auth_broker_tee.Crypto.{digest, sign_governance_payload, verify_governance_envelope, is_expired}
use auth_broker_tee.Crypto.Envelopes.{verify-sign}
use auth_broker_tee.Governance.Sealing.{encrypt_state_envelope, decrypt_state_envelope}
use auth_broker_tee.Tests.Setup.{fixed_cipher, no_state, toy, toy-IsSound, keys, keys-IsInMemory}

abbrev payload : Json
payload = object (("schema", str "s") ∷ ("expiresAt", time 5000) ∷ [])

verify-sign_example :
    verify_governance_envelope toy
      (sign_governance_payload toy payload (keys "k" "a"))
      (str "k")
      4999
      true
    ≡ ok payload
unfolding is_expired get fields truthy date_parse is_object
verify-sign_example =
    verify-sign toy toy-IsSound (keys "k" "a") payload 4999 true (keys-IsInMemory "k" "a") refl refl

abbrev sealed : Json
sealed =
    encrypt_state_envelope toy (fixed_cipher no_state) (keys "g1" "a1") (str "a2") no_state payload

refuses_other_key :
    decrypt_state_envelope toy (fixed_cipher no_state) (keys "g3" "a3") sealed (str "a1") payload
    ≡ err "unable to authenticate data"
unfolding decrypt_state_envelope encrypt_state_envelope get fields
    auth_broker_tee.Json.Order.text_le auth_broker_tee.Json.same digest
refuses_other_key = refl
