-- ===== src/Crypto/Places.antt =====
-- The places where ciphertexts are stored, and the associated data that binds a ciphertext to its
-- place (internal/crypto/keys.go, TransitKeyAAD of internal/crypto/sign.go, and kcvAAD of
-- internal/crypto/unseal.go). A length or a version is written on 64 bits.
use janus_secrets.Common.{ℕ, ◌%◌, ◌^◌, ◌++◌, length, Bytes, codes}
use janus_secrets.Audit.Bytes.{big_endian}

pub data Place : Type 0 where
  project_kek rotation_config rotation_pending sync_creds dynamic_config : Bytes → Place
  notification_channel totp_secret : Bytes → Place
  auth_key oidc_client_secret key_check : Place
  edit_request : (project_id config_id : Bytes) → Place
  dek : (project_id secret_path : Bytes) (version : ℕ) → Place
  transit_key : (name : Bytes) (version : ℕ) → Place

unfoldable pub field : Bytes → Bytes
field f = big_endian 8 (length f % 2 ^ 64) ++ f

-- `appendField`
abbrev pub append_field : Bytes → Bytes → Bytes
append_field b f = b ++ field f

abbrev pub word : ℕ → Bytes
word v = big_endian 8 (v % 2 ^ 64)

unfoldable pub aad : Place → Bytes
aad (project_kek id) = append_field (codes "janus:kek:project") id
aad auth_key = codes "janus:auth:token-hmac"
aad oidc_client_secret = codes "janus:auth:oidc-client-secret"
aad (rotation_config id) = append_field (codes "janus:rotation:config") id
aad (rotation_pending id) = append_field (codes "janus:rotation:pending") id
aad (sync_creds id) = append_field (codes "janus:sync:creds") id
aad (dynamic_config id) = append_field (codes "janus:dynamic:config") id
aad (notification_channel id) = append_field (codes "janus:notification:channel") id
aad (totp_secret id) = append_field (codes "janus:auth:totp-secret") id
aad (edit_request project_id config_id) =
    append_field (append_field (codes "janus:config-edit-request") project_id) config_id
aad (dek project_id secret_path version) =
    append_field (append_field (codes "janus:dek") project_id) secret_path ++ word version
aad (transit_key name version) = append_field (codes "janus:transit:v1") name ++ word version
aad key_check = codes "janus:kcv"
