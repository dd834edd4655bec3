-- ===== src/Audit/Encoding.antt =====
-- The bytes that the chain hash and the checkpoint MAC cover (internal/audit/hash.go,
-- internal/audit/checkpoint.go). SHA-256 and HMAC are arguments. An int64 stands for its 64-bit
-- pattern, a timestamp for its unix nanoseconds; strings are their bytes.
pub mod Injective
use janus_secrets.Common.{Bytes, codes, ℕ, ◌≡◌, Option, List, ◌++◌}
use janus_secrets.Audit.Bytes.{zeros, write_int64, write_str, write_nullable}

-- `store.AuditRow`
pub record AuditRow : Type 0 where
  pub seq : ℕ
  pub occurred_at : ℕ
  pub actor_kind : Bytes
  pub actor_id : Option Bytes
  pub actor_name : Bytes
  pub action : Bytes
  pub resource : Bytes
  pub detail : Option Bytes
  pub result : Bytes
  pub result_code : Option Bytes
  pub ip : Bytes
  pub prev_hash : Bytes
  pub hash : Bytes
  pub project_id : Option Bytes

unfoldable pub domain_tag : Bytes
domain_tag = codes "janus:audit:v1"

unfoldable pub genesis_prev_hash : Bytes
genesis_prev_hash = zeros 32

-- What is written to the hash for the row, after a given previous hash.
unfoldable pub event_bytes : Bytes → AuditRow → Bytes
event_bytes prev row =
    domain_tag
    ++ (prev
        ++ (write_int64 row.seq
            ++ (write_int64 row.occurred_at
                ++ (write_str row.actor_kind
                    ++ (write_nullable row.actor_id
                        ++ (write_str row.actor_name
                            ++ (write_str row.action
                                ++ (write_str row.resource
                                    ++ (write_nullable row.detail
                                        ++ (write_str row.result
                                            ++ (write_nullable row.result_code
                                                ++ write_str row.ip)))))))))))

unfoldable pub compute_hash : (Bytes → Bytes) → Bytes → AuditRow → Bytes
compute_hash sha256 prev row = sha256 (event_bytes prev row)

unfoldable pub checkpoint_mac_domain : Bytes
checkpoint_mac_domain = codes "janus:audit:checkpoint:v1"

-- `writeCkInt64` and `writeCkBytes` write what `writeInt64` and `writeStr` do.
unfoldable pub checkpoint_bytes : ℕ → Bytes → ℕ → Bytes
checkpoint_bytes through_seq through_hash event_count =
    checkpoint_mac_domain
    ++ (write_int64 through_seq ++ (write_str through_hash ++ write_int64 event_count))

unfoldable pub compute_checkpoint_mac : (Bytes → Bytes → Bytes) → Bytes → ℕ → Bytes → ℕ → Bytes
compute_checkpoint_mac hmac ck_key through_seq through_hash event_count =
    hmac ck_key (checkpoint_bytes through_seq through_hash event_count)
