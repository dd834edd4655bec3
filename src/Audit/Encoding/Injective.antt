-- ===== src/Audit/Encoding/Injective.antt =====
-- The encodings lose nothing: equal bytes come from equal fields.
use janus_secrets.Common.{Bytes, ℕ, ◌≡◌, refl, ap, [], ◌++◌, length}
use janus_secrets.Audit.Bytes.{write_int64, write_str}
use janus_secrets.Audit.Bytes.Prefix.{
  append_inj, IsWord64, IsShort, IsShortOption, write_int64-IsPrefixCode, write_str-IsPrefixCode,
  write_nullable-IsPrefixCode,
}
use janus_secrets.Audit.Encoding.{
  AuditRow, event_bytes, domain_tag, checkpoint_bytes, checkpoint_mac_domain,
}

-- The ranges that Go's types give: a sequence number and a timestamp of 64 bits, and texts below
-- 4 GiB.
pub record IsInRange (r : AuditRow) : Type 0 where
  pub seq_word : IsWord64 r.seq
  pub time_word : IsWord64 r.occurred_at
  pub actor_kind_short : IsShort r.actor_kind
  pub actor_id_short : IsShortOption r.actor_id
  pub actor_name_short : IsShort r.actor_name
  pub action_short : IsShort r.action
  pub resource_short : IsShort r.resource
  pub detail_short : IsShortOption r.detail
  pub result_short : IsShort r.result
  pub code_short : IsShortOption r.result_code
  pub ip_short : IsShort r.ip

-- The fields that the hash covers agree. The project is not among them.
pub record SameEvent (r s : AuditRow) : Type 0 where
  pub same_seq : r.seq ≡ s.seq
  pub same_time : r.occurred_at ≡ s.occurred_at
  pub same_actor_kind : r.actor_kind ≡ s.actor_kind
  pub same_actor_id : r.actor_id ≡ s.actor_id
  pub same_actor_name : r.actor_name ≡ s.actor_name
  pub same_action : r.action ≡ s.action
  pub same_resource : r.resource ≡ s.resource
  pub same_detail : r.detail ≡ s.detail
  pub same_result : r.result ≡ s.result
  pub same_code : r.result_code ≡ s.result_code
  pub same_ip : r.ip ≡ s.ip

write_str_inj : (s t : Bytes) → IsShort s → IsShort t → write_str s ≡ write_str t → s ≡ t
write_str_inj s t hs ht h =
    (write_str-IsPrefixCode s t [] [] hs ht (ap (λ (x : Bytes). x ++ []) h)).0

write_int64_inj : (v w : ℕ) → IsWord64 v → IsWord64 w → write_int64 v ≡ write_int64 w → v ≡ w
write_int64_inj v w hv hw h =
    (write_int64-IsPrefixCode v w [] [] hv hw (ap (λ (x : Bytes). x ++ []) h)).0

-- Two events that are in range are hashed from the same bytes only if the previous hashes, of one
-- length, and all the covered fields are the same: no two events share an encoding.
pub event_bytes_inj :
    (p q : Bytes) (r s : AuditRow)
    → length p ≡ length q
    → IsInRange r
    → IsInRange s
    → event_bytes p r ≡ event_bytes q s
    → (p ≡ q) × SameEvent r s
unfolding event_bytes
event_bytes_inj p q r s l hr hs h =
    let (_, h0) = append_inj domain_tag domain_tag _ _ refl h in
    let (e0, h1) = append_inj p q _ _ l h0 in
    let (e1, h2) = write_int64-IsPrefixCode r.seq s.seq _ _ hr.seq_word hs.seq_word h1 in
    let (e2, h3) =
      write_int64-IsPrefixCode r.occurred_at s.occurred_at _ _ hr.time_word hs.time_word h2 in
    let (e3, h4) =
      write_str-IsPrefixCode r.actor_kind s.actor_kind _ _ hr.actor_kind_short hs.actor_kind_short
        h3 in
    let (e4, h5) =
      write_nullable-IsPrefixCode r.actor_id s.actor_id _ _ hr.actor_id_short hs.actor_id_short
        h4 in
    let (e5, h6) =
      write_str-IsPrefixCode r.actor_name s.actor_name _ _ hr.actor_name_short hs.actor_name_short
        h5 in
    let (e6, h7) =
      write_str-IsPrefixCode r.action s.action _ _ hr.action_short hs.action_short h6 in
    let (e7, h8) =
      write_str-IsPrefixCode r.resource s.resource _ _ hr.resource_short hs.resource_short h7 in
    let (e8, h9) =
      write_nullable-IsPrefixCode r.detail s.detail _ _ hr.detail_short hs.detail_short h8 in
    let (e9, h10) =
      write_str-IsPrefixCode r.result s.result _ _ hr.result_short hs.result_short h9 in
    let (e10, h11) =
      write_nullable-IsPrefixCode r.result_code s.result_code _ _ hr.code_short hs.code_short h10 in
    let e11 = write_str_inj r.ip s.ip hr.ip_short hs.ip_short h11 in
    (
      e0,
      record {
        same_seq = e1;
        same_time = e2;
        same_actor_kind = e3;
        same_actor_id = e4;
        same_actor_name = e5;
        same_action = e6;
        same_resource = e7;
        same_detail = e8;
        same_result = e9;
        same_code = e10;
        same_ip = e11;
      },
    )

-- Two checkpoint triples in range are authenticated over the same bytes only if they are the same.
pub checkpoint_bytes_inj :
    (m n : ℕ) (g h : Bytes) (c d : ℕ)
    → IsWord64 m
    → IsWord64 n
    → IsShort g
    → IsShort h
    → IsWord64 c
    → IsWord64 d
    → checkpoint_bytes m g c ≡ checkpoint_bytes n h d
    → (m ≡ n) × (g ≡ h) × (c ≡ d)
unfolding checkpoint_bytes
checkpoint_bytes_inj m n g h c d hm hn hg hh hc hd e =
    let (_, e0) = append_inj checkpoint_mac_domain checkpoint_mac_domain _ _ refl e in
    let (e1, e2) = write_int64-IsPrefixCode m n _ _ hm hn e0 in
    let (e3, e4) = write_str-IsPrefixCode g h _ _ hg hh e2 in (e1, e3, write_int64_inj c d hc hd e4)
