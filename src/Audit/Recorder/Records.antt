-- ===== src/Audit/Recorder/Records.antt =====
-- Recording keeps the log valid, and no other log looks like it.
use janus_secrets.Common.{
  Bytes, ◌+◌, ◌≡◌, refl, sym, ◌∙◌, ap, ◌⊎◌, inl, inr, true, false, none, List, [], ◌∷◌, length,
  arith, ok,
}
use janus_secrets.Audit.Encoding.{AuditRow, genesis_prev_hash}
use janus_secrets.Audit.Chain.{from_genesis}
use janus_secrets.Audit.Chain.Linked.{Linked, end_hash, walked}
use janus_secrets.Audit.Chain.Tamper.{Collision, AllInRange, SameEvents, same_chain}
use janus_secrets.Audit.Log.{Log, Env}
use janus_secrets.Audit.Recorder.{Event, VerifyResult, record_event, result_of, verify}
use janus_secrets.Audit.Recorder.Verifies.{
  IsReadable, HasNoAnchor, verify_iff_Linked, verify_genesis_Linked, record_event-Linked,
}

module _ (sha256 : Bytes → Bytes) (hmac : Bytes → Bytes → Bytes) where
  -- What a verification from genesis of a valid log reports.
  valid_report :
      (env : Env) (log : Log) (v : VerifyResult)
      → IsReadable env
      → HasNoAnchor env log
      → verify sha256 hmac env log ≡ ok v
      → v.valid ≡ true
      → Linked sha256 genesis_prev_hash 1 log.events
        × (v.count ≡ length log.events)
        × (v.head_hash ≡ end_hash [] log.events)
  unfolding result_of from_genesis
  valid_report env log v f n h t =
      let l = (verify_iff_Linked sha256 hmac env log v f n h).0 t in
      let same : v ≡ result_of sha256 hmac none false (walked log.events from_genesis) =
        cc (h, verify_genesis_Linked sha256 hmac env log f n l) in
      (
        l,
        ap (λ (v : VerifyResult). v.count) same ∙ omega arith,
        ap (λ (v : VerifyResult). v.head_hash) same,
      )

  -- If a log that no checkpoint anchors verifies as valid and `Record` appends an event, the new log
  -- verifies as valid, and its count is one more.
  pub record_event-verify :
      (env : Env) (e : Event) (log log' : Log) (v : VerifyResult)
      → IsReadable env
      → HasNoAnchor env log
      → verify sha256 hmac env log ≡ ok v
      → v.valid ≡ true
      → record_event sha256 hmac env e log ≡ ok log'
      → (w : VerifyResult) × (verify sha256 hmac env log' ≡ ok w)
        × (w.valid ≡ true)
        × (w.count ≡ v.count + 1)
  unfolding result_of from_genesis
  record_event-verify env e log log' v f n h t r =
      let (l, count, head) = valid_report env log v f n h t in
      let (same_checkpoints, longer, l') = record_event-Linked sha256 hmac env e log l r in
      let n' : HasNoAnchor env log' = elim n [
        | inl w ↦ inl w
        | inr c ↦ inr (same_checkpoints ∙ c)
      ] in
      (
        result_of sha256 hmac none false (walked log'.events from_genesis),
        verify_genesis_Linked sha256 hmac env log' f n' l',
        refl,
        omega arith,
      )

  same_from_heads :
      ((x : Bytes) → length (sha256 x) ≡ 32)
      → (rs ss : List AuditRow) → length rs ≡ length ss
      → AllInRange rs
      → AllInRange ss
      → Linked sha256 genesis_prev_hash 1 rs
      → Linked sha256 genesis_prev_hash 1 ss
      → end_hash [] rs ≡ end_hash [] ss
      → Collision sha256 ⊎ SameEvents rs ss
  same_from_heads len [] [] m hr hs lr ls e = inr tt
  same_from_heads len [] (s ∷ ss) m hr hs lr ls e = absurd (omega arith)
  same_from_heads len (r ∷ rs) [] m hr hs lr ls e = absurd (omega arith)
  same_from_heads len (r ∷ rs) (s ∷ ss) m hr hs lr ls e =
      elim (same_chain sha256 len genesis_prev_hash genesis_prev_hash 1 1 (r ∷ rs) (s ∷ ss) refl m
        hr hs lr ls e) [ inl c ↦ inl c | inr (start, same) ↦ inr same ]

  -- Let two logs whose events are in the ranges of Go's types both verify as valid from genesis, with
  -- the same count and the same head hash, and let SHA-256 give 32 bytes. Then they hold the same
  -- events, in all that the hash covers, or two different inputs with one SHA-256 hash are found.
  pub verify-tamper_evident :
      ((x : Bytes) → length (sha256 x) ≡ 32)
      → (env : Env) (log log' : Log) (v v' : VerifyResult) → IsReadable env
      → HasNoAnchor env log
      → HasNoAnchor env log'
      → AllInRange log.events
      → AllInRange log'.events
      → verify sha256 hmac env log ≡ ok v
      → verify sha256 hmac env log' ≡ ok v'
      → v.valid ≡ true
      → v'.valid ≡ true
      → v.count ≡ v'.count
      → v.head_hash ≡ v'.head_hash
      → Collision sha256 ⊎ SameEvents log.events log'.events
  verify-tamper_evident len env log log' v v' f n n' r r' h h' t t' c e =
      let (l, count, head) = valid_report env log v f n h t in
      let (l', count', head') = valid_report env log' v' f n' h' t' in
      same_from_heads len log.events log'.events (sym count ∙ c ∙ count') r r' l l'
        (sym head ∙ e ∙ head')
