-- ===== src/Audit/Recorder/Restarts.antt =====
-- What is recorded on a log that a prune has emptied.
use janus_secrets.Common.{
  ℕ, ◌+◌, ◌<◌, ◌≡◌, refl, sym, ◌∙◌, true, false, none, some, [], ◌∷◌, arith, leb, lt→ltb, Bytes, ok,
}
use janus_secrets.Audit.Log.{Log, Env, CheckpointRow, last_row, rows_from}
use janus_secrets.Audit.Recorder.{
  Event, next_row, record_event, verify, verify_from, run_walk, latest_verified, from_checkpoint,
}
use janus_secrets.Audit.Recorder.Verifies.{verify_wired}

module _ (sha256 : Bytes → Bytes) (hmac : Bytes → Bytes → Bytes) where
  record_event-eq_ok :
      (env : Env) (e : Event) (log log' : Log)
      → log.events ≡ []
      → record_event sha256 hmac env e log ≡ ok log'
      → log' ≡ record log { events = next_row sha256 hmac none env.now e ∷ [] }
  unfolding record_event last_row
  record_event-eq_ok env e log log' n h = ground arith

  rows_from-restarted :
      (n now : ℕ) (e : Event) (log : Log)
      → 0 < n
      → rows_from (n + 1) (record log { events = next_row sha256 hmac none now e ∷ [] }) ≡ []
  unfolding rows_from next_row
  rows_from-restarted n now e log p =
      let past : leb (n + 1) 1 ≡ false = ground arith in
      rw (lt→ltb 1 (n + 1) (omega arith), past) refl

  rows_from-empty : (n : ℕ) (log : Log) → log.events ≡ [] → rows_from n log ≡ []
  unfolding rows_from
  rows_from-empty n log h = ground arith

  -- If the events of a log have all been deleted and its latest checkpoint verifies, an event that
  -- `Record` appends is not seen by `Verify`, which returns what it returned before: the sequence
  -- numbers start at 1 again, below the anchor.
  pub record_event-unseen :
      (env : Env) (e : Event) (log log' : Log) (c : CheckpointRow)
      → env.wired ≡ true
      → log.events ≡ []
      → 0 < c.through_seq
      → latest_verified sha256 hmac env log ≡ ok (some (c, true))
      → record_event sha256 hmac env e log ≡ ok log'
      → verify sha256 hmac env log' ≡ verify sha256 hmac env log
  unfolding verify_from run_walk from_checkpoint latest_verified
  record_event-unseen env e log log' c w n p l h =
      let same = record_event-eq_ok env e log log' n h in
      let latest' : latest_verified sha256 hmac env log' ≡ ok (some (c, true)) = rw same l in
      verify_wired sha256 hmac env log' (some (c, true)) w latest'
      ∙ rw
          (
            same,
            rows_from-restarted c.through_seq env.now e log p,
            rows_from-empty (c.through_seq + 1) log n,
          )
          refl
      ∙ sym (verify_wired sha256 hmac env log (some (c, true)) w l)
