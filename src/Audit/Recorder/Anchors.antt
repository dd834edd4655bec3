-- ===== src/Audit/Recorder/Anchors.antt =====
-- A checkpoint attests a chain that verifies, and a verification after it starts from it.
use janus_secrets.Common.{
  Bytes, bytes_eq_refl, ℕ, ◌+◌, ◌<◌, ◌≡◌, refl, ◌∙◌, inl, inr, Bool, true, false, Option, none,
  some, List, ◌∷◌, arith, Option-cases, ok, ltb, lt→ltb, >>=-eq-ok,
}
use janus_secrets.Audit.Chain.{walk_chain}
use janus_secrets.Audit.Chain.Linked.{IsAscending, AllUpTo}
use janus_secrets.Audit.Log.{
  Log, Env, CheckpointRow, rows_from, head_of, latest_of, insert_checkpoint,
}
use janus_secrets.Audit.Recorder.{
  CheckpointInfo, verify, verify_from, run_walk, latest_verified, mac_valid, from_checkpoint,
  result_of, info_of, anchor_from, verify_before_anchor, create_checkpoint,
}
use janus_secrets.Audit.Recorder.Verifies.{IsReadable, verify_wired}
use janus_secrets.Audit.Recorder.Created.{none_above, new_anchor, create_checkpoint-Created}
use janus_secrets.Audit.Recorder.Attests.{
  head_facts, insert_checkpoint-fresh, IsNotAt, Attests, anchor_from-Attests,
}

module _ (sha256 : Bytes → Bytes) (hmac : Bytes → Bytes → Bytes) where
  -- The head that was signed lies at or past the checkpoint before it.
  anchor_from-later :
      (env : Env) (log : Log) (n : ℕ) (h : Bytes) (c : CheckpointRow) (b : Bool) {count : ℕ}
      → anchor_from sha256 hmac env log n h (some (c, b)) ≡ ok count
      → ltb n c.through_seq ≡ false
  unfolding anchor_from
  anchor_from-later env log n h c false e = cc
  anchor_from-later env log n h c true e = ground arith

  latest_verified-latest :
      (env : Env) (log : Log) (latest : Option (CheckpointRow × Bool)) (c : CheckpointRow)
      (b : Bool)
      → latest_verified sha256 hmac env log ≡ ok latest
      → latest ≡ some (c, b)
      → latest_of log.checkpoints ≡ some c
  unfolding latest_verified
  latest_verified-latest env log latest c b h e = ground arith

  latest_verified-none :
      (env : Env) (log : Log)
      → latest_verified sha256 hmac env log ≡ ok none
      → latest_of log.checkpoints ≡ none
  unfolding latest_verified
  latest_verified-none env log h = ground arith

  -- A checkpoint past the earlier ones is the one that the next verification starts from.
  latest_of-new :
      (c : CheckpointRow) (cs : List CheckpointRow)
      → ((d : CheckpointRow) → latest_of cs ≡ some d → ltb c.through_seq d.through_seq ≡ false)
      → latest_of (c ∷ cs) ≡ some c
  unfolding latest_of
  latest_of-new c cs f = elim (Option-cases (latest_of cs)) [
    | inl empty ↦ rw empty refl
    | inr (d, last) ↦ rw (last, f d last) refl
  ]

  verify_new :
      (env : Env) (log : Log) (key : Bytes) (c : CheckpointRow)
      → env.wired ≡ true
      → IsReadable env
      → env.mac_key ≡ ok key
      → 0 < c.through_seq
      → AllUpTo c.through_seq log.events
      → latest_of log.checkpoints ≡ some c
      → mac_valid sha256 hmac key c ≡ true
      → verify sha256 hmac env log
        ≡ ok (
            result_of sha256 hmac
              (some (info_of sha256 hmac c true))
              true
              (from_checkpoint sha256 hmac c))
  unfolding latest_verified verify_from run_walk rows_from from_checkpoint walk_chain
  verify_new env log key c w f k p u l m =
      let latest : latest_verified sha256 hmac env log ≡ ok (some (c, true)) =
        rw (f.0, l, k, m) refl in
      verify_wired sha256 hmac env log (some (c, true)) w latest
      ∙ rw (f.1, lt→ltb 1 (c.through_seq + 1) (omega arith), none_above c.through_seq log.events u)
          refl

  IsNotAt-latest :
      (env : Env) (log : Log) (c : CheckpointRow) {log' : Log}
      (latest : Option (CheckpointRow × Bool))
      → latest_verified sha256 hmac env log ≡ ok latest
      → insert_checkpoint c log ≡ ok log'
      → IsNotAt c.through_seq latest
  IsNotAt-latest env log c none l i = tt
  IsNotAt-latest env log c (some (d, b)) l i =
      insert_checkpoint-fresh c d log i (latest_verified-latest env log (some (d, b)) d b l refl)

  latest_of-anchored :
      (env : Env) (log : Log) (c : CheckpointRow) (h : Bytes) {count : ℕ}
      (latest : Option (CheckpointRow × Bool))
      → latest_verified sha256 hmac env log ≡ ok latest
      → anchor_from sha256 hmac env log c.through_seq h latest ≡ ok count
      → latest_of (c ∷ log.checkpoints) ≡ some c
  latest_of-anchored env log c h none l e =
      latest_of-new c log.checkpoints (λ d at. cc (at, latest_verified-none env log l))
  latest_of-anchored env log c h (some (d, b)) l e =
      let at = latest_verified-latest env log (some (d, b)) d b l refl in
      latest_of-new c log.checkpoints (λ d' at'.
        let same : d' ≡ d = cc (at, at') in
        rw same (anchor_from-later env log c.through_seq _ d b e))

  mac_valid-new_anchor :
      (key : Bytes) (log : Log) (count : ℕ)
      → mac_valid sha256 hmac key (new_anchor sha256 hmac key log count) ≡ true
  unfolding mac_valid new_anchor
  mac_valid-new_anchor key log count = bytes_eq_refl _

  insert_checkpoint-eq :
      (c : CheckpointRow) (log log' : Log)
      → insert_checkpoint c log ≡ ok log'
      → log' ≡ record log { checkpoints = c ∷ log.checkpoints }
  unfolding insert_checkpoint
  insert_checkpoint-eq c log log' e = ground arith

  -- Whenever `CreateCheckpoint` succeeds on a log in the order of its sequence numbers, a
  -- verification of that log finds the chain intact, and its head and count are the sequence
  -- number, the hash and the count of the checkpoint that was signed.
  pub create_checkpoint-Attests :
      (env : Env) (log log' : Log) (info : CheckpointInfo)
      → IsAscending 0 log.events
      → create_checkpoint sha256 hmac env log ≡ ok (info, log')
      → Attests sha256 hmac
          (verify sha256 hmac env log)
          info.through_seq
          info.through_hash
          info.event_count
  unfolding verify_before_anchor new_anchor info_of
  create_checkpoint-Attests env log log' info a h =
      let (wired, some_head, (count, key, (before, mac_key, inserted, made))) =
        create_checkpoint-Created sha256 hmac env log log' info h in
      let (latest, l, from) =
        >>=-eq-ok (latest_verified sha256 hmac env log)
          (anchor_from sha256 hmac env log (head_of log).0 (head_of log).1) before in
      let (p, u) = head_facts log a some_head in
      let fresh = IsNotAt-latest env log (new_anchor sha256 hmac key log count) latest l inserted in
      rw (made, verify_wired sha256 hmac env log latest wired l)
        (anchor_from-Attests sha256 hmac env log (head_of log).0 (head_of log).1 latest p a u fresh
          from)

  -- Where the store can be read, a verification right after a `CreateCheckpoint` that succeeds on
  -- a log in the order of its sequence numbers starts from the new checkpoint, finds the chain
  -- intact and reports the very result that the checkpoint holds.
  pub create_checkpoint-verify :
      (env : Env) (log log' : Log) (info : CheckpointInfo)
      → IsReadable env
      → IsAscending 0 log.events
      → create_checkpoint sha256 hmac env log ≡ ok (info, log')
      → verify sha256 hmac env log'
        ≡ ok (record {
          valid = true;
          count = info.event_count;
          head_seq = info.through_seq;
          head_hash = info.through_hash;
          broken = none;
          checkpoint = some info;
          from_checkpoint = true;
        })
  unfolding verify_before_anchor new_anchor info_of result_of from_checkpoint
  create_checkpoint-verify env log log' info f a h =
      let (wired, some_head, (count, key, (before, mac_key, inserted, made))) =
        create_checkpoint-Created sha256 hmac env log log' info h in
      let c = new_anchor sha256 hmac key log count in
      let (latest, l, from) =
        >>=-eq-ok (latest_verified sha256 hmac env log)
          (anchor_from sha256 hmac env log (head_of log).0 (head_of log).1) before in
      let (p, u) = head_facts log a some_head in
      rw (insert_checkpoint-eq c log log' inserted, made)
        (verify_new env (record log { checkpoints = c ∷ log.checkpoints }) key c wired f mac_key p u
          (latest_of-anchored env log c (head_of log).1 latest l from)
          (mac_valid-new_anchor key log count))
