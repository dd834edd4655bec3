-- ===== src/Audit/Recorder/Attests.antt =====
-- A walk that reaches the head of the log shows that the chain verifies up to that head.
use janus_secrets.Common.{
  Bytes, ℕ, ◌<◌, ◌≡◌, ◌≢◌, refl, sym, ◌∙◌, inl, inr, Bool, true, false, Option, none, some, List,
  [], ◌∷◌, arith, Bool-cases, Option-cases, Result, ok, ◌>>=◌, ltb, ◌==◌, ==_iff, any_intro, In,
  >>=-eq-ok,
}
use janus_secrets.Audit.Chain.{Walk, from_genesis}
use janus_secrets.Audit.Chain.Linked.{IsAscending, AllUpTo}
use janus_secrets.Audit.Log.{
  Error, Log, Env, CheckpointRow, last_row, head_of, latest_of, insert_checkpoint,
}
use janus_secrets.Audit.Recorder.{
  CheckpointInfo, VerifyResult, verify_from, run_walk, from_checkpoint, result_of, info_of, reached,
  anchor_from,
}
use janus_secrets.Audit.Recorder.Created.{AllUpTo-last, run_walk_bounded, reached-eq_ok}

pub head_facts :
    (log : Log)
    → IsAscending 0 log.events
    → (head_of log).0 ≢ 0
    → (0 < (head_of log).0) × AllUpTo (head_of log).0 log.events
unfolding head_of
head_facts log a h = elim (Option-cases (last_row log.events)) [
  | inl empty ↦ absurd (h (rw (empty, head_of) refl))
  | inr (r, last) ↦ let (up, lt) = AllUpTo-last 0 log.events r a last in rw (last, head_of) (lt, up)
]

latest_of-In : (cs : List CheckpointRow) (c : CheckpointRow) → latest_of cs ≡ some c → In c cs
unfolding latest_of
latest_of-In [] c h = cc
latest_of-In (d ∷ cs) c h = elim (Option-cases (latest_of cs)) [
  | inl none_left ↦ inl (ground arith)
  | inr (e, rest) ↦ elim (Bool-cases (ltb d.through_seq e.through_seq)) [
    | inl later ↦ inr (latest_of-In cs c (ground arith))
    | inr first ↦ inl (ground arith)
  ]
]

-- An anchor that could be inserted has a sequence number of its own.
pub insert_checkpoint-fresh :
    (c d : CheckpointRow) (log : Log) {log' : Log}
    → insert_checkpoint c log ≡ ok log'
    → latest_of log.checkpoints ≡ some d
    → d.through_seq ≢ c.through_seq
unfolding insert_checkpoint
insert_checkpoint-fresh c d log h l e =
    let clash =
      any_intro (λ d. d.through_seq == c.through_seq) d log.checkpoints
        (latest_of-In log.checkpoints d l) ((==_iff _ _).1 e) in
    ground arith

-- The latest checkpoint, if there is one, is not at `n`.
abbrev pub IsNotAt : ℕ → Option (CheckpointRow × Bool) → Type 0
IsNotAt n none = Unit
IsNotAt n (some (c, b)) = c.through_seq ≢ n

module _ (sha256 : Bytes → Bytes) (hmac : Bytes → Bytes → Bytes) where
  -- A verification that found the chain intact up to a head.
  abbrev pub Attests : Result Error VerifyResult → ℕ → Bytes → ℕ → Type 0
  Attests result n h count =
      (v : VerifyResult) × (result ≡ ok v)
      × (v.valid ≡ true)
      × (v.count ≡ count)
      × (v.head_seq ≡ n)
      × (v.head_hash ≡ h)

  result_of-valid :
      (info : Option CheckpointInfo) (anchored : Bool) (w : Walk)
      → w.broken ≡ none
      → (result_of sha256 hmac info anchored w).valid ≡ true
  unfolding result_of
  result_of-valid info anchored w e = rw e refl

  walk-Attests :
      (env : Env) (log : Log) (n : ℕ) (h : Bytes) (start : Walk) (info : Option CheckpointInfo)
      (anchored : Bool) {count : ℕ}
      → 0 < n
      → IsAscending 0 log.events
      → AllUpTo n log.events
      → (run_walk sha256 hmac env log n start >>= reached sha256 hmac n h) ≡ ok count
      → Attests
          (run_walk sha256 hmac env log 0 start >>= λ w. ok (result_of sha256 hmac info anchored w))
          n
          h
          count
  unfolding result_of
  walk-Attests env log n h start info anchored p a u e =
      let (w, walk, end) =
        >>=-eq-ok (run_walk sha256 hmac env log n start) (reached sha256 hmac n h) e in
      let (intact, seq, hash, same) = reached-eq_ok sha256 hmac n h w end in
      let walk' = sym (run_walk_bounded sha256 hmac env log n start p a u) ∙ walk in
      (
        result_of sha256 hmac info anchored w,
        rw walk' refl,
        result_of-valid info anchored w intact,
        same,
        seq,
        hash,
      )

  pub anchor_from-Attests :
      (env : Env) (log : Log) (n : ℕ) (h : Bytes) (latest : Option (CheckpointRow × Bool))
      {count : ℕ}
      → 0 < n
      → IsAscending 0 log.events
      → AllUpTo n log.events
      → IsNotAt n latest
      → anchor_from sha256 hmac env log n h latest ≡ ok count
      → Attests (verify_from sha256 hmac env log latest) n h count
  unfolding anchor_from verify_from
  anchor_from-Attests env log n h none p a u at e =
      walk-Attests env log n h from_genesis none false p a u e
  anchor_from-Attests env log n h (some (c, false)) p a u at e = cc
  anchor_from-Attests env log n h (some (c, true)) p a u at e =
      walk-Attests env log n h (from_checkpoint sha256 hmac c) (some (info_of sha256 hmac c true))
        true p a u (ground arith)
