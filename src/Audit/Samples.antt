-- ===== src/Audit/Samples.antt =====
-- Small logs with a toy hash and a toy MAC.
use janus_secrets.Common.{Bytes, codes, ℕ, true, false, none, some, [], ◌∷◌, length, ok}
use janus_secrets.Audit.Bytes.{zeros}
use janus_secrets.Audit.Encoding.{AuditRow}
use janus_secrets.Audit.Log.{Log, Env, CheckpointRow}
use janus_secrets.Audit.Recorder.{Event, CheckpointInfo, VerifyResult}

abbrev pub toy_hash : Bytes → Bytes
toy_hash x = length x ∷ zeros 31

abbrev pub toy_mac : Bytes → Bytes → Bytes
toy_mac key x = key

abbrev pub key : Bytes
key = 7 ∷ []

abbrev pub env : Env
env = record { wired = true; mac_key = ok key; fails = λ c. false; now = 5000 }

abbrev pub login_event : Event
login_event = record {
  actor_kind = codes "user";
  actor_id = codes "u1";
  actor_name = codes "alice";
  action = codes "auth.login";
  resource = codes "auth";
  detail = [];
  result = codes "success";
  result_code = [];
  ip = codes "::1";
  project_id = none;
}

abbrev pub first : AuditRow
first = record {
  seq = 1;
  occurred_at = 5000;
  actor_kind = codes "user";
  actor_id = some (codes "u1");
  actor_name = codes "alice";
  action = codes "auth.login";
  resource = codes "auth";
  detail = none;
  result = codes "success";
  result_code = none;
  ip = codes "::1";
  prev_hash = zeros 32;
  hash = 128 ∷ zeros 31;
  project_id = none;
}

abbrev pub second : AuditRow
second = record first { seq = 2; prev_hash = first.hash }

abbrev pub empty : Log
empty = record { events = []; checkpoints = [] }

abbrev pub one_event : Log
one_event = record { events = first ∷ []; checkpoints = [] }

abbrev pub two_events : Log
two_events = record { events = first ∷ second ∷ []; checkpoints = [] }

abbrev pub anchor : CheckpointRow
anchor = record { through_seq = 2; through_hash = second.hash; event_count = 2; mac = key }

abbrev pub anchor_info : CheckpointInfo
anchor_info = record {
  through_seq = 2;
  through_hash = second.hash;
  event_count = 2;
  mac_valid = true;
}

abbrev pub anchored : Log
anchored = record two_events { checkpoints = anchor ∷ [] }

abbrev pub pruned : Log
pruned = record { events = second ∷ []; checkpoints = anchor ∷ [] }

abbrev pub report : ℕ → Bytes → VerifyResult
report n h = record {
  valid = true;
  count = n;
  head_seq = n;
  head_hash = h;
  broken = none;
  checkpoint = none;
  from_checkpoint = false;
}

-- Everything up to the checkpoint is deleted.
abbrev pub emptied : Log
emptied = record { events = []; checkpoints = anchor ∷ [] }

abbrev pub restarted : Log
restarted = record { events = first ∷ []; checkpoints = anchor ∷ [] }
