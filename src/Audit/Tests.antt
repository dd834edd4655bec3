-- ===== src/Audit/Tests.antt =====
-- Runs of the recorder on small logs with a toy hash and a toy MAC, and uses of its theorems.
use janus_secrets.Audit.Chain.{walk_chain, from_genesis, check_row, advance}
use janus_secrets.Common.{bytes_eq, ◌≡◌, ◌↔◌, refl, ◌⊎◌, inr, true, none, some, [], ◌∷◌, arith, ok}
use janus_secrets.Audit.Bytes.{write_int64, write_str, write_nullable, big_endian}
use janus_secrets.Audit.Encoding.{
  compute_checkpoint_mac, compute_hash, domain_tag, event_bytes, genesis_prev_hash,
}
use janus_secrets.Audit.Encoding.Injective.{IsInRange, SameEvent, event_bytes_inj}
use janus_secrets.Audit.Chain.Linked.{Linked}
use janus_secrets.Audit.Chain.Tamper.{Collision, SameEvents}
use janus_secrets.Audit.Log.{
  head_of, insert_checkpoint, prune_through, rows_from, latest_of, last_row,
}
use janus_secrets.Audit.Recorder.{
  run_walk, result_of, sign_anchor, verify_before_anchor, info_of, mac_valid, next_row,
  record_event, verify, latest_verified, create_checkpoint,
}
use janus_secrets.Audit.Pruning.{prune_point, boundary_linked, check_anchor_boundary, prune}
use janus_secrets.Audit.Recorder.Verifies.{verify_iff_Linked}
use janus_secrets.Audit.Recorder.Records.{verify-tamper_evident}
use janus_secrets.Audit.Pruning.Prunes.{prune-verify}
use janus_secrets.Audit.Recorder.Attests.{Attests}
use janus_secrets.Audit.Recorder.Restarts.{record_event-unseen}
use janus_secrets.Audit.Recorder.Anchors.{create_checkpoint-Attests}
use janus_secrets.Audit.Samples.{
  toy_hash, toy_mac, env, login_event, first, second, empty, one_event, two_events, anchor,
  anchor_info, anchored, pruned, report, emptied, restarted,
}

first_is_recorded : record_event toy_hash toy_mac env login_event empty ≡ ok one_event
unfolding record_event next_row last_row compute_hash event_bytes domain_tag genesis_prev_hash
    write_int64 write_str write_nullable big_endian
first_is_recorded = refl

second_is_recorded : record_event toy_hash toy_mac env login_event one_event ≡ ok two_events
unfolding record_event next_row last_row compute_hash event_bytes domain_tag genesis_prev_hash
    write_int64 write_str write_nullable big_endian
second_is_recorded = refl

two_events_are_valid : verify toy_hash toy_mac env two_events ≡ ok (report 2 second.hash)
unfolding verify latest_verified latest_of run_walk result_of walk_chain rows_from from_genesis
    check_row advance bytes_eq genesis_prev_hash compute_hash event_bytes domain_tag write_int64
    big_endian write_str write_nullable
two_events_are_valid = refl

anchor_is_created : create_checkpoint toy_hash toy_mac env two_events ≡ ok (anchor_info, anchored)
unfolding create_checkpoint sign_anchor head_of last_row verify_before_anchor insert_checkpoint
    info_of compute_checkpoint_mac latest_verified latest_of run_walk result_of walk_chain rows_from
    from_genesis check_row advance bytes_eq genesis_prev_hash compute_hash event_bytes domain_tag
    write_int64 big_endian write_str write_nullable
anchor_is_created = refl

prune_is_clamped :
    prune toy_hash toy_mac env (some 1) anchored
    ≡ ok (record { pruned_through = 1; deleted = 1 }, pruned)
unfolding prune latest_verified latest_of mac_valid bytes_eq compute_checkpoint_mac
    check_anchor_boundary boundary_linked rows_from prune_point prune_through
prune_is_clamped = refl

first-IsInRange : IsInRange first
first-IsInRange = record {
  seq_word = omega arith;
  time_word = omega arith;
  actor_kind_short = omega arith;
  actor_id_short = omega arith;
  actor_name_short = omega arith;
  action_short = omega arith;
  resource_short = omega arith;
  detail_short = tt;
  result_short = omega arith;
  code_short = tt;
  ip_short = omega arith;
}

second-IsInRange : IsInRange second
second-IsInRange = record {
  seq_word = omega arith;
  time_word = omega arith;
  actor_kind_short = omega arith;
  actor_id_short = omega arith;
  actor_name_short = omega arith;
  action_short = omega arith;
  resource_short = omega arith;
  detail_short = tt;
  result_short = omega arith;
  code_short = tt;
  ip_short = omega arith;
}

event_bytes_inj_example : (genesis_prev_hash ≡ genesis_prev_hash) × SameEvent first first
event_bytes_inj_example =
    event_bytes_inj genesis_prev_hash genesis_prev_hash first first refl first-IsInRange
      first-IsInRange refl

verify_iff_Linked_example :
    ((report 2 second.hash).valid ≡ true)
    ↔ Linked toy_hash genesis_prev_hash 1 (first ∷ second ∷ [])
verify_iff_Linked_example =
    verify_iff_Linked toy_hash toy_mac env two_events (report 2 second.hash) (refl, refl) (inr refl)
      two_events_are_valid

one_event_is_valid : verify toy_hash toy_mac env one_event ≡ ok (report 1 first.hash)
unfolding verify latest_verified latest_of run_walk result_of walk_chain rows_from from_genesis
    check_row advance bytes_eq genesis_prev_hash compute_hash event_bytes domain_tag write_int64
    big_endian write_str write_nullable
one_event_is_valid = refl

verify-tamper_evident_example :
    Collision toy_hash ⊎ SameEvents (first ∷ second ∷ []) (first ∷ second ∷ [])
verify-tamper_evident_example =
    verify-tamper_evident toy_hash toy_mac (λ x. refl) env two_events two_events
      (report 2 second.hash) (report 2 second.hash) (refl, refl) (inr refl) (inr refl)
      (first-IsInRange, (second-IsInRange, tt)) (first-IsInRange, (second-IsInRange, tt))
      two_events_are_valid two_events_are_valid refl refl refl refl

prune-verify_example : verify toy_hash toy_mac env pruned ≡ verify toy_hash toy_mac env anchored
prune-verify_example =
    prune-verify toy_hash toy_mac env (some 1) anchored pruned
      (record { pruned_through = 1; deleted = 1 }) prune_is_clamped

create_checkpoint-Attests_example :
    Attests toy_hash toy_mac (verify toy_hash toy_mac env two_events) 2 second.hash 2
create_checkpoint-Attests_example =
    create_checkpoint-Attests toy_hash toy_mac env two_events anchored anchor_info
      (omega arith, (omega arith, tt)) anchor_is_created

all_is_pruned :
    prune toy_hash toy_mac env none anchored
    ≡ ok (record { pruned_through = 2; deleted = 2 }, emptied)
unfolding prune latest_verified latest_of mac_valid bytes_eq compute_checkpoint_mac
    check_anchor_boundary boundary_linked rows_from prune_point prune_through
all_is_pruned = refl

restarted_is_recorded : record_event toy_hash toy_mac env login_event emptied ≡ ok restarted
unfolding record_event next_row last_row compute_hash event_bytes domain_tag genesis_prev_hash
    write_int64 write_str write_nullable big_endian
restarted_is_recorded = refl

record_event-unseen_example :
    verify toy_hash toy_mac env restarted ≡ verify toy_hash toy_mac env emptied
unfolding latest_verified latest_of mac_valid bytes_eq compute_checkpoint_mac
record_event-unseen_example =
    record_event-unseen toy_hash toy_mac env login_event emptied restarted anchor refl refl
      (omega arith) refl restarted_is_recorded
