-- ===== src/Promote/Diff.antt =====
-- The diff that a preview shows (`Preview`, `PreviewCreate` in internal/promote/service.go).
pub mod Complete
use janus_secrets.Common.{
  ℕ, Bool, true, false, ◌||◌, not, Option, none, some, List, [], ◌∷◌, ◌++◌, any, if◌then◌else◌,
  Bytes, bytes_eq, Values, lookup, Result, ok, err, ◌>>=◌, ◌>>◌, reject_if,
}
use janus_secrets.Promote.State.{
  Error, illegal_step, not_found, Config, Services, project_and_env, validate_step, reveal,
  find_config,
}

pub data Status : Type 0 where
  add change remove same : Status

pub record DiffEntry : Type 0 where
  pub key : Bytes
  pub status : Status
  pub source_value : Bytes
  pub target_value : Bytes
  pub is_locked : Bool

pub record Diff : Type 0 where
  pub source_version : ℕ
  pub target_exists : Bool
  pub entries : List DiffEntry

-- The `switch` of the closure `add`. A key that is in neither map reads as two empty values.
unfoldable pub entry_of : Bytes → Bool → Option Bytes → Option Bytes → DiffEntry
entry_of k l (some s) none = record {
  key = k;
  status = Status.add;
  source_value = s;
  target_value = [];
  is_locked = l;
}
entry_of k l none (some d) = record {
  key = k;
  status = Status.remove;
  source_value = [];
  target_value = d;
  is_locked = l;
}
entry_of k l none none = record {
  key = k;
  status = Status.same;
  source_value = [];
  target_value = [];
  is_locked = l;
}
entry_of k l (some s) (some d) =
    if bytes_eq s d
    then record { key = k; status = Status.same; source_value = s; target_value = d; is_locked = l }
    else record {
      key = k;
      status = Status.change;
      source_value = s;
      target_value = d;
      is_locked = l;
    }

-- The keys that are visited: those of the maps, each at its first occurrence.
unfoldable pub fresh_keys : List Bytes → Values → List Bytes
fresh_keys seen [] = []
fresh_keys seen (e ∷ m) =
    let skip = fresh_keys seen m in
    let visit = e.0 ∷ fresh_keys (e.0 ∷ seen) m in if any (bytes_eq e.0) seen then skip else visit

unfoldable pub entries_of : Values → Values → List Bytes → List Bytes → List DiffEntry
entries_of src dst locked [] = []
entries_of src dst locked (k ∷ ks) =
    entry_of k (any (bytes_eq k) locked) (lookup k src) (lookup k dst)
    ∷ entries_of src dst locked ks

-- Both loops with the closure `add`.
unfoldable pub diff_entries : Values → Values → List Bytes → List DiffEntry
diff_entries src dst locked = entries_of src dst locked (fresh_keys [] (src ++ dst))

-- A target that has no version yet is empty.
abbrev target_values : Result Error (ℕ × Values) → Result Error Values
target_values (ok r) = ok r.1
target_values (err not_found) = ok []
target_values (err e) = err e

-- `Preview`
unfoldable pub preview : Services → List Config → Bytes → Bytes → Result Error Diff
preview sv cs source target = do
  from ← project_and_env sv source cs
  to ← project_and_env sv target cs
  validate_step sv from.0 from.1 to.1
  src ← reveal source cs
  dst ← target_values (reveal target cs)
  ok (record {
    source_version = src.0;
    target_exists = true;
    entries = diff_entries src.1 dst (sv.locked target);
  })

add_entries : Values → List DiffEntry
add_entries [] = []
add_entries (e ∷ m) = entry_of e.0 false (some e.1) none ∷ add_entries m

-- `PreviewCreate`
unfoldable pub preview_create : Services → List Config → Bytes → Bytes → Result Error Diff
unfolding add_entries
preview_create sv cs source to_env = do
  from ← project_and_env sv source cs
  project ← sv.project_of to_env
  reject_if (not (bytes_eq project from.0)) illegal_step
  validate_step sv from.0 from.1 to_env
  src ← reveal source cs
  ok (record { source_version = src.0; target_exists = false; entries = add_entries src.1 })
