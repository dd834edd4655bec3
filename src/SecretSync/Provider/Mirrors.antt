-- ===== src/SecretSync/Provider/Mirrors.antt =====
-- What the destination holds after an `Apply` that succeeds.
use janus_secrets.Common.{
  ◌≡◌, refl, ap, ◌∙◌, Bool, true, false, ◌&&◌, not, Option, none, List, [], any, any_ext,
  if◌then◌else◌, Bytes, bytes_eq, Values, lookup, arith,
}
use janus_secrets.SecretSync.Provider.{
  Network, Progress, member, stored_name, put_all, apply_github, valid_name,
}
use janus_secrets.SecretSync.Provider.Untouched.{wanted, wanted_name, member_name}
use janus_secrets.SecretSync.Provider.Puts.{
  DistinctNames, lookup_name, mirrored, put_all-mirrored, put_all-applied, put_all-unapplied,
}
use janus_secrets.SecretSync.Provider.Prunes.{
  stale, delete_all-going, delete_all-applied, delete_all-lookup,
}

-- How `Apply` begins: with the public key of the destination, or not at all.
abbrev starting : Network → Values → Progress
starting net destination = record {
  going = net.public_key;
  applied = [];
  destination = destination;
}

-- A name of no desired key is not that of a key that `Apply` reports.
pub apply_github-unapplied :
    (net : Network) (desired : Values) (managed : List Bytes) (prune : Bool) (destination : Values)
    (k : Bytes)
    → wanted_name k desired ≡ false
    → member_name k (apply_github net desired managed prune destination).applied ≡ false
unfolding apply_github
apply_github-unapplied net desired managed false destination k u =
    put_all-unapplied net k desired (starting net destination) u refl
apply_github-unapplied net desired managed true destination k u =
    let sent = put_all net desired (starting net destination) in
    ap (member_name k) (delete_all-applied net managed sent)
    ∙ put_all-unapplied net k desired (starting net destination) u refl

-- A name is that of a managed key that is valid and no longer desired.
abbrev pub dropped : Bytes → Values → List Bytes → Bool
dropped k desired managed =
    any (λ x. bytes_eq k (stored_name x) && (not (wanted x desired) && valid_name x)) managed

-- What a destination should hold for a name.
abbrev pub should_hold : Values → List Bytes → Bool → Values → Bytes → Option Bytes
should_hold desired managed prune destination k =
    if prune && dropped k desired managed
    then none
    else mirrored (lookup_name k desired) (lookup k destination)

stale-dropped :
    (k : Bytes) (applied : List Bytes) (desired : Values) (managed : List Bytes)
    → ((x : Bytes) → member x applied ≡ (wanted x desired && valid_name x))
    → stale k applied managed ≡ dropped k desired managed
stale-dropped k applied desired managed h =
    any_ext (λ x. bytes_eq k (stored_name x) && (not (member x applied) && valid_name x))
      (λ x. bytes_eq k (stored_name x) && (not (wanted x desired) && valid_name x)) managed
      (λ x. ground (arith, h x))

-- A successful `Apply` mirrors what is desired, up to the case of names: at the destination, a name
-- is gone if the target prunes and a managed key of this name with a valid spelling is not desired
-- in this spelling; otherwise, a name that a desired key with a valid name stands for has the
-- desired value; every other name has the value that it had. The desired keys have to stand for
-- different names. The keys reported as applied are the desired ones with a valid name.
pub apply_github-mirrors :
    (net : Network) (desired : Values) (managed : List Bytes) (prune : Bool) (destination : Values)
    (k : Bytes)
    → DistinctNames desired
    → (apply_github net desired managed prune destination).going ≡ true
    → let after = apply_github net desired managed prune destination in
      (lookup k after.destination ≡ should_hold desired managed prune destination k)
      × (member k after.applied ≡ (wanted k desired && valid_name k))
unfolding apply_github
apply_github-mirrors net desired managed false destination k d g =
    let start = starting net destination in
    (put_all-mirrored net desired start k d g, put_all-applied net desired start k g)
apply_github-mirrors net desired managed true destination k d g =
    let start = starting net destination in
    let sent = put_all net desired start in
    let went = delete_all-going net managed sent g in
    let applied = λ (x : Bytes). put_all-applied net desired start x went in
    (
      rw
          (
            delete_all-lookup net managed sent k g,
            stale-dropped k sent.applied desired managed applied,
            put_all-mirrored net desired start k d went,
          )
          refl,
      ap (member k) (delete_all-applied net managed sent) ∙ applied k,
    )
