-- ===== src/SecretSync/Provider.antt =====
-- `Apply` of the GitHub provider (internal/secretsync/github_provider.go): what it puts and deletes
-- at the destination. A call over the network is answered, or its answer is lost after it took
-- effect, or it is refused. The sealed box of a value stands for the value. Go visits a map in some
-- order: the order of `desired` here. GitHub stores the name of a secret in upper case, whatever the
-- spelling that a call gives, so the keys of the destination are names in upper case.
pub mod Puts
pub mod Prunes
pub mod Mirrors
pub mod Untouched
use janus_secrets.Common.{
  ℕ, ◌≤◌, Bool, true, false, ◌&&◌, ◌||◌, not, List, [], ◌∷◌, ◌++◌, any, map, length, leb, ltb, ◌-◌,
  ◌==◌, if◌then◌else◌, Bytes, bytes_eq, codes, Values, lookup, delete, put,
}

abbrev letter : ℕ → Bool
letter c = (leb 97 c && leb c 122) || (leb 65 c && leb c 90) || c == 95

abbrev digit : ℕ → Bool
digit c = leb 48 c && leb c 57

-- `ghSecretNameRe`
abbrev matches_name : Bytes → Bool
matches_name [] = false
matches_name (c ∷ cs) = letter c && not (any (λ x. not (letter x || digit x)) cs)

abbrev upper : ℕ → ℕ
upper c = if leb 97 c && leb c 122 then c - 32 else c

-- The name of the secret at GitHub that a key stands for.
abbrev pub stored_name : Bytes → Bytes
stored_name k = map upper k

-- `hasPrefixFold`
unfoldable pub has_prefix_fold : Bytes → Bytes → Bool
has_prefix_fold s [] = true
has_prefix_fold [] (b ∷ p) = false
has_prefix_fold (a ∷ s) (b ∷ p) = upper a == upper b && has_prefix_fold s p

-- `validGitHubSecretName`
unfoldable pub valid_name : Bytes → Bool
valid_name k = matches_name k && leb (length k) 100 && not (has_prefix_fold k (codes "GITHUB_"))

pub data Answer : Type 0 where
  answered lost refused : Answer

-- How the calls of one `Apply` end, by the key that they are about.
pub record Network : Type 0 where
  pub public_key : Bool
  pub put_secret : Bytes → Answer
  pub delete_secret : Bytes → Answer

-- How far an `Apply` is: whether no call has failed yet, the keys it has put, and the destination.
pub record Progress : Type 0 where
  pub going : Bool
  pub applied : List Bytes
  pub destination : Values

-- Whether a key is in a list of keys.
abbrev pub member : Bytes → List Bytes → Bool
member k ks = any (bytes_eq k) ks

abbrev pub put_answer : Answer → Bytes × Bytes → Progress → Progress
put_answer answered e p = record p {
  applied = p.applied ++ e.0 ∷ [];
  destination = put (stored_name e.0) e.1 p.destination;
}
put_answer lost e p = record p {
  going = false;
  destination = put (stored_name e.0) e.1 p.destination;
}
put_answer refused e p = record p { going = false }

-- A round of the loop over `desired`; nothing happens after a call that failed.
unfoldable pub put_key : Network → Bytes × Bytes → Progress → Progress
put_key net e p = if p.going && valid_name e.0 then put_answer (net.put_secret e.0) e p else p

unfoldable pub put_all : Network → Values → Progress → Progress
put_all net [] p = p
put_all net (e ∷ desired) p = put_all net desired (put_key net e p)

abbrev pub delete_answer : Answer → Bytes → Progress → Progress
delete_answer answered k p = record p { destination = delete (stored_name k) p.destination }
delete_answer lost k p = record p {
  going = false;
  destination = delete (stored_name k) p.destination;
}
delete_answer refused k p = record p { going = false }

-- A round of the loop over the managed keys.
unfoldable pub prune_key : Network → Bytes → Progress → Progress
prune_key net k p =
    if p.going && (not (member k p.applied) && valid_name k)
    then delete_answer (net.delete_secret k) k p
    else p

unfoldable pub delete_all : Network → List Bytes → Progress → Progress
delete_all net [] p = p
delete_all net (k ∷ managed) p = delete_all net managed (prune_key net k p)

-- `Apply`
unfoldable pub apply_github : Network → Values → List Bytes → Bool → Values → Progress
apply_github net desired managed prune destination =
    let start : Progress = record {
      going = net.public_key;
      applied = [];
      destination = destination;
    } in
    let sent = put_all net desired start in if prune then delete_all net managed sent else sent
