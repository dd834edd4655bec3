-- ===== src/SecretSync/Provider/Prunes.antt =====
-- What the loop that prunes leaves at the destination.
use janus_secrets.Common.{
  ◌≡◌, refl, ap, ◌∙◌, inl, inr, any, Bool, true, ◌&&◌, not, none, List, [], ◌∷◌, if◌then◌else◌,
  Bytes, bytes_eq, bytes_eq-eq, lookup, lookup-delete, arith, Bool-cases,
}
use janus_secrets.SecretSync.Provider.{
  Answer, answered, lost, refused, Network, Progress, member, stored_name, delete_answer, prune_key,
  delete_all, valid_name,
}
use janus_secrets.SecretSync.Provider.Untouched.{prune_key-other}

prune_key-going :
    (net : Network) (x : Bytes) (p : Progress) → (prune_key net x p).going ≡ true → p.going ≡ true
unfolding prune_key
prune_key-going net x p g = ground (arith, g)

pub delete_all-going :
    (net : Network) (managed : List Bytes) (p : Progress)
    → (delete_all net managed p).going ≡ true
    → p.going ≡ true
unfolding delete_all
delete_all-going net [] p g = g
delete_all-going net (x ∷ managed) p g =
    prune_key-going net x p (delete_all-going net managed (prune_key net x p) g)

prune_key-applied :
    (net : Network) (x : Bytes) (p : Progress) → (prune_key net x p).applied ≡ p.applied
unfolding prune_key
prune_key-applied net x p = ground arith

pub delete_all-applied :
    (net : Network) (managed : List Bytes) (p : Progress)
    → (delete_all net managed p).applied ≡ p.applied
unfolding delete_all
delete_all-applied net [] p = refl
delete_all-applied net (x ∷ managed) p =
    delete_all-applied net managed (prune_key net x p) ∙ prune_key-applied net x p

delete_answer-lookup :
    (a : Answer) (x : Bytes) (p : Progress)
    → (delete_answer a x p).going ≡ true
    → lookup (stored_name x) (delete_answer a x p).destination ≡ none
delete_answer-lookup answered x p g = lookup-delete (stored_name x) p.destination
delete_answer-lookup lost x p g = cc
delete_answer-lookup refused x p g = cc

prune_key-lookup :
    (net : Network) (x : Bytes) (p : Progress)
    → (prune_key net x p).going ≡ true
    → lookup (stored_name x) (prune_key net x p).destination ≡ (
        if not (member x p.applied) && valid_name x
        then none
        else lookup (stored_name x) p.destination)
unfolding prune_key
prune_key-lookup net x p g =
    ground (arith, g, prune_key-going net x p, delete_answer-lookup (net.delete_secret x) x p)

-- A name is that of a managed key that is valid and was not applied.
abbrev pub stale : Bytes → List Bytes → List Bytes → Bool
stale k applied managed =
    any (λ x. bytes_eq k (stored_name x) && (not (member x applied) && valid_name x)) managed

pub delete_all-lookup :
    (net : Network) (managed : List Bytes) (p : Progress) (k : Bytes)
    → (delete_all net managed p).going ≡ true
    → lookup k (delete_all net managed p).destination
      ≡ (if stale k p.applied managed then none else lookup k p.destination)
unfolding delete_all
delete_all-lookup net [] p k g = refl
delete_all-lookup net (x ∷ managed) p k g =
    let later = delete_all-lookup net managed (prune_key net x p) k g in
    let same = ap (λ ks. stale k ks managed) (prune_key-applied net x p) in
    elim (Bool-cases (bytes_eq k (stored_name x))) [
      | inl u ↦
          let now = prune_key-lookup net x p (delete_all-going net managed (prune_key net x p) g) in
          let here : lookup k (prune_key net x p).destination ≡ (
              if not (member x p.applied) && valid_name x then none else lookup k p.destination) =
            rw (bytes_eq-eq k (stored_name x) u) now in
          ground (arith, u, here, later, same)
      | inr u ↦ ground (arith, u, prune_key-other net k x p u, later, same)
    ]
