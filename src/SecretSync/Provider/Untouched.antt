-- ===== src/SecretSync/Provider/Untouched.antt =====
-- What `Apply` never touches, whatever fails.
use janus_secrets.Common.{
  ◌≡◌, refl, Bool, false, List, [], ◌∷◌, any, Bytes, bytes_eq, Values, lookup, lookup-delete_other,
  put, arith,
}
use janus_secrets.SecretSync.Provider.{
  Answer, answered, lost, refused, Network, Progress, stored_name, put_answer, put_key, put_all,
  delete_answer, prune_key, delete_all, apply_github,
}

pub lookup-put_other :
    (k x v : Bytes) (m : Values) → bytes_eq k x ≡ false → lookup k (put x v m) ≡ lookup k m
unfolding lookup put
lookup-put_other k x v m d = rw d (lookup-delete_other k x m d)

put_answer-other :
    (a : Answer) (k : Bytes) (e : Bytes × Bytes) (p : Progress)
    → bytes_eq k (stored_name e.0) ≡ false
    → lookup k (put_answer a e p).destination ≡ lookup k p.destination
put_answer-other answered k e p d = lookup-put_other k (stored_name e.0) e.1 p.destination d
put_answer-other lost k e p d = lookup-put_other k (stored_name e.0) e.1 p.destination d
put_answer-other refused k e p d = refl

pub put_key-other :
    (net : Network) (k : Bytes) (e : Bytes × Bytes) (p : Progress)
    → bytes_eq k (stored_name e.0) ≡ false
    → lookup k (put_key net e p).destination ≡ lookup k p.destination
unfolding put_key
put_key-other net k e p d = ground (arith, put_answer-other (net.put_secret e.0) k e p d)

-- A key is among the desired ones.
abbrev pub wanted : Bytes → Values → Bool
wanted k desired = any (λ e. bytes_eq k e.0) desired

-- A name at the destination is that of a desired key, or of a key of a list.
abbrev pub wanted_name : Bytes → Values → Bool
wanted_name k desired = any (λ e. bytes_eq k (stored_name e.0)) desired

abbrev pub member_name : Bytes → List Bytes → Bool
member_name k keys = any (λ x. bytes_eq k (stored_name x)) keys

pub put_all-other :
    (net : Network) (k : Bytes) (desired : Values) (p : Progress)
    → wanted_name k desired ≡ false
    → lookup k (put_all net desired p).destination ≡ lookup k p.destination
unfolding put_all
put_all-other net k [] p d = refl
put_all-other net k (e ∷ desired) p d =
    ground (arith, d, put_all-other net k desired (put_key net e p), put_key-other net k e p)

delete_answer-other :
    (a : Answer) (k x : Bytes) (p : Progress)
    → bytes_eq k (stored_name x) ≡ false
    → lookup k (delete_answer a x p).destination ≡ lookup k p.destination
delete_answer-other answered k x p d = lookup-delete_other k (stored_name x) p.destination d
delete_answer-other lost k x p d = lookup-delete_other k (stored_name x) p.destination d
delete_answer-other refused k x p d = refl

pub prune_key-other :
    (net : Network) (k x : Bytes) (p : Progress)
    → bytes_eq k (stored_name x) ≡ false
    → lookup k (prune_key net x p).destination ≡ lookup k p.destination
unfolding prune_key
prune_key-other net k x p d = ground (arith, delete_answer-other (net.delete_secret x) k x p d)

pub delete_all-other :
    (net : Network) (k : Bytes) (managed : List Bytes) (p : Progress)
    → member_name k managed ≡ false
    → lookup k (delete_all net managed p).destination ≡ lookup k p.destination
unfolding delete_all
delete_all-other net k [] p d = refl
delete_all-other net k (x ∷ managed) p d =
    ground (arith, d, delete_all-other net k managed (prune_key net x p), prune_key-other net k x p)

-- A name of no key that is desired or managed keeps its value at the destination, whatever fails.
pub apply_github-other :
    (net : Network) (desired : Values) (managed : List Bytes) (prune : Bool) (destination : Values)
    (k : Bytes)
    → wanted_name k desired ≡ false
    → member_name k managed ≡ false
    → lookup k (apply_github net desired managed prune destination).destination
      ≡ lookup k destination
unfolding apply_github
apply_github-other net desired managed prune destination k d m =
    let start : Progress = record {
      going = net.public_key;
      applied = [];
      destination = destination;
    } in
    ground (
      arith,
      put_all-other net k desired start d,
      delete_all-other net k managed (put_all net desired start) m,
    )
