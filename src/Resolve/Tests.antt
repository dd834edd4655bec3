-- ===== src/Resolve/Tests.antt =====
-- Runs of the resolver on a store of three configs, and uses of its theorems.
use janus_secrets.Common.{
  Values, lookup, bytes_eq-eq, ◌≡◌, ◌≢◌, refl, inl, inr, true, false, none, some, [], ◌∷◌, ◌++◌,
  Bytes, codes, bytes_eq, arith, Result, ok, err, if◌then◌else◌,
}
use janus_secrets.Resolve.Parse.{
  valid_segment_token, split_dots, scan, Ref, absolute, reference, parse_segments, out_of_fuel,
  forbidden_reference,
}
use janus_secrets.Resolve.Parse.Print.{body_of, print_ref, parse_segments-print_ref}
use janus_secrets.Resolve.Inherit.{merge_chain, RawConfig, Reader, resolve_merged}
use janus_secrets.Resolve.Inherit.Ends.{IsFinite}
use janus_secrets.Resolve.Expand.{
  follow, record_prov, enter, resolve_ref, expand_value, resolve_key_from, visible, resolve_all,
  resolve_values, Resolver, provenance_of, resolve, resolve_key,
}
use janus_secrets.Resolve.Expand.Ends.{resolve-Ends}
use janus_secrets.Resolve.Expand.Permitted.{ReadBy, resolve-ReadBy}
use janus_secrets.Resolve.Expand.Cycles.{IsClosed}

abbrev db_url : Ref
db_url =
    absolute (record { project = codes "db"; env = codes "prod"; config = codes "main" })
      (codes "URL")

-- The values of a base, and a config that overrides one of them and refers to another project.
abbrev base : RawConfig
base = record {
  project_id = codes "p1";
  env_id = codes "e1";
  config_id = codes "c1";
  project = codes "app";
  env = codes "prod";
  config = codes "base";
  inherits_from = none;
  own_values = (codes "A", codes "1") ∷ (codes "B", codes "cost$$") ∷ [];
}

abbrev child : RawConfig
child = record base {
  config_id = codes "c2";
  config = codes "child";
  inherits_from = some (codes "c1");
  own_values =
      (codes "A", codes "${projects.db.prod.main.URL}")
      ∷ (codes "X", codes "${Y}")
      ∷ (codes "Y", codes "${X}")
      ∷ [];
}

abbrev database : RawConfig
database = record base {
  project_id = codes "p2";
  config_id = codes "c3";
  project = codes "db";
  config = codes "main";
  own_values = (codes "URL", codes "pg") ∷ [];
}

-- A config that reads the database and nothing else.
abbrev api : RawConfig
api = record base {
  config_id = codes "c4";
  config = codes "api";
  own_values = (codes "A", codes "${projects.db.prod.main.URL}") ∷ [];
}

abbrev by_id : Bytes → Result Bytes RawConfig
by_id id =
    if bytes_eq id (codes "c1")
    then ok base
    else if bytes_eq id (codes "c2")
    then ok child
    else if bytes_eq id (codes "c3")
    then ok database
    else if bytes_eq id (codes "c4")
    then ok api
    else err []

abbrev reader : Reader
reader = record {
  read_raw = λ coord. if bytes_eq coord.project (codes "db") then ok database else err [];
  read_raw_by_id = by_id;
  known = codes "c1" ∷ codes "c2" ∷ codes "c3" ∷ codes "c4" ∷ [];
}

abbrev resolver : Resolver
resolver = record { reader = reader; authz = some (λ target. true) }

abbrev denied : Resolver
denied = record { reader = reader; authz = some (λ target. false) }

abbrev child_values : Values
child_values = child.own_values ++ base.own_values

child_is_merged : resolve_merged reader (codes "c2") ≡ ok (child_values, child)
unfolding resolve_merged bytes_eq merge_chain
child_is_merged = refl

api_is_resolved :
    resolve resolver (codes "c4") ≡ ok ((codes "A", codes "pg") ∷ [], provenance_of database ∷ [])
unfolding resolve resolve_merged bytes_eq resolve_values resolve_all visible merge_chain
    resolve_key_from expand_value lookup parse_segments scan split_dots valid_segment_token
    resolve_ref enter follow record_prov provenance_of
api_is_resolved = refl

api_is_forbidden : resolve denied (codes "c4") ≡ err forbidden_reference
unfolding resolve resolve_merged bytes_eq resolve_values resolve_all visible merge_chain
    resolve_key_from expand_value lookup parse_segments scan split_dots valid_segment_token
    resolve_ref enter
api_is_forbidden = refl

parse_segments-print_ref_example : parse_segments (print_ref db_url) ≡ ok (reference db_url ∷ [])
unfolding valid_segment_token
parse_segments-print_ref_example = parse_segments-print_ref db_url (refl, refl, refl, refl)

reader-IsFinite : IsFinite reader
reader-IsFinite id rc h = ground (
  arith,
  bytes_eq-eq id (codes "c1"),
  bytes_eq-eq id (codes "c2"),
  bytes_eq-eq id (codes "c3"),
  bytes_eq-eq id (codes "c4"),
)

resolve-Ends_example :
    (resolve resolver (codes "c2") ≢ err out_of_fuel)
    × (resolve_key resolver (codes "c2") (codes "X") ≢ err out_of_fuel)
resolve-Ends_example = resolve-Ends resolver (codes "c2") (codes "X") reader-IsFinite

resolve-ReadBy_example : ReadBy resolver (provenance_of database)
resolve-ReadBy_example =
    resolve-ReadBy resolver (codes "c4") ((codes "A", codes "pg") ∷ [])
      (provenance_of database ∷ []) (provenance_of database) api_is_resolved (inl refl)

child-IsClosed : IsClosed (codes "X" ∷ codes "Y" ∷ []) child_values
unfolding valid_segment_token lookup bytes_eq print_ref body_of
child-IsClosed k (inl e) = rw e (codes "Y", inr (inl refl), refl, refl)
child-IsClosed k (inr (inl e)) = rw e (codes "X", inl refl, refl, refl)
child-IsClosed k (inr (inr m)) = absurd m
