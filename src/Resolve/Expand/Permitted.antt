-- ===== src/Resolve/Expand/Permitted.antt =====
-- Every config that a resolution reads by a reference is one that the caller may read.
use janus_secrets.Common.{
  Values, lookup, ℕ, zero, suc, ◌≡◌, refl, inl, inr, Bool, Bool-cases, true, not, any, keep, List,
  [], ◌∷◌, ◌++◌, Bytes, bytes_eq, Result, ok, ◌>>=◌, reject_if-eq_ok, >>=-eq-ok, arith, In, length,
  leb, not-eq_false,
}
use janus_secrets.Resolve.Parse.{
  Error, Segment, Ref, literal, reference, local, absolute, Coord, parse_segments, reference_depth,
  reference_cycle, forbidden_reference, unresolved_reference,
}
use janus_secrets.Resolve.Inherit.{RawConfig, Reader, resolve_merged}
use janus_secrets.Resolve.Expand.{
  Resolver, KeyStep, Frame, frame_of, frame_eq, Provenance, permitted, provenance_of, record_prov,
  read_target, value_of, found, visible, follow, enter, resolve_ref, splice, expand, expand_value,
  max_depth, resolve_key_from, resolve_all, resolve_values, resolve,
}

-- A provenance of a config that a reference named and that the caller may read.
abbrev pub ReadBy : Resolver → Provenance → Type 0
ReadBy rv p =
    (coord : Coord) × (target : RawConfig) × (merged : Values) × (self : RawConfig)
    × (rv.reader.read_raw coord ≡ ok target)
    × (permitted rv.authz target ≡ true)
    × (resolve_merged rv.reader target.config_id ≡ ok (merged, self))
    × (p ≡ provenance_of self)

abbrev AllRead : Resolver → List Provenance → Type 0
AllRead rv [] = Unit
AllRead rv (p ∷ prov) = ReadBy rv p × AllRead rv prov

AllRead-keep :
    (rv : Resolver) (q : Provenance → Bool) (prov : List Provenance)
    → AllRead rv prov
    → AllRead rv (keep q prov)
AllRead-keep rv q [] h = tt
AllRead-keep rv q (p ∷ prov) h = elim (Bool-cases (q p)) [
  | inl t ↦ rw t (h.0, AllRead-keep rv q prov h.1)
  | inr f ↦ rw f (AllRead-keep rv q prov h.1)
]

AllRead-In :
    (rv : Resolver) (prov : List Provenance) (p : Provenance)
    → AllRead rv prov
    → In p prov
    → ReadBy rv p
AllRead-In rv [] p h m = absurd m
AllRead-In rv (q ∷ prov) p h (inl same) = rw same h.0
AllRead-In rv (q ∷ prov) p h (inr m) = AllRead-In rv prov p h.1 m

-- If it succeeds, it returns only such provenance.
abbrev Reads : Resolver → Result Error (Bytes × List Provenance) → Type 0
Reads rv m = (r : Bytes × List Provenance) → m ≡ ok r → AllRead rv r.1

abbrev StepReads : Resolver → KeyStep → Type 0
StepReads rv step =
    (cfg : RawConfig) (merged : Values) (key : Bytes) (stack : List Frame) (prov : List Provenance)
    → AllRead rv prov
    → Reads rv (step cfg merged key stack prov)

read_target-eq_ok :
    (reader : Reader) (coord : Coord) (target : RawConfig)
    → read_target reader coord ≡ ok target
    → reader.read_raw coord ≡ ok target
read_target-eq_ok reader coord target h = ground arith

enter-Reads :
    (rv : Resolver) (step : KeyStep) (key : Bytes) (stack : List Frame) (prov : List Provenance)
    (coord : Coord) (target : RawConfig)
    → StepReads rv step
    → AllRead rv prov
    → rv.reader.read_raw coord ≡ ok target
    → Reads rv (enter rv step key stack prov target)
unfolding enter follow record_prov
enter-Reads rv step key stack prov coord target s a read r h =
    let (allowed, rest) =
      reject_if-eq_ok (not (permitted rv.authz target)) forbidden_reference _ h in
    let (inherited, merged, go) =
      >>=-eq-ok (resolve_merged rv.reader target.config_id) (follow step key stack prov) rest in
    let (_, last) =
      reject_if-eq_ok (not (found (lookup key inherited.0))) unresolved_reference _ go in
    let p = provenance_of inherited.1 in
    let here : ReadBy rv p =
      (coord, target, inherited.0, inherited.1, read, not-eq_false _ allowed, merged, refl) in
    s inherited.1 inherited.0 key stack (record_prov p prov)
      (here, AllRead-keep rv (λ q. not (bytes_eq q.config_id p.config_id)) prov a) r last

resolve_ref-Reads :
    (rv : Resolver) (step : KeyStep) (cfg : RawConfig) (merged : Values) (rf : Ref)
    (stack : List Frame) (prov : List Provenance)
    → StepReads rv step
    → AllRead rv prov
    → Reads rv (resolve_ref rv step cfg merged rf stack prov)
unfolding resolve_ref
resolve_ref-Reads rv step cfg merged (local key) stack prov s a r h =
    s cfg merged key stack prov a r h
resolve_ref-Reads rv step cfg merged (absolute coord key) stack prov s a r h =
    let (target, read, go) =
      >>=-eq-ok (read_target rv.reader coord) (enter rv step key stack prov) h in
    enter-Reads rv step key stack prov coord target s a
      (read_target-eq_ok rv.reader coord target read) r go

splice-Reads :
    (rv : Resolver) (step : KeyStep) (cfg : RawConfig) (merged : Values) (stack : List Frame)
    (segs : List Segment) (buf : Bytes) (prov : List Provenance)
    → StepReads rv step
    → AllRead rv prov
    → Reads rv (splice rv step cfg merged stack segs buf prov)
unfolding splice
splice-Reads rv step cfg merged stack [] buf prov s a r h = ground arith
splice-Reads rv step cfg merged stack (literal t ∷ segs) buf prov s a r h =
    splice-Reads rv step cfg merged stack segs (buf ++ t) prov s a r h
splice-Reads rv step cfg merged stack (reference rf ∷ segs) buf prov s a r h =
    let (q, first, rest) =
      >>=-eq-ok (resolve_ref rv step cfg merged rf stack prov)
        (λ r. splice rv step cfg merged stack segs (buf ++ r.0) r.1) h in
    splice-Reads rv step cfg merged stack segs (buf ++ q.0) q.1 s
      (resolve_ref-Reads rv step cfg merged rf stack prov s a q first) r rest

expand-Reads :
    (rv : Resolver) (step : KeyStep) (cfg : RawConfig) (merged : Values) (stack : List Frame)
    (segs : List Segment) (prov : List Provenance)
    → StepReads rv step
    → AllRead rv prov
    → Reads rv (expand rv step cfg merged stack segs prov)
expand-Reads rv step cfg merged stack [] prov s a =
    splice-Reads rv step cfg merged stack [] [] prov s a
expand-Reads rv step cfg merged stack (literal t ∷ segs) prov s a =
    splice-Reads rv step cfg merged stack (literal t ∷ segs) [] prov s a
expand-Reads rv step cfg merged stack (reference rf ∷ []) prov s a =
    resolve_ref-Reads rv step cfg merged rf stack prov s a
expand-Reads rv step cfg merged stack (reference rf ∷ seg ∷ segs) prov s a =
    splice-Reads rv step cfg merged stack (reference rf ∷ seg ∷ segs) [] prov s a

resolve_key_from-Reads : (n : ℕ) (rv : Resolver) → StepReads rv (resolve_key_from n rv)
unfolding resolve_key_from expand_value
resolve_key_from-Reads zero rv cfg merged key stack prov a r h = cc
resolve_key_from-Reads (suc n) rv cfg merged key stack prov a r h =
    let step = resolve_key_from n rv in
    let (_, rest) = reject_if-eq_ok (leb max_depth (length stack)) reference_depth _ h in
    let (_, go) =
      reject_if-eq_ok (any (λ s. frame_eq s (frame_of cfg key)) stack) reference_cycle _ rest in
    let expand_segs =
      λ (segs : List Segment). expand rv step cfg merged (frame_of cfg key ∷ stack) segs prov in
    let (raw, _, parse) =
      >>=-eq-ok (value_of (lookup key merged)) (λ raw. parse_segments raw >>= expand_segs) go in
    let (segs, _, last) = >>=-eq-ok (parse_segments raw) expand_segs parse in
    expand-Reads rv step cfg merged (frame_of cfg key ∷ stack) segs prov
      (resolve_key_from-Reads n rv) a r last

resolve_all-Reads :
    (rv : Resolver) (self : RawConfig) (merged es : Values) (prov : List Provenance)
    → AllRead rv prov
    → (r : Values × List Provenance) → resolve_all rv self merged es prov ≡ ok r
    → AllRead rv r.1
unfolding resolve_all
resolve_all-Reads rv self merged [] prov a r h = ground arith
resolve_all-Reads rv self merged (e ∷ es) prov a r h =
    let more : Bytes × List Provenance
        → Values × List Provenance
        → Result Error (Values × List Provenance) =
      λ q rest. ok ((e.0, q.0) ∷ rest.0, rest.1) in
    let (q, first, go) =
      >>=-eq-ok (resolve_key_from (suc max_depth) rv self merged e.0 [] prov)
        (λ q. resolve_all rv self merged es q.1 >>= more q) h in
    let (rest, later, last) = >>=-eq-ok (resolve_all rv self merged es q.1) (more q) go in
    let a' = resolve_key_from-Reads (suc max_depth) rv self merged e.0 [] prov a q first in
    let same : r.1 ≡ rest.1 = cc in rw same (resolve_all-Reads rv self merged es q.1 a' rest later)

-- For every config that a successful `Resolve` lists as read by a reference, there is a reference's
-- coordinate that the reader finds, at a target that the caller may read, and the config is that
-- target's own as its inheritance returns it.
pub resolve-ReadBy :
    (rv : Resolver) (id : Bytes) (values : Values) (prov : List Provenance) (p : Provenance)
    → resolve rv id ≡ ok (values, prov)
    → In p prov
    → ReadBy rv p
unfolding resolve resolve_values
resolve-ReadBy rv id values prov p h m =
    let (inherited, _, go) = >>=-eq-ok (resolve_merged rv.reader id) (resolve_values rv) h in
    AllRead-In rv prov p
      (resolve_all-Reads rv inherited.1 inherited.0 (visible inherited.0) [] tt (values, prov) go) m
