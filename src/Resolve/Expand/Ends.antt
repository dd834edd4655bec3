-- ===== src/Resolve/Expand/Ends.antt =====
-- The expansion of references ends: the depth cap stops it before the fuel does.
use janus_secrets.Common.{
  Values, lookup, ℕ, zero, suc, ◌+◌, ◌≤◌, ◌<◌, ◌≡◌, ◌≢◌, refl, not, any, List, [], ◌∷◌, ◌++◌, Bytes,
  err, ◌>>=◌, ◌>>◌, reject_if, arith, length, leb,
}
use janus_secrets.Resolve.Parse.{
  forbidden_reference, unresolved_reference, reference_depth, reference_cycle, out_of_fuel, Segment,
  Ref, literal, reference, local, absolute, parse_segments,
}
use janus_secrets.Resolve.Inherit.{RawConfig, resolve_merged}
use janus_secrets.Resolve.Parse.Ends.{Ends, >>=-Ends, reject_if-Ends, parse_segments-Ends}
use janus_secrets.Resolve.Inherit.Ends.{IsFinite, resolve_merged-Ends}
use janus_secrets.Resolve.Expand.{
  follow, enter, permitted, provenance_of, record_prov, expand_value, resolve_root, resolve_values,
  Resolver, KeyStep, Frame, frame_of, frame_eq, Provenance, read_target, value_of, resolve_ref,
  splice, expand, max_depth, resolve_key_from, resolve_all, resolve, resolve_key, found, visible,
}

-- A step that ends on every stack of a given length.
abbrev StepEnds : KeyStep → ℕ → Type 0
StepEnds step k =
    (cfg : RawConfig) (merged : Values) (key : Bytes) (stack : List Frame) (prov : List Provenance)
    → length stack ≡ k
    → Ends (step cfg merged key stack prov)

follow-Ends :
    (step : KeyStep) (key : Bytes) (stack : List Frame) (prov : List Provenance)
    (inherited : Values × RawConfig)
    → StepEnds step (length stack)
    → Ends (follow step key stack prov inherited)
unfolding follow
follow-Ends step key stack prov inherited h =
    reject_if-Ends (not (found (lookup key inherited.0))) unresolved_reference
      (step inherited.1 inherited.0 key stack (record_prov (provenance_of inherited.1) prov))
      (λ e. cc)
      (λ _. h inherited.1 inherited.0 key stack (record_prov (provenance_of inherited.1) prov) refl)

enter-Ends :
    (rv : Resolver) (step : KeyStep) (key : Bytes) (stack : List Frame) (prov : List Provenance)
    (target : RawConfig)
    → IsFinite rv.reader
    → StepEnds step (length stack)
    → Ends (enter rv step key stack prov target)
unfolding enter
enter-Ends rv step key stack prov target f h =
    reject_if-Ends (not (permitted rv.authz target)) forbidden_reference
      (resolve_merged rv.reader target.config_id >>= follow step key stack prov) (λ e. cc)
      (λ _.
        >>=-Ends (resolve_merged rv.reader target.config_id) (follow step key stack prov)
          (resolve_merged-Ends rv.reader target.config_id f)
          (λ inherited _. follow-Ends step key stack prov inherited h))

resolve_ref-Ends :
    (rv : Resolver) (step : KeyStep) (cfg : RawConfig) (merged : Values) (rf : Ref)
    (stack : List Frame) (prov : List Provenance)
    → IsFinite rv.reader
    → StepEnds step (length stack)
    → Ends (resolve_ref rv step cfg merged rf stack prov)
unfolding resolve_ref
resolve_ref-Ends rv step cfg merged (local key) stack prov f h = h cfg merged key stack prov refl
resolve_ref-Ends rv step cfg merged (absolute coord key) stack prov f h =
    >>=-Ends (read_target rv.reader coord) (enter rv step key stack prov) (ground arith)
      (λ target _. enter-Ends rv step key stack prov target f h)

splice-Ends :
    (rv : Resolver) (step : KeyStep) (cfg : RawConfig) (merged : Values) (stack : List Frame)
    (segs : List Segment) (buf : Bytes) (prov : List Provenance)
    → IsFinite rv.reader
    → StepEnds step (length stack)
    → Ends (splice rv step cfg merged stack segs buf prov)
unfolding splice
splice-Ends rv step cfg merged stack [] buf prov f h = λ e. cc
splice-Ends rv step cfg merged stack (literal s ∷ segs) buf prov f h =
    splice-Ends rv step cfg merged stack segs (buf ++ s) prov f h
splice-Ends rv step cfg merged stack (reference rf ∷ segs) buf prov f h =
    >>=-Ends (resolve_ref rv step cfg merged rf stack prov) _
      (resolve_ref-Ends rv step cfg merged rf stack prov f h)
      (λ r _. splice-Ends rv step cfg merged stack segs (buf ++ r.0) r.1 f h)

expand-Ends :
    (rv : Resolver) (step : KeyStep) (cfg : RawConfig) (merged : Values) (stack : List Frame)
    (segs : List Segment) (prov : List Provenance)
    → IsFinite rv.reader
    → StepEnds step (length stack)
    → Ends (expand rv step cfg merged stack segs prov)
expand-Ends rv step cfg merged stack [] prov f h =
    splice-Ends rv step cfg merged stack [] [] prov f h
expand-Ends rv step cfg merged stack (literal s ∷ segs) prov f h =
    splice-Ends rv step cfg merged stack (literal s ∷ segs) [] prov f h
expand-Ends rv step cfg merged stack (reference rf ∷ []) prov f h =
    resolve_ref-Ends rv step cfg merged rf stack prov f h
expand-Ends rv step cfg merged stack (reference rf ∷ seg ∷ segs) prov f h =
    splice-Ends rv step cfg merged stack (reference rf ∷ seg ∷ segs) [] prov f h

expand_value-Ends :
    (rv : Resolver) (step : KeyStep) (cfg : RawConfig) (merged : Values) (key : Bytes)
    (stack : List Frame) (prov : List Provenance)
    → IsFinite rv.reader
    → StepEnds step (suc (length stack))
    → Ends (expand_value rv step cfg merged key stack prov)
unfolding expand_value
expand_value-Ends rv step cfg merged key stack prov f h =
    >>=-Ends (value_of (lookup key merged)) _ (ground arith) (λ raw _.
      >>=-Ends (parse_segments raw) _ (parse_segments-Ends raw)
        (λ segs _. expand-Ends rv step cfg merged (frame_of cfg key ∷ stack) segs prov f h))

resolve_key_from-Ends :
    (n : ℕ) (rv : Resolver) (k : ℕ)
    → IsFinite rv.reader
    → k ≤ max_depth
    → max_depth < n + k
    → StepEnds (resolve_key_from n rv) k
unfolding resolve_key_from
resolve_key_from-Ends zero rv k f le lt cfg merged key stack prov at = absurd (omega arith)
resolve_key_from-Ends (suc n) rv k f le lt cfg merged key stack prov at =
    let value = expand_value rv (resolve_key_from n rv) cfg merged key stack prov in
    let again = any (λ s. frame_eq s (frame_of cfg key)) stack in
    reject_if-Ends (leb max_depth (length stack)) reference_depth
      (reject_if again reference_cycle >> value) (λ e. cc)
      (λ shallow.
        reject_if-Ends again reference_cycle value (λ e. cc)
          (λ _.
            expand_value-Ends rv (resolve_key_from n rv) cfg merged key stack prov f
              (resolve_key_from-Ends n rv (suc (length stack)) f (ground arith) (omega arith))))

resolve_all-Ends :
    (rv : Resolver) (self : RawConfig) (merged es : Values) (prov : List Provenance)
    → IsFinite rv.reader
    → Ends (resolve_all rv self merged es prov)
unfolding resolve_all
resolve_all-Ends rv self merged [] prov f = λ e. cc
resolve_all-Ends rv self merged (e ∷ es) prov f =
    >>=-Ends (resolve_key_from (suc max_depth) rv self merged e.0 [] prov) _
      (resolve_key_from-Ends (suc max_depth) rv 0 f (omega arith) (omega arith) self merged e.0 []
        prov refl)
      (λ r _.
        >>=-Ends (resolve_all rv self merged es r.1) _ (resolve_all-Ends rv self merged es r.1 f)
          (λ rest _ e. cc))

resolve_root-Ends :
    (rv : Resolver) (key : Bytes) (inherited : Values × RawConfig)
    → IsFinite rv.reader
    → Ends (resolve_root rv key inherited)
unfolding resolve_root
resolve_root-Ends rv key inherited f =
    reject_if-Ends (not (found (lookup key inherited.0))) unresolved_reference
      (resolve_key_from (suc max_depth) rv inherited.1 inherited.0 key [] []) (λ e. cc)
      (λ _.
        resolve_key_from-Ends (suc max_depth) rv 0 f (omega arith) (omega arith) inherited.1
          inherited.0 key [] [] refl)

-- If the store holds finitely many configs, `Resolve` and `ResolveKey` end on every config and key,
-- whatever cycles its inheritance and its references have: their loops never run out of fuel.
pub resolve-Ends :
    (rv : Resolver) (id key : Bytes)
    → IsFinite rv.reader
    → (resolve rv id ≢ err out_of_fuel) × (resolve_key rv id key ≢ err out_of_fuel)
unfolding resolve resolve_values resolve_key
resolve-Ends rv id key f = (
  >>=-Ends (resolve_merged rv.reader id) (resolve_values rv) (resolve_merged-Ends rv.reader id f)
      (λ inherited _. resolve_all-Ends rv inherited.1 inherited.0 (visible inherited.0) [] f),
  >>=-Ends (resolve_merged rv.reader id) (resolve_root rv key) (resolve_merged-Ends rv.reader id f)
      (λ inherited _. resolve_root-Ends rv key inherited f),
)
