-- ===== src/Resolve/Expand/Literal.antt =====
-- What a key resolves to whose value holds no reference.
use janus_secrets.Common.{
  Values, lookup, ℕ, suc, ◌≡◌, refl, ◌∙◌, List, [], ◌∷◌, ◌++◌, append_assoc, append-nil, some,
  Bytes, ok,
}
use janus_secrets.Resolve.Parse.{Segment, literal, reference}
use janus_secrets.Resolve.Parse.Escape.{escape, Spells, parse_segments-escape}
use janus_secrets.Resolve.Inherit.{RawConfig, resolve_merged}
use janus_secrets.Resolve.Expand.{
  Resolver, KeyStep, Frame, Provenance, splice, expand, max_depth, expand_value, resolve_root,
  resolve_key_from, resolve_key,
}

splice-Spells :
    (rv : Resolver) (step : KeyStep) (cfg : RawConfig) (merged : Values) (stack : List Frame)
    (segs : List Segment) (buf v : Bytes) (prov : List Provenance)
    → Spells segs v
    → splice rv step cfg merged stack segs buf prov ≡ ok (buf ++ v, prov)
unfolding splice
splice-Spells rv step cfg merged stack [] buf v prov h = rw (h, append-nil buf) refl
splice-Spells rv step cfg merged stack (literal s ∷ segs) buf v prov (w, e, h) =
    splice-Spells rv step cfg merged stack segs (buf ++ s) w prov h
    ∙ rw (e, append_assoc buf s w) refl
splice-Spells rv step cfg merged stack (reference r ∷ segs) buf v prov h = absurd h

expand-Spells :
    (rv : Resolver) (step : KeyStep) (cfg : RawConfig) (merged : Values) (stack : List Frame)
    (segs : List Segment) (v : Bytes) (prov : List Provenance)
    → Spells segs v
    → expand rv step cfg merged stack segs prov ≡ ok (v, prov)
expand-Spells rv step cfg merged stack [] v prov h =
    splice-Spells rv step cfg merged stack [] [] v prov h
expand-Spells rv step cfg merged stack (literal s ∷ segs) v prov h =
    splice-Spells rv step cfg merged stack (literal s ∷ segs) [] v prov h
expand-Spells rv step cfg merged stack (reference r ∷ segs) v prov h = absurd h

resolve_key_from-escape :
    (n : ℕ) (rv : Resolver) (cfg : RawConfig) (merged : Values) (key v : Bytes)
    (prov : List Provenance)
    → lookup key merged ≡ some (escape v)
    → resolve_key_from (suc n) rv cfg merged key [] prov ≡ ok (v, prov)
unfolding resolve_key_from expand_value
resolve_key_from-escape n rv cfg merged key v prov h =
    let (segs, parsed, spells) = parse_segments-escape v in
    rw (h, parsed) (expand-Spells rv (resolve_key_from n rv) cfg merged _ segs v prov spells)

-- If a config's merged values hold, under a key, a text v with every `$` doubled, then `ResolveKey`
-- returns v itself, whatever bytes it has, and no provenance.
pub resolve_key-escape :
    (rv : Resolver) (id key v : Bytes) (merged : Values) (self : RawConfig)
    → resolve_merged rv.reader id ≡ ok (merged, self)
    → lookup key merged ≡ some (escape v)
    → resolve_key rv id key ≡ ok (v, [])
unfolding resolve_key resolve_root
resolve_key-escape rv id key v merged self m h =
    rw (m, h) (resolve_key_from-escape max_depth rv self merged key v [] h)
