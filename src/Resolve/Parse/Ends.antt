-- ===== src/Resolve/Parse/Ends.antt =====
-- The parser of references ends, and so does a chain of steps that end.
use janus_secrets.Common.{
  ok, ◌≡◌, ◌≢◌, refl, Bool, true, false, List, [], ◌∷◌, ◌++◌, Bytes, Result, err, ◌>>=◌, ◌>>◌,
  reject_if, arith,
}
use janus_secrets.Resolve.Parse.{
  Error, out_of_fuel, Segment, literal, reference, Mode, in_text, after_dollar, in_body, dollar,
  emit, flush, scan, parse_parts, parse_ref_body, split_dots, parse_segments,
}

-- A result that is not that of a loop that ran out of fuel.
abbrev pub Ends : {A : Type 0} → Result Error A → Type 0
Ends m = m ≢ err out_of_fuel

pub >>=-Ends :
    {A B : Type 0} (m : Result Error A) (f : A → Result Error B)
    → Ends m
    → ((a : A) → m ≡ ok a → Ends (f a))
    → Ends (m >>= f)
>>=-Ends (ok a) f h k = k a refl
>>=-Ends (err e) f h k = λ same. h (cc)

pub reject_if-Ends :
    {B : Type 0} (b : Bool) (e : Error) (k : Result Error B)
    → e ≢ out_of_fuel
    → (b ≡ false → Ends k)
    → Ends (reject_if b e >> k)
reject_if-Ends true e k d h = λ same. d cc
reject_if-Ends false e k d h = h refl

parse_parts-Ends : (parts : List Bytes) → Ends (parse_parts parts)
parse_parts-Ends [] = λ e. cc
parse_parts-Ends (k ∷ []) = ground arith
parse_parts-Ends (a ∷ b ∷ []) = λ e. cc
parse_parts-Ends (a ∷ b ∷ c ∷ []) = λ e. cc
parse_parts-Ends (a ∷ b ∷ c ∷ d ∷ []) = λ e. cc
parse_parts-Ends (a ∷ b ∷ c ∷ d ∷ k ∷ []) = ground arith
parse_parts-Ends (a ∷ b ∷ c ∷ d ∷ k ∷ l ∷ parts) = λ e. cc

parse_ref_body-Ends : (body : Bytes) → Ends (parse_ref_body body)
unfolding parse_ref_body
parse_ref_body-Ends body = parse_parts-Ends (split_dots body)

emit-Ends :
    (f : List Segment → List Segment) (m : Result Error (List Segment)) → Ends m → Ends (emit f m)
emit-Ends f m h = >>=-Ends m _ h (λ segs _ e. cc)

scan-Ends : (mode : Mode) (s : Bytes) → Ends (scan mode s)
unfolding scan
scan-Ends (in_text acc) [] = λ e. cc
scan-Ends (in_text acc) (c ∷ s) = ground (
  arith,
  emit-Ends (flush acc) (scan after_dollar s) (scan-Ends after_dollar s),
  scan-Ends (in_text (acc ++ c ∷ [])) s,
)
scan-Ends after_dollar [] = λ e. cc
scan-Ends after_dollar (c ∷ s) =
    let segs_after = λ (segs : List Segment). literal (dollar ∷ []) ∷ segs in
    ground (
      arith,
      emit-Ends segs_after (scan (in_text []) s) (scan-Ends (in_text []) s),
      scan-Ends (in_body []) s,
      emit-Ends segs_after (scan (in_text (c ∷ [])) s) (scan-Ends (in_text (c ∷ [])) s),
    )
scan-Ends (in_body acc) [] = λ e. cc
scan-Ends (in_body acc) (c ∷ s) =
    let ended =
      >>=-Ends (parse_ref_body acc) (λ r. emit (λ segs. reference r ∷ segs) (scan (in_text []) s))
        (parse_ref_body-Ends acc)
        (λ r _.
          emit-Ends (λ segs. reference r ∷ segs) (scan (in_text []) s)
            (scan-Ends (in_text []) s)) in
    ground (arith, ended, scan-Ends (in_body (acc ++ c ∷ [])) s)

pub parse_segments-Ends : (value : Bytes) → Ends (parse_segments value)
unfolding parse_segments
parse_segments-Ends value = scan-Ends (in_text []) value
