-- ===== src/Resolve/Parse.antt =====
-- The references in a secret's value (internal/resolve/parse.go). The two searches by `IndexByte`
-- are one scan here, which has in `mode` what it has passed since the last segment.
pub mod Escape
pub mod Print
pub mod Ends
use janus_secrets.Common.{
  ℕ, Bool, true, false, ◌&&◌, ◌||◌, List, [], ◌∷◌, ◌++◌, leb, ◌==◌, if◌then◌else◌, Bytes, codes,
  bytes_eq, Result, ok, err, ◌>>=◌,
}

-- The package's errors and the reader's; the last two are not values of the source: a loop that does
-- not end, and a panic.
pub data Error : Type 0 where
  inheritance_cycle broken_inheritance reference_cycle unresolved_reference : Error
  forbidden_reference reference_depth bad_reference_syntax : Error
  read_failed : Bytes → Error
  out_of_fuel index_panic : Error

pub record Coord : Type 0 where
  pub project : Bytes
  pub env : Bytes
  pub config : Bytes

-- `ref`: `${KEY}`, or `${projects.p.e.c.KEY}`.
pub data Ref : Type 0 where
  local : Bytes → Ref
  absolute : Coord → Bytes → Ref

pub data Segment : Type 0 where
  literal : Bytes → Segment
  reference : Ref → Segment

abbrev pub dollar : ℕ
dollar = 36

abbrev open_brace : ℕ
open_brace = 123

abbrev close_brace : ℕ
close_brace = 125

abbrev dot : ℕ
dot = 46

-- Letters, digits, `_` and `-`: a test of bytes, since none of these is part of another rune.
token_char : ℕ → Bool
token_char c =
    c == 95
    || c == 45
    || (leb 97 c && leb c 122)
    || (leb 65 c && leb c 90)
    || (leb 48 c && leb c 57)

all_token_chars : Bytes → Bool
unfolding token_char
all_token_chars [] = true
all_token_chars (c ∷ s) = token_char c && all_token_chars s

unfoldable pub valid_segment_token : Bytes → Bool
unfolding all_token_chars
valid_segment_token [] = false
valid_segment_token (c ∷ s) = all_token_chars (c ∷ s)

abbrev add_to_first : ℕ → List Bytes → List Bytes
add_to_first c [] = (c ∷ []) ∷ []
add_to_first c (p ∷ ps) = (c ∷ p) ∷ ps

-- `strings.Split(body, ".")`
unfoldable pub split_dots : Bytes → List Bytes
split_dots [] = [] ∷ []
split_dots (c ∷ s) = let rest = split_dots s in if c == dot then [] ∷ rest else add_to_first c rest

abbrev pub parse_parts : List Bytes → Result Error Ref
parse_parts (k ∷ []) = if valid_segment_token k then ok (local k) else err bad_reference_syntax
parse_parts (h ∷ p ∷ e ∷ c ∷ k ∷ []) =
    if bytes_eq h (codes "projects")
      && (valid_segment_token p
          && (valid_segment_token e && (valid_segment_token c && valid_segment_token k)))
    then ok (absolute (record { project = p; env = e; config = c }) k)
    else err bad_reference_syntax
parse_parts _ = err bad_reference_syntax

unfoldable pub parse_ref_body : Bytes → Result Error Ref
parse_ref_body body = parse_parts (split_dots body)

-- In a literal, after a `$`, or in the body of a reference.
pub data Mode : Type 0 where
  in_text : Bytes → Mode
  after_dollar : Mode
  in_body : Bytes → Mode

-- A literal that is not empty is a segment.
abbrev pub flush : Bytes → List Segment → List Segment
flush [] segs = segs
flush (c ∷ s) segs = literal (c ∷ s) ∷ segs

abbrev pub emit :
    (List Segment → List Segment) → Result Error (List Segment) → Result Error (List Segment)
emit f m = m >>= λ segs. ok (f segs)

unfoldable pub scan : Mode → Bytes → Result Error (List Segment)
unfolding parse_ref_body
scan (in_text acc) [] = ok (flush acc [])
scan (in_text acc) (c ∷ s) =
    let ended = emit (flush acc) (scan after_dollar s) in
    let onward = scan (in_text (acc ++ c ∷ [])) s in if c == dollar then ended else onward
scan after_dollar [] = ok (literal (dollar ∷ []) ∷ [])
scan after_dollar (c ∷ s) =
    let escaped = emit (λ segs. literal (dollar ∷ []) ∷ segs) (scan (in_text []) s) in
    let body = scan (in_body []) s in
    let lone = emit (λ segs. literal (dollar ∷ []) ∷ segs) (scan (in_text (c ∷ [])) s) in
    if c == dollar then escaped else if c == open_brace then body else lone
scan (in_body acc) [] = err bad_reference_syntax
scan (in_body acc) (c ∷ s) =
    let rest = scan (in_text []) s in
    let ended = parse_ref_body acc >>= λ r. emit (λ segs. reference r ∷ segs) rest in
    let onward = scan (in_body (acc ++ c ∷ [])) s in if c == close_brace then ended else onward

unfoldable pub parse_segments : Bytes → Result Error (List Segment)
parse_segments value = scan (in_text []) value
