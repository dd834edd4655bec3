-- ===== src/Resolve/Parse/Print.antt =====
-- A reference that is written out is parsed as itself.
use janus_secrets.Common.{
  bytes_eq, ℕ, ◌≡◌, refl, ◌∙◌, arith, true, false, [], ◌∷◌, ◌++◌, ◌==◌, Bytes, codes, ok, ◌>>=◌,
  append_assoc, append-nil,
}
use janus_secrets.Resolve.Parse.{
  Coord, Ref, local, absolute, reference, in_body, token_char, all_token_chars, valid_segment_token,
  split_dots, parse_ref_body, scan, parse_segments,
}

-- The body of a reference: `KEY`, or `projects.p.e.c.KEY`.
unfoldable pub body_of : Ref → Bytes
body_of (local key) = key
body_of (absolute coord key) =
    codes "projects" ++ 46 ∷ (coord.project ++ 46 ∷ (coord.env ++ 46 ∷ (coord.config ++ 46 ∷ key)))

-- `${body}`
unfoldable pub print_ref : Ref → Bytes
print_ref r = 36 ∷ 123 ∷ (body_of r ++ 125 ∷ [])

abbrev pub IsToken : Bytes → Type 0
IsToken s = valid_segment_token s ≡ true

abbrev pub IsValidRef : Ref → Type 0
IsValidRef (local key) = IsToken key
IsValidRef (absolute coord key) =
    IsToken coord.project × IsToken coord.env × IsToken coord.config × IsToken key

-- A byte of a token is no dot and no closing brace.
all_token_chars-head :
    (c : ℕ) (s : Bytes)
    → all_token_chars (c ∷ s) ≡ true
    → ((c == 46) ≡ false) × ((c == 125) ≡ false) × (all_token_chars s ≡ true)
unfolding all_token_chars token_char
all_token_chars-head c s h = (ground arith, ground arith, ground arith)

all_token_chars-token : (s : Bytes) → IsToken s → all_token_chars s ≡ true
unfolding valid_segment_token
all_token_chars-token [] h = cc
all_token_chars-token (c ∷ s) h = h

split_dots-token : (s : Bytes) → all_token_chars s ≡ true → split_dots s ≡ s ∷ []
unfolding split_dots
split_dots-token [] h = refl
split_dots-token (c ∷ s) h =
    let (no_dot, _, rest) = all_token_chars-head c s h in rw (no_dot, split_dots-token s rest) refl

split_dots-append :
    (s t : Bytes) → all_token_chars s ≡ true → split_dots (s ++ 46 ∷ t) ≡ s ∷ split_dots t
unfolding split_dots
split_dots-append [] t h = refl
split_dots-append (c ∷ s) t h =
    let (no_dot, _, rest) = all_token_chars-head c s h in
    rw (no_dot, split_dots-append s t rest) refl

-- No byte of the body closes it.
abbrev IsBody : Bytes → Type 0
IsBody [] = Unit
IsBody (c ∷ s) = ((c == 125) ≡ false) × IsBody s

IsBody-token : (s : Bytes) → all_token_chars s ≡ true → IsBody s
IsBody-token [] h = tt
IsBody-token (c ∷ s) h =
    let (_, inner, rest) = all_token_chars-head c s h in (inner, IsBody-token s rest)

IsBody-dotted : (s t : Bytes) → all_token_chars s ≡ true → IsBody t → IsBody (s ++ 46 ∷ t)
IsBody-dotted [] t h b = (refl, b)
IsBody-dotted (c ∷ s) t h b =
    let (_, inner, rest) = all_token_chars-head c s h in (inner, IsBody-dotted s t rest b)

scan-body :
    (acc s : Bytes)
    → IsBody s
    → scan (in_body acc) (s ++ 125 ∷ [])
      ≡ (parse_ref_body (acc ++ s) >>= λ r. ok (reference r ∷ []))
unfolding scan
scan-body acc [] h = rw (append-nil acc) refl
scan-body acc (c ∷ s) h =
    rw (h.0, scan-body (acc ++ c ∷ []) s h.1, append_assoc acc (c ∷ []) s) refl

body_of-IsBody : (r : Ref) → IsValidRef r → IsBody (body_of r)
unfolding body_of all_token_chars token_char
body_of-IsBody (local key) h = IsBody-token key (all_token_chars-token key h)
body_of-IsBody (absolute coord key) (p, e, c, k) = IsBody-dotted (codes "projects") _ refl (
    IsBody-dotted coord.project _ (all_token_chars-token coord.project p) (
      IsBody-dotted coord.env _ (all_token_chars-token coord.env e) (
        IsBody-dotted coord.config _ (all_token_chars-token coord.config c)
          (IsBody-token key (all_token_chars-token key k)))))

split_dots-absolute :
    (coord : Coord) (key : Bytes)
    → IsValidRef (absolute coord key)
    → split_dots (body_of (absolute coord key))
      ≡ codes "projects" ∷ coord.project ∷ coord.env ∷ coord.config ∷ key ∷ []
unfolding body_of all_token_chars token_char
split_dots-absolute coord key (p, e, c, k) =
    split_dots-append (codes "projects") _ refl
    ∙ rw
        (
          split_dots-append coord.project (coord.env ++ 46 ∷ (coord.config ++ 46 ∷ key))
              (all_token_chars-token coord.project p),
          split_dots-append coord.env (coord.config ++ 46 ∷ key)
              (all_token_chars-token coord.env e),
          split_dots-append coord.config key (all_token_chars-token coord.config c),
          split_dots-token key (all_token_chars-token key k),
        )
        refl

parse_ref_body-body_of : (r : Ref) → IsValidRef r → parse_ref_body (body_of r) ≡ ok r
unfolding parse_ref_body body_of bytes_eq
parse_ref_body-body_of (local key) h =
    rw (split_dots-token key (all_token_chars-token key h), h) refl
parse_ref_body-body_of (absolute coord key) h =
    rw (split_dots-absolute coord key h, h.0, h.1, h.2, h.3) refl

-- A reference whose names are valid tokens, written as `${KEY}` or `${projects.p.e.c.KEY}`, is
-- parsed by `parseSegments` as that one reference.
pub parse_segments-print_ref :
    (r : Ref) → IsValidRef r → parse_segments (print_ref r) ≡ ok (reference r ∷ [])
unfolding parse_segments scan print_ref
parse_segments-print_ref r h =
    rw (scan-body [] (body_of r) (body_of-IsBody r h), parse_ref_body-body_of r h) refl
