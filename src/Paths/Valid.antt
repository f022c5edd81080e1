-- ===== src/Paths/Valid.antt =====
-- path.rs: what a well-formed field path is: identifiers, and indices that fit `usize`.
use shapeport.Prelude.{
  ℕ, zero, suc, ◌-◌, ◌<◌, ◌≡◌, ◌≢◌, refl, subst, inl, inr, Bool, true, false, ◌&&◌, Option, none,
  some, List, [], ◌∷◌, length, take, drop, all, All, Text, starts_with, arith, Bool-cases,
}
use shapeport.Error.{ok, >>=-eq-ok}
use shapeport.Paths.{
  PathSegment, FieldPath, field, index, usize_mod, is_ident_start, is_ident_continue,
  ident_rest_len, ident_len, reject_jsonpath, find, close_index, parse_ident, parse_inner,
  parse_index, parse_one, parse_segments, non_empty, parse, skip_dot_or_keep,
}

unfoldable pub is_ident : Text → Bool
is_ident [] = false
is_ident (c ∷ s) = is_ident_start c && all is_ident_continue s

abbrev pub ValidSegment : PathSegment → Type 0
ValidSegment (field name) = is_ident name ≡ true
ValidSegment (index i) = i < usize_mod

-- At least one segment, and every segment well formed.
abbrev pub ValidPath : FieldPath → Type 0
ValidPath path = (path.segments ≢ []) × All ValidSegment path.segments

all-take-ident_rest_len : (s : Text) → all is_ident_continue (take (ident_rest_len s) s) ≡ true
unfolding ident_rest_len
all-take-ident_rest_len [] = refl
all-take-ident_rest_len (c ∷ s) = ground (arith, all-take-ident_rest_len s)

is_ident-take : (s : Text) (len : ℕ) → ident_len s ≡ ok len → is_ident (take len s) ≡ true
unfolding is_ident ident_len
is_ident-take [] len h = cc
is_ident-take (c ∷ s) len h = ground (arith, all-take-ident_rest_len s)

parse_ident-ValidSegment :
    (s : Text) (seg : PathSegment) (after : Text)
    → parse_ident s ≡ ok (seg, after)
    → (name : Text) × (seg ≡ field name) × (is_ident name ≡ true)
unfolding parse_ident
parse_ident-ValidSegment s seg after h =
    let (len, named, h₁) = >>=-eq-ok (ident_len s) _ h in
    let (rest, skipped, h₂) = >>=-eq-ok (skip_dot_or_keep (drop len s)) _ h₁ in
    (take len s, ground arith, is_ident-take s len named)

parse_inner-lt : (inner : Text) (i : ℕ) → parse_inner inner ≡ ok i → i < usize_mod
unfolding parse_inner
parse_inner-lt inner i h = ground arith

close_index-ValidSegment :
    (s : Text) (o : Option ℕ) (seg : PathSegment) (after : Text)
    → close_index s o ≡ ok (seg, after)
    → (i : ℕ) × (seg ≡ index i) × (i < usize_mod)
unfolding close_index
close_index-ValidSegment s none seg after h = cc
close_index-ValidSegment s (some close) seg after h =
    let inner = take (close - 1) (drop 1 s) in
    let (i, numbered, h₁) = >>=-eq-ok (parse_inner inner) _ h in
    let (rest, skipped, h₂) = >>=-eq-ok (skip_dot_or_keep (drop (suc close) s)) _ h₁ in
    (i, ground arith, parse_inner-lt inner i numbered)

parse_one-ValidSegment :
    (s : Text) (seg : PathSegment) (after : Text) → parse_one s ≡ ok (seg, after) → ValidSegment seg
unfolding parse_one parse_index
parse_one-ValidSegment s seg after h = elim (Bool-cases (starts_with b'[' s)) [
  | inl bracket ↦
      let (i, e, fits) =
        close_index-ValidSegment s (find b']' s) seg after (rw (bracket, parse_one) at h) in
      rw e fits
  | inr letter ↦
      let (name, e, named) = parse_ident-ValidSegment s seg after (rw (letter, parse_one) at h) in
      rw e named
]

pub parse_segments-ValidSegment :
    (fuel : ℕ) (s : Text) (segments : List PathSegment)
    → parse_segments fuel s ≡ ok segments
    → All ValidSegment segments
unfolding parse_segments
parse_segments-ValidSegment fuel [] segments h = subst (All ValidSegment) {x = []} (cc) tt
parse_segments-ValidSegment zero (c ∷ s) segments h = cc
parse_segments-ValidSegment (suc fuel) (c ∷ s) segments h =
    let (one, first, h₁) = >>=-eq-ok (parse_one (c ∷ s)) _ h in
    let (rest, others, h₂) = >>=-eq-ok (parse_segments fuel one.1) _ h₁ in
    subst (All ValidSegment) {x = one.0 ∷ rest} (cc h₂) (
      parse_one-ValidSegment (c ∷ s) one.0 one.1 first,
      parse_segments-ValidSegment fuel one.1 rest others,
    )

non_empty-ValidPath :
    (segments : List PathSegment) (path : FieldPath)
    → non_empty segments ≡ ok path
    → All ValidSegment segments
    → ValidPath path
unfolding non_empty
non_empty-ValidPath [] path h valid = cc
non_empty-ValidPath (x ∷ xs) path h valid =
    subst ValidPath {x = record { segments = x ∷ xs }} (cc h) ((λ e. cc e), valid)

-- What `parse` accepts is a well-formed path: not empty, each name an identifier, each index a
-- `usize`.
pub parse-ValidPath : (input : Text) (path : FieldPath) → parse input ≡ ok path → ValidPath path
unfolding parse
parse-ValidPath input path h =
    let (u, allowed, h₁) = >>=-eq-ok (reject_jsonpath input) _ h in
    let (segments, scanned, h₂) = >>=-eq-ok (parse_segments (length input) input) _ h₁ in
    non_empty-ValidPath segments path h₂
      (parse_segments-ValidSegment (length input) input segments scanned)
