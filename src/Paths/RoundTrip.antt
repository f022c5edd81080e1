-- ===== src/Paths/RoundTrip.antt =====
-- path.rs: `parse` on what `render_path` writes.
use shapeport.Prelude.{
  ℕ, zero, suc, ◌-◌, ◌≤◌, ◌<◌, ◌≡◌, ◌≢◌, refl, ap, true, false, some, List, [], ◌∷◌, ◌++◌, length,
  length-append, take-length, drop-length, drop-suc-length, all, All, Text, starts_with, is_digit,
  to_text, value, value-to_text, to_text-IsNumeral, IsNumeral, &&_split, arith,
}
use shapeport.Error.{ok}
use shapeport.Paths.{
  PathSegment, FieldPath, field, index, usize_mod, is_ident_start, is_ident_continue,
  ident_rest_len, ident_len, skip_dot_or_keep, parse_ident, parse_inner, parse_closed, find,
  parse_index, parse_one, parse_segments, non_empty, parse, render_path,
}
use shapeport.Paths.Valid.{is_ident, ValidSegment, ValidPath}
use shapeport.Paths.Render.{render_rest, render_all, render_path-eq, reject_jsonpath-render_all}

ident_rest_len-render_rest :
    (segments : List PathSegment) → ident_rest_len (render_rest segments) ≡ 0
unfolding ident_rest_len render_rest is_ident_continue
ident_rest_len-render_rest [] = refl
ident_rest_len-render_rest (field name ∷ segments) = refl
ident_rest_len-render_rest (index i ∷ segments) = refl

ident_rest_len-append :
    (s t : Text)
    → all is_ident_continue s ≡ true
    → ident_rest_len t ≡ 0
    → ident_rest_len (s ++ t) ≡ length s
unfolding ident_rest_len
ident_rest_len-append [] t h stop = stop
ident_rest_len-append (c ∷ s) t h stop =
    let (now, later) = &&_split (is_ident_continue c) (all is_ident_continue s) h in
    rw (now, ident_rest_len) (ap suc (ident_rest_len-append s t later stop))

ident_len-append :
    (name t : Text)
    → is_ident name ≡ true
    → ident_rest_len t ≡ 0
    → ident_len (name ++ t) ≡ ok (length name)
unfolding is_ident ident_len
ident_len-append [] t h stop = cc
ident_len-append (c ∷ s) t h stop =
    let (start, rest) = &&_split (is_ident_start c) (all is_ident_continue s) h in
    rw (start, ident_rest_len-append s t rest stop)

-- After a segment the scanner stands at the next one.
skip-render_rest :
    (segments : List PathSegment)
    → All ValidSegment segments
    → skip_dot_or_keep (render_rest segments) ≡ ok (render_all segments)
unfolding skip_dot_or_keep render_all render_rest
skip-render_rest [] v = refl
skip-render_rest (field [] ∷ segments) v = unfold is_ident in cc v.0
skip-render_rest (field (c ∷ name) ∷ segments) v = refl
skip-render_rest (index i ∷ segments) v = refl

parse_ident-append :
    (name : Text) (segments : List PathSegment)
    → is_ident name ≡ true
    → All ValidSegment segments
    → parse_ident (name ++ render_rest segments) ≡ ok (field name, render_all segments)
unfolding parse_ident
parse_ident-append name segments h v =
    rw (ident_len-append name (render_rest segments) h (ident_rest_len-render_rest segments)) (
      rw (
        take-length name (render_rest segments),
        drop-length name (render_rest segments),
        skip-render_rest segments v,
      ))

find-close : (s t : Text) → all is_digit s ≡ true → find b']' (s ++ b']' ∷ t) ≡ some (length s)
unfolding find is_digit
find-close [] t h = refl
find-close (c ∷ s) t h = ground (arith, find-close s t)

parse_inner-to_text : (i : ℕ) → i < usize_mod → parse_inner (to_text i) ≡ ok i
unfolding parse_inner
parse_inner-to_text i h = numeral (to_text i) (to_text-IsNumeral i) (value-to_text i)
  where
    numeral : (s : Text) → IsNumeral s → value 0 s ≡ i → parse_inner s ≡ ok i
    numeral [] n e = absurd (n.0 refl)
    numeral (c ∷ []) n e = ground arith
    numeral (c ∷ d ∷ s) n e = ground arith

parse_index-append :
    (i : ℕ) (segments : List PathSegment)
    → i < usize_mod
    → All ValidSegment segments
    → parse_index (b'[' ∷ (to_text i ++ b']' ∷ render_rest segments))
      ≡ ok (index i, render_all segments)
unfolding parse_index find
parse_index-append i segments h v =
    rw (find-close (to_text i) (render_rest segments) (to_text-IsNumeral i).1)
      (closed (to_text i) (parse_inner-to_text i h))
  where
    closed :
        (s : Text)
        → parse_inner s ≡ ok i
        → parse_closed (b'[' ∷ (s ++ b']' ∷ render_rest segments)) (suc (length s))
          ≡ ok (index i, render_all segments)
    closed s e =
        let one : suc (length s) - 1 ≡ length s = omega arith in
        unfold parse_closed in
        rw (one, take-length s (b']' ∷ render_rest segments), e)
          (rw (drop-suc-length s b']' (render_rest segments), skip-render_rest segments v))

no_bracket : (name t : Text) → is_ident name ≡ true → starts_with b'[' (name ++ t) ≡ false
unfolding is_ident starts_with is_ident_start
no_bracket [] t h = cc
no_bracket (c ∷ s) t h = ground arith

parse_one-render_all :
    (segment : PathSegment) (segments : List PathSegment)
    → All ValidSegment (segment ∷ segments)
    → parse_one (render_all (segment ∷ segments)) ≡ ok (segment, render_all segments)
unfolding parse_one render_all render_rest
parse_one-render_all (field name) segments v =
    rw (no_bracket name (render_rest segments) v.0) (parse_ident-append name segments v.0 v.1)
parse_one-render_all (index i) segments v =
    unfold starts_with in parse_index-append i segments v.0 v.1

render_all-ne-nil :
    (segment : PathSegment) (segments : List PathSegment)
    → ValidSegment segment
    → render_all (segment ∷ segments) ≢ []
unfolding render_all is_ident
render_all-ne-nil (field []) segments v h = cc
render_all-ne-nil (field (c ∷ name)) segments v h = cc
render_all-ne-nil (index i) segments v h = cc

parse_segments_step :
    (fuel : ℕ) (s : Text) (segment : PathSegment) (after : Text) (segments : List PathSegment)
    → s ≢ []
    → parse_one s ≡ ok (segment, after)
    → parse_segments fuel after ≡ ok segments
    → parse_segments (suc fuel) s ≡ ok (segment ∷ segments)
unfolding parse_segments
parse_segments_step fuel [] segment after segments ne first rest = absurd (ne refl)
parse_segments_step fuel (c ∷ s) segment after segments ne first rest = rw first (rw rest)

parse_segments-render_all :
    (fuel : ℕ) (segments : List PathSegment)
    → length segments ≤ fuel
    → All ValidSegment segments
    → parse_segments fuel (render_all segments) ≡ ok segments
parse_segments-render_all fuel [] h v = unfold parse_segments render_all in refl
parse_segments-render_all zero (segment ∷ segments) h v = absurd (omega arith)
parse_segments-render_all (suc fuel) (segment ∷ segments) h v =
    parse_segments_step fuel (render_all (segment ∷ segments)) segment (render_all segments)
      segments (render_all-ne-nil segment segments v.0) (parse_one-render_all segment segments v)
      (parse_segments-render_all fuel segments (omega arith) v.1)

length-render_rest : (segments : List PathSegment) → length segments ≤ length (render_rest segments)
unfolding render_rest
length-render_rest [] = omega arith
length-render_rest (field name ∷ segments) =
    omega (arith, length-append name (render_rest segments), length-render_rest segments)
length-render_rest (index i ∷ segments) =
    omega
      (arith, length-append (to_text i) (b']' ∷ render_rest segments), length-render_rest segments)

length-render_all :
    (segments : List PathSegment)
    → All ValidSegment segments
    → length segments ≤ length (render_all segments)
unfolding render_all is_ident
length-render_all [] v = omega arith
length-render_all (field [] ∷ segments) v = cc v.0
length-render_all (field (c ∷ name) ∷ segments) v =
    omega (arith, length-append name (render_rest segments), length-render_rest segments)
length-render_all (index i ∷ segments) v = length-render_rest (index i ∷ segments)

-- Parsing the text of a well-formed path gives the path back: no printed path is taken for
-- JSONPath, no segment is lost or split, and every index keeps its number.
pub parse-render_path : (path : FieldPath) → ValidPath path → parse (render_path path) ≡ ok path
unfolding parse non_empty
parse-render_path path valid =
    rw (render_path-eq path valid.1, reject_jsonpath-render_all path.segments valid.1)
      (rw
        (parse_segments-render_all (length (render_all path.segments)) path.segments
          (length-render_all path.segments valid.1) valid.1)
        (kept path.segments valid.0))
  where
    kept :
        (segments : List PathSegment)
        → segments ≢ []
        → non_empty segments ≡ ok (record { segments = segments })
    kept [] ne = absurd (ne refl)
    kept (s ∷ segments) ne = refl
