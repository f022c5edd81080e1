-- ===== src/Paths.antt =====
-- crates/shapeport-core/src/path.rs: field paths, their parser and their printer.
pub mod Valid
pub mod Render
pub mod RoundTrip
pub mod Fuel
use shapeport.Prelude.{
  ℕ, zero, suc, ◌+◌, ◌-◌, ◌^◌, Bool, true, false, ◌&&◌, ◌||◌, Option, none, some, List, [], ◌∷◌,
  ◌++◌, length, is_empty, take, drop, all, Text, starts_with, contains, is_digit, is_alphabetic,
  is_alphanumeric, to_text, value, ltb, leb, ◌==◌, if◌then◌else◌,
}
use shapeport.Error
use shapeport.Error.{Error, Result, ok, err, ◌>>=◌, ◌>>◌}

pub data PathSegment : Type 0 where
  field : Text → PathSegment
  index : ℕ → PathSegment

pub record FieldPath : Type 0 where
  pub segments : List PathSegment

-- `usize` on a 64-bit target.
abbrev pub usize_mod : ℕ
usize_mod = 2 ^ 64

-- `input.contains("..")`
unfoldable pub contains_dots : Text → Bool
contains_dots [] = false
contains_dots (a ∷ s) = a == b'.' && starts_with b'.' s || contains_dots s

unfoldable pub reject_jsonpath : Text → Result (Unit {0})
unfolding contains_dots starts_with contains
reject_jsonpath input =
    let invalid =
      starts_with b'$' input
      || contains_dots input
      || contains b'?' input
      || contains b'@' input
      || contains b'*' input
      || contains 39 input
      || contains 34 input in
    if invalid then err (Error.plan "jsonpath_forbidden") else ok tt

unfoldable pub is_ident_start : ℕ → Bool
unfolding is_alphabetic
is_ident_start ch = is_alphabetic ch || ch == b'_'

unfoldable pub is_ident_continue : ℕ → Bool
unfolding is_alphanumeric
is_ident_continue ch = is_alphanumeric ch || ch == b'_'

-- How many of the leading characters continue an identifier.
unfoldable pub ident_rest_len : Text → ℕ
ident_rest_len [] = 0
ident_rest_len (ch ∷ chars) = if is_ident_continue ch then suc (ident_rest_len chars) else 0

unfoldable pub ident_len : Text → Result ℕ
ident_len [] = err (Error.plan "invalid_path")
ident_len (first ∷ chars) =
    if is_ident_start first
    then ok (suc (ident_rest_len chars))
    else err (Error.plan "invalid_path")

unfoldable pub skip_dot_or_keep : Text → Result Text
skip_dot_or_keep [] = ok []
skip_dot_or_keep (c ∷ stripped) =
    if c == b'['
    then ok (c ∷ stripped)
    else if c == b'.'
    then (elim stripped [ [] ↦ err (Error.plan "invalid_path") | a ∷ s ↦ ok (a ∷ s) ])
    else err (Error.plan "invalid_path")

unfoldable pub parse_ident : Text → Result (PathSegment × Text)
parse_ident rest = do
  len ← ident_len rest
  after ← skip_dot_or_keep (drop len rest)
  ok (field (take len rest), after)

-- `rest.find(']')`
unfoldable pub find : ℕ → Text → Option ℕ
find c [] = none
find c (a ∷ s) =
    if a == c then some 0 else (elim (find c s) [ none ↦ none | some n ↦ some (suc n) ])

-- The checks on the text between the brackets, and its number.
unfoldable pub parse_inner : Text → Result ℕ
unfolding is_digit starts_with
parse_inner inner =
    if is_empty inner || ltb 1 (length inner) && starts_with b'0' inner
    then err (Error.plan "invalid_path")
    else if all is_digit inner
    then (if ltb (value 0 inner) usize_mod
        then ok (value 0 inner)
        else err (Error.plan "invalid_path"))
    else err (Error.plan "invalid_path")

-- `parse_index` once the closing bracket is found.
unfoldable pub parse_closed : Text → ℕ → Result (PathSegment × Text)
parse_closed rest close = do
  i ← parse_inner (take (close - 1) (drop 1 rest))
  after ← skip_dot_or_keep (drop (suc close) rest)
  ok (index i, after)

unfoldable pub close_index : Text → Option ℕ → Result (PathSegment × Text)
unfolding parse_closed
close_index rest none = err (Error.plan "invalid_path")
close_index rest (some close) = parse_closed rest close

unfoldable pub parse_index : Text → Result (PathSegment × Text)
unfolding close_index
parse_index rest = close_index rest (find b']' rest)

unfoldable pub parse_one : Text → Result (PathSegment × Text)
parse_one rest = if starts_with b'[' rest then parse_index rest else parse_ident rest

-- No error of the program: the loop below was given too little fuel.
abbrev pub out_of_fuel : Error
out_of_fuel = record { kind = Error.internal.kind; code = "out_of_fuel" }

-- `while !rest.is_empty()`, a unit of fuel for each round.
unfoldable pub parse_segments : ℕ → Text → Result (List PathSegment)
parse_segments fuel [] = ok []
parse_segments zero (c ∷ s) = err out_of_fuel
parse_segments (suc fuel) (c ∷ s) = parse_one (c ∷ s) >>= λ (segment, after).
    parse_segments fuel after >>= λ segments. ok (segment ∷ segments)

unfoldable pub non_empty : List PathSegment → Result FieldPath
non_empty [] = err (Error.plan "empty_path")
non_empty (s ∷ segments) = ok (record { segments = s ∷ segments })

-- Each round takes a character at least, so the length is fuel enough.
unfoldable pub parse : Text → Result FieldPath
unfolding non_empty
parse input = do
  reject_jsonpath input
  segments ← parse_segments (length input) input
  non_empty segments

unfoldable pub simple_of : List PathSegment → Option Text
simple_of (field name ∷ []) = some name
simple_of _ = none

unfoldable pub simple_name : FieldPath → Option Text
unfolding simple_of
simple_name path = simple_of path.segments

-- The loop of `render_path`, over the text written so far.
unfoldable pub render_onto : Text → List PathSegment → Text
render_onto out [] = out
render_onto out (field name ∷ segments) =
    render_onto ((if is_empty out then out else out ++ b'.' ∷ []) ++ name) segments
render_onto out (index i ∷ segments) = render_onto (out ++ b'[' ∷ (to_text i ++ b']' ∷ [])) segments

-- `Display` for `FieldPath`.
unfoldable pub render_path : FieldPath → Text
unfolding render_onto
render_path path = render_onto [] path.segments
