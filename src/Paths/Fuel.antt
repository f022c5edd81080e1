-- ===== src/Paths/Fuel.antt =====
-- path.rs: how much of its input each round of the loop of `parse` takes.
use shapeport.Prelude.{
  ℕ, zero, suc, ◌-◌, ◌≤◌, ◌<◌, ◌≡◌, ◌≢◌, inl, inr, Option, none, some, List, [], ◌∷◌, length,
  length-drop, take, drop, Text, starts_with, arith, Bool-cases,
}
use shapeport.Error.{ok, err, >>=-eq-ok, >>=-eq-err, Result-cases}
use shapeport.Paths.{
  PathSegment, ident_len, skip_dot_or_keep, parse_ident, parse_inner, close_index, find,
  parse_index, parse_one, out_of_fuel, parse_segments, reject_jsonpath, non_empty, parse,
}

ident_len_pos : (s : Text) (len : ℕ) → ident_len s ≡ ok len → 0 < len
unfolding ident_len
ident_len_pos [] len h = cc
ident_len_pos (c ∷ s) len h = ground arith

skip_dot_or_keep-le : (s after : Text) → skip_dot_or_keep s ≡ ok after → length after ≤ length s
unfolding skip_dot_or_keep
skip_dot_or_keep-le [] after h = ground arith
skip_dot_or_keep-le (c ∷ []) after h = ground arith
skip_dot_or_keep-le (c ∷ d ∷ s) after h = ground arith

parse_ident-lt :
    (c : ℕ) (s : Text) (r : PathSegment × Text) → parse_ident (c ∷ s) ≡ ok r → length r.1 ≤ length s
unfolding parse_ident
parse_ident-lt c s r h =
    let (len, named, h₁) = >>=-eq-ok (ident_len (c ∷ s)) _ h in
    let (after, skipped, h₂) = >>=-eq-ok (skip_dot_or_keep (drop len (c ∷ s))) _ h₁ in
    let e : after ≡ r.1 = cc h₂ in
    rw (← e) (
      omega (
        arith,
        skip_dot_or_keep-le (drop len (c ∷ s)) after skipped,
        length-drop len (c ∷ s),
        ident_len_pos (c ∷ s) len named,
      ))

close_index-lt :
    (c : ℕ) (s : Text) (o : Option ℕ) (r : PathSegment × Text)
    → close_index (c ∷ s) o ≡ ok r
    → length r.1 ≤ length s
unfolding close_index
close_index-lt c s none r h = cc
close_index-lt c s (some close) r h =
    let (i, numbered, h₁) = >>=-eq-ok (parse_inner (take (close - 1) (drop 1 (c ∷ s)))) _ h in
    let (after, skipped, h₂) = >>=-eq-ok (skip_dot_or_keep (drop (suc close) (c ∷ s))) _ h₁ in
    let e : after ≡ r.1 = cc h₂ in
    rw (← e) (omega (arith, skip_dot_or_keep-le (drop close s) after skipped, length-drop close s))

parse_one-lt :
    (c : ℕ) (s : Text) (r : PathSegment × Text) → parse_one (c ∷ s) ≡ ok r → length r.1 ≤ length s
unfolding parse_one parse_index
parse_one-lt c s r h = elim (Bool-cases (starts_with b'[' (c ∷ s))) [
  | inl bracket ↦ close_index-lt c s (find b']' (c ∷ s)) r (rw (bracket, parse_one) at h)
  | inr letter ↦ parse_ident-lt c s r (rw (letter, parse_one) at h)
]

skip-ne-out_of_fuel : (s : Text) → skip_dot_or_keep s ≢ err out_of_fuel
unfolding skip_dot_or_keep
skip-ne-out_of_fuel [] h = cc
skip-ne-out_of_fuel (c ∷ []) h = ground arith
skip-ne-out_of_fuel (c ∷ d ∷ s) h = ground arith

ident_len-ne-out_of_fuel : (s : Text) → ident_len s ≢ err out_of_fuel
unfolding ident_len
ident_len-ne-out_of_fuel [] h = cc
ident_len-ne-out_of_fuel (c ∷ s) h = ground arith

parse_inner-ne-out_of_fuel : (s : Text) → parse_inner s ≢ err out_of_fuel
unfolding parse_inner
parse_inner-ne-out_of_fuel s h = ground arith

close_index-ne-out_of_fuel : (s : Text) (o : Option ℕ) → close_index s o ≢ err out_of_fuel
unfolding close_index
close_index-ne-out_of_fuel s none h = cc
close_index-ne-out_of_fuel s (some close) h = ground (
  arith,
  parse_inner-ne-out_of_fuel (take (close - 1) (drop 1 s)),
  skip-ne-out_of_fuel (drop (suc close) s),
)

parse_one-ne-out_of_fuel : (s : Text) → parse_one s ≢ err out_of_fuel
unfolding parse_one parse_index parse_ident
parse_one-ne-out_of_fuel s h = elim (Bool-cases (starts_with b'[' s)) [
  | inl bracket ↦ close_index-ne-out_of_fuel s (find b']' s) (rw (bracket, parse_one) at h)
  | inr letter ↦ parse_ident-ne (rw (letter, parse_one) at h)
]
  where
    parse_ident-ne : parse_ident s ≢ err out_of_fuel
    parse_ident-ne e = elim (Result-cases (ident_len s)) [
      | inl (len, named) ↦ ground (arith, skip-ne-out_of_fuel (drop len s))
      | inr (x, failed) ↦ ident_len-ne-out_of_fuel s (cc)
    ]

-- Fuel for each character is enough.
pub parse_segments-ne-out_of_fuel :
    (fuel : ℕ) (s : Text) → length s ≤ fuel → parse_segments fuel s ≢ err out_of_fuel
unfolding parse_segments
parse_segments-ne-out_of_fuel fuel [] h e = cc
parse_segments-ne-out_of_fuel zero (c ∷ s) h e = absurd (omega arith)
parse_segments-ne-out_of_fuel (suc fuel) (c ∷ s) h e = elim (Result-cases (parse_one (c ∷ s))) [
  | inl (one, first) ↦
      let shorter = parse_one-lt c s one first in
      let ih = parse_segments-ne-out_of_fuel fuel one.1 (omega arith) in
      let e' = rw (first, parse_segments) at e in
      elim (Result-cases (parse_segments fuel one.1)) [
        | inl (rest, others) ↦ cc (rw others at e')
        | inr (x, failed) ↦ ih (cc (failed, rw failed at e'))
      ]
  | inr (x, failed) ↦
      parse_one-ne-out_of_fuel (c ∷ s) (cc (failed, rw (failed, parse_segments) at e))
]

reject-ne-out_of_fuel : (s : Text) → reject_jsonpath s ≢ err out_of_fuel
unfolding reject_jsonpath
reject-ne-out_of_fuel s h = ground arith

-- `parse` ends on every input: the fuel that it starts with never runs out.
pub parse_terminates : (input : Text) → parse input ≢ err out_of_fuel
unfolding parse non_empty
parse_terminates input h = elim (>>=-eq-err (reject_jsonpath input) _ h) [
  | inl rejected ↦ reject-ne-out_of_fuel input rejected
  | inr (u, allowed, h₁) ↦ elim (>>=-eq-err (parse_segments (length input) input) _ h₁) [
    | inl failed ↦ parse_segments-ne-out_of_fuel (length input) input (omega arith) failed
    | inr (segments, scanned, h₂) ↦ non_empty-ne segments h₂
  ]
]
  where
    non_empty-ne : (segments : List PathSegment) → non_empty segments ≢ err out_of_fuel
    non_empty-ne [] e = cc
    non_empty-ne (x ∷ xs) e = cc
