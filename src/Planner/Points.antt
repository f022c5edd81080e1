-- ===== src/Planner/Points.antt =====
-- crates/shapeport-core/src/planner.rs: scores. They are `f64` sums of a few constants between 0 and
-- 4, so a score is the number of units of 2^-56 that it stands for, and a sum is rounded to 53
-- significant bits, ties to even, as IEEE 754 does. Thresholds are
-- any `f64`, up to what comparisons with scores tell apart.
use shapeport.Prelude.{ℕ, ◌+◌, ◌-◌, ◌*◌, ◌/◌, ◌%◌, ◌^◌, Bool, false, ltb, leb, ◌==◌, if◌then◌else◌}

abbrev pub Score : Type 0
Score = ℕ

-- A threshold: no number, or the least number of units that is not below it. Every score is a whole
-- number of units and compares with that number as with the threshold: one that is not positive has 0,
-- infinity has a number beyond the scores.
pub data Threshold : Type 0 where
  nan : Threshold
  units : ℕ → Threshold

-- `score < threshold` and `score >= threshold`; a comparison with no number is false.
unfoldable pub is_below : Score → Threshold → Bool
is_below score Threshold.nan = false
is_below score (Threshold.units t) = ltb score t

unfoldable pub is_reached : Score → Threshold → Bool
is_reached score Threshold.nan = false
is_reached score (Threshold.units t) = leb t score

-- 0.80, 0.75, 0.65, 0.20, 0.10, 0.05 and 0.95 as doubles.
abbrev pub direct_score : Score
direct_score = 57646075230342352

abbrev pub normalized_score : Score
normalized_score = 54043195528445952

abbrev pub synonym_score : Score
synonym_score = 46837436124653160

abbrev pub same_type_score : Score
same_type_score = 14411518807585588

abbrev pub compatible_score : Score
compatible_score = 7205759403792794

abbrev pub tie_margin : Score
tie_margin = 3602879701896397

abbrev pub default_auto_accept : Score
default_auto_accept = 68454714336031536

-- Drop the last `k` bits, to the nearest and to an even quotient at a tie.
unfoldable pub round_bits : ℕ → ℕ → ℕ
round_bits k n =
    let q = n / 2 ^ k in
    let r = n % 2 ^ k in
    let half = 2 ^ (k - 1) in
    if ltb r half
    then q * 2 ^ k
    else if ltb half r
    then (q + 1) * 2 ^ k
    else if q % 2 == 0
    then q * 2 ^ k
    else (q + 1) * 2 ^ k

-- Exact below 2^53 units; a sum below 4.0 has at most 58 bits.
unfoldable pub round_score : ℕ → Score
unfolding round_bits
round_score n =
    if ltb n (2 ^ 53)
    then n
    else if ltb n (2 ^ 54)
    then round_bits 1 n
    else if ltb n (2 ^ 55)
    then round_bits 2 n
    else if ltb n (2 ^ 56)
    then round_bits 3 n
    else if ltb n (2 ^ 57)
    then round_bits 4 n
    else round_bits 5 n

unfoldable pub add_score : Score → Score → Score
unfolding round_score
add_score a b = round_score (a + b)

-- `(a - b).abs()`
unfoldable pub score_gap : Score → Score → Score
unfolding round_score
score_gap a b = if leb b a then round_score (a - b) else round_score (b - a)
