-- ===== src/Formats/Integers.antt =====
-- formats.rs: an integer that is written to a cell and read back.
use shapeport.Prelude.{
  ℕ, suc, ℤ, pos, negsuc, ◌^◌, ◌<◌, ◌≤◌, ◌-◌, ◌≡◌, refl, inl, inr, ap, true, false, ltb, ◌==◌,
  &&_split, Text, all, is_digit, starts_with, to_text, value, value-to_text, IsNumeral,
  to_text-IsNumeral, some, [], ◌∷◌, if◌then◌else◌, arith,
}
use shapeport.Error.{ok}
use shapeport.Host.{Host, has_key}
use shapeport.Value.{Value}
use shapeport.Functions.Args.{int_to_text}
use shapeport.Engine.Cast.{parse_magnitude, parse_i64}
use shapeport.Config.{InferMode}
use shapeport.Formats.Cells.{
  DecodeOptions, has_leading_zero_numeric, conservative_cell, infer_cell, cell_text,
}

-- The integers that an `i64` holds.
abbrev pub InI64 : ℤ → Type 0
InI64 (pos n) = n < 2 ^ 63
InI64 (negsuc n) = suc n ≤ 2 ^ 63

numeral_no_zero : (s : Text) → IsNumeral s → has_leading_zero_numeric s ≡ false
unfolding has_leading_zero_numeric starts_with
numeral_no_zero [] num = refl
numeral_no_zero (a ∷ []) num = refl
numeral_no_zero (a ∷ b ∷ s) (some_digit, digits, inl one) = absurd (omega (arith, one))
numeral_no_zero (a ∷ b ∷ s) (some_digit, digits, inr plain) = rw plain refl

-- A negative number's text starts with its sign.
signed_no_zero : (s : Text) → has_leading_zero_numeric (b'-' ∷ s) ≡ false
unfolding has_leading_zero_numeric
signed_no_zero [] = refl
signed_no_zero (b ∷ s) = refl

positive_magnitude :
    (s : Text) → IsNumeral s → value 0 s < 2 ^ 63 → parse_magnitude false s ≡ some (pos (value 0 s))
unfolding parse_magnitude
positive_magnitude [] num h = absurd (num.0 refl)
positive_magnitude (c ∷ s) num h = rw num.1 (rw (below _ _ h) refl)
  where
    below : (a b : ℕ) → a < b → ltb a b ≡ true
    below a b k = ground arith

digit-unsigned : (c : ℕ) → is_digit c ≡ true → ((c == b'-') ≡ false) × ((c == b'+') ≡ false)
unfolding is_digit
digit-unsigned c h = (ground arith, ground arith)

parse-numeral : (s : Text) → IsNumeral s → value 0 s < 2 ^ 63 → parse_i64 s ≡ some (pos (value 0 s))
unfolding parse_i64
parse-numeral [] num h = absurd (num.0 refl)
parse-numeral (c ∷ s) num h =
    let unsigned = digit-unsigned c (&&_split (is_digit c) (all is_digit s) num.1).0 in
    rw unsigned.0 (rw unsigned.1 (positive_magnitude (c ∷ s) num h))

negative_magnitude :
    (s : Text) (n : ℕ)
    → IsNumeral s
    → value 0 s ≡ suc n
    → suc n ≤ 2 ^ 63
    → parse_magnitude true s ≡ some (negsuc n)
unfolding parse_magnitude
negative_magnitude [] n num e h = absurd (num.0 refl)
negative_magnitude (c ∷ s) n num e h = rw num.1 (rw e (rw (fits _ _ h) (ap some (kept n))))
  where
    kept : (m : ℕ) → (if suc m == 0 then pos 0 else negsuc (suc m - 1)) ≡ negsuc m
    kept m = ground arith

    fits : (a b : ℕ) → a ≤ b → ltb b a ≡ false
    fits a b k = ground arith

conservative-int : (n : ℤ) → InI64 n → conservative_cell (int_to_text n) ≡ Value.int n
unfolding conservative_cell int_to_text
conservative-int (pos n) h =
    let num = to_text-IsNumeral n in
    rw (numeral_no_zero (to_text n) num)
      (rw (parse-numeral (to_text n) num (rw (value-to_text n) h)) (rw (value-to_text n) refl))
conservative-int (negsuc n) h = rw (signed_no_zero (to_text (suc n))) (rw (parse-negative n h) refl)
  where
    parse-negative : (m : ℕ) → suc m ≤ 2 ^ 63 → parse_i64 (b'-' ∷ to_text (suc m)) ≡ some (negsuc m)
    parse-negative m k =
        negative_magnitude (to_text (suc m)) m (to_text-IsNumeral (suc m)) (value-to_text (suc m)) k

-- An `i64` that is written to a cell is read back under conservative inference, unless its text is
-- configured as a null spelling.
pub infer_cell-cell_text :
    (host : Host) (n : ℤ) (options : DecodeOptions)
    → InI64 n
    → options.infer ≡ InferMode.conservative
    → has_key (int_to_text n) options.null_spellings ≡ false
    → (text : Text) × (cell_text host (Value.int n) ≡ ok text)
      × (infer_cell host text options ≡ Value.int n)
unfolding infer_cell cell_text
infer_cell-cell_text host n options h mode no_null =
    (int_to_text n, refl, rw no_null (rw mode (conservative-int n h)))
