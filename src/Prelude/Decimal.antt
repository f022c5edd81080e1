-- ===== src/Prelude/Decimal.antt =====
-- `to_string` and `parse` of unsigned integers: decimal digits, most significant first.
use Prim.Native.Nat.{ℕ, zero, suc, ◌+◌, ◌-◌, ◌*◌, ◌/◌, ◌%◌, ◌≤◌, ◌<◌}
use mathlib.Core.Path.{◌≡◌, refl, ◌∙◌}
use mathlib.Core.Bool.{Bool, true, false}
use mathlib.Core.List.{[], ◌∷◌, ◌++◌}
use mathlib.Core.Logic.{◌≢◌, ◌⊎◌, inl, inr}
use native.Mathlib.Omega.{arith}
use shapeport.Prelude.Tests.{ltb, Bool-cases, &&_split}
use shapeport.Prelude.Lists.{all, length}
use shapeport.Prelude.Strings.{Text, is_digit, starts_with}

-- The digits of `n`, with fuel at least `n`.
unfoldable pub digits : ℕ → ℕ → Text
digits zero n = (48 + n) ∷ []
digits (suc f) n = elim (ltb n 10) [
  | true ↦ (48 + n) ∷ []
  | false ↦ digits f (n / 10) ++ (48 + n % 10) ∷ []
]

-- `n.to_string()`
unfoldable pub to_text : ℕ → Text
unfolding digits
to_text n = digits n n

-- The number that a text of digits denotes, after `acc`.
unfoldable pub value : ℕ → Text → ℕ
value acc [] = acc
value acc (c ∷ s) = value (acc * 10 + (c - 48)) s

value-append : (acc : ℕ) (s t : Text) → value acc (s ++ t) ≡ value (value acc s) t
unfolding value
value-append acc [] t = refl
value-append acc (c ∷ s) t = value-append (acc * 10 + (c - 48)) s t

value-digits : (f n : ℕ) → n ≤ f → value 0 (digits f n) ≡ n
unfolding value digits
value-digits zero n h = omega arith
value-digits (suc f) n h = elim (Bool-cases (ltb n 10)) [
  | inl small ↦ rw (small, digits) (omega arith)
  | inr big ↦
      rw (big, digits)
        (rw (value-append 0 (digits f (n / 10)) ((48 + n % 10) ∷ []))
          (rw (value-digits f (n / 10) (ground arith)) (omega arith)))
]

-- Printing and reading a number is the identity.
pub value-to_text : (n : ℕ) → value 0 (to_text n) ≡ n
unfolding to_text
value-to_text n = value-digits n n (omega arith)

pub all-append :
    (p : ℕ → Bool) (s t : Text) → all p s ≡ true → all p t ≡ true → all p (s ++ t) ≡ true
all-append p [] t h k = k
all-append p (c ∷ s) t h k =
    let parts = &&_split (p c) (all p s) h in rw (parts.0, all-append p s t parts.1 k)

is_digit-below : (n : ℕ) → n < 10 → all is_digit ((48 + n) ∷ []) ≡ true
unfolding is_digit
is_digit-below n h = ground arith

digits-are_digits : (f n : ℕ) → n ≤ f → all is_digit (digits f n) ≡ true
unfolding digits
digits-are_digits zero n h = is_digit-below n (omega arith)
digits-are_digits (suc f) n h = elim (Bool-cases (ltb n 10)) [
  | inl small ↦ rw (small, digits) (is_digit-below n (ground arith))
  | inr big ↦
      rw (big, digits)
        (all-append is_digit (digits f (n / 10)) ((48 + n % 10) ∷ [])
          (digits-are_digits f (n / 10) (ground arith)) (is_digit-below (n % 10) (omega arith)))
]

starts_with-append : (c : ℕ) (s t : Text) → s ≢ [] → starts_with c (s ++ t) ≡ starts_with c s
unfolding starts_with
starts_with-append c [] t h = absurd (h refl)
starts_with-append c (a ∷ s) t h = refl

snoc-ne-nil : (s : Text) (c : ℕ) → s ++ c ∷ [] ≢ []
snoc-ne-nil [] c h = cc
snoc-ne-nil (a ∷ s) c h = cc

digits-ne-nil : (f n : ℕ) → digits f n ≢ []
unfolding digits
digits-ne-nil zero n h = cc
digits-ne-nil (suc f) n h = elim (Bool-cases (ltb n 10)) [
  | inl small ↦ cc (rw (small, digits) at h)
  | inr big ↦ snoc-ne-nil (digits f (n / 10)) (48 + n % 10) (rw (big, digits) at h)
]

digits_no_leading_zero : (f n : ℕ) → n ≤ f → 0 < n → starts_with b'0' (digits f n) ≡ false
unfolding digits starts_with
digits_no_leading_zero zero n h k = absurd (omega arith)
digits_no_leading_zero (suc f) n h k = elim (Bool-cases (ltb n 10)) [
  | inl small ↦ rw (small, digits) (ground arith)
  | inr big ↦
      rw (big, digits)
        (starts_with-append b'0' (digits f (n / 10)) ((48 + n % 10) ∷ []) (digits-ne-nil f (n / 10))
          ∙ digits_no_leading_zero f (n / 10) (ground arith) (ground arith))
]

-- A text is a canonical numeral: digits, at least one, and no leading zero but in `0`.
abbrev pub IsNumeral : Text → Type 0
IsNumeral s = (s ≢ []) × (all is_digit s ≡ true) × ((length s ≡ 1) ⊎ (starts_with b'0' s ≡ false))

pub to_text-IsNumeral : (n : ℕ) → IsNumeral (to_text n)
unfolding to_text digits is_digit
to_text-IsNumeral zero = (λ h. cc h, refl, inl refl)
to_text-IsNumeral (suc n) = (
  digits-ne-nil (suc n) (suc n),
  digits-are_digits (suc n) (suc n) (omega arith),
  inr (digits_no_leading_zero (suc n) (suc n) (omega arith) (omega arith)),
)
