-- ===== src/Sorting.antt =====
-- Rust's `slice::sort_by`, the stable sort of the standard library, and comparisons into `Ordering`.
pub mod Laws
use shapeport.Prelude.{List, [], ◌∷◌, Ordering, ◌≡◌}

unfoldable pub reverse_order : Ordering → Ordering
reverse_order Ordering.lt = Ordering.gt
reverse_order Ordering.eq = Ordering.eq
reverse_order Ordering.gt = Ordering.lt

module _ {ℓ} {A : Type ℓ} where
  -- Insertion before the first element that is not smaller.
  unfoldable pub insert_by : (A → A → Ordering) → A → List A → List A
  insert_by cmp v [] = v ∷ []
  insert_by cmp v (w ∷ rest) = elim (cmp v w) [
    | Ordering.gt ↦ w ∷ insert_by cmp v rest
    | _ ↦ v ∷ w ∷ rest
  ]

  unfoldable pub sort_by : (A → A → Ordering) → List A → List A
  unfolding insert_by
  sort_by cmp [] = []
  sort_by cmp (v ∷ rest) = insert_by cmp v (sort_by cmp rest)

  -- A total preorder: what `sort_by` asks of its comparison.
  pub record IsOrder (cmp : A → A → Ordering) : Type ℓ where
    pub flip : (a b : A) → cmp b a ≡ reverse_order (cmp a b)
    pub eq_left : (a b c : A) → cmp a b ≡ Ordering.eq → cmp a c ≡ cmp b c
    pub lt_trans :
        (a b c : A) → cmp a b ≡ Ordering.lt → cmp b c ≡ Ordering.lt → cmp a c ≡ Ordering.lt
