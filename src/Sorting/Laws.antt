-- ===== src/Sorting/Laws.antt =====
-- The laws of `sort_by` with a total preorder.
use mathlib.Core.List.{Perm}
use mathlib.Core.List.Perm
use shapeport.Prelude.{
  List, [], ◌∷◌, All, All-map, Ordering, Bool, true, false, ◌≡◌, ◌≢◌, refl, sym, ap, ◌∙◌, ◌⊎◌, inl,
  inr, if◌then◌else◌, arith,
}
use shapeport.Sorting.{reverse_order, insert_by, sort_by, IsOrder}

pub Ordering-cases : (o : Ordering) → (o ≡ Ordering.gt) ⊎ ((o ≡ Ordering.lt) ⊎ (o ≡ Ordering.eq))
Ordering-cases Ordering.gt = inl refl
Ordering-cases Ordering.lt = inr (inl refl)
Ordering-cases Ordering.eq = inr (inr refl)

abbrev pub is_eq : Ordering → Bool
is_eq Ordering.eq = true
is_eq _ = false

module _ {ℓ} {A : Type ℓ} (cmp : A → A → Ordering) where
  -- No element is greater than one that follows it.
  abbrev pub IsSorted : List A → Type 0
  IsSorted [] = Unit
  IsSorted (v ∷ rest) = All (λ w. cmp v w ≢ Ordering.gt) rest × IsSorted rest

  -- The elements that compare equal to `w`, in order.
  unfoldable pub class_of : A → List A → List A
  class_of w [] = []
  class_of w (v ∷ rest) =
      let others = class_of w rest in if is_eq (cmp v w) then v ∷ others else others

  insert_by-perm : (v : A) (l : List A) → Perm (insert_by cmp v l) (v ∷ l)
  unfolding insert_by
  insert_by-perm v [] = Perm.refl (v ∷ [])
  insert_by-perm v (w ∷ rest) = elim (Ordering-cases (cmp v w)) [
    | inl e ↦
        rw (e, insert_by) (Perm.trans (Perm.cons w (insert_by-perm v rest)) (Perm.swap v w rest))
    | inr (inl e) ↦ rw (e, insert_by) (Perm.refl (v ∷ w ∷ rest))
    | inr (inr e) ↦ rw (e, insert_by) (Perm.refl (v ∷ w ∷ rest))
  ]

  insert_by-All {κ} :
      (P : A → Type κ) (v : A) (l : List A) → P v → All P l → All P (insert_by cmp v l)
  unfolding insert_by
  insert_by-All P v [] p h = (p, tt)
  insert_by-All P v (w ∷ rest) p h = elim (Ordering-cases (cmp v w)) [
    | inl e ↦ rw (e, insert_by) (h.0, insert_by-All P v rest p h.1)
    | inr (inl e) ↦ rw (e, insert_by) (p, h)
    | inr (inr e) ↦ rw (e, insert_by) (p, h)
  ]

  -- What holds of every element still does.
  pub sort_by-All {κ} : (P : A → Type κ) (l : List A) → All P l → All P (sort_by cmp l)
  unfolding sort_by
  sort_by-All P [] h = tt
  sort_by-All P (v ∷ rest) h = insert_by-All P v (sort_by cmp rest) h.0 (sort_by-All P rest h.1)

  pub sort_by-perm : (l : List A) → Perm (sort_by cmp l) l
  unfolding sort_by
  sort_by-perm [] = Perm.refl []
  sort_by-perm (v ∷ rest) =
      Perm.trans (insert_by-perm v (sort_by cmp rest)) (Perm.cons v (sort_by-perm rest))

  All-insert_by : (P : A → Type 0) (v : A) (l : List A) → P v → All P l → All P (insert_by cmp v l)
  unfolding insert_by
  All-insert_by P v [] h hs = (h, hs)
  All-insert_by P v (w ∷ rest) h hs = elim (Ordering-cases (cmp v w)) [
    | inl e ↦ rw (e, insert_by) (hs.0, All-insert_by P v rest h hs.1)
    | inr (inl e) ↦ rw (e, insert_by) (h, hs)
    | inr (inr e) ↦ rw (e, insert_by) (h, hs)
  ]

  module _ (o : IsOrder cmp) where
    eq_flip : (a b : A) → cmp a b ≡ Ordering.eq → cmp b a ≡ Ordering.eq
    eq_flip a b h = o.flip a b ∙ ap reverse_order h ∙ unfold reverse_order in refl

    gt_flip : (a b : A) → cmp a b ≡ Ordering.gt → cmp b a ≡ Ordering.lt
    gt_flip a b h = o.flip a b ∙ ap reverse_order h ∙ unfold reverse_order in refl

    -- `≢ gt` is transitive: the step that a sorted tail needs.
    below_trans :
        (a b c : A) → cmp a b ≢ Ordering.gt → cmp b c ≢ Ordering.gt → cmp a c ≢ Ordering.gt
    below_trans a b c h k g = elim (Ordering-cases (cmp a b)) [
      | inl e ↦ h e
      | inr (inl ab) ↦ elim (Ordering-cases (cmp b c)) [
        | inl e ↦ k e
        | inr (inl bc) ↦ cc (o.lt_trans a b c ab bc, g)
        | inr (inr bc) ↦
            let ca = gt_flip a c g in
            let cb : cmp c b ≡ Ordering.lt = o.lt_trans c a b ca ab in cc (cb, eq_flip b c bc)
      ]
      | inr (inr ab) ↦ k (sym (o.eq_left a b c ab) ∙ g)
    ]

    insert_by-IsSorted : (v : A) (l : List A) → IsSorted l → IsSorted (insert_by cmp v l)
    unfolding insert_by
    insert_by-IsSorted v [] h = (tt, tt)
    insert_by-IsSorted v (w ∷ rest) h = elim (Ordering-cases (cmp v w)) [
      | inl e ↦
          rw (e, insert_by)
            (
              All-insert_by (λ x. cmp w x ≢ Ordering.gt) v rest (λ g. cc (gt_flip v w e, g)) h.0,
              insert_by-IsSorted v rest h.1,
            )
      | inr (inl e) ↦ rw (e, insert_by) (at_front w rest h (λ g. cc (e, g)))
      | inr (inr e) ↦ rw (e, insert_by) (at_front w rest h (λ g. cc (e, g)))
    ]
      where
        at_front :
            (w : A) (rest : List A)
            → IsSorted (w ∷ rest)
            → cmp v w ≢ Ordering.gt
            → IsSorted (v ∷ w ∷ rest)
        at_front w rest h below =
            ((below, All-map _ _ (λ x wx. below_trans v w x below wx) rest h.0), h)

    -- The result of `sort_by` is sorted.
    pub sort_by-IsSorted : (l : List A) → IsSorted (sort_by cmp l)
    unfolding sort_by
    sort_by-IsSorted [] = tt
    sort_by-IsSorted (v ∷ rest) = insert_by-IsSorted v (sort_by cmp rest) (sort_by-IsSorted rest)

    class_of-insert_by :
        (u v : A) (l : List A) → class_of u (insert_by cmp v l) ≡ class_of u (v ∷ l)
    unfolding insert_by class_of
    class_of-insert_by u v [] = refl
    class_of-insert_by u v (w ∷ rest) = elim (Ordering-cases (cmp v w)) [
      | inl e ↦ rw (e, insert_by) (passed e (class_of-insert_by u v rest))
      | inr (inl e) ↦ rw (e, insert_by)
      | inr (inr e) ↦ rw (e, insert_by)
    ]
      where
        passed :
            cmp v w ≡ Ordering.gt
            → class_of u (insert_by cmp v rest) ≡ class_of u (v ∷ rest)
            → class_of u (w ∷ insert_by cmp v rest) ≡ class_of u (v ∷ w ∷ rest)
        passed e ih = elim (Ordering-cases (cmp v u)) [
          | inl vu ↦ ground (arith, ih)
          | inr (inl vu) ↦ ground (arith, ih)
          | inr (inr vu) ↦
              let uw : cmp u w ≡ Ordering.gt = o.eq_left u v w (eq_flip v u vu) ∙ e in
              let wu = gt_flip u w uw in ground (arith, ih, vu, wu)
        ]

    -- Equal elements keep their order.
    pub class_of-sort_by : (u : A) (l : List A) → class_of u (sort_by cmp l) ≡ class_of u l
    unfolding sort_by class_of
    class_of-sort_by u [] = refl
    class_of-sort_by u (v ∷ rest) =
        class_of-insert_by u v (sort_by cmp rest) ∙ ground (arith, class_of-sort_by u rest)
