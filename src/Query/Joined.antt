-- ===== src/Query/Joined.antt =====
-- query.rs: the rows of a join.
use shapeport.Prelude.{
  ◌≡◌, ◌⊎◌, ◌↔◌, refl, inl, inr, Bool, true, false, Bool-cases, List, [], ◌∷◌, ◌++◌, All,
}
use shapeport.Host.{Host}
use shapeport.Value.{Value}
use shapeport.Query.Joins.{merge_objects, matches, or_left, equi_join}

-- A predicate at some element.
abbrev pub AnyOf : (Value → Type 0) → List Value → Type 0
AnyOf P [] = ⊥
AnyOf P (v ∷ rest) = P v ⊎ AnyOf P rest

AnyOf-append :
    (P : Value → Type 0) (xs ys : List Value) → AnyOf P (xs ++ ys) ↔ (AnyOf P xs ⊎ AnyOf P ys)
AnyOf-append P [] ys = (λ h. inr h, λ h. elim h [ inl x ↦ absurd x | inr y ↦ y ])
AnyOf-append P (x ∷ xs) ys =
    let later = AnyOf-append P xs ys in
    (
      λ h. elim h [
        | inl here ↦ inl (inl here)
        | inr there ↦ elim (later.0 there) [ inl a ↦ inl (inr a) | inr b ↦ inr b ]
      ],
      λ h. elim h [
        | inl first ↦ elim first [ inl here ↦ inl here | inr there ↦ inr (later.1 (inl there)) ]
        | inr second ↦ inr (later.1 (inr second))
      ],
    )

module _ (host : Host) where
  -- The row is a match of the two rows, merged.
  abbrev pub Merged : (Value → Bool) → Value → Value → Value → Type 0
  Merged joined left v right = (joined right ≡ true) × (merge_objects host left right ≡ v)

  matches_iff :
      (joined : Value → Bool) (left v : Value) (rights : List Value)
      → AnyOf (λ x. x ≡ v) (matches host joined left rights) ↔ AnyOf (Merged joined left v) rights
  unfolding matches
  matches_iff joined left v [] = (λ h. h, λ h. h)
  matches_iff joined left v (right ∷ rights) =
      let later = matches_iff joined left v rights in
      elim (Bool-cases (joined right)) [
        | inl yes_right ↦ rw yes_right (
          λ h. elim h [ inl here ↦ inl (refl, here) | inr there ↦ inr (later.0 there) ],
          λ h. elim h [ inl here ↦ inl here.1 | inr there ↦ inr (later.1 there) ],
        )
        | inr no_right ↦
            rw no_right (
              λ h. inr (later.0 h),
              λ h. elim h [ inl here ↦ cc here.0 | inr there ↦ later.1 there ],
            )
      ]

  -- No right row matches.
  abbrev pub Unmatched : (Value → Bool) → List Value → Type 0
  Unmatched joined rights = All (λ right. joined right ≡ false) rights

  Unmatched-iff :
      (joined : Value → Bool) (left : Value) (rights : List Value)
      → (matches host joined left rights ≡ []) ↔ Unmatched joined rights
  unfolding matches
  Unmatched-iff joined left [] = (λ h. tt, λ h. refl)
  Unmatched-iff joined left (right ∷ rights) =
      let later = Unmatched-iff joined left rights in
      elim (Bool-cases (joined right)) [
        | inl yes_right ↦ rw yes_right (λ h. cc h, λ h. cc h.0)
        | inr no_right ↦ rw no_right (λ h. (refl, later.0 h), λ h. later.1 h.1)
      ]

  or_left_iff :
      (is_left : Bool) (left v : Value) (found : List Value)
      → AnyOf (λ x. x ≡ v) (or_left host is_left left found)
        ↔ (AnyOf (λ x. x ≡ v) found ⊎ ((is_left ≡ true) × (left ≡ v) × (found ≡ [])))
  or_left_iff true left v [] = (
    λ h. elim h [ inl here ↦ inr (refl, here, refl) | inr there ↦ absurd there ],
    λ h. elim h [ inl found ↦ absurd found | inr kept ↦ inl kept.1 ],
  )
  or_left_iff false left v [] =
      (λ h. absurd h, λ h. elim h [ inl found ↦ found | inr kept ↦ cc kept.0 ])
  or_left_iff is_left left v (x ∷ rest) =
      (λ h. inl h, λ h. elim h [ inl found ↦ found | inr kept ↦ cc kept.2 ])

  -- A row of the join that comes from this left row: the left row merged with a right row that
  -- matches, or in a left join the left row alone where no right row matches.
  abbrev pub FromLeft : (Value → Value → Bool) → Bool → List Value → Value → Value → Type 0
  FromLeft on is_left rights v left =
      AnyOf (Merged (on left) left v) rights
      ⊎ ((is_left ≡ true) × (left ≡ v) × Unmatched (on left) rights)

  FromLeft-iff :
      (on : Value → Value → Bool) (is_left : Bool) (left v : Value) (rights : List Value)
      → AnyOf (λ x. x ≡ v) (or_left host is_left left (matches host (on left) left rights))
        ↔ FromLeft on is_left rights v left
  FromLeft-iff on is_left left v rights =
      let row = or_left_iff is_left left v (matches host (on left) left rights) in
      let merged = matches_iff (on left) left v rights in
      let alone = Unmatched-iff (on left) left rights in
      (
        λ h. elim (row.0 h) [
          | inl found ↦ inl (merged.0 found)
          | inr kept ↦ inr (kept.0, kept.1, alone.0 kept.2)
        ],
        λ h. elim h [
          | inl found ↦ row.1 (inl (merged.1 found))
          | inr kept ↦ row.1 (inr (kept.0, kept.1, alone.1 kept.2))
        ],
      )

  -- A row is in a join exactly when some left row gives it: merged with a right row that matches, or,
  -- in a left join, by itself where no right row matches.
  pub equi_join_iff :
      (on : Value → Value → Bool) (is_left : Bool) (lefts rights : List Value) (v : Value)
      → AnyOf (λ x. x ≡ v) (equi_join host on is_left lefts rights)
        ↔ AnyOf (FromLeft on is_left rights v) lefts
  unfolding equi_join
  equi_join_iff on is_left [] rights v = (λ h. h, λ h. h)
  equi_join_iff on is_left (left ∷ lefts) rights v =
      let here = FromLeft-iff on is_left left v rights in
      let later = equi_join_iff on is_left lefts rights v in
      let both =
        AnyOf-append (λ x. x ≡ v) (or_left host is_left left (matches host (on left) left rights))
          (equi_join host on is_left lefts rights) in
      (
        λ h. elim (both.0 h) [ inl a ↦ inl (here.0 a) | inr b ↦ inr (later.0 b) ],
        λ h. elim h [ inl a ↦ both.1 (inl (here.1 a)) | inr b ↦ both.1 (inr (later.1 b)) ],
      )
