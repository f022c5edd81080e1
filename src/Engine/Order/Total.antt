-- ===== src/Engine/Order/Total.antt =====
-- engine.rs: `compare_records` and its parts as orders.
use mathlib.Core.Path.{fun_ext}
use shapeport.Prelude.{subst, Text, List, [], ◌∷◌, Ordering, ◌≡◌, refl, sym, ap, arith}
use shapeport.Sorting.{reverse_order, IsOrder}
use shapeport.Host.{Host}
use shapeport.Value.{Value}
use shapeport.Plan.{SortKey, SortOrder, NullsOrder}
use shapeport.Engine.Access.{read_segments}
use shapeport.Engine.Order.{text_cmp, directed, rank_value, compare_values, compare_records}

text_cmp_flip : (a b : Text) → text_cmp b a ≡ reverse_order (text_cmp a b)
unfolding text_cmp reverse_order
text_cmp_flip [] [] = refl
text_cmp_flip [] (b ∷ t) = refl
text_cmp_flip (a ∷ s) [] = refl
text_cmp_flip (a ∷ s) (b ∷ t) = ground (arith, text_cmp_flip s t)

text_cmp→eq : (a b : Text) → text_cmp a b ≡ Ordering.eq → a ≡ b
unfolding text_cmp
text_cmp→eq [] [] h = refl
text_cmp→eq [] (b ∷ t) h = cc
text_cmp→eq (a ∷ s) [] h = cc
text_cmp→eq (a ∷ s) (b ∷ t) h = ground (arith, text_cmp→eq s t)

text_cmp_trans :
    (a b c : Text)
    → text_cmp a b ≡ Ordering.lt
    → text_cmp b c ≡ Ordering.lt
    → text_cmp a c ≡ Ordering.lt
unfolding text_cmp
text_cmp_trans [] [] c h k = cc
text_cmp_trans [] (b ∷ t) [] h k = cc
text_cmp_trans [] (b ∷ t) (c ∷ u) h k = refl
text_cmp_trans (a ∷ s) [] c h k = cc
text_cmp_trans (a ∷ s) (b ∷ t) [] h k = cc
text_cmp_trans (a ∷ s) (b ∷ t) (c ∷ u) h k = ground (arith, text_cmp_trans s t u)

pub text_cmp-IsOrder : IsOrder text_cmp
text_cmp-IsOrder = record {
  flip = text_cmp_flip;
  eq_left = λ a b c h. ap (λ x. text_cmp x c) (text_cmp→eq a b h);
  lt_trans = text_cmp_trans;
}

-- Two comparisons one after the other, each over a view of the elements.
module _ {A : Type 0} (p q : A → A → Ordering) where
  abbrev pub lexicographic : A → A → Ordering
  lexicographic a b = elim (p a b) [ Ordering.eq ↦ q a b | other ↦ other ]

  module _ (op : IsOrder p) (oq : IsOrder q) where
    lex_flip : (a b : A) → lexicographic b a ≡ reverse_order (lexicographic a b)
    unfolding reverse_order
    lex_flip a b = ground (arith, op.flip a b, oq.flip a b)

    lex_eq_left :
        (a b c : A) → lexicographic a b ≡ Ordering.eq → lexicographic a c ≡ lexicographic b c
    lex_eq_left a b c h = ground (arith, op.eq_left a b c, oq.eq_left a b c)

    lex_trans :
        (a b c : A)
        → lexicographic a b ≡ Ordering.lt
        → lexicographic b c ≡ Ordering.lt
        → lexicographic a c ≡ Ordering.lt
    unfolding reverse_order
    lex_trans a b c h k = ground (
      arith,
      op.eq_left a b c,
      op.lt_trans a b c,
      oq.lt_trans a b c,
      op.flip a b,
      op.flip a c,
      op.eq_left b c a,
    )

    pub lexicographic-IsOrder : IsOrder lexicographic
    lexicographic-IsOrder = record { flip = lex_flip; eq_left = lex_eq_left; lt_trans = lex_trans }

-- An order read through a function, and an order turned round.
module _ {A B : Type 0} (cmp : B → B → Ordering) (f : A → B) (o : IsOrder cmp) where
  pub through-IsOrder : IsOrder (λ (a b : A). cmp (f a) (f b))
  through-IsOrder = record {
    flip = λ a b. o.flip (f a) (f b);
    eq_left = λ a b c. o.eq_left (f a) (f b) (f c);
    lt_trans = λ a b c. o.lt_trans (f a) (f b) (f c);
  }

directed-IsOrder :
    {A : Type 0} (cmp : A → A → Ordering) (order : SortOrder)
    → IsOrder cmp
    → IsOrder (λ a b. directed order (cmp a b))
unfolding directed reverse_order
directed-IsOrder cmp SortOrder.asc o = o
directed-IsOrder cmp SortOrder.desc o = record {
  flip = λ a b. ap reverse_order (o.flip a b);
  eq_left = λ a b c h. ap reverse_order (o.eq_left a b c (ground arith));
  lt_trans = λ a b c h k. ground (arith, o.flip a b, o.flip b c, o.flip a c, o.lt_trans c b a);
}

module _ (host : Host) (nulls : NullsOrder) where
  abbrev value_cmp : Value → Value → Ordering
  value_cmp a b = compare_values host a b nulls

  rank_flip :
      (a b : Value)
      → text_cmp (rank_value host b) (rank_value host a)
        ≡ reverse_order (text_cmp (rank_value host a) (rank_value host b))
  rank_flip a b = text_cmp_flip (rank_value host a) (rank_value host b)

  value_flip : (a b : Value) → value_cmp b a ≡ reverse_order (value_cmp a b)
  unfolding compare_values
  value_flip a b = ground (arith, rank_flip a b)

  value_eq_left : (a b c : Value) → value_cmp a b ≡ Ordering.eq → value_cmp a c ≡ value_cmp b c
  unfolding compare_values
  value_eq_left a b c h =
      ground (
        arith,
        text_cmp-IsOrder.eq_left (rank_value host a) (rank_value host b) (rank_value host c),
      )

  value_lt_trans :
      (a b c : Value)
      → value_cmp a b ≡ Ordering.lt
      → value_cmp b c ≡ Ordering.lt
      → value_cmp a c ≡ Ordering.lt
  unfolding compare_values
  value_lt_trans a b c h k =
      ground (arith, text_cmp_trans (rank_value host a) (rank_value host b) (rank_value host c))

  -- One value against another, with the nulls first or last.
  pub compare_values-IsOrder : IsOrder value_cmp
  compare_values-IsOrder = record {
    flip = value_flip;
    eq_left = value_eq_left;
    lt_trans = value_lt_trans;
  }

module _ (host : Host) where
  abbrev key_cmp : SortKey → Value → Value → Ordering
  key_cmp key left right = directed key.order (
      compare_values host (read_segments host left key.field.segments)
        (read_segments host right key.field.segments) key.nulls)

  key_cmp-IsOrder : (key : SortKey) → IsOrder (key_cmp key)
  key_cmp-IsOrder key = directed-IsOrder _ key.order (
      through-IsOrder (λ a b. compare_values host a b key.nulls)
        (λ v. read_segments host v key.field.segments) (compare_values-IsOrder host key.nulls))

  compare_step :
      (order : SortOrder) (o r : Ordering)
      → (elim o [ Ordering.eq ↦ r | other ↦ directed order other ])
        ≡ (elim (directed order o) [ Ordering.eq ↦ r | other ↦ other ])
  unfolding directed reverse_order
  compare_step order o r = ground arith

  -- The comparison that `sort` uses is a total preorder for every list of keys, orders and null
  -- placements: swapping the records reverses it, and it is transitive.
  pub compare_records-IsOrder :
      (ks : List SortKey) → IsOrder (λ left right. compare_records host left right ks)
  unfolding compare_records
  compare_records-IsOrder [] = record {
    flip = λ a b. unfold reverse_order in refl;
    eq_left = λ a b c h. refl;
    lt_trans = λ a b c h k. h;
  }
  compare_records-IsOrder (key ∷ ks) =
      let rest = λ (left right : Value). compare_records host left right ks in
      subst IsOrder {x = lexicographic (key_cmp key) rest}
        (fun_ext λ left. fun_ext λ right. sym (
          compare_step key.order
            (compare_values host (read_segments host left key.field.segments)
              (read_segments host right key.field.segments) key.nulls)
            (rest left right)))
        (lexicographic-IsOrder (key_cmp key) rest (key_cmp-IsOrder key)
          (compare_records-IsOrder ks))
