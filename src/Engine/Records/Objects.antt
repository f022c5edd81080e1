-- ===== src/Engine/Records/Objects.antt =====
-- engine.rs: the object that `map` and `object` build.
use shapeport.Prelude.{
  ◌≡◌, refl, sym, ap, ◌∙◌, inl, inr, false, Bool-cases, some, List, [], ◌∷◌, ◌++◌, append_assoc,
  append-nil, Text, text_eq, text_eq_refl, text_eq_iff, arith,
}
use shapeport.Error.{ok, >>=-eq-ok}
use shapeport.Host.{Host, keys, has_key, with_key}
use shapeport.Value.{Value, Fields, no_fields}
use shapeport.Plan.{Entries, no_entries, entry}
use shapeport.Engine.Eval.{eval_expr, eval_object, eval_object_onto}

-- The names of the entries of a plan's `map`, in order.
unfoldable pub names : Entries → List Text
names no_entries = []
names (entry name e rest) = name ∷ names rest

-- No name twice, which an `IndexMap` guarantees.
abbrev pub Distinct : List Text → Type 0
Distinct [] = Unit
Distinct (k ∷ ks) = (has_key k ks ≡ false) × Distinct ks

abbrev pub Disjoint : List Text → List Text → Type 0
Disjoint [] ks = Unit
Disjoint (j ∷ js) ks = (has_key j ks ≡ false) × Disjoint js ks

with_key-new : (k : Text) (ks : List Text) → has_key k ks ≡ false → with_key k ks ≡ ks ++ k ∷ []
unfolding with_key has_key
with_key-new k [] h = refl
with_key-new k (j ∷ ks) h = ground (arith, with_key-new k ks)

has_key-append :
    (j k : Text) (ks : List Text)
    → has_key j ks ≡ false
    → text_eq k j ≡ false
    → has_key j (ks ++ k ∷ []) ≡ false
unfolding has_key
has_key-append j k [] h ne = ground arith
has_key-append j k (i ∷ ks) h ne = ground (arith, has_key-append j k ks)

text_eq_ne : (j k : Text) → text_eq j k ≡ false → text_eq k j ≡ false
text_eq_ne j k h = ground (arith, text_eq_iff j k, text_eq_iff k j)

-- A name that stands before others is none of them, so they stay disjoint from it.
Disjoint-snoc :
    (js : List Text) (k : Text) (ks : List Text)
    → Disjoint js ks
    → has_key k js ≡ false
    → Disjoint js (ks ++ k ∷ [])
unfolding has_key
Disjoint-snoc [] k ks d h = tt
Disjoint-snoc (j ∷ js) k ks d h = elim (Bool-cases (text_eq j k)) [
  | inl same ↦ cc (rw same at h)
  | inr other ↦
      (has_key-append j k ks d.0 (text_eq_ne j k other), Disjoint-snoc js k ks d.1 (rw other at h))
]

module _ (host : Host) where
  -- What a plan's entries become in the output.
  abbrev pub EntriesHold : Value → Entries → Fields → Type 0
  EntriesHold v no_entries out = Unit
  EntriesHold v (entry name e rest) out =
      ((x : Value) × (eval_expr host v e ≡ ok x) × (host.get name out ≡ some x))
      × EntriesHold v rest out

  -- A key that the rest does not name keeps its value.
  onto-get :
      (j : Text) (v : Value) (map : Fields) (entries : Entries) (w : Value)
      → eval_object_onto host v map entries ≡ ok w
      → has_key j (names entries) ≡ false
      → (out : Fields) × (w ≡ Value.object out) × (host.get j out ≡ host.get j map)
  unfolding eval_expr names has_key
  onto-get j v map no_entries w h new = (map, cc h, refl)
  onto-get j v map (entry name e rest) w h new =
      let (x, now, later) = >>=-eq-ok (eval_expr host v e) _ h in
      elim (Bool-cases (text_eq name j)) [
        | inl same ↦ cc (rw same at new)
        | inr other ↦
            let (out, is_out, kept) =
              onto-get j v (host.insert name x map) rest w later (rw other at new) in
            (out, is_out, kept ∙ host.get_insert name j x map ∙ rw other)
      ]

  onto-holds :
      (v : Value) (map : Fields) (entries : Entries) (out : Fields)
      → eval_object_onto host v map entries ≡ ok (Value.object out)
      → Distinct (names entries)
      → EntriesHold v entries out
  unfolding eval_expr names
  onto-holds v map no_entries out h d = tt
  onto-holds v map (entry name e rest) out h d =
      let (x, now, later) = >>=-eq-ok (eval_expr host v e) _ h in
      let (out', is_out, kept) =
        onto-get name v (host.insert name x map) rest (Value.object out) later d.0 in
      let same : out ≡ out' = cc is_out in
      (
        (x, now, rw same (kept ∙ host.get_insert name name x map ∙ rw text_eq_refl)),
        onto-holds v (host.insert name x map) rest out later d.1,
      )

  onto-keys :
      (v : Value) (map : Fields) (entries : Entries) (w : Value)
      → eval_object_onto host v map entries ≡ ok w
      → Distinct (names entries)
      → Disjoint (names entries) (keys map)
      → (out : Fields) × (w ≡ Value.object out) × (keys out ≡ keys map ++ names entries)
  unfolding eval_expr names
  onto-keys v map no_entries w h d apart = (map, cc h, sym (append-nil (keys map)))
  onto-keys v map (entry name e rest) w h d apart =
      let (x, now, later) = >>=-eq-ok (eval_expr host v e) _ h in
      let grown : keys (host.insert name x map) ≡ keys map ++ name ∷ [] =
        host.keys_insert name x map ∙ with_key-new name (keys map) apart.0 in
      let (out, is_out, all_keys) =
        onto-keys v (host.insert name x map) rest w later d.1
          (rw grown (Disjoint-snoc (names rest) name (keys map) apart.1 d.0)) in
      (out, is_out, all_keys ∙ rw grown (append_assoc (keys map) (name ∷ []) (names rest)))

  Disjoint-empty : (js : List Text) → Disjoint js []
  unfolding has_key
  Disjoint-empty [] = tt
  Disjoint-empty (j ∷ js) = (refl, Disjoint-empty js)

  -- A `map` or `object` that succeeds, over entries with distinct names, gives an object whose fields
  -- are those names in the plan's order, each with the value of its expression on the record.
  pub eval_object_lem :
      (v : Value) (entries : Entries) (w : Value)
      → eval_object host v entries ≡ ok w
      → Distinct (names entries)
      → (out : Fields) × (w ≡ Value.object out)
        × (keys out ≡ names entries)
        × EntriesHold v entries out
  unfolding eval_object keys
  eval_object_lem v entries w h d =
      let (out, is_out, all_keys) =
        onto-keys v no_fields entries w h d (Disjoint-empty (names entries)) in
      (out, is_out, all_keys, onto-holds v no_fields entries out (h ∙ ap ok is_out) d)
