-- ===== src/Engine/Records/Renamed.antt =====
-- engine.rs: the fields of a record after `rename`.
use mathlib.Core.Path.{fun_ext}
use shapeport.Prelude.{
  ◌≡◌, refl, ap, ◌∙◌, Option, none, some, Option-cases, inl, inr, List, [], ◌∷◌, Text, text_eq,
  if◌then◌else◌,
}
use shapeport.Error.{ok}
use shapeport.Host.{Host}
use shapeport.Value.{Value, Fields}
use shapeport.Engine.Records.{rename, rename_fields, rename_one}

-- What a key reads after one pair: the new name has the old value, and the old name is gone unless it
-- is the new one. A pair whose old name is absent does nothing.
abbrev pub after_pair : Text → Text → (Text → Option Value) → Text → Option Value
after_pair from to get j = elim (get from) [
  | none ↦ get j
  | some v ↦ if text_eq to j then some v else if text_eq from j then none else get j
]

-- What a key reads after all pairs, each on the result of the ones before it.
unfoldable pub after_pairs : List (Text × Text) → (Text → Option Value) → Text → Option Value
after_pairs [] get j = get j
after_pairs ((from, to) ∷ mapping) get j = after_pairs mapping (after_pair from to get) j

module _ (host : Host) where
  rename_one-get :
      (from to j : Text) (map : Fields)
      → host.get j (rename_one host from to map) ≡ after_pair from to (λ k. host.get k map) j
  unfolding rename_one
  rename_one-get from to j map = elim (Option-cases (host.get from map)) [
    | inl absent ↦ rw (absent, rename_one) refl
    | inr (v, there) ↦
        rw (there, rename_one)
          (rw (host.get_insert to j v (host.shift_remove from map), host.get_remove from j map)
            refl)
  ]

  rename_fields-get :
      (mapping : List (Text × Text)) (j : Text) (map : Fields)
      → host.get j (rename_fields host mapping map) ≡ after_pairs mapping (λ k. host.get k map) j
  unfolding rename_fields after_pairs
  rename_fields-get [] j map = refl
  rename_fields-get ((from, to) ∷ mapping) j map =
      rename_fields-get mapping j (rename_one host from to map)
      ∙ ap (λ get. after_pairs mapping get j) (fun_ext λ k. rename_one-get from to k map)

  -- `rename` of an object succeeds, and each key of the result reads what the pairs say when they
  -- apply one after the other: a pair moves a value that is there, over one that has the new name.
  pub rename_lem :
      (map : Fields) (mapping : List (Text × Text))
      → (out : Fields) × (rename host (Value.object map) mapping ≡ ok (Value.object out))
        × ((j : Text) → host.get j out ≡ after_pairs mapping (λ k. host.get k map) j)
  unfolding rename
  rename_lem map mapping =
      (rename_fields host mapping map, refl, λ j. rename_fields-get mapping j map)
