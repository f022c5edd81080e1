-- ===== src/Engine/Records/Written.antt =====
-- engine.rs: the fields of a record after `cast`, `drop`, `project` and `map`.
use shapeport.Prelude.{
  ◌≡◌, refl, ◌∙◌, inl, inr, Bool, false, ◌||◌, none, some, Option-cases, List, [], ◌∷◌, Text,
  text_eq, text_eq_iff, if◌then◌else◌, arith, String,
}
use shapeport.Error.{ok, >>=-eq-ok}
use shapeport.Host.{Host}
use shapeport.Paths.{PathSegment, FieldPath, field, index, simple_name, simple_of}
use shapeport.Value.{Value, Fields, no_fields}
use shapeport.Plan.{CastPolicy}
use shapeport.Engine.Access.{read_segments, read_path, insert_field, write_simple}
use shapeport.Engine.Cast.{cast_value}
use shapeport.Engine.Records.{project, project_onto, drop_fields, drop_names, drop_one, cast_field}

-- Whether one of the paths is the simple name `j`.
unfoldable pub is_named : Text → List FieldPath → Bool
is_named j [] = false
is_named j (path ∷ paths) =
    (elim (simple_name path) [ none ↦ false | some name ↦ text_eq name j ]) || is_named j paths

module _ (host : Host) where
  drop_names-get :
      (j : Text) (paths : List FieldPath) (map : Fields)
      → host.get j (drop_names host paths map) ≡ (if is_named j paths then none else host.get j map)
  unfolding drop_names is_named
  drop_names-get j [] map = refl
  drop_names-get j (path ∷ paths) map = elim (Option-cases (simple_name path)) [
    | inl complex ↦ rw (complex, drop_one) (drop_names-get j paths map)
    | inr (name, simple) ↦
        rw (simple, drop_one)
          (ground (
            arith,
            drop_names-get j paths (host.shift_remove name map),
            host.get_remove name j map,
          ))
  ]

  -- `drop` of an object removes exactly the fields that its simple paths name, and keeps the value of
  -- every other field.
  pub drop_fields_lem :
      (map : Fields) (paths : List FieldPath)
      → (out : Fields) × (drop_fields host (Value.object map) paths ≡ ok (Value.object out))
        × ((j : Text) → host.get j out ≡ (if is_named j paths then none else host.get j map))
  unfolding drop_fields
  drop_fields_lem map paths = (drop_names host paths map, refl, λ j. drop_names-get j paths map)

  -- `cast` of a record that succeeds is the cast of one named field: reading that field gives the
  -- value that the cast made of the old one, and every other field keeps its value.
  pub cast_field_lem :
      (map : Fields) (path : FieldPath) (target : String) (policy : CastPolicy) (w : Value)
      → cast_field host (Value.object map) path target policy ≡ ok w
      → (name : Text) × (x : Value) × (out : Fields) × (simple_name path ≡ some name)
        × (cast_value host (read_segments host (Value.object map) path.segments) target policy
            ≡ ok x)
        × (w ≡ Value.object out)
        × ((j : Text) → host.get j out ≡ (if text_eq name j then some x else host.get j map))
  unfolding cast_field read_path write_simple insert_field
  cast_field_lem map path target policy w h =
      let old = read_segments host (Value.object map) path.segments in
      let (x, casted, h₁) = >>=-eq-ok (cast_value host old target policy) _ h in
      elim (Option-cases (simple_name path)) [
        | inl complex ↦ cc (rw (complex, write_simple) at h₁)
        | inr (name, simple) ↦ (
          name,
          x,
          host.insert name x map,
          simple,
          casted,
          cc (rw (simple, write_simple) at h₁),
          λ j. host.get_insert name j x map,
        )
      ]

simple_name→segments :
    (path : FieldPath) (name : Text)
    → simple_name path ≡ some name
    → path.segments ≡ field name ∷ []
unfolding simple_name
simple_name→segments path name h = go path.segments h
  where
    go : (segments : List PathSegment) → simple_of segments ≡ some name → segments ≡ field name ∷ []
    go [] e = cc e
    go (field n ∷ []) e = ground arith
    go (field n ∷ s ∷ rest) e = cc e
    go (index i ∷ rest) e = cc e

module _ (host : Host) where
  abbrev pub read_name : Value → Text → Value
  read_name v j = read_segments host v (field j ∷ [])

  project_onto-get :
      (j : Text) (v : Value) (paths : List FieldPath) (map : Fields) (w : Value)
      → project_onto host map v paths ≡ ok w
      → (out : Fields) × (w ≡ Value.object out)
        × (host.get j out ≡ (if is_named j paths then some (read_name v j) else host.get j map))
  unfolding project_onto is_named read_path
  project_onto-get j v [] map w h = (map, cc h, refl)
  project_onto-get j v (path ∷ paths) map w h = elim (Option-cases (simple_name path)) [
    | inl complex ↦ cc (rw (complex, project_onto) at h)
    | inr (name, simple) ↦
        let value = read_segments host v path.segments in
        let (out, e, rest) =
          project_onto-get j v paths (host.insert name value map) w
            (rw (simple, project_onto) at h) in
        (out, e, rest ∙ rw simple (step name (simple_name→segments path name simple)))
  ]
    where
      step :
          (name : Text)
          → path.segments ≡ field name ∷ []
          → (if is_named j paths
              then some (read_name v j)
              else host.get j (host.insert name (read_segments host v path.segments) map))
            ≡ (if text_eq name j || is_named j paths then some (read_name v j) else host.get j map)
      step name e =
          rw (e, host.get_insert name j (read_name v name) map) (ground (arith, text_eq_iff name j))

  -- `project` that succeeds gives an object whose fields are exactly the simple names listed, each
  -- with the value that the record has under that name, or null where it has none.
  pub project_lem :
      (v : Value) (paths : List FieldPath) (w : Value)
      → project host v paths ≡ ok w
      → (j : Text)
      → (out : Fields) × (w ≡ Value.object out)
        × (host.get j out ≡ (if is_named j paths then some (read_name v j) else none))
  unfolding project
  project_lem v paths w h j =
      let (out, e, get) = project_onto-get j v paths no_fields w h in
      (out, e, rw (host.get_empty j) at get)
