-- ===== src/Engine/Stream/Explode.antt =====
-- engine.rs: how many records `explode` emits.
use shapeport.Prelude.{
  ℕ, ◌+◌, ◌≡◌, ap, Bool, true, false, Option, List, [], ◌∷◌, ◌++◌, length, length-append, Text,
  arith,
}
use shapeport.Error.{ok, >>=-eq-ok}
use shapeport.Host.{Host}
use shapeport.Paths.{FieldPath}
use shapeport.Value.{Value, Items, no_items, item}
use shapeport.Functions.{count}
use shapeport.Engine.Access.{read_segments, read_path}
use shapeport.Engine.Stream.{
  with_exploded, explode_items, explode_value, explode_onto, explode_records,
}

-- The records that one input record stands for: an element each, one for null under `outer`.
abbrev pub emitted : Bool → Value → ℕ
emitted outer (Value.array items) = count items
emitted true Value.null = 1
emitted _ _ = 0

module _ (host : Host) (path : FieldPath) (to : Option Text) (outer : Bool) where
  abbrev pub total : List Value → ℕ
  total [] = 0
  total (v ∷ rest) = emitted outer (read_segments host v path.segments) + total rest

  explode_items-length :
      (v : Value) (items : Items) (out final : List Value)
      → explode_items host v path to items out ≡ ok final
      → length final ≡ length out + count items
  unfolding explode_items count
  explode_items-length v no_items out final h =
      let e : out ≡ final = cc h in omega (arith, ap length e)
  explode_items-length v (item element rest) out final h =
      let (w, made, later) = >>=-eq-ok (with_exploded host v path to element) _ h in
      omega
        (arith, explode_items-length v rest (out ++ w ∷ []) final later, length-append out (w ∷ []))

  explode_null-length :
      (v : Value) (out final : List Value) (b : Bool)
      → explode_value host Value.null v path to b out ≡ ok final
      → length final ≡ length out + emitted b Value.null
  unfolding explode_value
  explode_null-length v out final true h =
      let (w, made, done) = >>=-eq-ok (with_exploded host v path to Value.null) _ h in
      let e : out ++ w ∷ [] ≡ final = cc done in
      omega (arith, ap length e, length-append out (w ∷ []))
  explode_null-length v out final false h = let e : out ≡ final = cc h in omega (arith, ap length e)

  explode_value-length :
      (list v : Value) (out final : List Value)
      → explode_value host list v path to outer out ≡ ok final
      → length final ≡ length out + emitted outer list
  unfolding explode_value
  explode_value-length (Value.array items) v out final h = explode_items-length v items out final h
  explode_value-length Value.null v out final h = explode_null-length v out final outer h
  explode_value-length _ v out final h = cc h

  explode_onto-length :
      (records out final : List Value)
      → explode_onto host path to outer records out ≡ ok final
      → length final ≡ length out + total records
  unfolding explode_onto read_path
  explode_onto-length [] out final h = let e : out ≡ final = cc h in omega (arith, ap length e)
  explode_onto-length (v ∷ rest) out final h =
      let list = read_segments host v path.segments in
      let (out', now, later) = >>=-eq-ok (explode_value host list v path to outer out) _ h in
      omega
        (arith, explode_value-length list v out out' now, explode_onto-length rest out' final later)

  -- `explode` emits one record for each element of the field: none for an empty array, and for null
  -- one under `outer` and none otherwise.
  pub explode_records-length :
      (records out : List Value)
      → explode_records host path to outer records ≡ ok out
      → length out ≡ total records
  unfolding explode_records
  explode_records-length records out h = omega (arith, explode_onto-length records [] out h)
