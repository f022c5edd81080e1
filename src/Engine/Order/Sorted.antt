-- ===== src/Engine/Order/Sorted.antt =====
-- engine.rs: what `sort_records` promises.
use mathlib.Core.List.{Perm}
use shapeport.Prelude.{List, [], ◌∷◌, ◌≡◌, ◌≢◌, refl, Ordering}
use shapeport.Sorting.{sort_by}
use shapeport.Sorting.Laws.{IsSorted, class_of, sort_by-perm, sort_by-IsSorted, class_of-sort_by}
use shapeport.Error.{ok}
use shapeport.Host.{Host}
use shapeport.Value.{Value}
use shapeport.Plan.{SortKey}
use shapeport.Engine.Order.{compare_records, sort_records}
use shapeport.Engine.Order.Total.{compare_records-IsOrder}

module _ (host : Host) where
  -- The comparison under a list of keys.
  abbrev pub by_keys : List SortKey → Value → Value → Ordering
  by_keys ks left right = compare_records host left right ks

  -- With at least one key `sort` succeeds; its output has the same records, is sorted by the keys,
  -- and keeps the input order of the records that compare equal.
  pub sort_records_lem :
      (ks : List SortKey) (records : List Value)
      → ks ≢ []
      → (out : List Value) × (sort_records host ks records ≡ ok out)
        × Perm out records
        × IsSorted (by_keys ks) out
        × ((u : Value) → class_of (by_keys ks) u out ≡ class_of (by_keys ks) u records)
  unfolding sort_records
  sort_records_lem [] records h = absurd (h refl)
  sort_records_lem (key ∷ ks) records h =
      let cmp = by_keys (key ∷ ks) in
      let order = compare_records-IsOrder host (key ∷ ks) in
      (
        sort_by cmp records,
        refl,
        sort_by-perm cmp records,
        sort_by-IsSorted cmp order records,
        λ u. class_of-sort_by cmp order u records,
      )
