-- ===== src/Engine/Eval/ListMap.antt =====
-- engine.rs: what `eval_list_map` promises of a list.
use shapeport.Prelude.{suc, ◌≡◌, refl, ap, subst, inl, inr, true, false, Bool-cases}
use shapeport.Error.{Result, ok, ◌>>=◌, >>=-eq-ok}
use shapeport.Value.{Value, Items, no_items, item, is_null}
use shapeport.Functions.{count}
use shapeport.Engine.Eval.{map_items, list_map_value}

map_items-null :
    (eval : Value → Result Value) (v : Value) (rest : Items)
    → is_null v ≡ true
    → map_items eval (item v rest) ≡ (map_items eval rest >>= λ out. ok (item Value.null out))
unfolding map_items is_null
map_items-null eval Value.null rest h = refl
map_items-null eval _ rest h = cc h

map_items-value :
    (eval : Value → Result Value) (v : Value) (rest : Items)
    → is_null v ≡ false
    → map_items eval (item v rest)
      ≡ (eval v >>= λ w. map_items eval rest >>= λ out. ok (item w out))
unfolding map_items is_null
map_items-value eval Value.null rest h = cc h
map_items-value eval _ rest h = refl

-- What stands at one place of the output, for the value at that place of the input.
pub record Mapped (eval : Value → Result Value) (v w : Value) : Type 0 where
  pub null_stays : is_null v ≡ true → w ≡ Value.null
  pub evaluated : is_null v ≡ false → eval v ≡ ok w

abbrev pub Pointwise : (Value → Result Value) → Items → Items → Type 0
Pointwise eval no_items no_items = Unit
Pointwise eval (item v rest) (item w out) = Mapped eval v w × Pointwise eval rest out
Pointwise eval _ _ = ⊥

map_items-Pointwise :
    (eval : Value → Result Value) (items out : Items)
    → map_items eval items ≡ ok out
    → Pointwise eval items out
unfolding map_items
map_items-Pointwise eval no_items out h = subst (Pointwise eval no_items) {x = no_items} (cc h) tt
map_items-Pointwise eval (item v rest) out h = elim (Bool-cases (is_null v)) [
  | inl null ↦
      let (out', later, e) =
        >>=-eq-ok (map_items eval rest) _ (rw (map_items-null eval v rest null) at h) in
      subst (Pointwise eval (item v rest)) {x = item Value.null out'} (cc e) (
        record { null_stays = λ _. refl; evaluated = λ other. cc (null, other) },
        map_items-Pointwise eval rest out' later,
      )
  | inr value ↦
      let (w, now, h') = >>=-eq-ok (eval v) _ (rw (map_items-value eval v rest value) at h) in
      let (out', later, e) = >>=-eq-ok (map_items eval rest) _ h' in
      subst (Pointwise eval (item v rest)) {x = item w out'} (cc e) (
        record { null_stays = λ null. cc (null, value); evaluated = λ _. now },
        map_items-Pointwise eval rest out' later,
      )
]

Pointwise-count :
    (eval : Value → Result Value) (items out : Items)
    → Pointwise eval items out
    → count out ≡ count items
unfolding count
Pointwise-count eval no_items no_items h = refl
Pointwise-count eval no_items (item w out) h = absurd h
Pointwise-count eval (item v rest) no_items h = absurd h
Pointwise-count eval (item v rest) (item w out) h = ap suc (Pointwise-count eval rest out h.1)

-- A list map that succeeds on an array gives an array of the same length, in the same order, where a
-- null element stays null and every other element is the value of the expression on it.
pub list_map_value-array :
    (eval : Value → Result Value) (items : Items) (w : Value)
    → list_map_value eval (Value.array items) ≡ ok w
    → (out : Items) × (w ≡ Value.array out) × (count out ≡ count items) × Pointwise eval items out
unfolding list_map_value
list_map_value-array eval items w h =
    let (out, mapped, e) = >>=-eq-ok (map_items eval items) _ h in
    let points = map_items-Pointwise eval items out mapped in
    (out, cc e, Pointwise-count eval items out points, points)
