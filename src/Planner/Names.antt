-- ===== src/Planner/Names.antt =====
-- planner.rs: `normalize_name`, `synonym_bonus`, `join_path`.
use shapeport.Prelude.{
  ℕ, ◌+◌, Text, codes, text_eq, is_alphanumeric, is_empty, Bool, false, ◌&&◌, ◌||◌, List, [], ◌∷◌,
  ◌++◌, leb, if◌then◌else◌,
}

unfoldable pub to_ascii_lowercase : ℕ → ℕ
to_ascii_lowercase c = if leb b'A' c && leb c b'Z' then c + 32 else c

unfoldable pub normalize_name : Text → Text
unfolding to_ascii_lowercase is_alphanumeric
normalize_name [] = []
normalize_name (ch ∷ name) =
    let rest = normalize_name name in
    if is_alphanumeric ch then to_ascii_lowercase ch ∷ rest else rest

abbrev pairs : List (Text × Text)
pairs =
    (codes "period", codes "month")
    ∷ (codes "productfamily", codes "product")
    ∷ (codes "totalsalesusd", codes "revenue")
    ∷ (codes "grossamount", codes "amount")
    ∷ (codes "netamount", codes "amount")
    ∷ (codes "createdat", codes "timestamp")
    ∷ (codes "customerid", codes "id")
    ∷ []

unfoldable pub is_pair : Text → Text → List (Text × Text) → Bool
unfolding text_eq
is_pair src dst [] = false
is_pair src dst ((left, right) ∷ rest) =
    text_eq src left && text_eq dst right
    || text_eq src right && text_eq dst left
    || is_pair src dst rest

-- Whether the names are common synonyms: then the bonus is 0.65.
unfoldable pub are_synonyms : Text → Text → Bool
unfolding normalize_name is_pair
are_synonyms source target = is_pair (normalize_name source) (normalize_name target) pairs

unfoldable pub join_path : Text → Text → Text
join_path prefix name = if is_empty prefix then name else prefix ++ b'.' ∷ name

-- `contains` of a list of names.
unfoldable pub contains_name : Text → List Text → Bool
contains_name a [] = false
contains_name a (n ∷ ns) = text_eq n a || contains_name a ns
