-- ===== src/Json.antt =====
-- `serde_json::Value`, as far as schemas are written in it: numbers are integers, and a map keeps the
-- order in which its keys came.
use shapeport.Prelude.{ℤ, Text, text_eq, Bool, if◌then◌else◌, List, [], ◌∷◌}

mutual
  pub data Json : Type 0 where
    null : Json
    bool : Bool → Json
    number : ℤ → Json
    text : Text → Json
    array : Jsons → Json
    object : JsonMap → Json

  pub data Jsons : Type 0 where
    no_jsons : Jsons
    json : Json → Jsons → Jsons

  pub data JsonMap : Type 0 where
    no_entries : JsonMap
    entry : Text → Json → JsonMap → JsonMap

-- `Map::insert`
unfoldable pub insert_json : Text → Json → JsonMap → JsonMap
unfolding text_eq
insert_json k v no_entries = entry k v no_entries
insert_json k v (entry j w rest) =
    let later = insert_json k v rest in if text_eq j k then entry j v rest else entry j w later

-- `Json::Array` of strings.
unfoldable pub text_array : List Text → Jsons
text_array [] = no_jsons
text_array (t ∷ rest) = json (Json.text t) (text_array rest)
