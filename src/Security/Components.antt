-- ===== src/Security/Components.antt =====
-- `std::path` on Unix: a path by its components, which is what `==` and `starts_with` compare.
use shapeport.Prelude.{
  Text, text_eq, codes, is_empty, ◌==◌, Bool, true, false, ◌&&◌, Option, none, some, List, [], ◌∷◌,
  ◌++◌, if◌then◌else◌,
}

pub data Component : Type 0 where
  root_dir cur_dir parent_dir : Component
  normal : Text → Component

abbrev pub PathBuf : Type 0
PathBuf = List Component

-- The texts between slashes.
unfoldable pub split_onto : Text → Text → List Text
split_onto current [] = current ∷ []
split_onto current (c ∷ s) =
    let closed = split_onto [] s in
    let longer = split_onto (current ++ c ∷ []) s in if c == b'/' then current ∷ closed else longer

unfoldable pub component_of : Text → Component
component_of part =
    if text_eq part (codes "..") then Component.parent_dir else Component.normal part

-- Empty texts and dots after the first component are skipped.
unfoldable pub later_components : List Text → PathBuf
later_components [] = []
later_components (part ∷ parts) =
    let rest = later_components parts in
    if is_empty part
    then rest
    else if text_eq part (codes ".")
    then rest
    else component_of part ∷ rest

-- `PathBuf::from` a text, by its parts.
unfoldable pub first_components : List Text → PathBuf
first_components [] = []
first_components (part ∷ parts) =
    if is_empty part
    then (if is_empty parts then [] else Component.root_dir ∷ later_components parts)
    else if text_eq part (codes ".")
    then Component.cur_dir ∷ later_components parts
    else component_of part ∷ later_components parts

unfoldable pub path_from : Text → PathBuf
path_from raw = first_components (split_onto [] raw)

abbrev pub component_eq : Component → Component → Bool
component_eq Component.root_dir Component.root_dir = true
component_eq Component.cur_dir Component.cur_dir = true
component_eq Component.parent_dir Component.parent_dir = true
component_eq (Component.normal a) (Component.normal b) = text_eq a b
component_eq _ _ = false

-- `Path::starts_with`
unfoldable pub path_starts_with : PathBuf → PathBuf → Bool
path_starts_with path [] = true
path_starts_with [] (b ∷ base) = false
path_starts_with (a ∷ path) (b ∷ base) = component_eq a b && path_starts_with path base

-- `Path::parent`: none at a root and for the empty path.
unfoldable pub parent : PathBuf → Option PathBuf
parent [] = none
parent (Component.root_dir ∷ []) = none
parent (_ ∷ []) = some []
parent (a ∷ b ∷ path) = elim (parent (b ∷ path)) [ none ↦ none | some front ↦ some (a ∷ front) ]

-- `Path::file_name`: the last component, if it is a name.
unfoldable pub file_name : PathBuf → Option Text
file_name [] = none
file_name (Component.normal name ∷ []) = some name
file_name (_ ∷ []) = none
file_name (a ∷ b ∷ path) = file_name (b ∷ path)

-- `Path::join`
unfoldable pub join : PathBuf → PathBuf → PathBuf
join base [] = base
join base (Component.root_dir ∷ path) = Component.root_dir ∷ path
join [] (a ∷ path) = a ∷ path
join (b ∷ base) (Component.cur_dir ∷ path) = b ∷ base ++ path
join (b ∷ base) (a ∷ path) = b ∷ base ++ a ∷ path
