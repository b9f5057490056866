-- ===== src/Sha1Pass/Walk.antt =====
-- `walk_dir` (src/engine/sha1_pass.cpp). A `std::map` is the list of its entries in the order of
-- the keys. The file system is the interface `Tree`.
pub mod Missing
mod Tests
use reflash.Base.{
  ℕ, zero, suc, Bool, true, false, ◌||◌, Option, none, some, List, [], ◌∷◌, ◌++◌, ltb, ◌==◌,
  if◌then◌else◌, text_eq, Text, text,
}

-- The order of `std::string`.
unfoldable pub text_less : Text → Text → Bool
text_less xs [] = false
text_less [] (y ∷ ys) = true
text_less (x ∷ xs) (y ∷ ys) = let rest = text_less xs ys in if x == y then rest else ltb x y

-- From the path in the database to the path of the file.
abbrev pub FileMap : Type 0
FileMap = List (Text × Text)

-- `files[key] = value`
unfoldable pub put : Text → Text → FileMap → FileMap
put key value [] = (key, value) ∷ []
put key value ((k, v) ∷ rest) =
    let later = put key value rest in
    if text_eq key k
    then (key, value) ∷ rest
    else if text_less key k
    then (key, value) ∷ (k, v) ∷ rest
    else (k, v) ∷ later

-- What `lstat` says of a path.
pub data FileKind : Type 0 where
  absent directory regular other : FileKind

pub record Tree : Type 0 where
  -- The names that `readdir` gives, or nothing where `opendir` fails.
  pub entries : Text → Option (List Text)
  pub lstat : Text → FileKind

below : Text → Text → Text
below [] name = name
below (c ∷ cs) name = (c ∷ cs) ++ text "/" ++ name

dir_path : Text → Text → Text
dir_path root [] = root
dir_path root (c ∷ cs) = root ++ text "/" ++ (c ∷ cs)

is_dots : Text → Bool
is_dots name = text_eq name (text ".") || text_eq name (text "..")

module _ (tree : Tree) (root : Text) where
  walk_child : (Text → FileMap → Option FileMap) → Text → FileMap → Option FileMap
  walk_child visit child files =
      let full = root ++ text "/" ++ child in
      elim (tree.lstat full) [
        | absent ↦ some files
        | directory ↦ visit child files
        | regular ↦ some (put (text "/" ++ child) full files)
        | other ↦ some files
      ]

  walk_name : (Text → FileMap → Option FileMap) → Text → Text → FileMap → Option FileMap
  walk_name visit rel name files =
      if is_dots name then some files else walk_child visit (below rel name) files

  walk_names :
      (Text → FileMap → Option FileMap) → Text → Option (List Text) → FileMap → Option FileMap
  walk_names visit rel none files = some files
  walk_names visit rel (some []) files = some files
  walk_names visit rel (some (name ∷ names)) files = elim (walk_name visit rel name files) [
    | none ↦ none
    | some more ↦ walk_names visit rel (some names) more
  ]

  walk_dir : ℕ → Text → FileMap → Option FileMap
  walk_dir zero rel files = none
  walk_dir (suc fuel) rel files =
      walk_names (walk_dir fuel) rel (tree.entries (dir_path root rel)) files

-- The mounts, one after the other.
pub walk_mounts : Tree → ℕ → List Text → FileMap → Option FileMap
walk_mounts tree fuel [] files = some files
walk_mounts tree fuel (target ∷ targets) files = elim (walk_dir tree target fuel [] files) [
  | none ↦ none
  | some more ↦ walk_mounts tree fuel targets more
]
