-- ===== src/Sha1Pass/Walk/Tests.antt =====
-- The walk of a small folder (src/engine/sha1_pass.cpp).
use reflash.Base.{◌≡◌, refl, Option, none, some, List, [], ◌∷◌, if◌then◌else◌, Text, text_eq, text}
use reflash.Sha1Pass.Walk.{
  put, text_less, FileKind, directory, regular, other, Tree, below, dir_path, is_dots, walk_child,
  walk_name, walk_names, walk_dir, walk_mounts,
}

-- m has a folder d with the file b, a link and the file a.
abbrev names_of : Text → Option (List Text)
names_of path =
    if text_eq path (text "m")
    then some (text "." ∷ text "d" ∷ text "l" ∷ text "a" ∷ [])
    else if text_eq path (text "m/d")
    then some (text "b" ∷ [])
    else none

abbrev kind_of : Text → FileKind
kind_of path =
    if text_eq path (text "m/d")
    then directory
    else if text_eq path (text "m/l")
    then other
    else regular

abbrev small_tree : Tree
small_tree = record { entries = names_of; lstat = kind_of }

walk_mounts_small :
    walk_mounts small_tree 2 (text "m" ∷ text "gone" ∷ []) []
    ≡ some ((text "/a", text "m/a") ∷ (text "/d/b", text "m/d/b") ∷ [])
unfolding walk_mounts walk_dir walk_names walk_name walk_child below dir_path is_dots put text_less
walk_mounts_small = refl

-- A nesting deeper than the fuel.
walk_mounts_deep : walk_mounts small_tree 1 (text "m" ∷ []) [] ≡ none
unfolding walk_mounts walk_dir walk_names walk_name walk_child below dir_path is_dots put text_less
walk_mounts_deep = refl
