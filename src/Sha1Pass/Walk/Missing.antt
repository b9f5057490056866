-- ===== src/Sha1Pass/Walk/Missing.antt =====
-- The walk of mounts that cannot be opened (src/engine/sha1_pass.cpp).
use reflash.Base.{ℕ, suc, ◌≡◌, refl, none, some, List, [], ◌∷◌, Text}
use reflash.Sha1Pass.Walk.{FileMap, Tree, dir_path, walk_names, walk_dir, walk_mounts}

-- Nothing is found.
pub walk_mounts-missing :
    (tree : Tree)
    → ((path : Text) → tree.entries path ≡ none)
    → (fuel : ℕ) (targets : List Text) (files : FileMap)
    → walk_mounts tree (suc fuel) targets files ≡ some files
unfolding walk_mounts walk_dir walk_names dir_path
walk_mounts-missing tree missing fuel [] files = refl
walk_mounts-missing tree missing fuel (target ∷ targets) files =
    rw (walk_mounts, walk_dir, missing target) (walk_mounts-missing tree missing fuel targets files)
