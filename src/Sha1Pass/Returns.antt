-- ===== src/Sha1Pass/Returns.antt =====
-- The SHA-1 pass ends where the walk of the mounts does (src/engine/sha1_pass.cpp).
use reflash.Base.{ℕ, ◌≡◌, refl, Bool, some, List, [], Text, text}
use reflash.Progress.{Double, Progress, set_phase}
use reflash.Store.{Sqlite}
use reflash.Store.Methods.{list_objects, list_objects-open}
use reflash.Sha1Pass.File.{Evp}
use reflash.Sha1Pass.Walk.{FileMap, Tree, walk_mounts}
use reflash.Sha1Pass.{Files, todo_of, hash_all, hash_listed, hash_found, sha1_mounted_files}

pub sha1_mounted_files-some :
    {F D C : Type 0} ⦃fl : Double F⦄ (s : Sqlite D) (now : ℕ) (evp : Evp C) (fs : Files)
    (verify_mode : Bool) (tree : Tree) (fuel : ℕ) (targets : List Text) (found : FileMap)
    → walk_mounts tree fuel targets [] ≡ some found
    → (p : Progress F) (d : D)
    → (r : Progress F × D) × (sha1_mounted_files s now evp fs verify_mode tree fuel targets (p, d)
        ≡ some r)
unfolding sha1_mounted_files hash_found hash_listed
sha1_mounted_files-some s now evp fs verify_mode tree fuel targets found e p d =
    let (d1, open_still) = list_objects-open s d in
    (
      hash_all s now evp fs verify_mode (todo_of found (list_objects s (some d)).0.0)
          (set_phase (text "sha1") p, d1),
      rw (e, open_still) refl,
    )
