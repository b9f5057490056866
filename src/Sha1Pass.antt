-- ===== src/Sha1Pass.antt =====
-- The SHA-1 pass (src/engine/sha1_pass.cpp): which files are hashed, and what is recorded of each.
-- The file system is the interfaces `Tree` and `Files`, OpenSSL is `Evp`.
pub mod File
pub mod Walk
pub mod Todo
pub mod Returns
pub mod Verified
mod Tests
use reflash.Base.{
  ℕ, zero, suc, ◌+◌, Bool, true, false, not, ◌&&◌, ◌||◌, Option, none, some, List, [], ◌∷◌, ◌++◌,
  ltb, leb, ◌==◌, if◌then◌else◌, text_eq, Text, text,
}
use reflash.Progress.{Double, Progress, CellStatus, set_phase, log, add_done}
use reflash.Store.Path.{special_path}
use reflash.Store.Methods.{list_objects}
use reflash.Sha1Pass.File.{Hashed, digest, unread, Evp, Opened, sha1_file}
use reflash.Sha1Pass.Walk.{FileMap, put, Tree, walk_mounts}
use reflash.Store.{
  VerifyStatus, ObjectRecord, no_record, Sqlite, upsert_locked, get_locked, set_sha1, bump_verify,
}

-- `std::tolower` in the C locale.
pub lower : Text → Text
lower [] = []
lower (c ∷ cs) = (if leb b'A' c && leb c b'Z' then c + 32 else c) ∷ lower cs

pub find : FileMap → Text → Option Text
find [] key = none
find ((k, v) ∷ rest) key = let later = find rest key in if text_eq key k then some v else later

-- The first file whose path is the wanted one but for the case.
pub find_lower : FileMap → Text → Option Text
find_lower [] want = none
find_lower ((k, v) ∷ rest) want =
    let later = find_lower rest want in if text_eq (lower k) want then some v else later

put_found : Text → Option Text → FileMap → FileMap
put_found path none todo = todo
put_found path (some file) todo = put path file todo

-- A record of the database, which may name a file in another case.
pub add_object : FileMap → Text → FileMap → FileMap
add_object files path todo = if special_path path then todo else elim (find todo path) [
  | some file ↦ todo
  | none ↦ put_found path (find_lower files (lower path)) todo
]

add_objects : FileMap → List ObjectRecord → FileMap → FileMap
add_objects files [] todo = todo
add_objects files (o ∷ os) todo = add_objects files os (add_object files o.path todo)

pub todo_of : FileMap → List ObjectRecord → FileMap
todo_of files objects = add_objects files objects files

-- What is asked of each file: its `open` and `read`, and `stat` for its size, 0 where it has none.
pub record Files : Type 0 where
  pub open_file : Text → Opened
  pub size : Text → ℕ

-- The hash in the database is another one.
pub differs : Option ObjectRecord → List ℕ → Bool
differs none dig = false
differs (some o) dig = elim o.sha1 [ none ↦ false | some sha1 ↦ not (text_eq sha1 dig) ]

pub status_of : Option ObjectRecord → List ℕ → VerifyStatus
status_of prev dig = if differs prev dig then VerifyStatus.fail else VerifyStatus.ok

module _ {D : Type 0} (s : Sqlite D) (now : ℕ) where
  -- A path that has no record gets one.
  pub known : Text → ℕ → Option ObjectRecord × D → Option ObjectRecord × D
  known path size (some o, d) = (some o, d)
  known path size (none, d) =
      get_locked s path (upsert_locked s path (record (no_record path) { size = size }) d).1

  pub verified : Text → List ℕ → Option ObjectRecord × D → D
  verified path dig (prev, d) = (bump_verify s path (status_of prev dig) (some dig) now d).1

  refreshed : Text → ℕ → List ℕ → Option ObjectRecord × D → D
  refreshed path size dig (none, d) = d
  refreshed path size dig (some o, d) =
      (upsert_locked s o.path (record o { size = size; sha1 = some dig }) d).1

  hashed : Text → List ℕ → ℕ → D → D
  hashed path dig size d = refreshed path size dig (get_locked s path (set_sha1 s path dig d).1)

  record_digest : Bool → Text → ℕ → List ℕ → D → D
  record_digest verify_mode path size dig d =
      let prev = known path size (get_locked s path d) in
      if verify_mode then verified path dig prev else hashed path dig size prev.1

  record_unread : Bool → Text → D → D
  record_unread verify_mode path d =
      if verify_mode then (bump_verify s path VerifyStatus.fail none now d).1 else d

module _ {F D C : Type 0} ⦃fl : Double F⦄ (s : Sqlite D) (now : ℕ) (evp : Evp C) (fs : Files)
    (verify_mode : Bool) where
  -- One file.
  hash_one : Text → Text → Progress F × D → Progress F × D
  hash_one path file (p, d) =
      let p1 = set_phase (text "sha1 " ++ path) p in
      elim (sha1_file evp (fs.open_file file)) [
        | unread err ↦ (
          add_done 1 (log 0 0 CellStatus.read_err (text "sha1 " ++ path ++ text ": " ++ err) p1),
          record_unread s now verify_mode path d,
        )
        | digest dig ↦ (add_done 1 p1, record_digest s now verify_mode path (fs.size file) dig d)
      ]

  hash_all : FileMap → Progress F × D → Progress F × D
  hash_all [] st = st
  hash_all ((path, file) ∷ rest) st = hash_all rest (hash_one path file st)

  -- The database is open.
  hash_listed : FileMap → Progress F → List ObjectRecord → Option D → Option (Progress F × D)
  hash_listed files p objects none = none
  hash_listed files p objects (some d) =
      some (hash_all (todo_of files objects) (set_phase (text "sha1") p, d))

  hash_found : Option FileMap → Progress F × D → Option (Progress F × D)
  hash_found none st = none
  hash_found (some files) (p, d) =
      let listed = list_objects s (some d) in hash_listed files p listed.0.0 listed.1

  -- `nothing` is a want of fuel for the nesting of directories.
  pub sha1_mounted_files : Tree → ℕ → List Text → Progress F × D → Option (Progress F × D)
  sha1_mounted_files tree fuel targets st = hash_found (walk_mounts tree fuel targets []) st
