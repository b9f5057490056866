-- ===== src/Store.antt =====
-- The management database, `class Store` (src/db/store.cpp): one row for each special object and
-- each file, with folders below the root of the current volume. SQLite is the interface `Sqlite`
-- over the state `D` of a database: one operation for each statement of the source, as it is
-- prepared, bound and stepped; Store/Columns has what is bound and read. Row ids and counts are natural numbers.
pub mod Path
pub mod Methods
pub mod Opening
pub mod Columns
pub mod Laws
pub mod Tests
use reflash.Base.{
  ℕ, zero, suc, ◌+◌, Bool, true, false, ◌&&◌, ◌==◌, Option, none, some, List, [], ◌∷◌, leb,
  if◌then◌else◌, length, Text, text, to_string,
}
use reflash.Store.Path.{special_path, split_file_path}

pub data VerifyStatus : Type 0 where
  unknown ok fail : VerifyStatus

-- The hash with `has_sha1` is an option.
pub record ObjectRecord : Type 0 where
  pub path : Text
  pub size : ℕ
  pub sha1 : Option (List ℕ)
  pub last_massage : ℕ
  pub massage_count : ℕ
  pub verify_status : VerifyStatus
  pub verify_count : ℕ
  pub verified_at : ℕ

abbrev pub no_record : Text → ObjectRecord
no_record path = record {
  path = path;
  size = 0;
  sha1 = none;
  last_massage = 0;
  massage_count = 0;
  verify_status = unknown;
  verify_count = 0;
  verified_at = 0;
}

pub record ExtentRecord : Type 0 where
  pub path : Text
  pub offset : ℕ
  pub length : ℕ
  pub status : ℕ

-- The hash with `has_sha1` is an option.
pub record DirDbEntry : Type 0 where
  pub basename : Text
  pub directory : Bool
  pub id : ℕ
  pub size : ℕ
  pub sha1 : Option (List ℕ)
  pub verify_status : VerifyStatus
  pub verified_at : ℕ

-- What a SELECT answers, with one row or with the list of its rows; `refused` is an error of
-- `sqlite3_prepare_v2`, and an error of `sqlite3_step` is the end of the rows.
pub data Found (A : Type 0) : Type 0 where
  found : A → Found A
  not_found : Found A
  refused : Text → Found A

-- What another statement does: `refused` is an error of `sqlite3_step`.
pub data Done : Type 0 where
  done : Done
  unprepared : Text → Done
  refused : Text → Done

pub record Sqlite (D : Type 0) : Type 0 where
  pub last_insert_rowid : D → ℕ
  pub select_meta : Text → D → Found Text
  pub upsert_meta : Text → Text → D → Done × D
  pub insert_device : D → Done × D
  pub insert_volume : ℕ → D → Done × D
  -- Volume, parent, name.
  pub select_folder : ℕ → ℕ → Text → D → Found ℕ
  pub insert_folder : ℕ → ℕ → Text → D → Done × D
  pub select_children : ℕ → ℕ → D → List ℕ
  pub delete_folder_row : ℕ → D → Done × D
  -- Volume, type.
  pub select_special : ℕ → Text → D → Found ObjectRecord
  pub upsert_special : ℕ → ObjectRecord → D → Done × D
  pub delete_special : ℕ → Text → D → Done × D
  -- Folder, name.
  pub select_file : ℕ → Text → D → Found ObjectRecord
  pub upsert_file : ℕ → Text → ObjectRecord → D → Done × D
  pub delete_file_row : ℕ → Text → D → Done × D
  pub delete_files : ℕ → D → Done × D
  pub delete_extents : Text → D → Done × D
  -- The error of preparing the next statement, if any.
  pub prepare_extent : D → Option Text
  pub insert_extent : Text → ExtentRecord → ℕ → D → Done × D
  pub select_bad_extents : D → Found (List ExtentRecord)
  pub select_specials : ℕ → D → Found (List ObjectRecord)
  pub select_files : ℕ → D → Found (List ObjectRecord)
  pub select_subfolders : ℕ → ℕ → D → Found (List DirDbEntry)
  pub select_folder_files : ℕ → D → Found (List DirDbEntry)
  -- `strtoll` and `atoi`: the number where it is positive, 0 otherwise.
  pub positive : Text → ℕ

-- What a method answers, and what it writes to `err`.
abbrev pub Verdict : Type 0
Verdict = Bool × Option Text

pub data Descent : Type 0 where
  reached : ℕ → Descent
  stuck : Option Text → Descent

pub or_kept : Option (List ℕ) → Option (List ℕ) → Option (List ℕ)
or_kept none kept = kept
or_kept (some sha1) kept = some sha1

abbrev pub sha1_of : Option ObjectRecord → Option (List ℕ)
sha1_of none = none
sha1_of (some o) = o.sha1

pub row : Found ObjectRecord → Option ObjectRecord
row (found o) = some o
row not_found = none
row (refused err) = none

-- The row that the two upsert statements make of the row that is there: each column is the new
-- one, but for the hash, COALESCE(excluded.sha1, sha1).
pub upserted : Option ObjectRecord → ObjectRecord → ObjectRecord
upserted old o = record o { sha1 = or_kept o.sha1 (sha1_of old) }

module _ {D : Type 0} (s : Sqlite D) where
  pub verdict : Done × D → Verdict × D
  verdict (done, d) = ((true, none), d)
  verdict (unprepared err, d) = ((false, some err), d)
  verdict (refused err, d) = ((false, some err), d)

  -- What follows a statement that succeeds.
  pub on_done : (D → Verdict × D) → Done × D → Verdict × D
  on_done go (done, d) = go d
  on_done go (unprepared err, d) = ((false, some err), d)
  on_done go (refused err, d) = ((false, some err), d)

  pub set_meta : Text → Text → D → Verdict × D
  set_meta key value d = verdict (s.upsert_meta key value d)

  pub id_of : Found Text → ℕ
  id_of (found []) = 0
  id_of (found (c ∷ cs)) = s.positive (c ∷ cs)
  id_of not_found = 0
  id_of (refused err) = 0

  pub inserted_root : ℕ → D → ℕ × D
  inserted_root vol d = let r = s.insert_folder vol 0 [] d in (s.last_insert_rowid r.1, r.1)

  pub root_of : ℕ → D → Found ℕ → ℕ × D
  root_of vol d (found id) = (id, d)
  root_of vol d not_found = inserted_root vol d
  root_of vol d (refused err) = inserted_root vol d

  pub ensure_root_folder : ℕ → D → ℕ × D
  ensure_root_folder vol d = root_of vol d (s.select_folder vol 0 [] d)

  pub new_volume : D → ℕ × D
  new_volume d =
      let d1 = (s.insert_device d).1 in
      let d2 = (s.insert_volume (s.last_insert_rowid d1) d1).1 in
      let vol = s.last_insert_rowid d2 in
      let d3 = (set_meta (text "current_vol_id") (to_string vol) d2).1 in
      (vol, (ensure_root_folder vol d3).1)

  pub volume_of : ℕ → D → ℕ × D
  volume_of zero d = new_volume d
  volume_of (suc vol) d = (suc vol, d)

  pub ensure_volume : D → ℕ × D
  ensure_volume d = volume_of (id_of (s.select_meta (text "current_vol_id") d)) d

  pub inserted_folder : Done × D → (ℕ × Option Text) × D
  inserted_folder (done, d) = ((s.last_insert_rowid d, none), d)
  inserted_folder (unprepared err, d) = ((0, some err), d)
  inserted_folder (refused err, d) = ((0, some err), d)

  pub folder_of : ℕ → ℕ → Text → D → Found ℕ → (ℕ × Option Text) × D
  folder_of vol parent name d (found id) = ((id, none), d)
  folder_of vol parent name d not_found = inserted_folder (s.insert_folder vol parent name d)
  folder_of vol parent name d (refused err) = ((0, some err), d)

  pub ensure_folder_locked : ℕ → ℕ → Text → D → (ℕ × Option Text) × D
  ensure_folder_locked vol parent name d =
      folder_of vol parent name d (s.select_folder vol parent name d)

  -- One turn of the loop over the directories of a path, `go` being the rest.
  pub enter : (ℕ → D → Descent × D) → (ℕ × Option Text) × D → Descent × D
  enter go ((zero, err), d) = (stuck err, d)
  enter go ((suc id, err), d) = go (suc id) d

  pub ensure_folders : ℕ → ℕ → List Text → D → Descent × D
  ensure_folders vol parent [] d = (reached parent, d)
  ensure_folders vol parent (name ∷ names) d =
      enter (λ id d1. ensure_folders vol id names d1) (ensure_folder_locked vol parent name d)

  pub upsert_special_locked : ObjectRecord → D → Verdict × D
  upsert_special_locked o d = let v = ensure_volume d in verdict (s.upsert_special v.0 o v.1)

  pub put_file : Text → ObjectRecord → Descent × D → Verdict × D
  put_file base o (reached folder, d) = verdict (s.upsert_file folder base o d)
  put_file base o (stuck err, d) = ((false, err), d)

  -- The folders of a path, below the root of the current volume.
  pub ensure_path : List Text → D → Descent × D
  ensure_path dirs d =
      let v = ensure_volume d in
      let root = ensure_root_folder v.0 v.1 in ensure_folders v.0 root.0 dirs root.1

  pub upsert_split : List Text → Text → ObjectRecord → D → Verdict × D
  upsert_split dirs [] o d = ((false, some (text "empty file path")), d)
  upsert_split dirs (c ∷ cs) o d = put_file (c ∷ cs) o (ensure_path dirs d)

  pub upsert_file_locked : ObjectRecord → D → Verdict × D
  upsert_file_locked o d = let split = split_file_path o.path in upsert_split split.0 split.1 o d

  pub upsert_locked : Text → ObjectRecord → D → Verdict × D
  upsert_locked path o d =
      if special_path path then upsert_special_locked o d else upsert_file_locked o d

  -- `db_` is none where the database is not open.
  pub upsert_object : ObjectRecord → Option D → Verdict × Option D
  upsert_object o none = ((false, some (text "database not open")), none)
  upsert_object o (some d) = let r = upsert_locked o.path o d in (r.0, some r.1)

  pub with_path : Text → Option ObjectRecord → Option ObjectRecord
  with_path path none = none
  with_path path (some o) = some (record o { path = path })

  pub get_special_locked : Text → D → Option ObjectRecord × D
  get_special_locked path d = let v = ensure_volume d in (row (s.select_special v.0 path v.1), v.1)

  -- The loop over the directories, which makes none.
  pub find_folders : ℕ → ℕ → List Text → D → Option ℕ
  find_folders vol parent [] d = some parent
  find_folders vol parent (name ∷ names) d = elim (s.select_folder vol parent name d) [
    | found id ↦ find_folders vol id names d
    | not_found ↦ none
    | refused err ↦ none
  ]

  pub file_in : Text → Text → Option ℕ → D → Option ObjectRecord
  file_in path base none d = none
  file_in path base (some folder) d = with_path path (row (s.select_file folder base d))

  pub get_split : Text → List Text → Text → D → Option ObjectRecord × D
  get_split path dirs [] d = (none, d)
  get_split path dirs (c ∷ cs) d =
      let v = ensure_volume d in
      let root = ensure_root_folder v.0 v.1 in
      (file_in path (c ∷ cs) (find_folders v.0 root.0 dirs root.1) root.1, root.1)

  pub get_file_locked : Text → D → Option ObjectRecord × D
  get_file_locked path d = let split = split_file_path path in get_split path split.0 split.1 d

  pub get_locked : Text → D → Option ObjectRecord × D
  get_locked path d =
      if special_path path then get_special_locked path d else get_file_locked path d

  pub get_object : Text → Option D → Option ObjectRecord × Option D
  get_object path none = (none, none)
  get_object path (some d) = let r = get_locked path d in (r.0, some r.1)

  -- The record of a path, or a fresh one.
  pub or_fresh : Text → Option ObjectRecord → ObjectRecord
  or_fresh path none = no_record path
  or_fresh path (some o) = o

  pub update : Text → (ObjectRecord → ObjectRecord) → D → Verdict × D
  update path f d = let r = get_locked path d in upsert_locked path (f (or_fresh path r.0)) r.1

  -- `now` is what `time` answers.
  pub bump_massage : Text → ℕ → ℕ → D → Verdict × D
  bump_massage path size now =
      update path
        λ o. record o { size = size; last_massage = now; massage_count = o.massage_count + 1 }

  pub set_sha1 : Text → List ℕ → D → Verdict × D
  set_sha1 path sha1 = update path λ o. record o { sha1 = some sha1 }

  pub bump_verify : Text → VerifyStatus → Option (List ℕ) → ℕ → D → Verdict × D
  bump_verify path st sha1 now = update path λ o. record o {
    sha1 = or_kept sha1 o.sha1;
    verify_status = st;
    verify_count = o.verify_count + 1;
    verified_at = now;
  }
