-- ===== src/Store/Methods.antt =====
-- The other methods of the management database (src/db/store.cpp): the extents of an object, the
-- settings, lists, and what removes rows.
use reflash.Base.{
  ◌≡◌, refl, ℕ, zero, suc, Bool, true, false, ◌==◌, Option, none, some, List, [], ◌∷◌, ◌++◌, ltb,
  if◌then◌else◌, Text, text, to_string,
}
use reflash.Store.Path.{special_path, split_file_path}
use reflash.Store.{
  ObjectRecord, ExtentRecord, DirDbEntry, Found, found, not_found, refused, Done, done, unprepared,
  Sqlite, Verdict, Descent, reached, stuck, verdict, on_done, set_meta, ensure_volume,
  ensure_root_folder, ensure_folder_locked, ensure_path, get_file_locked,
}

default_sha1_days : ℕ
default_sha1_days = 183

module _ {D : Type 0} (s : Sqlite D) where
  get_meta : Text → D → (Bool × Text) × Option Text
  get_meta key d = elim (s.select_meta key d) [
    | found value ↦ ((true, value), none)
    | not_found ↦ ((false, []), none)
    | refused err ↦ ((false, []), some err)
  ]

  days_of : Bool × Text → ℕ
  days_of (false, value) = default_sha1_days
  days_of (true, []) = default_sha1_days
  days_of (true, c ∷ cs) = let n = s.positive (c ∷ cs) in if n == 0 then default_sha1_days else n

  pub sha1_valid_days : D → ℕ
  sha1_valid_days d = days_of (get_meta (text "sha1_valid_days") d).0

  set_sha1_valid_days : ℕ → D → Verdict × D
  set_sha1_valid_days days =
      set_meta s (text "sha1_valid_days") (to_string (if ltb days 1 then 1 else days))

  insert_extents : Text → ℕ → List ExtentRecord → D → Verdict × D
  insert_extents path now [] d = ((true, none), d)
  insert_extents path now (e ∷ es) d =
      on_done s (insert_extents path now es) (s.insert_extent path e now d)

  put_extents : Text → ℕ → List ExtentRecord → D → Option Text → Verdict × D
  put_extents path now exts d none = insert_extents path now exts d
  put_extents path now exts d (some err) = ((false, some err), d)

  -- `now` is what `time` answers.
  pub replace_extents : Text → List ExtentRecord → ℕ → D → Verdict × D
  replace_extents path exts now d =
      on_done s (λ d1. put_extents path now exts d1 (s.prepare_extent d1)) (s.delete_extents path d)

  pub bad_extents : D → List ExtentRecord × Option Text
  bad_extents d = elim (s.select_bad_extents d) [
    | found rows ↦ (rows, none)
    | not_found ↦ ([], none)
    | refused err ↦ ([], some err)
  ]

  current_volume_id : Option D → ℕ × Option D
  current_volume_id none = (0, none)
  current_volume_id (some d) = let v = ensure_volume s d in (v.0, some v.1)

  folder_under : ℕ → ℕ → D → ℕ × D
  folder_under vol zero d = ensure_root_folder s vol d
  folder_under vol (suc id) d = (suc id, d)

  -- `parent_id` is 0 where it is not positive.
  ensure_folder : ℕ → Text → Option D → (ℕ × Option Text) × Option D
  ensure_folder parent_id basename none = ((0, some (text "database not open")), none)
  ensure_folder parent_id basename (some d) =
      let v = ensure_volume s d in
      let parent = folder_under v.0 parent_id v.1 in
      let r = ensure_folder_locked s v.0 parent.0 basename parent.1 in (r.0, some r.1)

  rows_of : {A : Type 0} → Found (List A) → List A
  rows_of (found rows) = rows
  rows_of not_found = []
  rows_of (refused err) = []

  error_of : {A : Type 0} → Found (List A) → Option Text
  error_of (found rows) = none
  error_of not_found = none
  error_of (refused err) = some err

  -- An error of the first query is passed over.
  pub list_objects : Option D → (List ObjectRecord × Option Text) × Option D
  list_objects none = (([], some (text "database not open")), none)
  list_objects (some d) =
      let v = ensure_volume s d in
      let files = s.select_files v.0 v.1 in
      ((rows_of (s.select_specials v.0 v.1) ++ rows_of files, error_of files), some v.1)

  -- An open database stays open.
  pub list_objects-open : (d : D) → (d1 : D) × ((list_objects (some d)).1 ≡ some d1)
  unfolding list_objects
  list_objects-open d = ((ensure_volume s d).1, refl)

  list_db_dir : ℕ → Option D → (List DirDbEntry × Option Text) × Option D
  list_db_dir folder_id none = (([], some (text "database not open")), none)
  list_db_dir folder_id (some d) =
      let v = ensure_volume s d in
      let root = ensure_root_folder s v.0 v.1 in
      let folder = if folder_id == 0 then root.0 else folder_id in
      let files = s.select_folder_files folder root.1 in
      (
        (rows_of (s.select_subfolders v.0 folder root.1) ++ rows_of files, error_of files),
        some root.1,
      )

  -- Once the statement for the row is prepared, the extents are deleted whatever comes of it.
  without_extents : Text → ℕ → Done × D → Verdict × D
  without_extents path now (done, d) = ((true, none), (replace_extents path [] now d).1)
  without_extents path now (unprepared err, d) = ((false, some err), d)
  without_extents path now (refused err, d) = ((false, some err), (replace_extents path [] now d).1)

  delete_at : Text → Text → ℕ → Descent × D → Verdict × D
  delete_at path base now (stuck err, d) = ((false, err), d)
  delete_at path base now (reached folder, d) =
      without_extents path now (s.delete_file_row folder base d)

  delete_found : Text → ℕ → Option ObjectRecord × D → Verdict × D
  delete_found path now (none, d) = ((true, none), d)
  delete_found path now (some o, d) =
      let split = split_file_path path in delete_at path split.1 now (ensure_path s split.0 d)

  delete_file : Text → ℕ → Option D → Verdict × Option D
  delete_file path now none = ((false, some (text "database not open")), none)
  delete_file path now (some d) =
      let v = ensure_volume s d in
      let r =
        if special_path path
        then without_extents path now (s.delete_special v.0 path v.1)
        else delete_found path now (get_file_locked s path d) in
      (r.0, some r.1)

  -- The folders of a list, `go` being the recursive call; none where the fuel is short.
  delete_children : (ℕ → D → Option (Verdict × D)) → List ℕ → D → Option (Verdict × D)
  delete_children go [] d = some ((true, none), d)
  delete_children go (c ∷ cs) d = elim (go c d) [
    | none ↦ none
    | some ((false, err), d1) ↦ some ((false, err), d1)
    | some ((true, err), d1) ↦ delete_children go cs d1
  ]

  delete_folder_rows : ℕ → D → Verdict × D
  delete_folder_rows id d =
      on_done s (λ d1. verdict s (s.delete_folder_row id d1)) (s.delete_files id d)

  after_children : ℕ → Option (Verdict × D) → Option (Verdict × D)
  after_children id none = none
  after_children id (some ((false, err), d)) = some ((false, err), d)
  after_children id (some ((true, err), d)) = some (delete_folder_rows id d)

  -- With fuel for the nesting of folders.
  delete_folder : ℕ → ℕ → D → Option (Verdict × D)
  delete_folder fuel zero d = some ((true, none), d)
  delete_folder zero (suc id) d = none
  delete_folder (suc fuel) (suc id) d =
      let v = ensure_volume s d in
      let root = ensure_root_folder s v.0 v.1 in
      elim (suc id == root.0) [
        | true ↦ some ((true, none), root.1)
        | false ↦
            after_children (suc id)
              (delete_children (delete_folder fuel) (s.select_children v.0 (suc id) root.1) root.1)
      ]
