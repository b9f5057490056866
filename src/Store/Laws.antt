-- ===== src/Store/Laws.antt =====
-- What the statements of `Store` (src/db/store.cpp) do to the tables, and what is found under a path
-- after it is stored.
pub mod Verify
use reflash.Base.{
  ℕ, zero, suc, ◌≡◌, ◌≢◌, refl, ap, ◌∙◌, sym, Bool, true, false, Option, some, List, [], ◌∷◌, arith,
  Text, text,
}
use reflash.Store.Path.{special_path, split_file_path}
use reflash.Store.{
  ObjectRecord, Found, found, not_found, refused, Done, done, unprepared, Sqlite, Verdict, Descent,
  reached, stuck, or_kept, upserted, verdict, id_of, root_of, ensure_root_folder, volume_of,
  ensure_volume, inserted_folder, folder_of, ensure_folder_locked, enter, ensure_folders,
  upsert_special_locked, put_file, ensure_path, upsert_split, upsert_file_locked, upsert_locked,
  upsert_object, row, with_path, get_special_locked, find_folders, file_in, get_split,
  get_file_locked, get_locked, get_object,
}

module _ {D : Type 0} (s : Sqlite D) where
  -- The settings are the same, and the folders that are there stay.
  unfoldable pub Keeps : D → D → Type 0
  Keeps d d1 =
      ((key : Text) → s.select_meta key d1 ≡ s.select_meta key d)
      × ((vol parent : ℕ) (name : Text) (id : ℕ)
          → s.select_folder vol parent name d ≡ found id
          → s.select_folder vol parent name d1 ≡ found id)

  -- What the statements of the source do, which `Sqlite` has as a whole; Store/Columns has their
  -- columns, and SQLite is documented for the rest. A row that is inserted is found, under a row id that
  -- is positive, and rows that are there are not touched; an upsert makes the row `upserted`; none
  -- of the three changes a setting or takes a folder away.
  pub record IsDocumented : Type 0 where
    pub folder_put :
        (vol parent : ℕ) (name : Text) (d : D)
        → (s.insert_folder vol parent name d).0 ≡ done
        → s.select_folder vol parent name (s.insert_folder vol parent name d).1
          ≡ found (s.last_insert_rowid (s.insert_folder vol parent name d).1)
    pub folder_keeps :
        (vol parent : ℕ) (name : Text) (d : D) → Keeps d (s.insert_folder vol parent name d).1
    pub file_put :
        (folder : ℕ) (base : Text) (o : ObjectRecord) (d : D)
        → (s.upsert_file folder base o d).0 ≡ done
        → s.select_file folder base (s.upsert_file folder base o d).1
          ≡ found (upserted (row (s.select_file folder base d)) o)
    pub file_keeps :
        (folder : ℕ) (base : Text) (o : ObjectRecord) (d : D)
        → Keeps d (s.upsert_file folder base o d).1
    pub special_put :
        (vol : ℕ) (o : ObjectRecord) (d : D)
        → (s.upsert_special vol o d).0 ≡ done
        → s.select_special vol o.path (s.upsert_special vol o d).1
          ≡ found (upserted (row (s.select_special vol o.path d)) o)
    pub special_keeps : (vol : ℕ) (o : ObjectRecord) (d : D) → Keeps d (s.upsert_special vol o d).1

  -- There is a current volume, with a root folder.
  pub record Ready (d : D) : Type 0 where
    pub vol : ℕ
    pub root : ℕ
    pub vol_set : id_of s (s.select_meta (text "current_vol_id") d) ≡ suc vol
    pub root_set : s.select_folder (suc vol) 0 [] d ≡ found root

  Keeps-refl : (d : D) → Keeps d d
  unfolding Keeps
  Keeps-refl d = (λ key. refl, λ vol parent name id h. h)

  Keeps-trans : (d d1 d2 : D) → Keeps d d1 → Keeps d1 d2 → Keeps d d2
  unfolding Keeps
  Keeps-trans d d1 d2 h k = (
    λ key. k.0 key ∙ h.0 key,
    λ vol parent name id e. k.1 vol parent name id (h.1 vol parent name id e),
  )

  Ready-Keeps : (d d1 : D) → Ready d → Keeps d d1 → Ready d1
  unfolding Keeps
  Ready-Keeps d d1 ready keeps = record {
    vol = ready.vol;
    root = ready.root;
    vol_set = ap (id_of s) (keeps.0 (text "current_vol_id")) ∙ ready.vol_set;
    root_set = keeps.1 (suc ready.vol) 0 [] ready.root ready.root_set;
  }

  -- What is there already is not made again.
  pub ensure_volume-Ready : (d : D) (ready : Ready d) → ensure_volume s d ≡ (suc ready.vol, d)
  unfolding ensure_volume volume_of
  ensure_volume-Ready d ready = rw ready.vol_set refl

  pub ensure_root_folder-Ready :
      (d : D) (ready : Ready d) → ensure_root_folder s (suc ready.vol) d ≡ (ready.root, d)
  unfolding ensure_root_folder root_of
  ensure_root_folder-Ready d ready = rw ready.root_set refl

  -- A folder that is made or found is found from then on.
  Holds : ℕ → ℕ → Text → D → (ℕ × Option Text) × D → Type 0
  Holds vol parent name d ((id, err), d1) =
      Keeps d d1 × (id ≢ 0 → s.select_folder vol parent name d1 ≡ found id)

  module _ (law : IsDocumented) where
    inserted-Holds :
        (vol parent : ℕ) (name : Text) (d : D) (r : Done × D)
        → Keeps d r.1
        → (r.0 ≡ done → s.select_folder vol parent name r.1 ≡ found (s.last_insert_rowid r.1))
        → Holds vol parent name d (inserted_folder s r)
    unfolding inserted_folder Holds
    inserted-Holds vol parent name d (done, d1) keeps put = (keeps, λ ne. put refl)
    inserted-Holds vol parent name d (unprepared err, d1) keeps put =
        (keeps, λ ne. absurd (ne refl))
    inserted-Holds vol parent name d (refused err, d1) keeps put = (keeps, λ ne. absurd (ne refl))

    folder_of-Holds :
        (vol parent : ℕ) (name : Text) (d : D) (r : Found ℕ)
        → s.select_folder vol parent name d ≡ r
        → Holds vol parent name d (folder_of s vol parent name d r)
    unfolding folder_of Holds
    folder_of-Holds vol parent name d (found id) e = (Keeps-refl d, λ ne. e)
    folder_of-Holds vol parent name d not_found e =
        inserted-Holds vol parent name d (s.insert_folder vol parent name d)
          (law.folder_keeps vol parent name d) (law.folder_put vol parent name d)
    folder_of-Holds vol parent name d (refused err) e = (Keeps-refl d, λ ne. absurd (ne refl))

    -- The folders of a path, once they are ensured, are found from then on.
    Reaches : ℕ → ℕ → List Text → D → Descent × D → Type 0
    Reaches vol parent names d (reached folder, d1) =
        Keeps d d1 × ((d2 : D) → Keeps d1 d2 → find_folders s vol parent names d2 ≡ some folder)
    Reaches vol parent names d (stuck err, d1) = Unit

    later_folder :
        (vol parent : ℕ) (name : Text) (id : ℕ) (d d1 : D)
        → Keeps d d1
        → s.select_folder vol parent name d ≡ found id
        → s.select_folder vol parent name d1 ≡ found id
    unfolding Keeps
    later_folder vol parent name id d d1 keeps = keeps.1 vol parent name id

    entered :
        (vol parent : ℕ) (name : Text) (names : List Text) (d d1 : D) (id : ℕ) (r : Descent × D)
        → Keeps d d1
        → s.select_folder vol parent name d1 ≡ found (suc id)
        → Reaches vol (suc id) names d1 r
        → Reaches vol parent (name ∷ names) d r
    unfolding Reaches find_folders
    entered vol parent name names d d1 id (reached folder, d2) keeps here later = (
      Keeps-trans d d1 d2 keeps later.0,
      λ d3 keeps3.
          rw
            (
              find_folders,
              later_folder vol parent name (suc id) d1 d3 (Keeps-trans d1 d2 d3 later.0 keeps3)
                  here,
            )
            (later.1 d3 keeps3),
    )
    entered vol parent name names d d1 id (stuck err, d2) keeps here later = tt

    enter-Reaches :
        (vol parent : ℕ) (name : Text) (names : List Text) (d : D) (r : (ℕ × Option Text) × D)
        → Holds vol parent name d r
        → ((id : ℕ) (d1 : D) → Reaches vol id names d1 (ensure_folders s vol id names d1))
        → Reaches vol parent
            (name ∷ names)
            d
            (enter s (λ id d1. ensure_folders s vol id names d1) r)
    unfolding enter Holds Reaches
    enter-Reaches vol parent name names d ((zero, err), d1) holds rec = tt
    enter-Reaches vol parent name names d ((suc id, err), d1) holds rec =
        entered vol parent name names d d1 id (ensure_folders s vol (suc id) names d1) holds.0
          (holds.1 (λ e. ground arith)) (rec (suc id) d1)

    ensure_folders-Reaches :
        (vol parent : ℕ) (names : List Text) (d : D)
        → Reaches vol parent names d (ensure_folders s vol parent names d)
    unfolding ensure_folders Reaches find_folders ensure_folder_locked
    ensure_folders-Reaches vol parent [] d = (Keeps-refl d, λ d2 keeps. refl)
    ensure_folders-Reaches vol parent (name ∷ names) d =
        enter-Reaches vol parent name names d (ensure_folder_locked s vol parent name d)
          (folder_of-Holds vol parent name d _ refl)
          (λ id d1. ensure_folders-Reaches vol id names d1)

    ensure_path-Reaches :
        (names : List Text) (d : D) (ready : Ready d)
        → Reaches (suc ready.vol) ready.root names d (ensure_path s names d)
    unfolding ensure_path
    ensure_path-Reaches names d ready = rw (ensure_volume-Ready d ready) (
        rw (ensure_root_folder-Ready d ready)
          (ensure_folders-Reaches (suc ready.vol) ready.root names d))

    -- What `get_object` answers for the path of a record, and that it changes nothing.
    pub Got : Text → ObjectRecord → Option ObjectRecord × D → D → Type 0
    Got path o r d =
        (old : Option (List ℕ)) × (r
          ≡ (some (record o { path = path; sha1 = or_kept o.sha1 old }), d))

    verdict_done : (r : Done × D) → (verdict s r).0.0 ≡ true → r.0 ≡ done
    unfolding verdict
    verdict_done (done, d) h = refl
    verdict_done (unprepared err, d) h = ground arith
    verdict_done (refused err, d) h = ground arith

    verdict_state : (r : Done × D) → (verdict s r).1 ≡ r.1
    unfolding verdict
    verdict_state (done, d) = refl
    verdict_state (unprepared err, d) = refl
    verdict_state (refused err, d) = refl

    get_split-Ready :
        (path : Text) (names : List Text) (c : ℕ) (cs : Text) (folder : ℕ) (d : D) (ready : Ready d)
        → find_folders s (suc ready.vol) ready.root names d ≡ some folder
        → get_split s path names (c ∷ cs) d
          ≡ (with_path s path (row (s.select_file folder (c ∷ cs) d)), d)
    unfolding get_split file_in
    get_split-Ready path names c cs folder d ready h =
        rw (get_split, ensure_volume-Ready d ready)
          (rw (ensure_root_folder-Ready d ready) (rw h refl))

    -- A file in a folder that is reached.
    put_file-Got :
        (path : Text) (names : List Text) (c : ℕ) (cs : Text) (o : ObjectRecord) (d : D)
        (ready : Ready d) (r : Descent × D)
        → Reaches (suc ready.vol) ready.root names d r
        → (put_file s (c ∷ cs) o r).0.0 ≡ true
        → Got path o
            (get_split s path names (c ∷ cs) (put_file s (c ∷ cs) o r).1)
            (put_file s (c ∷ cs) o r).1
    unfolding Reaches put_file Got with_path row upserted Ready-Keeps
    put_file-Got path names c cs o d ready (stuck err, d1) reach ok = ground arith
    put_file-Got path names c cs o d ready (reached folder, d1) reach ok =
        let base : Text = c ∷ cs in
        let d2 : D = (s.upsert_file folder base o d1).1 in
        let keeps = law.file_keeps folder base o d1 in
        let ready2 = Ready-Keeps d d2 ready (Keeps-trans d d1 d2 reach.0 keeps) in
        let put = law.file_put folder base o d1 (verdict_done _ ok) in
        rw (verdict_state (s.upsert_file folder base o d1)) (
          _,
          get_split-Ready path names c cs folder d2 ready2 (reach.1 d2 keeps)
              ∙ ap (λ x. (with_path s path (row x), d2)) put,
        )

    upsert_split-Got :
        (path : Text) (names : List Text) (base : Text) (o : ObjectRecord) (d : D)
        → Ready d
        → (upsert_split s names base o d).0.0 ≡ true
        → Got path o
            (get_split s path names base (upsert_split s names base o d).1)
            (upsert_split s names base o d).1
    unfolding upsert_split
    upsert_split-Got path names [] o d ready ok = ground arith
    upsert_split-Got path names (c ∷ cs) o d ready ok =
        put_file-Got path names c cs o d ready (ensure_path s names d)
          (ensure_path-Reaches names d ready) ok

    upsert_special-Ready :
        (o : ObjectRecord) (d : D) (ready : Ready d)
        → upsert_special_locked s o d ≡ verdict s (s.upsert_special (suc ready.vol) o d)
    unfolding upsert_special_locked
    upsert_special-Ready o d ready =
        ap (λ (v : ℕ × D). verdict s (s.upsert_special v.0 o v.1)) (ensure_volume-Ready d ready)

    get_special-Ready :
        (path : Text) (d : D) (ready : Ready d)
        → get_special_locked s path d ≡ (row (s.select_special (suc ready.vol) path d), d)
    unfolding get_special_locked
    get_special-Ready path d ready =
        ap (λ (v : ℕ × D). (row (s.select_special v.0 path v.1), v.1)) (ensure_volume-Ready d ready)

    upsert_special-Got :
        (o : ObjectRecord) (d : D)
        → Ready d
        → (upsert_special_locked s o d).0.0 ≡ true
        → Got o.path o
            (get_special_locked s o.path (upsert_special_locked s o d).1)
            (upsert_special_locked s o d).1
    unfolding Got row upserted Ready-Keeps
    upsert_special-Got o d ready ok =
        let step = upsert_special-Ready o d ready in
        let done_ = verdict_done _ (ap (λ (r : Verdict × D). r.0.0) (sym step) ∙ ok) in
        let d1 : D = (s.upsert_special (suc ready.vol) o d).1 in
        let ready1 = Ready-Keeps d d1 ready (law.special_keeps (suc ready.vol) o d) in
        let put = law.special_put (suc ready.vol) o d done_ in
        rw step (
          rw (verdict_state (s.upsert_special (suc ready.vol) o d))
            (_, get_special-Ready o.path d1 ready1 ∙ ap (λ x. (row x, d1)) put))

    -- By the kind of the path.
    pub upsert_locked-Got :
        (o : ObjectRecord) (d : D) (b : Bool)
        → special_path o.path ≡ b
        → Ready d
        → (upsert_locked s o.path o d).0.0 ≡ true
        → Got o.path o
            (get_locked s o.path (upsert_locked s o.path o d).1)
            (upsert_locked s o.path o d).1
    unfolding upsert_locked get_locked upsert_file_locked get_file_locked
    upsert_locked-Got o d true e ready =
        rw (upsert_locked, get_locked, e) (upsert_special-Got o d ready)
    upsert_locked-Got o d false e ready =
        rw (upsert_locked, get_locked, e)
          (upsert_split-Got o.path (split_file_path o.path).0 (split_file_path o.path).1 o d ready)
