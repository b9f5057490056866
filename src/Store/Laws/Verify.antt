-- ===== src/Store/Laws/Verify.antt =====
-- `Store::bump_verify` (src/db/store.cpp) on a file, and what `get_object` finds after it.
use reflash.Base.{
  ℕ, ◌≡◌, refl, ap, ◌∙◌, sym, subst, true, false, Option, none, some, List, [], ◌∷◌, Text,
}
use reflash.Store.Path.{special_path, split_file_path}
use reflash.Store.{
  VerifyStatus, ObjectRecord, Sqlite, or_kept, with_path, file_in, get_split, get_file_locked,
  get_locked, upsert_locked, or_fresh, update, bump_verify,
}
use reflash.Store.Laws.{
  IsDocumented, Ready, Got, upsert_locked-Got, ensure_volume-Ready, ensure_root_folder-Ready,
}

module _ {D : Type 0} (s : Sqlite D) where
  -- A record that is answered for a path has that path.
  Named : Text → Option ObjectRecord → Type 0
  Named path none = Unit
  Named path (some o) = o.path ≡ path

  with_path-Named : (path : Text) (o : Option ObjectRecord) → Named path (with_path s path o)
  unfolding with_path Named
  with_path-Named path none = tt
  with_path-Named path (some o) = refl

  file_in-Named :
      (path base : Text) (folder : Option ℕ) (d : D) → Named path (file_in s path base folder d)
  unfolding file_in Named
  file_in-Named path base none d = tt
  file_in-Named path base (some folder) d = with_path-Named path _

  get_split-Named :
      (path : Text) (names : List Text) (base : Text) (d : D)
      → Named path (get_split s path names base d).0
  unfolding get_split Named
  get_split-Named path names [] d = tt
  get_split-Named path names (c ∷ cs) d = file_in-Named path (c ∷ cs) _ _

  get_split_state :
      (path : Text) (names : List Text) (base : Text) (d : D)
      → Ready s d
      → (get_split s path names base d).1 ≡ d
  unfolding get_split
  get_split_state path names [] d ready = refl
  get_split_state path names (c ∷ cs) d ready =
      rw (get_split, ensure_volume-Ready s d ready) (rw (ensure_root_folder-Ready s d ready) refl)

  or_fresh_path :
      (path : Text) (o : Option ObjectRecord) → Named path o → (or_fresh s path o).path ≡ path
  unfolding or_fresh Named
  or_fresh_path path none h = refl
  or_fresh_path path (some o) h = h

  -- The record is stored under a path that is its own.
  upsert_at :
      (law : IsDocumented s) (path : Text) (o : ObjectRecord) (d : D)
      → o.path ≡ path
      → Ready s d
      → (upsert_locked s path o d).0.0 ≡ true
      → Got s law path o
          (get_locked s path (upsert_locked s path o d).1)
          (upsert_locked s path o d).1
  upsert_at law path o d e ready =
      subst
        (λ p.
          (upsert_locked s p o d).0.0 ≡ true
          → Got s law p o (get_locked s p (upsert_locked s p o d).1) (upsert_locked s p o d).1)
        e (upsert_locked-Got s law o d _ refl ready)

  get_locked-Named :
      (path : Text) (d : D) → special_path path ≡ false → Named path (get_locked s path d).0
  unfolding get_locked get_file_locked
  get_locked-Named path d file =
      rw (get_locked, file)
        (get_split-Named path (split_file_path path).0 (split_file_path path).1 d)

  get_locked_state :
      (path : Text) (d : D) → special_path path ≡ false → Ready s d → (get_locked s path d).1 ≡ d
  unfolding get_locked get_file_locked
  get_locked_state path d file ready =
      rw (get_locked, file)
        (get_split_state path (split_file_path path).0 (split_file_path path).1 d ready)

  -- What a read, a change and an upsert of a file leave.
  update_file :
      (law : IsDocumented s) (path : Text) (f : ObjectRecord → ObjectRecord) (d : D)
      → ((o : ObjectRecord) → (f o).path ≡ o.path)
      → special_path path ≡ false
      → Ready s d
      → (update s path f d).0.0 ≡ true
      → (o : ObjectRecord) × Got s law path
          (f o)
          (get_locked s path (update s path f d).1)
          (update s path f d).1
  unfolding update
  update_file law path f d keeps file ready ok =
      let r : Option ObjectRecord × D = get_locked s path d in
      let here = subst (Ready s) (sym (get_locked_state path d file ready)) ready in
      let o : ObjectRecord = or_fresh s path r.0 in
      let named = keeps o ∙ or_fresh_path path r.0 (get_locked-Named path d file) in
      (o, upsert_at law path (f o) r.1 named here ok)

  -- A file that is verified has the status and the hash of the last verification.
  pub bump_verify_file :
      IsDocumented s
      → (path : Text) (st : VerifyStatus) (dig : List ℕ) (now : ℕ) (d : D)
      → special_path path ≡ false
      → Ready s d
      → (bump_verify s path st (some dig) now d).0.0 ≡ true
      → (o : ObjectRecord) × (((get_locked s path (bump_verify s path st (some dig) now d).1).0
            ≡ some o)
          × ((o.sha1 ≡ some dig) × (o.verify_status ≡ st)))
  unfolding bump_verify Got or_kept
  bump_verify_file law path st dig now d file ready ok =
      let (o, (old, same)) = update_file law path _ d (λ o. refl) file ready ok in
      (_, (ap (λ (r : Option ObjectRecord × D). r.0) same, (refl, refl)))
