-- ===== src/Sha1Pass/Verified.antt =====
-- A file that is verified twice (src/engine/sha1_pass.cpp).
use reflash.Base.{ℕ, ◌≡◌, refl, true, false, Option, some, List, text_eq_refl, Text}
use reflash.Store.Path.{special_path}
use reflash.Store.{VerifyStatus, ObjectRecord, Sqlite, get_locked, bump_verify}
use reflash.Store.Laws.{IsDocumented, Ready}
use reflash.Store.Laws.Verify.{bump_verify_file}
use reflash.Sha1Pass.{differs, status_of, verified}

status_of_same :
    (dig : List ℕ) (o : ObjectRecord) → o.sha1 ≡ some dig → status_of (some o) dig ≡ VerifyStatus.ok
unfolding status_of differs
status_of_same dig o e = rw (e, text_eq_refl dig) refl

-- Where SQLite does what is documented and the database has its volume, a verification of a file
-- that is recorded leaves the status that it came to, Fail where the hash in the database was
-- another one; and it leaves the hash that it computed, so that a verification that finds the same
-- content again comes to Ok, also after a Fail.
pub verified-status_of :
    {D : Type 0} (s : Sqlite D)
    → IsDocumented s
    → (now : ℕ) (path : Text) (dig : List ℕ) (prev : Option ObjectRecord) (d : D)
    → special_path path ≡ false
    → Ready s d
    → (bump_verify s path (status_of prev dig) (some dig) now d).0.0 ≡ true
    → (o : ObjectRecord) × (((get_locked s path (verified s now path dig (prev, d))).0 ≡ some o)
        × ((o.verify_status ≡ status_of prev dig) × (status_of (some o) dig ≡ VerifyStatus.ok)))
unfolding verified
verified-status_of s law now path dig prev d file ready ok =
    let (o, (same, (sha1, status))) =
      bump_verify_file s law path (status_of prev dig) dig now d file ready ok in
    (o, (same, (status, status_of_same dig o sha1)))
