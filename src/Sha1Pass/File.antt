-- ===== src/Sha1Pass/File.antt =====
-- `sha1_file` (src/engine/sha1_pass.cpp). A file is what `read` answers for it, in order; after the
-- last answer it is at its end. OpenSSL is the interface `Evp`, its context a value.
pub mod Content
use reflash.Base.{ℕ, Option, none, some, List, [], ◌∷◌, Text, text}

-- What a file hashes to, or the text of the error.
pub data Hashed : Type 0 where
  digest : List ℕ → Hashed
  unread : Text → Hashed

-- One call of `read`: the bytes, none at the end of the file; EINTR; or another error.
pub data Answer : Type 0 where
  got : List ℕ → Answer
  interrupted : Answer
  failed : Text → Answer

pub record Evp (C : Type 0) : Type 0 where
  pub init : Option C
  pub update : C → List ℕ → C
  pub final : C → List ℕ

-- What `open` answers: an error, or a file.
pub data Opened : Type 0 where
  no_file : Text → Opened
  opened_file : List Answer → Opened

module _ {C : Type 0} (evp : Evp C) where
  unfoldable read_loop : List Answer → C → Hashed
  read_loop [] c = digest (evp.final c)
  read_loop (interrupted ∷ rest) c = read_loop rest c
  read_loop (failed err ∷ rest) c = unread err
  read_loop (got [] ∷ rest) c = digest (evp.final c)
  read_loop (got (b ∷ bs) ∷ rest) c = read_loop rest (evp.update c (b ∷ bs))

  hash_answers : Option C → List Answer → Hashed
  hash_answers none answers = unread (text "EVP_DigestInit_ex failed")
  hash_answers (some c) answers = read_loop answers c

  pub sha1_file : Opened → Hashed
  sha1_file (no_file err) = unread err
  sha1_file (opened_file answers) = hash_answers evp.init answers
