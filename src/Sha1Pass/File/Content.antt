-- ===== src/Sha1Pass/File/Content.antt =====
-- What `sha1_file` hashes (src/engine/sha1_pass.cpp): the bytes of the file, however `read` cuts
-- them up.
use reflash.Base.{◌≡◌, refl, sym, ◌∙◌, ap, ℕ, Option, none, some, List, [], ◌∷◌, ◌++◌, Text}
use reflash.Sha1Pass.File.{
  Hashed, digest, unread, Answer, got, interrupted, failed, Evp, opened_file, read_loop, sha1_file,
  hash_answers,
}

-- What OpenSSL documents of `EVP_DigestUpdate`: it may be called with a message in pieces.
pub record IsIncremental {C : Type 0} (evp : Evp C) : Type 0 where
  pub update_append :
      (c : C) (xs ys : List ℕ) → evp.update (evp.update c xs) ys ≡ evp.update c (xs ++ ys)
  pub update_empty : (c : C) → evp.update c [] ≡ c

abbrev prepend : List ℕ → Option (List ℕ) → Option (List ℕ)
prepend bs none = none
prepend bs (some more) = some (bs ++ more)

-- The bytes up to the end of the file, where no answer before it is an error.
abbrev pub content : List Answer → Option (List ℕ)
content [] = some []
content (interrupted ∷ rest) = content rest
content (failed err ∷ rest) = none
content (got [] ∷ rest) = some []
content (got (b ∷ bs) ∷ rest) = prepend (b ∷ bs) (content rest)

module _ {C : Type 0} (evp : Evp C) where
  -- The hash of the bytes, or an error where there are none.
  abbrev pub IsDigestOf : C → Option (List ℕ) → Hashed → Type 0
  IsDigestOf c none h = (err : Text) × (h ≡ unread err)
  IsDigestOf c (some bytes) h = h ≡ digest (evp.final (evp.update c bytes))

  prepend-IsDigestOf :
      IsIncremental evp
      → (bs : List ℕ) (c : C) (more : Option (List ℕ)) (h : Hashed)
      → IsDigestOf (evp.update c bs) more h
      → IsDigestOf c (prepend bs more) h
  prepend-IsDigestOf law bs c none h unhashed = unhashed
  prepend-IsDigestOf law bs c (some more) h e =
      e ∙ ap (λ x. digest (evp.final x)) (law.update_append c bs more)

  read_loop-IsDigestOf :
      IsIncremental evp
      → (answers : List Answer) (c : C) → IsDigestOf c (content answers) (read_loop evp answers c)
  unfolding read_loop
  read_loop-IsDigestOf law [] c = ap (λ x. digest (evp.final x)) (sym (law.update_empty c))
  read_loop-IsDigestOf law (interrupted ∷ rest) c = read_loop-IsDigestOf law rest c
  read_loop-IsDigestOf law (failed err ∷ rest) c = (err, refl)
  read_loop-IsDigestOf law (got [] ∷ rest) c =
      ap (λ x. digest (evp.final x)) (sym (law.update_empty c))
  read_loop-IsDigestOf law (got (b ∷ bs) ∷ rest) c =
      prepend-IsDigestOf law (b ∷ bs) c (content rest) (read_loop evp rest (evp.update c (b ∷ bs)))
        (read_loop-IsDigestOf law rest (evp.update c (b ∷ bs)))

  -- Where OpenSSL gives a context and takes a message in pieces as it documents, the hash of a file
  -- is that of the bytes that `read` gives up to the end of the file, in whatever pieces and with
  -- whatever interrupted calls between them; and where `read` fails before the end, there is no
  -- hash but the text of an error.
  pub sha1_file-IsDigestOf :
      IsIncremental evp
      → (c : C) → evp.init ≡ some c
      → (answers : List Answer)
      → IsDigestOf c (content answers) (sha1_file evp (opened_file answers))
  unfolding sha1_file hash_answers read_loop
  sha1_file-IsDigestOf law c e answers = rw e (read_loop-IsDigestOf law answers c)
