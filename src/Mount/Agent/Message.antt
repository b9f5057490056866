-- ===== src/Mount/Agent/Message.antt =====
-- What the client of the privilege agent says of an output (src/mount/host_priv.cpp).
use reflash.Base.{ℕ, ◌≡◌, refl, ap, Bool, false, none, [], ◌∷◌, ◌++◌, if◌then◌else◌, Text, text}
use reflash.Mount.Agent.{
  after_newline, is_blank, up_to_word, but_last, last_line, colon, approval_failed,
}
use reflash.Mount.Mounting.{strip_end}

but_last-append : (body : Text) (c : ℕ) → but_last (body ++ c ∷ []) ≡ body
unfolding but_last
but_last-append [] c = refl
but_last-append (b ∷ []) c = refl
but_last-append (b ∷ d ∷ ds) c = ap (λ v. b ∷ v) (but_last-append (d ∷ ds) c)

keep :
    (b : ℕ) (body : Text) (c : ℕ) (r : Text)
    → r ≡ body ++ c ∷ []
    → (elim r [ [] ↦ if is_blank b then [] else b ∷ [] | d ∷ ds ↦ b ∷ d ∷ ds ])
      ≡ b ∷ (body ++ c ∷ [])
keep b [] c r e = rw e refl
keep b (x ∷ xs) c r e = rw e refl

up_to_word-append :
    (body : Text) (c : ℕ) → is_blank c ≡ false → up_to_word (body ++ c ∷ []) ≡ body ++ c ∷ []
unfolding up_to_word
up_to_word-append [] c word = rw word refl
up_to_word-append (b ∷ bs) c word = keep b bs c _ (up_to_word-append bs c word)

-- Of an output of one line that ends with a word, the message says all but the last character.
approval_failed-one_line :
    (gui : Bool) (b : ℕ) (body : Text) (c : ℕ)
    → is_blank c ≡ false
    → after_newline (b ∷ (body ++ c ∷ [])) ≡ none
    → approval_failed gui (b ∷ (body ++ c ∷ []))
      ≡ text "Administrator approval failed" ++ colon (strip_end (b ∷ body))
unfolding approval_failed last_line colon after_newline
approval_failed-one_line gui b body c word line =
    rw (up_to_word-append (b ∷ body) c word) (rw line (rw (but_last-append (b ∷ body) c) refl))
