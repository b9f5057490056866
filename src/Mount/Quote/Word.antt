-- ===== src/Mount/Quote/Word.antt =====
-- What a POSIX shell makes of a quoted word (src/mount/automount.cpp).
use reflash.Base.{
  ℕ, ◌≡◌, refl, Bool, true, ◌||◌, Option, none, some, [], ◌∷◌, ◌++◌, ◌==◌, if◌then◌else◌, Text,
  arith, Bool-cases, inl, inr, ==_iff,
}
use mathlib.Core.List.{append_assoc}
use reflash.Mount.Quote.{quote_char, shell_quote}

-- Outside quotes, in single quotes, and after a backslash outside quotes.
pub data Mode : Type 0 where
  plain quoted escaped : Mode

abbrev is_blank : ℕ → Bool
is_blank c = c == 32 || (c == 9 || c == 10)

-- The characters that mean more than themselves outside quotes: | & ; < > ( ) $ ` " * ? [ # ~ = % !
is_special : ℕ → Bool
is_special c =
    c == 124
    || (c == 38
        || (c == 59
            || (c == 60
                || (c == 62
                    || (c == 40
                        || (c == 41
                            || (c == 36
                                || (c == 96
                                    || (c == 34
                                        || (c == 42
                                            || (c == 63
                                                || (c == 91
                                                    || (c == 35
                                                        || (c == 126
                                                            || (c == 61
                                                            || (c == 37 || c == 33))))))))))))))))

with_char : ℕ → Option (Text × Text) → Option (Text × Text)
with_char c none = none
with_char c (some (word, rest)) = some (c ∷ word, rest)

-- The first word and what follows it, by the quoting rules of the POSIX shell; none where a quote
-- is open at the end or a special character stands outside quotes.
pub sh_word : Mode → Text → Option (Text × Text)
sh_word plain [] = some ([], [])
sh_word quoted [] = none
sh_word escaped [] = none
sh_word plain (c ∷ cs) =
    let in_quotes = sh_word quoted cs in
    let after_backslash = sh_word escaped cs in
    let same = sh_word plain cs in
    if c == 39
    then in_quotes
    else if c == 92
    then after_backslash
    else if is_blank c
    then some ([], c ∷ cs)
    else if is_special c
    then none
    else with_char c same
sh_word quoted (c ∷ cs) =
    let outside = sh_word plain cs in
    let same = sh_word quoted cs in if c == 39 then outside else with_char c same
sh_word escaped (c ∷ cs) = with_char c (sh_word plain cs)

-- The word ends here.
abbrev pub ends : Text → Bool
ends [] = true
ends (c ∷ cs) = is_blank c

sh_word-ends : (rest : Text) → ends rest ≡ true → sh_word plain rest ≡ some ([], rest)
unfolding sh_word
sh_word-ends [] e = refl
sh_word-ends (c ∷ cs) e = ground arith

sh_word-quote_char :
    (s rest : Text) → ends rest ≡ true → sh_word quoted (quote_char s ++ 39 ∷ rest) ≡ some (s, rest)
unfolding sh_word quote_char with_char
sh_word-quote_char [] rest e = sh_word-ends rest e
sh_word-quote_char (c ∷ cs) rest e = elim (Bool-cases (c == 39)) [
  | inl same ↦ rw (same, sh_word-quote_char cs rest e, (==_iff c 39).0 same) refl
  | inr other ↦ rw (other, sh_word-quote_char cs rest e) (rw other refl)
]

-- Whatever bytes a text holds, quotes and all: the shell reads it, quoted and followed by a blank or
-- by nothing, as one word, the text.
pub sh_word-shell_quote :
    (s rest : Text) → ends rest ≡ true → sh_word plain (shell_quote s ++ rest) ≡ some (s, rest)
unfolding shell_quote sh_word
sh_word-shell_quote s rest e =
    rw (append_assoc (quote_char s) (39 ∷ []) rest) (sh_word-quote_char s rest e)
