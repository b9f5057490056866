-- ===== src/Mount/Quote.antt =====
-- Words for the shell (src/mount/automount.cpp).
pub mod Word
use reflash.Base.{List, [], ◌∷◌, ◌++◌, ◌==◌, if◌then◌else◌, Text}

-- A quote ends the quoted part, stands escaped, and begins the next one.
quote_char : Text → Text
quote_char [] = []
quote_char (c ∷ cs) =
    let rest = quote_char cs in
    if c == b'\'' then b'\'' ∷ b'\\' ∷ b'\'' ∷ b'\'' ∷ rest else c ∷ rest

pub shell_quote : Text → Text
shell_quote s = b'\'' ∷ quote_char s ++ b'\'' ∷ []
