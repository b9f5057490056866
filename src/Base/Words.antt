-- ===== src/Base/Words.antt =====
-- Byte strings and little-endian words. A byte is a number below 256, so the `|` of shifted bytes
-- in the sources carries nothing and is written as a sum.
use Prim.Native.Nat.{ℕ, zero, suc, ◌+◌, ◌*◌, ◌/◌, ◌%◌, ◌^◌}
use Prim.Native.Char.{code}
use Prim.Native.String.{String}
use mathlib.Core.List.{List, [], ◌∷◌, ◌++◌}
use reflash.Base.Lists.{get_or}
use reflash.Base.Tests.{ltb, if◌then◌else◌}

-- `std::string`, a string of bytes.
abbrev pub Text : Type 0
Text = List ℕ

-- A literal of the source, all of which are ASCII.
abbrev pub text : String → Text
text String.[] = []
text (String.◌∷◌ c s) = code c ∷ text s

abbrev pub u16_mod : ℕ
u16_mod = 2 ^ 16

abbrev pub u32_mod : ℕ
u32_mod = 2 ^ 32

abbrev pub u64_mod : ℕ
u64_mod = 2 ^ 64

-- `std::to_string` of an unsigned number: the digits below the fuel, most significant first.
decimal : ℕ → ℕ → Text
decimal zero n = []
decimal (suc f) n =
    let higher = decimal f (n / 10) in
    let digit = (b'0' + n % 10) ∷ [] in if ltb n 10 then digit else higher ++ digit

pub to_string : ℕ → Text
unfolding decimal
to_string n = decimal (suc n) n

-- Byte `i` of a buffer. A read past the end of the buffer, which the sources must not make, gives 0.
abbrev pub byte : List ℕ → ℕ → ℕ
byte p i = get_or p i 0

-- The little-endian readers `r16`, `r32`, `r64` (also `le32`, `le64`) at offset `i` of a buffer.
abbrev pub r16 : List ℕ → ℕ → ℕ
r16 p i = byte p i + byte p (i + 1) * 2 ^ 8

abbrev pub r32 : List ℕ → ℕ → ℕ
r32 p i = r16 p i + r16 p (i + 2) * 2 ^ 16

abbrev pub r64 : List ℕ → ℕ → ℕ
r64 p i = r32 p i + r32 p (i + 4) * 2 ^ 32
