-- ===== src/Options.antt =====
-- The command line (src/options.hpp, src/options.cpp). `getopt_long` and `strtoull` are not code of
-- the program: the first gives the list of options it recognised and the operands, the second is
-- the function `Strtoull`.
pub mod Accepted
mod Tests
use reflash.Base.{
  ℕ, zero, suc, ◌+◌, Bool, true, false, not, ◌&&◌, ◌||◌, List, [], ◌∷◌, ◌==◌, if◌then◌else◌, Text,
}
use reflash.BlockIo.{WriteCacheMode, write_through, cachestat, mincore, is_write_through}

pub data RunMode : Type 0 where
  linear recursive : RunMode

pub data Action : Type 0 where
  massage check : Action

-- The C type `int`, of which the program counts a verbosity.
pub data ℤ : Type 0 where
  pos : ℕ → ℤ
  negsuc : ℕ → ℤ

sucℤ : ℤ → ℤ
sucℤ (pos n) = pos (suc n)
sucℤ (negsuc zero) = pos 0
sucℤ (negsuc (suc n)) = negsuc n

predℤ : ℤ → ℤ
predℤ (pos zero) = negsuc 0
predℤ (pos (suc n)) = pos n
predℤ (negsuc n) = negsuc (suc n)

pub record Options : Type 0 where
  pub target : Text
  pub sqlite_db : Text
  pub sqlite_db_explicit : Bool
  pub block_size : ℕ
  pub mode : RunMode
  pub action : Action
  pub dry_run : Bool
  pub write_cache : WriteCacheMode
  pub verify_writes : Bool
  pub flush_poll_ms : ℕ
  pub sha1_valid_days : ℕ
  pub gui : Bool
  pub verbosity : ℤ

abbrev pub default_options : Options
default_options = record {
  target = [];
  sqlite_db = [];
  sqlite_db_explicit = false;
  block_size = 0;
  mode = linear;
  action = massage;
  dry_run = false;
  write_cache = cachestat;
  verify_writes = false;
  flush_poll_ms = 780;
  sha1_valid_days = 183;
  gui = false;
  verbosity = pos 0;
}

pub write_through_of : Options → Bool
write_through_of o = is_write_through o.write_cache

-- What `getopt_long` returns, with the argument where the option takes one.
pub data Opt : Type 0 where
  block_size sqlite_db : Text → Opt
  test linear recursive gui verbose quiet help version invalid : Opt

-- The value, and the text from `end` on.
abbrev pub Strtoull : Type 0
Strtoull = Text → ℕ × Text

-- The options are read, the program exits with 0 after its help or version, or the call fails.
pub data Parsed : Type 0 where
  accepted : Options → Parsed
  exits : Parsed
  rejected : Parsed

is_empty : Text → Bool
is_empty [] = true
is_empty (c ∷ cs) = false

pub set_block_size : Strtoull → Text → Options → Parsed
set_block_size strtoull optarg out =
    let v = strtoull optarg in
    if is_empty optarg || (not (is_empty v.1) || (v.0 == 0))
    then rejected
    else accepted (record out { block_size = v.0 })

pub set_option : Strtoull → Opt → Options → Parsed
set_option strtoull (block_size optarg) out = set_block_size strtoull optarg out
set_option strtoull (sqlite_db optarg) out =
    accepted (record out { sqlite_db = optarg; sqlite_db_explicit = true })
set_option strtoull test out = accepted (record out { action = check })
set_option strtoull linear out = accepted (record out { mode = RunMode.linear })
set_option strtoull recursive out = accepted (record out { mode = RunMode.recursive })
set_option strtoull gui out = accepted (record out { gui = true })
set_option strtoull verbose out = accepted (record out { verbosity = sucℤ out.verbosity })
set_option strtoull quiet out = accepted (record out { verbosity = predℤ out.verbosity })
set_option strtoull help out = exits
set_option strtoull version out = exits
set_option strtoull invalid out = rejected

pub set_target : List Text → Options → Parsed
set_target [] out = if out.gui then accepted out else rejected
set_target (t ∷ []) out = accepted (record out { target = t })
set_target (t ∷ u ∷ rest) out = rejected

pub parse_options : Strtoull → List Opt → List Text → Options → Parsed
parse_options strtoull [] operands out = set_target operands out
parse_options strtoull (o ∷ opts) operands out = elim (set_option strtoull o out) [
  | accepted next ↦ parse_options strtoull opts operands next
  | exits ↦ exits
  | rejected ↦ rejected
]
