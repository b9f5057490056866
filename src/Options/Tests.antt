-- ===== src/Options/Tests.antt =====
-- A command line (src/options.cpp): `reflash -b 4096 -r /dev/sdb`.
use reflash.Base.{◌<◌, ◌≡◌, ◌⊎◌, refl, true, List, [], ◌∷◌, Text, text}
use reflash.Options.{
  Options, Opt, Strtoull, RunMode, accepted, default_options, parse_options, set_option,
  set_block_size, set_target, is_empty,
}
use reflash.Options.Accepted.{parse_options-accepted}

abbrev strtoull : Strtoull
strtoull s = (4096, [])

abbrev line : List Opt
line = Opt.block_size (text "4096") ∷ Opt.recursive ∷ []

abbrev target : Text
target = text "/dev/sdb"

abbrev options : Options
options = record default_options { block_size = 4096; mode = RunMode.recursive; target = target }

parsed : parse_options strtoull line (target ∷ []) default_options ≡ accepted options
unfolding parse_options set_option set_block_size set_target is_empty
parsed = refl

parse_options-accepted_example :
    ((target ∷ [] ≡ options.target ∷ [])
      ⊎ ((target ∷ [] ≡ []) × (options.gui ≡ true) × (options.target ≡ default_options.target)))
    × ((options.block_size ≡ default_options.block_size) ⊎ (0 < options.block_size))
parse_options-accepted_example =
    parse_options-accepted strtoull line (target ∷ []) default_options options parsed
