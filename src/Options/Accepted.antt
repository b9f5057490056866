-- ===== src/Options/Accepted.antt =====
-- What an accepted command line has set (src/options.cpp).
use reflash.Base.{◌<◌, ◌≡◌, ◌⊎◌, inl, refl, true, List, [], ◌∷◌, Text, arith}
use reflash.Options.{
  Options, Opt, Strtoull, Parsed, accepted, exits, rejected, set_block_size, set_option, set_target,
  parse_options,
}

-- The options are the last word on their fields, and the target is the only operand, or stays
-- where there is none and the user interface is asked for.
Final : List Text → Text → Options → Type 0
Final operands before o =
    ((operands ≡ o.target ∷ []) ⊎ ((operands ≡ []) × (o.gui ≡ true) × (o.target ≡ before)))

Accepts : (Options → Type 0) → Parsed → Type 0
Accepts P (accepted o) = P o
Accepts P exits = Unit
Accepts P rejected = Unit

-- An option leaves the target alone, and a block size that it sets is not 0.
set_option-keeps :
    (strtoull : Strtoull) (opt : Opt) (out : Options)
    → Accepts
        (λ o. (o.target ≡ out.target) × ((o.block_size ≡ out.block_size) ⊎ (0 < o.block_size)))
        (set_option strtoull opt out)
unfolding set_option set_block_size Accepts
set_option-keeps strtoull opt out = ground arith

-- What the rest of the options keeps, from what one of them keeps.
Kept : List Text → Options → Parsed → Type 0
Kept operands out =
    Accepts
      (λ o. Final operands out.target o × ((o.block_size ≡ out.block_size) ⊎ (0 < o.block_size)))

-- A later option or the target is set on top of `next`.
Kept-next :
    (operands : List Text) (out next : Options) (r : Parsed)
    → (next.target ≡ out.target)
    → ((next.block_size ≡ out.block_size) ⊎ (0 < next.block_size))
    → Kept operands next r
    → Kept operands out r
unfolding Kept Accepts Final
Kept-next operands out next (accepted o) same size h = ground (arith, same, size, h)
Kept-next operands out next exits same size h = tt
Kept-next operands out next rejected same size h = tt

Kept-option :
    (strtoull : Strtoull) (opts : List Opt) (operands : List Text) (out : Options) (r : Parsed)
    → Accepts
        (λ o. (o.target ≡ out.target) × ((o.block_size ≡ out.block_size) ⊎ (0 < o.block_size)))
        r
    → ((next : Options) → Kept operands next (parse_options strtoull opts operands next))
    → Kept operands out (elim r as (λ x. Parsed) [
      | accepted next ↦ parse_options strtoull opts operands next
      | exits ↦ exits
      | rejected ↦ rejected
    ])
unfolding Accepts Kept
Kept-option strtoull opts operands out (accepted next) h rec =
    Kept-next operands out next _ h.0 h.1 (rec next)
Kept-option strtoull opts operands out exits h rec = tt
Kept-option strtoull opts operands out rejected h rec = tt

target_only : (operands : List Text) (out : Options) → Kept operands out (set_target operands out)
unfolding Kept Accepts Final set_target
target_only [] out = ground arith
target_only (t ∷ []) out = (inl refl, inl refl)
target_only (t ∷ u ∷ rest) out = tt

parse_options-Kept :
    (strtoull : Strtoull) (opts : List Opt) (operands : List Text) (out : Options)
    → Kept operands out (parse_options strtoull opts operands out)
unfolding parse_options
parse_options-Kept strtoull [] operands out = target_only operands out
parse_options-Kept strtoull (o ∷ opts) operands out =
    Kept-option strtoull opts operands out _ (set_option-keeps strtoull o out)
      (λ next. parse_options-Kept strtoull opts operands next)

-- An accepted command line has exactly one operand, which is the target, or none, and then the
-- user interface is asked for and the target stays as it was; and the block size is the one from
-- before or greater than 0.
pub parse_options-accepted :
    (strtoull : Strtoull) (opts : List Opt) (operands : List Text) (out o : Options)
    → parse_options strtoull opts operands out ≡ accepted o
    → ((operands ≡ o.target ∷ []) ⊎ ((operands ≡ []) × (o.gui ≡ true) × (o.target ≡ out.target)))
      × ((o.block_size ≡ out.block_size) ⊎ (0 < o.block_size))
unfolding Kept Accepts Final
parse_options-accepted strtoull opts operands out o e =
    rw e at (parse_options-Kept strtoull opts operands out)
