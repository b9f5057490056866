-- ===== src/Fs/Exfat/Chain.antt =====
-- The two loops of `chain` (src/fs/exfat.cpp), along the table and over contiguous clusters.
use reflash.Base.{ℕ, zero, suc, ◌-◌, ◌<◌, ◌≡◌, refl, Bool, true, false, List, [], arith, u32_mod}
use reflash.Fs.{FsFileExtent, Run, returned}
use reflash.Fs.Visited.{fresh, fresh-cons, fresh-le}
use reflash.Fs.Exfat.{
  ExGeom, Trail, TrailEnd, ends, goes_on, strip_next, strip_round, link_next, link_round,
  trail_loop, trail, chain,
}

-- A loop whose rounds lower a measure returns.
trail_end-returned :
    (f : ℕ) (round : Trail → TrailEnd) (r : TrailEnd)
    → ((next : Trail)
        → r ≡ goes_on next
        → (exts : List FsFileExtent) × (trail_loop f round next ≡ returned exts))
    → (exts : List FsFileExtent) × (elim r as (λ x. Run (List FsFileExtent)) [
      | ends exts ↦ returned exts
      | goes_on next ↦ trail_loop f round next
    ]
        ≡ returned exts)
trail_end-returned f round (ends exts) rec = (exts, refl)
trail_end-returned f round (goes_on next) rec = rec next refl

trail_loop-returned :
    (measure : Trail → ℕ) (round : Trail → TrailEnd)
    → ((s next : Trail) → round s ≡ goes_on next → measure next < measure s)
    → (f : ℕ) (s : Trail) → measure s < f
    → (exts : List FsFileExtent) × (trail_loop f round s ≡ returned exts)
unfolding trail_loop
trail_loop-returned measure round lower zero s h = absurd (omega arith)
trail_loop-returned measure round lower (suc f) s h =
    trail_end-returned f round (round s)
      (λ next e. trail_loop-returned measure round lower f next (omega (arith, lower s next e)))

link_round-seen :
    (g : ExGeom) (fat : List ℕ) (whole : Bool) (s next : Trail)
    → link_round g fat whole s ≡ goes_on next
    → fresh u32_mod next.seen < fresh u32_mod s.seen
unfolding link_round link_next
link_round-seen g fat whole s next h = ground (arith, fresh-cons u32_mod s.cluster s.seen)

strip_round-up :
    (g : ExGeom) (size : ℕ) (whole : Bool) (s next : Trail)
    → strip_round g size whole s ≡ goes_on next
    → u32_mod - next.cluster < u32_mod - s.cluster
unfolding strip_round strip_next
strip_round-up g size whole s next h = ground arith

-- The walk over the clusters of a file ends, whatever the table and the geometry hold and whether
-- or not the file is contiguous: `chain` returns.
pub chain-returned :
    (g : ExGeom) (fat : List ℕ) (start size : ℕ) (no_fat_chain whole_chain : Bool)
    → (exts : List FsFileExtent) × (chain g fat start size no_fat_chain whole_chain ≡ returned exts)
unfolding chain trail
chain-returned g fat start size true whole =
    trail_loop-returned (λ s. u32_mod - s.cluster) (strip_round g size whole)
      (strip_round-up g size whole) (suc u32_mod) _ (omega arith)
chain-returned g fat start size false whole =
    trail_loop-returned (λ s. fresh u32_mod s.seen) (link_round g fat whole)
      (link_round-seen g fat whole) (suc u32_mod) _ (omega (arith, fresh-le u32_mod []))
