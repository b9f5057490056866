-- ===== src/Fs/Ntfs/Tests.antt =====
-- Run lists and records of NTFS (src/fs/ntfs.cpp), concrete.
use reflash.Base.{
  ℕ, ◌-◌, ◌*◌, ◌≡◌, refl, Bool, true, ◌&&◌, ltb, none, List, [], ◌∷◌, ◌++◌, replicate, arith, r16,
}
use reflash.Fs.{returned, out_of_fuel}
use reflash.Fs.Ntfs.{Attrs, at_attr, decode_runs_allocated, fixup_record, collect_loop}
use reflash.Fs.Ntfs.Runs.{
  RunEntry, hole, ahead, behind, encode_all, meaning, Fits, decode_runs_allocated-encode_all,
}
use reflash.Fs.Ntfs.Loop.{collect_loop-stuck}
use reflash.Fs.Ntfs.Fixup.{Restored, fixup_record-Restored}

-- 24 clusters from 0x5634 on, a hole of 16, and 4 clusters from 0x100 before the first run.
abbrev runs : List RunEntry
runs = ahead 0 24 1 0x5634 ∷ hole 0 16 ∷ behind 0 4 1 0x100 ∷ []

runs-Fits : Fits 0 runs
unfolding Fits
runs-Fits = (
  (omega arith, (omega arith, (omega arith, (omega arith, omega arith)))),
  (
    (omega arith, omega arith),
    ((omega arith, (omega arith, (omega arith, (omega arith, (omega arith, omega arith))))), tt),
  ),
)

decode_runs_allocated-encode_all_example :
    decode_runs_allocated (encode_all runs (7 ∷ [])) 0 512 8
    ≡ returned (meaning record { base = 0; cluster_bytes = 512 * 8 } 0 [] runs)
decode_runs_allocated-encode_all_example =
    decode_runs_allocated-encode_all runs (7 ∷ []) 0 512 8 runs-Fits

-- A record of two sectors of 16 bytes, with the array of three entries at 8.
abbrev torn : List ℕ
torn = 0x46 ∷ 0x49 ∷ 0x4C ∷ 0x45 ∷ 8 ∷ 0 ∷ 3 ∷ 0 ∷ 1 ∷ 0 ∷ 5 ∷ 6 ∷ 7 ∷ 8 ∷ 0 ∷ 0 ∷ []

abbrev record_bytes : List ℕ
record_bytes = torn ++ replicate 16 0

fixup_record-Restored_example :
    ((fixup_record record_bytes 16).0 ≡ true)
    × Restored 16
        (r16 record_bytes 4)
        (r16 record_bytes 6 - 1)
        1
        record_bytes
        (fixup_record record_bytes 16).1
fixup_record-Restored_example =
    fixup_record-Restored record_bytes 16 (omega arith) refl (λ e. ground arith) (omega arith)
      (omega arith) (omega arith) (omega arith)

-- A record with one attribute, at 24, whose length is 2^16.
abbrev looping : List ℕ
looping =
    replicate 20 0 ++ (24 ∷ 0 ∷ 0 ∷ 0 ∷ 0x10 ∷ 0 ∷ 0 ∷ 0 ∷ 0 ∷ 0 ∷ 1 ∷ 0 ∷ []) ++ replicate 32 0

abbrev at_24 : Attrs
at_24 = record { aoff = 24; exts = []; logical_size = 0; name = none }

looping-at_attr : at_attr looping 24 ≡ true
unfolding at_attr
looping-at_attr = refl

collect_loop-stuck_example : collect_loop 1000 looping 0 512 8 at_24 ≡ out_of_fuel
collect_loop-stuck_example =
    collect_loop-stuck looping 0 512 8 at_24 (omega arith) looping-at_attr refl refl 1000

-- A record with one resident attribute of 24 bytes, at 24, and the end mark after it.
abbrev one_attr : List ℕ
one_attr =
    replicate 20 0
    ++ (24 ∷ 0 ∷ 0 ∷ 0 ∷ 0x80 ∷ 0 ∷ 0 ∷ 0 ∷ 24 ∷ 0 ∷ 0 ∷ 0 ∷ [])
    ++ replicate 16 0
    ++ (0xFF ∷ 0xFF ∷ 0xFF ∷ 0xFF ∷ [])
    ++ replicate 12 0

-- Every byte is below 256, as a test.
abbrev all_small : List ℕ → Bool
all_small [] = true
all_small (x ∷ xs) = ltb x 256 && all_small xs
