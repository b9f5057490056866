-- ===== src/Device/Writing.antt =====
-- `io_exact` (src/io/device.cpp), writing, against the bytes of a medium.
use reflash.Base.{
  ℕ, zero, suc, ◌+◌, ◌-◌, ◌%◌, ◌≤◌, ◌<◌, ◌≡◌, ◌≢◌, ◌⊎◌, refl, ap, ◌∙◌, List, [], ◌∷◌, arith, length,
  drop, length-drop, get_or-drop, byte, u64_mod,
}
use reflash.Device.{
  SysWrite, wrote, interrupted, error, Sys, WriteEnd, all_written, write_failed, write_out_of_fuel,
  write_round, write_exact,
}

-- Byte `a` belongs to the `n` bytes from an offset on.
abbrev pub In : ℕ → ℕ → ℕ → Type 0
In offset n a = (offset ≤ a) × (a < offset + n)

byte-drop :
    (offset n : ℕ) (bytes : List ℕ) (a : ℕ)
    → offset + n ≤ a
    → byte (drop n bytes) (a - (offset + n)) ≡ byte bytes (a - offset)
byte-drop offset n bytes a h =
    get_or-drop n (a - (offset + n)) bytes 0 ∙ ap (byte bytes) (omega arith)

module _ {W : Type 0} (sys : Sys W) (view : W → ℕ → ℕ) where
  -- From `w` to `w1` the first `n` of the bytes are put at an offset, and nothing else changes.
  unfoldable pub Put : ℕ → ℕ → List ℕ → W → W → Type 0
  Put offset n bytes w w1 =
      (a : ℕ)
      → (In offset n a → view w1 a ≡ byte bytes (a - offset))
        × (¬ In offset n a → view w1 a ≡ view w a)

  -- Some of the bytes are put in their places, and nothing else changes.
  unfoldable pub Mixed : ℕ → List ℕ → W → W → Type 0
  Mixed offset bytes w w1 =
      (a : ℕ)
      → (view w1 a ≡ view w a)
        ⊎ (In offset (length bytes) a × (view w1 a ≡ byte bytes (a - offset)))

  -- A call with these bytes that has ended in the state `w1`.
  unfoldable pub AfterWrite : ℕ → List ℕ → W → SysWrite × W → Type 0
  AfterWrite offset bytes w (wrote n, w1) =
      (n ≤ length bytes) × ((offset + n < u64_mod) × Put offset n bytes w w1)
  AfterWrite offset bytes w (interrupted, w1) = (a : ℕ) → view w1 a ≡ view w a
  AfterWrite offset bytes w (error err, w1) = Mixed offset bytes w w1

  -- What `pwrite` is documented to do: put the bytes that it counts in their places, none of them at
  -- 2^64 or above; nothing where it is interrupted; where it fails, possibly some of the bytes.
  unfoldable pub Writes : Type 0
  Writes =
      (offset : ℕ) (bytes : List ℕ) (w : W) → AfterWrite offset bytes w (sys.pwrite offset bytes w)

  unfoldable pub Steady : Type 0
  Steady = (offset : ℕ) (bytes : List ℕ) (w : W) → (sys.pwrite offset bytes w).0 ≢ interrupted

  -- What `io_exact` may leave: all the bytes in their places, or an error and some of them.
  unfoldable pub WritesAll : ℕ → List ℕ → W → WriteEnd × W → Type 0
  WritesAll offset bytes w (all_written, w1) = Put offset (length bytes) bytes w w1
  WritesAll offset bytes w (write_failed err, w1) = Mixed offset bytes w w1
  WritesAll offset bytes w (write_out_of_fuel, w1) = ⊥

  Put-drop :
      (offset n : ℕ) (bytes : List ℕ) (w w1 w2 : W)
      → n ≤ length bytes
      → Put offset n bytes w w1
      → Put (offset + n) (length (drop n bytes)) (drop n bytes) w1 w2
      → Put offset (length bytes) bytes w w2
  unfolding Put
  Put-drop offset n bytes w w1 w2 le p q a =
      ground (arith, p a, q a, byte-drop offset n bytes a, length-drop n bytes)

  Mixed-drop :
      (offset n : ℕ) (bytes : List ℕ) (w w1 w2 : W)
      → n ≤ length bytes
      → Put offset n bytes w w1
      → Mixed (offset + n) (drop n bytes) w1 w2
      → Mixed offset bytes w w2
  unfolding Put Mixed
  Mixed-drop offset n bytes w w1 w2 le p q a =
      ground (arith, p a, q a, byte-drop offset n bytes a, length-drop n bytes)

  WritesAll-drop :
      (offset n : ℕ) (bytes : List ℕ) (w w1 : W) (r : WriteEnd × W)
      → n ≤ length bytes
      → Put offset n bytes w w1
      → WritesAll (offset + n) (drop n bytes) w1 r
      → WritesAll offset bytes w r
  unfolding WritesAll
  WritesAll-drop offset n bytes w w1 (all_written, w2) le p h =
      Put-drop offset n bytes w w1 w2 le p h
  WritesAll-drop offset n bytes w w1 (write_failed err, w2) le p h =
      Mixed-drop offset n bytes w w1 w2 le p h
  WritesAll-drop offset n bytes w w1 (write_out_of_fuel, w2) le p h = h

  Mixed-nothing :
      (offset : ℕ) (bytes : List ℕ) (w w1 : W) → Put offset 0 bytes w w1 → Mixed offset bytes w w1
  unfolding Put Mixed
  Mixed-nothing offset bytes w w1 p a = ground (arith, p a)

  WritesAll-round :
      (go : ℕ → List ℕ → W → WriteEnd × W) (offset : ℕ) (bytes : List ℕ)
      → ((offset1 : ℕ) (rest : List ℕ) (w1 : W)
          → length rest < length bytes
          → WritesAll offset1 rest w1 (go offset1 rest w1))
      → (w : W) (r : SysWrite × W) → 0 < length bytes
      → r.0 ≢ interrupted
      → AfterWrite offset bytes w r
      → WritesAll offset bytes w (write_round go offset bytes r)
  unfolding WritesAll write_round AfterWrite
  WritesAll-round go offset bytes rec w (wrote zero, w1) some_left steady (le, (word, p)) =
      Mixed-nothing offset bytes w w1 p
  WritesAll-round go offset bytes rec w (wrote (suc n), w1) some_left steady (le, (word, p)) =
      let here : (offset + suc n) % u64_mod ≡ offset + suc n = omega arith in
      rw here (
        WritesAll-drop offset (suc n) bytes w w1 _ le p
          (rec (offset + suc n) (drop (suc n) bytes) w1 (omega (arith, length-drop (suc n) bytes))))
  WritesAll-round go offset bytes rec w (interrupted, w1) some_left steady same =
      absurd (steady refl)
  WritesAll-round go offset bytes rec w (error err, w1) some_left steady h = h

-- With a `pwrite` that does what is documented and is not interrupted, `io_exact` returns after at
-- most as many rounds as there are bytes: with every byte in its place, or with an error after which
-- each byte of the range is the new or the old one; and nothing outside the range changes.
pub write_exact-WritesAll :
    {W : Type 0} (sys : Sys W) (view : W → ℕ → ℕ)
    → Writes sys view
    → Steady sys view
    → (fuel offset : ℕ) (bytes : List ℕ) (w : W) → length bytes ≤ fuel
    → WritesAll sys view offset bytes w (write_exact fuel sys offset bytes w)
unfolding write_exact WritesAll Put Writes Steady
write_exact-WritesAll sys view writes steady fuel offset [] w le = λ a. ground arith
write_exact-WritesAll sys view writes steady zero offset (b ∷ bs) w le = absurd (omega arith)
write_exact-WritesAll sys view writes steady (suc fuel) offset (b ∷ bs) w le =
    WritesAll-round sys view (write_exact fuel sys) offset (b ∷ bs)
      (λ offset1 rest w1 less.
        write_exact-WritesAll sys view writes steady fuel offset1 rest w1 (omega arith))
      w _ (omega arith) (steady offset (b ∷ bs) w) (writes offset (b ∷ bs) w)
