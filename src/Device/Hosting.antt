-- ===== src/Device/Hosting.antt =====
-- `class Device` (src/io/device.cpp) in the place of the interface that `rewrite_range`
-- (src/io/block_io.cpp) is written against: `device_host` is what `rewrite_range` gets when it is
-- called with a device.
use reflash.Base.{
  ℕ, zero, suc, ◌+◌, ◌-◌, ◌≤◌, ◌≡◌, refl, ap, ◌∙◌, Bool, true, false, Option, none, some, List, [],
  ◌∷◌, arith, length, Text, text,
}
use reflash.BlockIo.{FlushState, FlushProbe, Read, got, failed, Host}
use reflash.BlockIo.Content.{Holds, Same, IsFaithful}
use reflash.Device.{
  Sys, Fds, ReadEnd, full, read_failed, read_out_of_fuel, WriteEnd, all_written, write_failed,
  write_out_of_fuel, read_exact, write_exact, pread_all, pwrite_all, pread_direct, pwrite_direct,
  pwrite_sync, after_write, synced,
}
use reflash.Device.Exact.{AreAt, Reads, Uninterrupted, ReadsAll, read_exact-ReadsAll}
use reflash.Device.Writing.{Put, Mixed, Writes, Steady, WritesAll, write_exact-WritesAll}

-- What `rewrite_range` calls besides the device: the page-cache probes, the pause control and the
-- allocator.
pub record Others (W : Type 0) : Type 0 where
  pub direct_align : ℕ
  pub wait_flushed : ℕ → ℕ → W → W
  pub query_flush_state : FlushProbe → ℕ → ℕ → W → FlushState × W
  pub wait_if_paused : W → Bool × W
  pub allocate : ℕ → ℕ → W → Bool × W

module _ {W : Type 0} where
  -- A call that returns; the last case does not occur with a round for each byte.
  read_of : ReadEnd × W → Read × W
  read_of (full bytes, w) = (got bytes, w)
  read_of (read_failed err, w) = (failed err, w)
  read_of (read_out_of_fuel, w) = (failed [], w)

  write_of : WriteEnd × W → Option Text × W
  write_of (all_written, w) = (none, w)
  write_of (write_failed err, w) = (some err, w)
  write_of (write_out_of_fuel, w) = (some [], w)

  is_open : Option (Sys W) → Bool
  is_open none = false
  is_open (some sys) = true

  pub device_host : Fds W → Others W → Host W
  device_host d o = record {
    has_direct = is_open d.direct;
    direct_align = o.direct_align;
    pread_all = λ offset len w. read_of (pread_all len d offset len w);
    pread_direct = λ offset len w. read_of (pread_direct len d offset len w);
    pwrite_all = λ bytes offset w. write_of (pwrite_all (length bytes) d bytes offset w);
    pwrite_sync = λ bytes offset w. write_of (pwrite_sync (length bytes) d bytes offset w);
    pwrite_direct = λ bytes offset w. write_of (pwrite_direct (length bytes) d bytes offset w);
    wait_flushed = o.wait_flushed;
    query_flush_state = o.query_flush_state;
    wait_if_paused = o.wait_if_paused;
    allocate = o.allocate;
  }

module _ {W : Type 0} (view : W → ℕ → ℕ) where
  -- The system calls on a descriptor do what is documented.
  pub record IsDocumented (sys : Sys W) : Type 0 where
    pub reads : Reads sys view
    pub uninterrupted : Uninterrupted sys view
    pub writes : Writes sys view
    pub steady : Steady sys view
    pub syncs : (w : W) (a : ℕ) → view (sys.fdatasync w).1 a ≡ view w a

  unfoldable pub OnDescriptor : Option (Sys W) → Type 0
  OnDescriptor none = Unit
  OnDescriptor (some sys) = IsDocumented sys

  -- The other calls leave the bytes of the medium alone.
  pub record IsQuiet (o : Others W) : Type 0 where
    pub flush_same : (offset len : ℕ) (w : W) → Same view w (o.wait_flushed offset len w)
    pub query_same :
        (probe : FlushProbe) (offset len : ℕ) (w : W)
        → Same view w (o.query_flush_state probe offset len w).1
    pub pause_same : (w : W) → Same view w (o.wait_if_paused w).1
    pub allocate_same : (align size : ℕ) (w : W) → Same view w (o.allocate align size w).1

  back_at : (w : W) (offset a : ℕ) → offset ≤ a → view w (offset + (a - offset)) ≡ view w a
  back_at w offset a h = ap (view w) (omega arith)

  -- What a read through the device delivers.
  Delivers : ℕ → W → Read × W → Type 0
  Delivers offset w (got bytes, w1) = Holds (view w) bytes offset × Same view w w1
  Delivers offset w (failed err, w1) = Same view w w1

  AreAt-Holds :
      (sys : Sys W) (w : W) (offset : ℕ) (bytes : List ℕ)
      → AreAt sys view w offset bytes
      → Holds (view w) bytes offset
  unfolding AreAt
  AreAt-Holds sys w offset [] at_ k h = absurd (omega arith)
  AreAt-Holds sys w offset (b ∷ bs) at_ zero h = at_.0 ∙ ap (view w) (omega arith)
  AreAt-Holds sys w offset (b ∷ bs) at_ (suc k) h =
      AreAt-Holds sys w (offset + 1) bs at_.1 k (omega arith) ∙ ap (view w) (omega arith)

  ReadsAll-Delivers :
      (sys : Sys W) (offset len : ℕ) (w : W) (r : ReadEnd × W)
      → ReadsAll sys view offset len w r
      → Delivers offset w (read_of r)
  unfolding ReadsAll Delivers read_of
  ReadsAll-Delivers sys offset len w (full bytes, w1) (size, (at_, same)) =
      (AreAt-Holds sys w offset bytes at_, same)
  ReadsAll-Delivers sys offset len w (read_failed err, w1) same = same
  ReadsAll-Delivers sys offset len w (read_out_of_fuel, w1) h = absurd h

  WritesAll-Same :
      (sys : Sys W) (offset : ℕ) (bytes : List ℕ) (w : W) (r : WriteEnd × W)
      → Holds (view w) bytes offset
      → WritesAll sys view offset bytes w r
      → Same view w r.1
  unfolding WritesAll Put Mixed
  WritesAll-Same sys offset bytes w (all_written, w1) there h =
      λ a. ground (arith, h a, there (a - offset), back_at w offset a)
  WritesAll-Same sys offset bytes w (write_failed err, w1) there h =
      λ a. ground (arith, h a, there (a - offset), back_at w offset a)
  WritesAll-Same sys offset bytes w (write_out_of_fuel, w1) there h = absurd h

  -- What a write leaves.
  Keeps : W → WriteEnd × W → Type 0
  Keeps w r = Same view w r.1

  write_of-Same : (w : W) (r : WriteEnd × W) → Keeps w r → Same view w (write_of r).1
  unfolding write_of Keeps
  write_of-Same w (all_written, w1) h = h
  write_of-Same w (write_failed err, w1) h = h
  write_of-Same w (write_out_of_fuel, w1) h = h

  Delivers-Holds :
      (offset : ℕ) (w : W) (r : Read × W) {bytes : List ℕ}
      → Delivers offset w r
      → r.0 ≡ got bytes
      → Holds (view w) bytes offset
  unfolding Delivers
  Delivers-Holds offset w (got found, w1) {bytes} h e =
      let same : found ≡ bytes = cc in rw same at h.0
  Delivers-Holds offset w (failed err, w1) h e = ground arith

  Delivers-Same : (offset : ℕ) (w : W) (r : Read × W) → Delivers offset w r → Same view w r.1
  unfolding Delivers
  Delivers-Same offset w (got found, w1) h = h.1
  Delivers-Same offset w (failed err, w1) h = h

  module _ (offset : ℕ) (w : W) (err : Text) where
    read_on :
        (len : ℕ) (x : Option (Sys W))
        → OnDescriptor x
        → Delivers offset w (
            read_of
              (elim x [ none ↦ (read_failed err, w) | some sys ↦ read_exact len sys offset len w ]))
    unfolding OnDescriptor Delivers read_of
    read_on len none h = λ a. refl
    read_on len (some sys) h =
        ReadsAll-Delivers sys offset len w _
          (read_exact-ReadsAll sys view h.reads h.uninterrupted len offset len w (omega arith))

    write_on :
        (bytes : List ℕ) (x : Option (Sys W))
        → OnDescriptor x
        → Holds (view w) bytes offset
        → Keeps w (elim x [
          | none ↦ (write_failed err, w)
          | some sys ↦ write_exact (length bytes) sys offset bytes w
        ])
    unfolding OnDescriptor Keeps
    write_on bytes none h there = λ a. refl
    write_on bytes (some sys) h there = WritesAll-Same sys offset bytes w _ there (
        write_exact-WritesAll sys view h.writes h.steady (length bytes) offset bytes w
          (omega arith))

  synced-Keeps :
      (sys : Sys W) (w w1 : W) (r : Option Text × W)
      → Same view w w1
      → Same view w1 r.1
      → Keeps w (synced r)
  unfolding synced Keeps
  synced-Keeps sys w w1 (none, w2) h k = λ a. k a ∙ h a
  synced-Keeps sys w w1 (some err, w2) h k = λ a. k a ∙ h a

  sync_on :
      (w w1 : W) (x : Option (Sys W))
      → OnDescriptor x
      → Same view w w1
      → Keeps w (elim x [
        | none ↦ (write_failed (text "bad fd"), w1)
        | some sys ↦ synced (sys.fdatasync w1)
      ])
  unfolding OnDescriptor Keeps
  sync_on w w1 none h same = same
  sync_on w w1 (some sys) h same = synced-Keeps sys w w1 _ same (h.syncs w1)

  after_write-Keeps :
      (d : Fds W) (w : W) (r : WriteEnd × W)
      → OnDescriptor d.plain
      → Keeps w r
      → Keeps w (after_write d r)
  unfolding after_write Keeps
  after_write-Keeps d w (all_written, w1) known same = sync_on w w1 d.plain known same
  after_write-Keeps d w (write_failed err, w1) known same = same
  after_write-Keeps d w (write_out_of_fuel, w1) known same = same

-- A `Device` whose system calls do what is documented is a host as `rewrite_range` needs it: a read
-- that succeeds delivers the bytes of the medium, no read changes it, and a write, plain, direct or
-- with `fdatasync`, of the bytes that stand there already leaves the medium as it was, also where it
-- fails half way.
pub device_host-IsFaithful :
    {W : Type 0} (view : W → ℕ → ℕ) (d : Fds W) (o : Others W)
    → OnDescriptor view d.plain
    → OnDescriptor view d.direct
    → IsQuiet view o
    → IsFaithful view (device_host d o)
unfolding device_host pread_all pread_direct pwrite_all pwrite_direct pwrite_sync
device_host-IsFaithful view d o plain direct quiet = record {
  read_holds = λ offset len w e.
      Delivers-Holds view offset w _ (read_on view offset w _ len d.plain plain) e;
  read_same =
      λ offset len w. Delivers-Same view offset w _ (read_on view offset w _ len d.plain plain);
  read_direct_same =
      λ offset len w. Delivers-Same view offset w _ (read_on view offset w _ len d.direct direct);
  write_same = λ bytes offset w there.
      write_of-Same view w _ (write_on view offset w _ bytes d.plain plain there);
  write_sync_same = λ bytes offset w there.
      write_of-Same view w _
        (after_write-Keeps view d w _ plain (write_on view offset w _ bytes d.plain plain there));
  write_direct_same = λ bytes offset w there.
      write_of-Same view w _ (write_on view offset w _ bytes d.direct direct there);
  flush_same = quiet.flush_same;
  query_same = quiet.query_same;
  pause_same = quiet.pause_same;
  allocate_same = quiet.allocate_same;
}
