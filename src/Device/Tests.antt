-- ===== src/Device/Tests.antt =====
-- `io_exact` (src/io/device.cpp) over a `pread` that moves one byte at a time.
use reflash.Base.{
  set, get_or, length, ◌++◌, ◌||◌, ◌&&◌, not, subst, ◌≡◌, ◌≢◌, inl, ◌-◌, byte, Bool, true, false,
  some, text, ◌+◌, ℕ, suc, zero, refl, arith, none, List, [], ◌∷◌, ltb, ◌==◌, if◌then◌else◌,
  u64_mod,
}
use reflash.BlockIo.{FlushState}
use reflash.BlockIo.Content.{IsFaithful}
use reflash.Device.{SysRead, SysWrite, moved, wrote, error, Sys, Fds, read_exact, write_exact}
use reflash.Device.Writing.{
  In, Writes, AfterWrite, Put, Mixed, Steady, WritesAll, write_exact-WritesAll,
}
use reflash.Device.Hosting.{
  Others, device_host, IsDocumented, OnDescriptor, IsQuiet, device_host-IsFaithful,
}
use reflash.Device.Opening.{Target, Descriptors, DeviceState, is_fd, close, open_device}
use reflash.Device.Opening.Owned.{IsDescriptorTable, Owns, Opened, open_device-Opened}
use reflash.Device.Exact.{Reads, AfterRead, AreAt, Uninterrupted, ReadsAll, read_exact-ReadsAll}

abbrev pub Medium : Type 0
Medium = ℕ → ℕ

-- The medium ends before 2^64 - 1, the last offset that a byte may have with its end in 64 bits.
abbrev some_byte : Bool → ℕ → ℕ → Medium → SysRead
some_byte false offset left m = error (text "EINVAL")
some_byte true offset zero m = moved []
some_byte true offset (suc left) m = moved (m offset ∷ [])

abbrev put_byte : Bool → ℕ → List ℕ → Medium → SysWrite × Medium
put_byte false offset bytes m = (SysWrite.error (text "EINVAL"), m)
put_byte true offset [] m = (wrote 0, m)
put_byte true offset (b ∷ bs) m = (wrote 1, λ a. if a == offset then b else m a)

abbrev slow : Sys Medium
slow = record {
  pread = λ offset left m. (some_byte (ltb (offset + 1) u64_mod) offset left m, m);
  pwrite = λ offset bytes m. put_byte (ltb (offset + 1) u64_mod) offset bytes m;
  fdatasync = λ m. (none, m);
}

abbrev pub view : Medium → ℕ → ℕ
view m = m

some_byte-AfterRead :
    (fits : Bool) (offset left : ℕ) (m : Medium)
    → ltb (offset + 1) u64_mod ≡ fits
    → AfterRead slow view offset left m (some_byte fits offset left m, m)
unfolding AfterRead AreAt
some_byte-AfterRead false offset left m e = λ a. refl
some_byte-AfterRead true offset zero m e = (ground arith, (ground arith, (tt, λ a. refl)))
some_byte-AfterRead true offset (suc left) m e =
    (ground arith, (ground arith, ((refl, tt), λ a. refl)))

slow-Reads : Reads slow view
unfolding Reads
slow-Reads offset left m = some_byte-AfterRead _ offset left m refl

some_byte-moved :
    (fits : Bool) (offset left : ℕ) (m : Medium)
    → some_byte fits offset left m ≢ SysRead.interrupted
some_byte-moved false offset left m e = ground arith
some_byte-moved true offset zero m e = ground arith
some_byte-moved true offset (suc left) m e = ground arith

slow-Uninterrupted : Uninterrupted slow view
unfolding Uninterrupted
slow-Uninterrupted offset left m = some_byte-moved _ offset left m

byte_first : (offset a b : ℕ) (bs : List ℕ) → In offset 1 a → byte (b ∷ bs) (a - offset) ≡ b
byte_first offset a b bs h = let first : a - offset ≡ 0 = omega arith in rw first refl

put_byte-AfterWrite :
    (fits : Bool) (offset : ℕ) (bytes : List ℕ) (m : Medium)
    → ltb (offset + 1) u64_mod ≡ fits
    → AfterWrite slow view offset bytes m (put_byte fits offset bytes m)
unfolding AfterWrite Put Mixed
put_byte-AfterWrite false offset bytes m e = λ a. inl refl
put_byte-AfterWrite true offset [] m e = (ground arith, (ground arith, λ a. ground arith))
put_byte-AfterWrite true offset (b ∷ bs) m e =
    (ground arith, (ground arith, λ a. ground (arith, byte_first offset a b bs)))

slow-Writes : Writes slow view
unfolding Writes
slow-Writes offset bytes m = put_byte-AfterWrite _ offset bytes m refl

put_byte-wrote :
    (fits : Bool) (offset : ℕ) (bytes : List ℕ) (m : Medium)
    → (put_byte fits offset bytes m).0 ≢ SysWrite.interrupted
put_byte-wrote false offset bytes m e = ground arith
put_byte-wrote true offset [] m e = ground arith
put_byte-wrote true offset (b ∷ bs) m e = ground arith

slow-Steady : Steady slow view
unfolding Steady
slow-Steady offset bytes m = put_byte-wrote _ offset bytes m

abbrev pub medium : Medium
medium i = i

read_exact-ReadsAll_example : ReadsAll slow view 10 3 medium (read_exact 3 slow 10 3 medium)
read_exact-ReadsAll_example =
    read_exact-ReadsAll slow view slow-Reads slow-Uninterrupted 3 10 3 medium (omega arith)

write_exact-WritesAll_example :
    WritesAll slow view 10 (7 ∷ 8 ∷ []) medium (write_exact 2 slow 10 (7 ∷ 8 ∷ []) medium)
write_exact-WritesAll_example =
    write_exact-WritesAll slow view slow-Writes slow-Steady 2 10 (7 ∷ 8 ∷ []) medium (omega arith)

slow-IsDocumented : IsDocumented view slow
slow-IsDocumented = record {
  reads = slow-Reads;
  uninterrupted = slow-Uninterrupted;
  writes = slow-Writes;
  steady = slow-Steady;
  syncs = λ m a. refl;
}

-- No descriptor for direct access, no pause, and buffers that can be had.
abbrev pub fds : Fds Medium
fds = record { plain = some slow; direct = none }

abbrev pub others : Others Medium
others = record {
  direct_align = 4096;
  wait_flushed = λ offset len m. m;
  query_flush_state = λ probe offset len m. (FlushState.clean, m);
  wait_if_paused = λ m. (true, m);
  allocate = λ align size m. (true, m);
}

pub others-IsQuiet : IsQuiet view others
others-IsQuiet = record {
  flush_same = λ offset len m a. refl;
  query_same = λ probe offset len m a. refl;
  pause_same = λ m a. refl;
  allocate_same = λ align size m a. refl;
}

pub fds-plain : OnDescriptor view fds.plain
unfolding OnDescriptor
fds-plain = slow-IsDocumented

pub fds-direct : OnDescriptor view fds.direct
unfolding OnDescriptor
fds-direct = tt

device_host-IsFaithful_example : IsFaithful view (device_host fds others)
device_host-IsFaithful_example =
    device_host-IsFaithful view fds others fds-plain fds-direct others-IsQuiet

abbrev image : Target
image = record {
  stat_ok = true;
  is_blk = false;
  is_reg = true;
  blksize = 4096;
  blksszget = none;
  blkgetsize64 = none;
  seek_end = some 1000000;
  page = some 4096;
}

abbrev shut : DeviceState
shut = record {
  fd = none;
  fd_direct = none;
  is_block = false;
  is_regular = false;
  size = 0;
  sector_size = 512;
  direct_align = 4096;
  path = [];
}

-- A process with a table of descriptors, `n` of them in use, the lowest first.
abbrev table : Descriptors (List Bool)
table = record {
  open_fd = λ path direct w. if direct then (none, w) else (some (length w), w ++ true ∷ []);
  close_fd = λ n w. set w n false;
}

abbrev in_use : List Bool → ℕ → Bool
in_use w m = get_or w m false

in_use-append : (w : List Bool) (m : ℕ) → in_use (w ++ true ∷ []) m ≡ (in_use w m || m == length w)
in_use-append [] zero = refl
in_use-append [] (suc m) = ground arith
in_use-append (b ∷ w) zero = ground arith
in_use-append (b ∷ w) (suc m) = ground (arith, in_use-append w m)

in_use-length : (w : List Bool) → in_use w (length w) ≡ false
in_use-length [] = refl
in_use-length (b ∷ w) = in_use-length w

in_use-set : (w : List Bool) (n m : ℕ) → in_use (set w n false) m ≡ (in_use w m && not (m == n))
in_use-set [] n m = ground arith
in_use-set (b ∷ w) zero zero = ground arith
in_use-set (b ∷ w) zero (suc m) = ground arith
in_use-set (b ∷ w) (suc n) zero = ground arith
in_use-set (b ∷ w) (suc n) (suc m) = ground (arith, in_use-set w n m)

opened_some :
    (direct : Bool) (w : List Bool) (n : ℕ)
    → (table.open_fd [] direct w).0 ≡ some n
    → (in_use w n ≡ false)
      × ((m : ℕ) → in_use (table.open_fd [] direct w).1 m ≡ (in_use w m || m == n))
opened_some true w n e = ground arith
opened_some false w n e =
    let at_end : length w ≡ n = ground arith in
    subst
      (λ k. (in_use w k ≡ false) × ((m : ℕ) → in_use (w ++ true ∷ []) m ≡ (in_use w m || m == k)))
      at_end (in_use-length w, in_use-append w)

opened_none :
    (direct : Bool) (w : List Bool)
    → (table.open_fd [] direct w).0 ≡ none
    → (m : ℕ) → in_use (table.open_fd [] direct w).1 m ≡ in_use w m
opened_none true w e m = refl
opened_none false w e m = ground arith

table-IsDescriptorTable : IsDescriptorTable table in_use
table-IsDescriptorTable = record {
  open_none = λ path direct w. opened_none direct w;
  open_some = λ path direct w n. opened_some direct w n;
  closes = λ n w m. in_use-set w n m;
}

-- The three standard ones.
abbrev standard : List Bool
standard = true ∷ true ∷ true ∷ []

standard-Owns : Owns table in_use (in_use standard) (shut, standard)
unfolding Owns is_fd
standard-Owns m = (ground arith, λ e. ground arith)

open_device-Opened_example :
    Opened table in_use
      (in_use standard)
      image
      (table.open_fd (text "f") false (close table (shut, standard)).1).0
      (open_device table image (text "f") (shut, standard))
open_device-Opened_example =
    open_device-Opened table in_use table-IsDescriptorTable (in_use standard) image (text "f")
      (shut, standard) standard-Owns
