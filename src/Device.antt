-- ===== src/Device.antt =====
-- `Device::io_exact` and the calls that stand on it (src/io/device.hpp, src/io/device.cpp): read or
-- write a length in full with `pread` and `pwrite`, which may move fewer bytes or be interrupted.
-- The system calls are the interface `Sys`, over the state `W` of the world outside.
pub mod Exact
pub mod Opening
pub mod Writing
pub mod Hosting
pub mod Tests
use reflash.Base.{
  ℕ, zero, suc, ◌+◌, ◌-◌, ◌%◌, Bool, true, false, Option, none, some, List, [], ◌∷◌, ◌++◌, ◌==◌,
  if◌then◌else◌, length, drop, Text, text, u64_mod,
}

-- One `pread`: the bytes it moved, `EINTR`, or the text of another error.
pub data SysRead : Type 0 where
  moved : List ℕ → SysRead
  interrupted : SysRead
  error : Text → SysRead

-- One `pwrite`: how many bytes it moved.
pub data SysWrite : Type 0 where
  wrote : ℕ → SysWrite
  interrupted : SysWrite
  error : Text → SysWrite

-- Offset and length, or offset and bytes.
pub record Sys (W : Type 0) : Type 0 where
  pub pread : ℕ → ℕ → W → SysRead × W
  pub pwrite : ℕ → List ℕ → W → SysWrite × W
  pub fdatasync : W → Option Text × W

pub data ReadEnd : Type 0 where
  full : List ℕ → ReadEnd
  read_failed : Text → ReadEnd
  read_out_of_fuel : ReadEnd

pub data WriteEnd : Type 0 where
  all_written : WriteEnd
  write_failed : Text → WriteEnd
  write_out_of_fuel : WriteEnd

-- The descriptors of a device: the calls on each that is open.
pub record Fds (W : Type 0) : Type 0 where
  pub plain : Option (Sys W)
  pub direct : Option (Sys W)

module _ {W : Type 0} where
  -- The bytes moved first stand before the rest.
  pub before : List ℕ → ReadEnd × W → ReadEnd × W
  before bytes (full rest, w) = (full (bytes ++ rest), w)
  before bytes (read_failed err, w) = (read_failed err, w)
  before bytes (read_out_of_fuel, w) = (read_out_of_fuel, w)

  -- One round for reading, after the system call; `go` is the rest of the loop.
  pub read_round : (ℕ → ℕ → W → ReadEnd × W) → ℕ → ℕ → SysRead × W → ReadEnd × W
  read_round go offset left (interrupted, w) = go offset left w
  read_round go offset left (error err, w) = (read_failed err, w)
  read_round go offset left (moved [], w) = (read_failed (text "unexpected EOF"), w)
  read_round go offset left (moved (b ∷ bs), w) =
      before (b ∷ bs) (go ((offset + length (b ∷ bs)) % u64_mod) (left - length (b ∷ bs)) w)

  pub write_round : (ℕ → List ℕ → W → WriteEnd × W) → ℕ → List ℕ → SysWrite × W → WriteEnd × W
  write_round go offset bytes (interrupted, w) = go offset bytes w
  write_round go offset bytes (error err, w) = (write_failed err, w)
  write_round go offset bytes (wrote zero, w) = (write_failed (text "short write"), w)
  write_round go offset bytes (wrote (suc n), w) =
      go ((offset + suc n) % u64_mod) (drop (suc n) bytes) w

  -- `io_exact` for reading, with fuel for the rounds.
  pub read_exact : ℕ → Sys W → ℕ → ℕ → W → ReadEnd × W
  read_exact fuel sys offset zero w = (full [], w)
  read_exact zero sys offset (suc left) w = (read_out_of_fuel, w)
  read_exact (suc fuel) sys offset (suc left) w =
      read_round (read_exact fuel sys) offset (suc left) (sys.pread offset (suc left) w)

  -- `io_exact` for writing.
  pub write_exact : ℕ → Sys W → ℕ → List ℕ → W → WriteEnd × W
  write_exact fuel sys offset [] w = (all_written, w)
  write_exact zero sys offset (b ∷ bs) w = (write_out_of_fuel, w)
  write_exact (suc fuel) sys offset (b ∷ bs) w =
      write_round (write_exact fuel sys) offset (b ∷ bs) (sys.pwrite offset (b ∷ bs) w)

  pub pread_all : ℕ → Fds W → ℕ → ℕ → W → ReadEnd × W
  pread_all fuel d offset len w = elim d.plain [
    | none ↦ (read_failed (text "bad fd"), w)
    | some sys ↦ read_exact fuel sys offset len w
  ]

  pub pwrite_all : ℕ → Fds W → List ℕ → ℕ → W → WriteEnd × W
  pwrite_all fuel d bytes offset w = elim d.plain [
    | none ↦ (write_failed (text "bad fd"), w)
    | some sys ↦ write_exact fuel sys offset bytes w
  ]

  pub pread_direct : ℕ → Fds W → ℕ → ℕ → W → ReadEnd × W
  pread_direct fuel d offset len w = elim d.direct [
    | none ↦ (read_failed (text "O_DIRECT unavailable"), w)
    | some sys ↦ read_exact fuel sys offset len w
  ]

  pub pwrite_direct : ℕ → Fds W → List ℕ → ℕ → W → WriteEnd × W
  pwrite_direct fuel d bytes offset w = elim d.direct [
    | none ↦ (write_failed (text "O_DIRECT unavailable"), w)
    | some sys ↦ write_exact fuel sys offset bytes w
  ]

  pub synced : Option Text × W → WriteEnd × W
  synced (none, w) = (all_written, w)
  synced (some err, w) = (write_failed err, w)

  pub after_write : Fds W → WriteEnd × W → WriteEnd × W
  after_write d (all_written, w) = elim d.plain [
    | none ↦ (write_failed (text "bad fd"), w)
    | some sys ↦ synced (sys.fdatasync w)
  ]
  after_write d (write_failed err, w) = (write_failed err, w)
  after_write d (write_out_of_fuel, w) = (write_out_of_fuel, w)

  pub pwrite_sync : ℕ → Fds W → List ℕ → ℕ → W → WriteEnd × W
  pwrite_sync fuel d bytes offset w = after_write d (pwrite_all fuel d bytes offset w)
