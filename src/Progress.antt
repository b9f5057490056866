-- ===== src/Progress.antt =====
-- `class Progress` (src/engine/progress.hpp, src/engine/progress.cpp): counters, the cell map that
-- the grid shows, and the log. The mutex makes each method one step, so a method is a function
-- from the object to the object.
pub mod Cells
pub mod Reset
pub mod Calls
pub mod Bytes
pub mod Tests
use reflash.Base.{
  ℕ, zero, suc, ◌+◌, ◌-◌, ◌*◌, ◌/◌, ◌%◌, ◌^◌, min, Bool, true, false, ◌&&◌, ◌||◌, List, [], ◌∷◌,
  ◌++◌, map, ltb, leb, ◌==◌, if◌then◌else◌, length, get_or, set, replicate, Text, text, u64_mod,
}

pub data CellStatus : Type 0 where
  pending ok read_err write_err cached : CellStatus

pub data LogLevel : Type 0 where
  trace debug info warn error : LogLevel

pub record LogEntry : Type 0 where
  pub offset : ℕ
  pub length : ℕ
  pub message : Text
  pub status : CellStatus
  pub level : LogLevel
  time_sec : ℕ

-- `double`, as the operations that the code uses. `centi n` is the constant n / 100.
pub record Double (F : Type 0) : Type 0 where
  pub centi : ℕ → F
  pub of_ℕ : ℕ → F
  pub add : F → F → F
  pub sub : F → F → F
  pub mul : F → F → F
  pub div : F → F → F
  pub less : F → F → Bool

-- The fields of the object. The last three are the process's clocks: `clock i` and `wall i` are
-- what reading number `i` of `steady_clock` and of `time` returns.
pub record Progress (F : Type 0) : Type 0 where
  pub bytes_done : ℕ
  pub bytes_total : ℕ
  pub block_size : ℕ
  pub cell_size : ℕ
  pub cell_shift : ℕ
  pub rate : F
  pub eta : F
  pub start_time : F
  pub paused : Bool
  pub finished : Bool
  pub failed : Bool
  pub input_locked : Bool
  pub phase : Text
  pub cells : List CellStatus
  pub logs : List LogEntry
  pub pending_logs : List LogEntry
  pub last_bytes : ℕ
  pub last_time : F
  pub clock : ℕ → F
  pub wall : ℕ → ℕ
  pub readings : ℕ

-- `while (cells > 4096 && cell_shift_ < 40)`: at most forty rounds, which the fuel counts.
pub grow : ℕ → ℕ → ℕ → ℕ × ℕ
grow zero cells shift = (cells, shift)
grow (suc fuel) cells shift =
    let rest = grow fuel ((cells + 1) % u64_mod / 2) (shift + 1) in
    if ltb 4096 cells && ltb shift 40 then rest else (cells, shift)

-- The number of blocks or cells of size `unit` that `total` bytes take; `total` 0 takes one.
pub count_units : ℕ → ℕ → ℕ
count_units total unit = if total == 0 then 1 else (total + unit + (u64_mod - 1)) % u64_mod / unit

abbrev pub block_or_default : ℕ → ℕ
block_or_default block_size = if block_size == 0 then 4096 else block_size

pub choose_shift : ℕ → ℕ → ℕ
unfolding grow count_units
choose_shift total block = (grow 40 (count_units total block) 0).1

-- What a cell shows after it is marked `st` where it showed the second argument.
pub paint : CellStatus → CellStatus → CellStatus
paint read_err cur = read_err
paint write_err cur = write_err
paint ok pending = ok
paint ok cached = ok
paint ok cur = cur
paint cached pending = cached
paint cached cur = cur
paint pending cur = cur

-- `for (i = start; i <= end && i < cells_.size(); ++i)`; the fuel is the number of cells.
pub mark_loop : ℕ → ℕ → ℕ → CellStatus → List CellStatus → List CellStatus
mark_loop zero i end st cells = cells
mark_loop (suc fuel) i end st cells =
    let rest = mark_loop fuel (i + 1) end st (set cells i (paint st (get_or cells i pending))) in
    if leb i end && ltb i (length cells) then rest else cells

abbrev pub at_least_one : ℕ → ℕ
at_least_one n = if n == 0 then 1 else n

is_status : CellStatus → CellStatus → Bool
is_status pending pending = true
is_status ok ok = true
is_status read_err read_err = true
is_status write_err write_err = true
is_status cached cached = true
is_status _ _ = false

pub count : CellStatus → List CellStatus → ℕ
unfolding is_status
count st [] = 0
count st (c ∷ cs) = (if is_status c st then 1 else 0) + count st cs

pub upgrade : CellStatus → CellStatus
upgrade cached = ok
upgrade c = c

level_of : CellStatus → LogLevel
level_of read_err = error
level_of write_err = error
level_of c = info

module _ {F : Type 0} ⦃fl : Double F⦄ where
  abbrev now_sec : Progress F → F
  now_sec p = p.clock p.readings

  pub reset : ℕ → ℕ → Progress F → Progress F
  unfolding choose_shift count_units
  reset total_bytes block_size p =
      let block = block_or_default block_size in
      let shift = choose_shift total_bytes block in
      let cell = block * 2 ^ shift % u64_mod in
      let ncells = at_least_one (count_units total_bytes cell) in
      record p {
        bytes_done = 0;
        bytes_total = total_bytes;
        block_size = block;
        cell_size = cell;
        cell_shift = shift;
        rate = fl.centi 0;
        eta = fl.sub (fl.centi 0) (fl.centi 100);
        start_time = now_sec p;
        paused = false;
        finished = false;
        failed = false;
        input_locked = false;
        phase = [];
        cells = replicate ncells pending;
        logs = [];
        pending_logs = [];
        last_bytes = 0;
        last_time = now_sec p;
        readings = p.readings + 1;
      }

  pub set_phase : Text → Progress F → Progress F
  set_phase phase p = record p { phase = phase }

  -- The estimate that `recompute_rate_locked` leaves once a quarter of a second has passed.
  estimate : F → Progress F → F
  estimate rate p =
      if fl.less (fl.centi 100) rate && ltb p.bytes_done p.bytes_total
      then fl.div (fl.of_ℕ (p.bytes_total - p.bytes_done)) rate
      else if leb p.bytes_total p.bytes_done
      then fl.centi 0
      else fl.sub (fl.centi 0) (fl.centi 100)

  smooth : F → F → F
  smooth old instant =
      if fl.less (fl.centi 0) old
      then fl.add (fl.mul old (fl.centi 70)) (fl.mul instant (fl.centi 30))
      else instant

  recompute_rate : Progress F → Progress F
  unfolding estimate smooth
  recompute_rate p =
      let t = now_sec p in
      let dt = fl.sub t p.last_time in
      let moved = (p.bytes_done + (u64_mod - p.last_bytes)) % u64_mod in
      let rate = smooth p.rate (fl.div (fl.of_ℕ moved) dt) in
      if fl.less dt (fl.centi 25) then record p { readings = p.readings + 1 } else record p {
        readings = p.readings + 1;
        rate = rate;
        last_bytes = p.bytes_done;
        last_time = t;
        eta = estimate rate p;
      }

  pub add_done : ℕ → Progress F → Progress F
  unfolding recompute_rate
  add_done n p =
      let sum = (p.bytes_done + n) % u64_mod in
      recompute_rate
        (record p { bytes_done = if ltb p.bytes_total sum then p.bytes_total else sum })

  pub set_done : ℕ → Progress F → Progress F
  unfolding recompute_rate
  set_done n p = recompute_rate (record p { bytes_done = min n p.bytes_total })

  pub mark_cell : ℕ → ℕ → CellStatus → Progress F → Progress F
  unfolding mark_loop paint
  mark_cell offset len st p =
      let start = offset / p.cell_size in
      let end = (offset + at_least_one len + (u64_mod - 1)) % u64_mod / p.cell_size in
      if length p.cells == 0 || p.cell_size == 0
      then p
      else record p { cells = mark_loop (length p.cells) start end st p.cells }

  push_log : LogEntry → Progress F → Progress F
  push_log e p = record p {
    logs = p.logs ++ e ∷ [];
    pending_logs = p.pending_logs ++ e ∷ [];
    readings = p.readings + 1;
  }

  pub log : ℕ → ℕ → CellStatus → Text → Progress F → Progress F
  unfolding push_log level_of
  log offset len st msg p =
      let e : LogEntry = record {
        offset = offset;
        length = len;
        message = msg;
        status = st;
        level = level_of st;
        time_sec = p.wall p.readings;
      } in
      mark_cell offset len st (push_log e p)

  pub message : LogLevel → Text → Progress F → Progress F
  unfolding push_log
  message level msg p =
      push_log
        (record {
          offset = 0;
          length = 0;
          message = msg;
          status = ok;
          level = level;
          time_sec = p.wall p.readings;
        })
        p

  pub set_paused : Bool → Progress F → Progress F
  set_paused v p = record p { paused = v }

  pub note_restart : Progress F → Progress F
  note_restart p = record p {
    finished = false;
    failed = false;
    paused = false;
    input_locked = false;
    bytes_done = 0;
    rate = fl.centi 0;
    eta = fl.sub (fl.centi 0) (fl.centi 100);
    phase = text "prepare";
    start_time = now_sec p;
    last_time = now_sec p;
    last_bytes = 0;
    readings = p.readings + 1;
    cells = map (λ _. pending) p.cells;
  }

  pub upgrade_cached_to_ok : Progress F → Progress F
  unfolding upgrade
  upgrade_cached_to_ok p = record p { cells = map upgrade p.cells }

  count_cells : CellStatus → Progress F → ℕ
  unfolding count
  count_cells st p = count st p.cells

  unfoldable pub set_finished : Bool → Progress F → Progress F
  set_finished failed p = record p {
    finished = true;
    failed = failed;
    input_locked = false;
    bytes_done = if failed then p.bytes_done else p.bytes_total;
  }

  pub set_input_locked : Bool → Progress F → Progress F
  set_input_locked v p = record p { input_locked = v }

  pub take_logs : Progress F → List LogEntry × Progress F
  take_logs p = (p.pending_logs, record p { pending_logs = [] })

-- What the user interface reads of the object.
record ProgressSnapshot (F : Type 0) : Type 0 where
  bytes_done : ℕ
  bytes_total : ℕ
  bytes_per_sec : F
  eta_seconds : F
  paused : Bool
  finished : Bool
  failed : Bool
  input_locked : Bool
  phase : Text
  cells : List CellStatus
  cell_size : ℕ
  cell_shift : ℕ

module _ {F : Type 0} where
  snapshot : Progress F → ProgressSnapshot F
  snapshot p = record {
    bytes_done = p.bytes_done;
    bytes_total = p.bytes_total;
    bytes_per_sec = p.rate;
    eta_seconds = p.eta;
    paused = p.paused;
    finished = p.finished;
    failed = p.failed;
    input_locked = p.input_locked;
    phase = p.phase;
    cells = p.cells;
    cell_size = p.cell_size;
    cell_shift = p.cell_shift;
  }

  all_logs : Progress F → List LogEntry
  all_logs p = p.logs
