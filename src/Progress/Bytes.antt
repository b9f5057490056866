-- ===== src/Progress/Bytes.antt =====
-- The byte counters under the calls that `rewrite_range` makes.
use reflash.Base.{ℕ, ◌+◌, ◌≤◌, ◌<◌, ◌≡◌, arith, Text, u64_mod}
use reflash.Progress.{CellStatus, Double, Progress, add_done, mark_cell, log}

-- Two states of the object have the same counters.
pub record IsQuiet {F : Type 0} (p q : Progress F) : Type 0 where
  pub same_done : q.bytes_done ≡ p.bytes_done
  pub same_total : q.bytes_total ≡ p.bytes_total

module _ {F : Type 0} ⦃fl : Double F⦄ where
  pub mark_cell-IsQuiet :
      (offset len : ℕ) (st : CellStatus) (p : Progress F) → IsQuiet p (mark_cell offset len st p)
  unfolding mark_cell
  mark_cell-IsQuiet offset len st p = ground arith

  pub log-IsQuiet :
      (offset len : ℕ) (st : CellStatus) (msg : Text) (p : Progress F)
      → IsQuiet p (log offset len st msg p)
  unfolding log
  log-IsQuiet offset len st msg p =
      let q = mark_cell-IsQuiet offset len st in
      record { same_done = (q _).same_done; same_total = (q _).same_total }

  -- Below the total, `add_done` adds.
  pub add_done-bytes :
      (n : ℕ) (p : Progress F)
      → p.bytes_done + n ≤ p.bytes_total
      → p.bytes_total < u64_mod
      → ((add_done n p).bytes_done ≡ p.bytes_done + n)
        × ((add_done n p).bytes_total ≡ p.bytes_total)
  unfolding add_done
  add_done-bytes n p room word = ground arith

  pub add_done-total : (n : ℕ) (p : Progress F) → (add_done n p).bytes_total ≡ p.bytes_total
  unfolding add_done
  add_done-total n p = ground arith
