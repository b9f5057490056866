-- ===== src/Progress/Calls/History.antt =====
-- The cells over sequences of calls on one `Progress` (src/engine/progress.cpp).
use reflash.Base.{
  ℕ, zero, suc, ◌<◌, ◌≡◌, inl, inr, refl, Bool, true, false, List, [], ◌∷◌, map, replicate,
  if◌then◌else◌, ◌||◌, length-map, arith, length, get_or, sym, ◌∙◌,
}
use reflash.Progress
use reflash.Progress.{
  CellStatus, pending, ok, read_err, write_err, cached, LogLevel, LogEntry, Double, Progress, paint,
  upgrade, recompute_rate, push_log,
}
use reflash.Progress.Cells.{length-mark_cell, mark_cell_either}
use reflash.Progress.Calls.{Call, starts, clears_log, apply, run, since}

pub any_starts : List Call → Bool
unfolding starts
any_starts [] = false
any_starts (c ∷ cs) = starts c || any_starts cs

pub is_error : CellStatus → Bool
is_error read_err = true
is_error write_err = true
is_error _ = false

pub is_pending : CellStatus → Bool
is_pending pending = true
is_pending _ = false

-- A cell's history: an error stays an error, and what has left `pending` does not go back.
abbrev pub Keeps : CellStatus → CellStatus → Type 0
Keeps before after =
    (is_error before ≡ true → is_error after ≡ true)
    × (is_pending before ≡ false → is_pending after ≡ false)

paint-Keeps : (st c : CellStatus) → Keeps c (paint st c)
unfolding paint is_error is_pending
paint-Keeps pending c = ground arith
paint-Keeps ok pending = ground arith
paint-Keeps ok c = ground arith
paint-Keeps read_err c = ground arith
paint-Keeps write_err c = ground arith
paint-Keeps cached pending = ground arith
paint-Keeps cached c = ground arith

Keeps-upgrade : (c : CellStatus) → Keeps c (upgrade c)
unfolding upgrade is_error is_pending
Keeps-upgrade cached = ground arith
Keeps-upgrade c = ground arith

get_or-replicate : (n j : ℕ) → get_or (replicate n pending) j pending ≡ pending
get_or-replicate zero j = refl
get_or-replicate (suc n) zero = refl
get_or-replicate (suc n) (suc j) = get_or-replicate n j

get_or-map :
    (f : CellStatus → CellStatus) (cells : List CellStatus) (j : ℕ)
    → f pending ≡ pending
    → get_or (map f cells) j pending ≡ f (get_or cells j pending)
get_or-map f [] j e = sym e
get_or-map f (c ∷ cells) zero e = refl
get_or-map f (c ∷ cells) (suc j) e = get_or-map f cells j e

upgrade-pending : upgrade pending ≡ pending
unfolding upgrade
upgrade-pending = refl

module _ {F : Type 0} ⦃fl : Double F⦄ where
  mark_cell-Keeps :
      (o n : ℕ) (st : CellStatus) (p : Progress F) (j : ℕ)
      → j < length p.cells
      → Keeps (get_or p.cells j pending) (get_or (Progress.mark_cell o n st p).cells j pending)
        × (length (Progress.mark_cell o n st p).cells ≡ length p.cells)
  mark_cell-Keeps o n st p j h = (
    elim (mark_cell_either o n st p j h) [
      | inl same ↦ rw same (λ e. e, λ e. e)
      | inr painted ↦ rw painted (paint-Keeps st (get_or p.cells j pending))
    ],
    length-mark_cell o n st p,
  )

  -- From a state to a later one: each cell's history, and the size of the map.
  pub Kept : Progress F → Progress F → Type 0
  Kept start p =
      (length p.cells ≡ length start.cells)
      × ((j : ℕ)
          → j < length start.cells
          → Keeps (get_or start.cells j pending) (get_or p.cells j pending))

  Kept-refl : (p : Progress F) → Kept p p
  unfolding Kept
  Kept-refl p = (refl, λ j h. (λ e. e, λ e. e))

  Kept-trans : (p q r : Progress F) → Kept p q → Kept q r → Kept p r
  unfolding Kept
  Kept-trans p q r first later = (
    later.0 ∙ first.0,
    λ j h.
        let (e0, p0) = first.1 j h in
        let (e1, p1) = later.1 j (omega (arith, first.0)) in (λ e. e1 (e0 e), λ e. p1 (p0 e)),
  )

  Kept-same : (p q : Progress F) → q.cells ≡ p.cells → Kept p q
  unfolding Kept
  Kept-same p q e = rw e (refl, λ j h. (λ k. k, λ k. k))

  apply-Kept : (c : Call) (p : Progress F) → starts c ≡ false → Kept p (apply c p)
  unfolding apply starts Kept Progress.add_done Progress.set_done Progress.log Progress.message
      Progress.set_finished Progress.take_logs Progress.set_phase Progress.set_paused
      Progress.set_input_locked Progress.upgrade_cached_to_ok recompute_rate push_log
  apply-Kept (Call.reset total block) p e = ground arith
  apply-Kept Call.note_restart p e = ground arith
  apply-Kept (Call.mark_cell o n st) p e =
      (length-mark_cell o n st p, λ j h. (mark_cell-Keeps o n st p j h).0)
  apply-Kept (Call.log o n st m) p e =
      (length-mark_cell o n st _, λ j h. (mark_cell-Keeps o n st _ j h).0)
  apply-Kept Call.upgrade_cached_to_ok p e = (
    length-map p.cells upgrade,
    λ j h.
        rw (get_or-map upgrade p.cells j upgrade-pending)
          (Keeps-upgrade (get_or p.cells j pending)),
  )
  apply-Kept (Call.add_done n) p e = Kept-same p (Progress.add_done n p) (ground arith)
  apply-Kept (Call.set_done n) p e = Kept-same p (Progress.set_done n p) (ground arith)
  apply-Kept _ p e = (refl, λ j h. (λ k. k, λ k. k))

  step-Kept :
      (c : Call) (start p : Progress F) (b : Bool)
      → starts c ≡ b
      → Kept start p
      → Kept (if b then apply c p else start) (apply c p)
  step-Kept c start p true e kept = Kept-refl (apply c p)
  step-Kept c start p false e kept = Kept-trans start p (apply c p) kept (apply-Kept c p e)

  run-Kept :
      (cs : List Call) (start p : Progress F)
      → Kept start p
      → Kept (since starts start cs p) (run cs p)
  unfolding run since
  run-Kept [] start p kept = kept
  run-Kept (c ∷ cs) start p kept =
      run-Kept cs (if starts c then apply c p else start) (apply c p)
        (step-Kept c start p (starts c) refl kept)

  -- Every cell is pending.
  pub Fresh : Progress F → Type 0
  Fresh p = (j : ℕ) → get_or p.cells j pending ≡ pending

  apply-Fresh : (c : Call) (p : Progress F) → starts c ≡ true → Fresh (apply c p)
  unfolding apply starts Fresh Progress.reset Progress.note_restart
  apply-Fresh (Call.reset total block) p e j = get_or-replicate _ j
  apply-Fresh Call.note_restart p e j = get_or-map (λ x. pending) p.cells j refl
  apply-Fresh _ p e j = ground arith

  since_start-kept :
      (cs : List Call) (start p : Progress F) → Fresh start → Fresh (since starts start cs p)
  unfolding since
  since_start-kept [] start p fresh = fresh
  since_start-kept (c ∷ cs) start p fresh = since_start-kept cs _ (apply c p) (
      elim (starts c) as (λ b. starts c ≡ b → Fresh (if b then apply c p else start)) [
        | true ↦ λ e. apply-Fresh c p e
        | false ↦ λ e. fresh
      ]
        refl)

  since_start-Fresh :
      (cs : List Call) (start p : Progress F)
      → any_starts cs ≡ true
      → Fresh (since starts start cs p)
  unfolding since any_starts
  since_start-Fresh [] start p e = ground arith
  since_start-Fresh (c ∷ cs) start p e =
      elim (starts c)
          as (λ b.
            starts c ≡ b
            → (b || any_starts cs) ≡ true
            → Fresh (since starts (if b then apply c p else start) cs (apply c p))) [
              | true ↦ λ same h. since_start-kept cs (apply c p) (apply c p) (apply-Fresh c p same)
              | false ↦ λ same h. since_start-Fresh cs start (apply c p) h
            ]
        refl e

  apply-size :
      (c : Call) (p : Progress F) → clears_log c ≡ false → length (apply c p).cells ≡ length p.cells
  unfolding apply clears_log starts Kept Progress.note_restart
  apply-size (Call.reset total block) p e = ground arith
  apply-size Call.note_restart p e = length-map p.cells (λ x. pending)
  apply-size (Call.set_phase t) p e = (apply-Kept (Call.set_phase t) p refl).0
  apply-size (Call.add_done n) p e = (apply-Kept (Call.add_done n) p refl).0
  apply-size (Call.set_done n) p e = (apply-Kept (Call.set_done n) p refl).0
  apply-size (Call.mark_cell o n st) p e = (apply-Kept (Call.mark_cell o n st) p refl).0
  apply-size (Call.log o n st m) p e = (apply-Kept (Call.log o n st m) p refl).0
  apply-size (Call.message l m) p e = (apply-Kept (Call.message l m) p refl).0
  apply-size (Call.set_paused v) p e = (apply-Kept (Call.set_paused v) p refl).0
  apply-size (Call.set_finished v) p e = (apply-Kept (Call.set_finished v) p refl).0
  apply-size (Call.set_input_locked v) p e = (apply-Kept (Call.set_input_locked v) p refl).0
  apply-size Call.upgrade_cached_to_ok p e = (apply-Kept Call.upgrade_cached_to_ok p refl).0
  apply-size Call.take_logs p e = (apply-Kept Call.take_logs p refl).0

  step-size :
      (c : Call) (start p : Progress F) (b : Bool)
      → clears_log c ≡ b
      → length p.cells ≡ length start.cells
      → length (apply c p).cells ≡ length (if b then apply c p else start).cells
  step-size c start p true e same = refl
  step-size c start p false e same = apply-size c p e ∙ same

  run-size :
      (cs : List Call) (start p : Progress F)
      → length p.cells ≡ length start.cells
      → length (run cs p).cells ≡ length (since clears_log start cs p).cells
  unfolding run since
  run-size [] start p same = same
  run-size (c ∷ cs) start p same =
      run-size cs (if clears_log c then apply c p else start) (apply c p)
        (step-size c start p (clears_log c) refl same)

  -- Over any sequence of calls, those of `reset` and `note_restart` included. From the last of
  -- these two on, or from the beginning where there is none: an error cell is not cleared, and a
  -- touched cell is not pending again. Right after one of them every cell is pending. From the last
  -- `reset` on, or from the beginning, the map keeps its size.
  pub run-Keeps :
      (cs : List Call) (p : Progress F)
      → Kept (since starts p cs p) (run cs p)
        × ((any_starts cs ≡ true → Fresh (since starts p cs p))
            × (length (run cs p).cells ≡ length (since clears_log p cs p).cells))
  run-Keeps cs p = (run-Kept cs p p (Kept-refl p), (since_start-Fresh cs p p, run-size cs p p refl))
