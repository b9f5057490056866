-- ===== src/Fs/Visited.antt =====
-- The set `seen` of the scanners of src/fs, and how many numbers below a bound are not in it.
use reflash.Base.{ℕ, zero, suc, ◌+◌, ◌≤◌, ◌<◌, ◌≡◌, false, List, ◌∷◌, arith, if◌then◌else◌}
use reflash.Fs.{seen_in}

-- How many numbers below `n` are not in the list.
pub fresh : ℕ → List ℕ → ℕ
fresh zero xs = 0
fresh (suc n) xs = (if seen_in xs n then 0 else 1) + fresh n xs

fresh-cons_ge : (n : ℕ) (c : ℕ) (xs : List ℕ) → n ≤ c → fresh n (c ∷ xs) ≡ fresh n xs
unfolding fresh seen_in
fresh-cons_ge zero c xs h = omega arith
fresh-cons_ge (suc n) c xs h = ground (arith, fresh-cons_ge n c xs)

pub fresh-cons :
    (n c : ℕ) (xs : List ℕ) → c < n → seen_in xs c ≡ false → suc (fresh n (c ∷ xs)) ≡ fresh n xs
unfolding fresh seen_in
fresh-cons zero c xs h new = absurd (omega arith)
fresh-cons (suc n) c xs h new = ground (arith, fresh-cons n c xs, fresh-cons_ge n c xs)

pub fresh-le : (n : ℕ) (xs : List ℕ) → fresh n xs ≤ n
unfolding fresh
fresh-le zero xs = omega arith
fresh-le (suc n) xs = ground (arith, fresh-le n xs)
