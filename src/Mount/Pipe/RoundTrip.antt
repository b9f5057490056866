-- ===== src/Mount/Pipe/RoundTrip.antt =====
-- Requests on the pipe of the privilege agent (src/mount/host_priv.cpp), against the bytes in it.
use reflash.Base.{
  ℕ, zero, suc, ◌-◌, ◌%◌, ◌≤◌, ◌<◌, ◌≡◌, refl, sym, ap, ◌∙◌, subst, Bool, true, false, Option, some,
  [], ◌∷◌, ◌++◌, ltb, ◌==◌, ◌||◌, length, take, drop, Text, r32, u32_mod, arith, length-drop,
}
use mathlib.Core.List.{append-nil, append_assoc}
use reflash.Mount.Pipe.{
  ReadCall, got, read_interrupted, read_error, WriteCall, wrote, write_interrupted, write_error,
  Pipe, put32, quit, most_script, write_rest, write_all, put_before, read_rest, read_all,
  then_write, send_script, of_length, receive_script,
}

r32-put32 : (n : ℕ) → n < 4294967296 → r32 (put32 n) 0 ≡ n
unfolding put32
r32-put32 n h = omega arith

pub take-drop : (n : ℕ) (xs : Text) → take n xs ++ drop n xs ≡ xs
take-drop zero xs = refl
take-drop (suc n) [] = refl
take-drop (suc n) (x ∷ xs) = ap (λ v. x ∷ v) (take-drop n xs)

take-append : (xs ys : Text) → take (length xs) (xs ++ ys) ≡ xs
take-append [] ys = refl
take-append (x ∷ xs) ys = ap (λ v. x ∷ v) (take-append xs ys)

drop-append : (xs ys : Text) → drop (length xs) (xs ++ ys) ≡ ys
drop-append [] ys = refl
drop-append (x ∷ xs) ys = drop-append xs ys

take-append_le : (n : ℕ) (xs ys : Text) → n ≤ length xs → take n (xs ++ ys) ≡ take n xs
take-append_le zero xs ys le = refl
take-append_le (suc n) [] ys le = absurd (omega arith)
take-append_le (suc n) (x ∷ xs) ys le = ap (λ v. x ∷ v) (take-append_le n xs ys (omega arith))

drop-append_le : (n : ℕ) (xs ys : Text) → n ≤ length xs → drop n (xs ++ ys) ≡ drop n xs ++ ys
drop-append_le zero xs ys le = refl
drop-append_le (suc n) [] ys le = absurd (omega arith)
drop-append_le (suc n) (x ∷ xs) ys le = drop-append_le n xs ys (omega arith)

module _ {W : Type 0} (pipe : Pipe W) (view : W → Text) where
  -- A call for at most `left` bytes takes the first ones in the pipe.
  unfoldable pub Taken : ℕ → W → ReadCall × W → Type 0
  Taken left w (got bytes, w1) =
      (length bytes ≤ left) × ((0 < length bytes) × (view w ≡ bytes ++ view w1))
  Taken left w (_, w1) = ⊥

  -- What `read` does where bytes are in the pipe and no signal comes.
  unfoldable pub Takes : Type 0
  Takes = (left : ℕ) (w : W) → 0 < left → 0 < length (view w) → Taken left w (pipe.read left w)

  -- A call with these bytes puts the first ones into the pipe.
  unfoldable pub Put : Text → W → WriteCall × W → Type 0
  Put bytes w (wrote n, w1) = (0 < n) × ((n ≤ length bytes) × (view w1 ≡ view w ++ take n bytes))
  Put bytes w (_, w1) = ⊥

  unfoldable pub Puts : Type 0
  Puts = (bytes : Text) (w : W) → 0 < length bytes → Put bytes w (pipe.write bytes w)

  Sent : Text → W → Bool × W → Type 0
  Sent bytes w r = (r.0 ≡ true) × (view r.1 ≡ view w ++ bytes)

  pub Received : Text → Text → Option Text × W → Type 0
  Received bytes rest r = (r.0 ≡ some bytes) × (view r.1 ≡ rest)

  write_rest-Sent :
      (go : Text → W → Bool × W) (bytes : Text) (w : W)
      → ((rest : Text) (w1 : W) → length rest < length bytes → Sent rest w1 (go rest w1))
      → (r : WriteCall × W) → Put bytes w r
      → Sent bytes w (write_rest go bytes r)
  unfolding write_rest Put Sent
  write_rest-Sent go bytes w rec (write_interrupted, w1) h = absurd h
  write_rest-Sent go bytes w rec (write_error, w1) h = absurd h
  write_rest-Sent go bytes w rec (wrote zero, w1) h = absurd (omega (arith, h.0))
  write_rest-Sent go bytes w rec (wrote (suc n), w1) (some_, (le, put)) =
      let next = rec (drop (suc n) bytes) w1 (omega (arith, length-drop (suc n) bytes)) in
      (
        next.0,
        next.1
            ∙ (ap (λ v. v ++ drop (suc n) bytes) put
                ∙ (append_assoc (view w) (take (suc n) bytes) (drop (suc n) bytes)
                    ∙ ap (λ v. view w ++ v) (take-drop (suc n) bytes))),
      )

  write_all-Sent :
      Puts
      → (fuel : ℕ) (bytes : Text) (w : W) → length bytes ≤ fuel
      → Sent bytes w (write_all fuel pipe bytes w)
  unfolding write_all Puts Sent
  write_all-Sent puts fuel [] w le = (refl, sym (append-nil (view w)))
  write_all-Sent puts zero (b ∷ bs) w le = absurd (omega arith)
  write_all-Sent puts (suc fuel) (b ∷ bs) w le =
      write_rest-Sent (write_all fuel pipe) (b ∷ bs) w
        (λ rest w1 fewer. write_all-Sent puts fuel rest w1 (omega arith)) _
        (puts (b ∷ bs) w (omega arith))

  Received-put_before :
      (xs ys rest : Text) (r : Option Text × W)
      → Received ys rest r
      → Received (xs ++ ys) rest (put_before xs r)
  unfolding Received put_before
  Received-put_before xs ys rest r h =
      subst (λ o. Received (xs ++ ys) rest (put_before xs (o, r.1))) (sym h.0) (refl, h.1)

  read_rest-Received :
      (go : ℕ → W → Option Text × W) (bytes rest : Text) (w : W)
      → ((later : Text) (w1 : W)
          → length later < length bytes
          → view w1 ≡ later ++ rest
          → Received later rest (go (length later) w1))
      → view w ≡ bytes ++ rest
      → (r : ReadCall × W) → Taken (length bytes) w r
      → Received bytes rest (read_rest go (length bytes) r)
  unfolding read_rest Taken
  read_rest-Received go bytes rest w rec e (read_interrupted, w1) h = absurd h
  read_rest-Received go bytes rest w rec e (read_error, w1) h = absurd h
  read_rest-Received go bytes rest w rec e (got [], w1) h = absurd (omega (arith, h.1.0))
  read_rest-Received go bytes rest w rec e (got (x ∷ xs), w1) (le, (some_, taken)) =
      let front = x ∷ xs in
      let later = drop (length front) bytes in
      let same : front ++ view w1 ≡ bytes ++ rest = sym taken ∙ e in
      let there : view w1 ≡ later ++ rest =
        sym (drop-append front (view w1))
        ∙ (ap (drop (length front)) same ∙ drop-append_le (length front) bytes rest le) in
      let here : front ++ later ≡ bytes =
        ap (λ v. v ++ later)
          (sym (take-append front (view w1))
            ∙ (ap (take (length front)) same ∙ take-append_le (length front) bytes rest le))
        ∙ take-drop (length front) bytes in
      let next = rec later w1 (omega (arith, length-drop (length front) bytes)) there in
      subst (λ v. Received v rest (put_before front (go (length bytes - length front) w1))) here
        (Received-put_before front later rest _
          (subst (λ n. Received later rest (go n w1)) (length-drop (length front) bytes) next))

  read_all-Received :
      Takes
      → (fuel : ℕ) (bytes rest : Text) (w : W) → length bytes ≤ fuel
      → view w ≡ bytes ++ rest
      → Received bytes rest (read_all fuel pipe (length bytes) w)
  unfolding read_all Takes Received
  read_all-Received takes fuel [] rest w le e = (refl, e)
  read_all-Received takes zero (b ∷ bs) rest w le e = absurd (omega arith)
  read_all-Received takes (suc fuel) (b ∷ bs) rest w le e =
      read_rest-Received (read_all fuel pipe) (b ∷ bs) rest w
        (λ later w1 fewer there. read_all-Received takes fuel later rest w1 (omega arith) there) e _
        (takes (suc (length bs)) w (omega arith) (subst (λ v. 0 < length v) (sym e) (omega arith)))

  then_write-Sent :
      Puts
      → (fuel : ℕ) (front bytes : Text) (w : W) (r : Bool × W) → length bytes ≤ fuel
      → Sent front w r
      → Sent (front ++ bytes) w (then_write fuel pipe bytes r)
  unfolding Sent then_write
  then_write-Sent puts fuel front bytes w r le h =
      let next = write_all-Sent puts fuel bytes r.1 le in
      subst (λ b. Sent (front ++ bytes) w (then_write fuel pipe bytes (b, r.1))) (sym h.0)
        (next.0, next.1 ∙ (ap (λ v. v ++ bytes) h.1 ∙ append_assoc (view w) front bytes))

  send_script-Sent :
      Puts
      → (fuel : ℕ) (script : Text) (w : W) → 4 ≤ fuel
      → length script ≤ fuel
      → Sent (put32 (length script % u32_mod) ++ script) w (send_script fuel pipe script w)
  unfolding send_script put32
  send_script-Sent puts fuel script w four le =
      then_write-Sent puts fuel _ script w _ le (write_all-Sent puts fuel _ w four)

  of_length-Received :
      Takes
      → (fuel : ℕ) (script rest : Text) (r : Option Text × W) → length script ≤ fuel
      → length script ≤ most_script
      → Received (put32 (length script % u32_mod)) (script ++ rest) r
      → Received script rest (of_length fuel pipe r)
  unfolding Received of_length
  of_length-Received takes fuel script rest r le small h =
      let n : r32 (put32 (length script % u32_mod)) 0 ≡ length script =
        r32-put32 (length script % u32_mod) (omega arith) ∙ omega arith in
      let whole = read_all-Received takes fuel script rest r.1 le h.1 in
      let not_quit : (length script == quit || ltb most_script (length script)) ≡ false =
        ground arith in
      subst (λ o. Received script rest (of_length fuel pipe (o, r.1))) (sym h.0)
        (rw n (rw not_quit whole))

  receive_script-Received :
      Takes
      → (fuel : ℕ) (script rest : Text) (w : W) → 4 ≤ fuel
      → length script ≤ fuel
      → length script ≤ most_script
      → view w ≡ put32 (length script % u32_mod) ++ (script ++ rest)
      → Received script rest (receive_script fuel pipe w)
  unfolding receive_script put32
  receive_script-Received takes fuel script rest w four le small e =
      of_length-Received takes fuel script rest _ le small
        (read_all-Received takes fuel (put32 (length script % u32_mod)) (script ++ rest) w four e)

-- A script of at most 8 MB that is sent through an empty pipe, by which the calls of both ends pass
-- the bytes on in order and without a signal, is received as it was sent, and the pipe is empty
-- again.
pub receive_script-send_script :
    {W : Type 0} (pipe : Pipe W) (view : W → Text)
    → Takes pipe view
    → Puts pipe view
    → (fuel : ℕ) (script : Text) (w : W) → 4 ≤ fuel
    → length script ≤ fuel
    → length script ≤ most_script
    → view w ≡ []
    → ((send_script fuel pipe script w).0 ≡ true)
      × Received pipe view script [] (receive_script fuel pipe (send_script fuel pipe script w).1)
unfolding Sent
receive_script-send_script pipe view takes puts fuel script w four le small empty =
    let s = send_script-Sent pipe view puts fuel script w four le in
    let request = put32 (length script % u32_mod) in
    (
      s.0,
      receive_script-Received pipe view takes fuel script [] _ four le small (
          s.1
          ∙ (ap (λ v. v ++ (request ++ script)) empty
              ∙ ap (λ v. request ++ v) (sym (append-nil script)))),
    )
