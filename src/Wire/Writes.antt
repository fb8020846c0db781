-- ===== src/Wire/Writes.antt =====
-- `write_all` of source/message-private.c: it moves the bytes once and in order, however the system
-- splits or interrupts the writes.
use list_server.Base.{
  ℕ, ◌≡◌, refl, sym, ap, ◌∙◌, ◌⊎◌, inl, inr, Bool, true, false, List, [], ◌∷◌, ◌++◌, take, drop,
  take-append-drop,
}
use mathlib.Core.List.{append-nil, append_assoc}
use list_server.Wire.{WriteEvent, Sock, took, write_loop, write_all}

-- No write of the script fails.
abbrev pub NoFailure : List WriteEvent → Type 0
NoFailure [] = Unit
NoFailure (took n ∷ es) = NoFailure es
NoFailure (WriteEvent.interrupted ∷ es) = NoFailure es
NoFailure (WriteEvent.failed ∷ es) = ⊥

-- What a write of `buf` may leave: a front part of it is sent, behind what was sent before; all of
-- it if the result is true; and the input is as it was.
abbrev pub Sent : Sock → List ℕ → Bool × Sock → Type 0
Sent k buf r =
    (front : List ℕ) × (rest : List ℕ) × (buf ≡ front ++ rest)
    × (r.1.output ≡ k.output ++ front)
    × (r.1.input ≡ k.input)
    × ((r.0 ≡ false) ⊎ (rest ≡ []))

-- The loop sends a front part of its buffer once and in order, on every script of the system,
-- and the whole buffer where it returns its length.
write_loop-Sent :
    (es : List WriteEvent) (buf : List ℕ) (k : Sock) → Sent k buf (write_loop es buf k)
unfolding write_loop
write_loop-Sent [] buf k = (buf, [], sym (append-nil buf), refl, refl, inr refl)
write_loop-Sent (e ∷ es) [] k = ([], [], refl, sym (append-nil k.output), refl, inr refl)
write_loop-Sent (took n ∷ es) (b ∷ bs) k =
    let now = b ∷ take n bs in
    let (front, rest, e, o, i, d) =
      write_loop-Sent es (drop n bs) (record k { output = k.output ++ now }) in
    (
      now ++ front,
      rest,
      ap (◌∷◌ b) (
          sym (take-append-drop n bs)
          ∙ ap (λ (t : List ℕ). take n bs ++ t) e
          ∙ sym (append_assoc (take n bs) front rest)),
      o ∙ append_assoc k.output now front,
      i,
      d,
    )
write_loop-Sent (WriteEvent.interrupted ∷ es) (b ∷ bs) k = write_loop-Sent es (b ∷ bs) _
write_loop-Sent (WriteEvent.failed ∷ es) (b ∷ bs) k =
    ([], b ∷ bs, refl, sym (append-nil k.output), refl, inl refl)

-- `write_all` sends a front part of its buffer once and in order, on every script of the system, and
-- the whole buffer where it does not return -1; it reads nothing.
pub write_all-Sent : (buf : List ℕ) (k : Sock) → Sent k buf (write_all buf k)
unfolding write_all
write_all-Sent buf k = write_loop-Sent k.writes buf k

write_loop_steady :
    (es : List WriteEvent) (buf : List ℕ) (k : Sock)
    → NoFailure es
    → let r = write_loop es buf k in (r.0 ≡ true) × NoFailure r.1.writes
unfolding write_loop
write_loop_steady [] buf k h = (refl, tt)
write_loop_steady (e ∷ es) [] k h = (refl, h)
write_loop_steady (took n ∷ es) (b ∷ bs) k h = write_loop_steady es (drop n bs) _ h
write_loop_steady (WriteEvent.interrupted ∷ es) (b ∷ bs) k h = write_loop_steady es (b ∷ bs) _ h
write_loop_steady (WriteEvent.failed ∷ es) (b ∷ bs) k h = absurd h

-- Where no write fails, however short or interrupted the writes are, the whole buffer is sent.
pub write_all_full :
    (buf : List ℕ) (k : Sock)
    → NoFailure k.writes
    → let r = write_all buf k in
      (r.0 ≡ true) × (r.1.output ≡ k.output ++ buf) × (r.1.input ≡ k.input) × NoFailure r.1.writes
write_all_full buf k h =
    let r = write_all buf k in
    let full : (r.0 ≡ true) × NoFailure r.1.writes =
      unfold write_all in write_loop_steady k.writes buf k h in
    let (front, rest, e, o, i, d) = write_all-Sent buf k in
    let whole : rest ≡ [] = elim d [ inl bad ↦ cc | inr none_left ↦ none_left ] in
    let all : buf ≡ front = e ∙ ap (λ (t : List ℕ). front ++ t) whole ∙ append-nil front in
    (full.0, o ∙ ap (λ (t : List ℕ). k.output ++ t) (sym all), i, full.1)
