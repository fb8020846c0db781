-- ===== src/Wire/Reads.antt =====
-- `read_all` of source/message-private.c: it takes the bytes once and in order, however the system
-- splits or interrupts the reads; and where it does not end.
use list_server.Base.{
  ℕ, zero, suc, ◌+◌, ◌-◌, ◌≤◌, ◌<◌, ◌≡◌, refl, sym, ap, ◌∙◌, inl, inr, Bool, true, Option, none,
  some, List, [], ◌∷◌, ◌++◌, arith, leb, Bool-cases, length, length-append, take, drop,
  take-append_le, drop-append_le, take-append_ge, drop-append_ge, take_all, drop_all,
}
use mathlib.Core.List.{append-nil, append_assoc}
use list_server.Wire.{ReadEvent, Sock, chunk, put_back, read_loop, read_all}

-- The bytes that arrive before the first error or the end.
abbrev pub stream : List ReadEvent → List ℕ
stream [] = []
stream (chunk b bs ∷ es) = b ∷ bs ++ stream es
stream (ReadEvent.interrupted ∷ es) = stream es
stream (ReadEvent.failed ∷ es) = []

stream-put_back : (bs : List ℕ) (es : List ReadEvent) → stream (put_back bs es) ≡ bs ++ stream es
unfolding put_back
stream-put_back [] es = refl
stream-put_back (b ∷ bs) es = refl

-- What reading `left` bytes behind `got` leaves: those bytes are got and the stream goes on behind
-- them; nothing is sent.
abbrev pub Got : Sock → List ReadEvent → ℕ → List ℕ → Option (Option (List ℕ) × Sock) → Type 0
Got k es left got r =
    (k' : Sock) × (r ≡ some (some (got ++ take left (stream es)), k'))
    × (stream k'.input ≡ drop left (stream es))
    × (k'.output ≡ k.output)
    × (k'.writes ≡ k.writes)

-- A chunk that holds all that is left to read ends the loop.
read_chunk_last :
    (fuel left : ℕ) (got : List ℕ) (k : Sock) (b : ℕ) (bs : List ℕ) (es : List ReadEvent)
    → left ≤ length bs
    → 0 < fuel
    → Got k
        (chunk b bs ∷ es)
        (suc left)
        got
        (read_loop (suc fuel) (suc left) got (chunk b bs ∷ es) k)
unfolding read_loop
read_chunk_last zero left got k b bs es h f = absurd (omega arith)
read_chunk_last (suc fuel) left got k b bs es h f =
    let none_left : left - length bs ≡ 0 = omega arith in
    (
      record k { input = put_back (drop left bs) es },
      rw (none_left, take-append_le left bs (stream es) h, read_loop),
      stream-put_back (drop left bs) es ∙ sym (drop-append_le left bs (stream es) h),
      refl,
      refl,
    )

-- A shorter chunk is taken whole.
pub read_chunk_more :
    (fuel left : ℕ) (got : List ℕ) (k : Sock) (b : ℕ) (bs : List ℕ) (es : List ReadEvent)
    → length bs < left
    → read_loop (suc fuel) (suc left) got (chunk b bs ∷ es) k
      ≡ read_loop fuel (left - length bs) (got ++ b ∷ bs) es k
unfolding read_loop put_back
read_chunk_more fuel left got k b bs es h =
    rw (take_all left bs (omega arith), drop_all left bs (omega arith))

pub read_interrupted :
    (fuel left : ℕ) (got : List ℕ) (es : List ReadEvent) (k : Sock)
    → read_loop (suc fuel) (suc left) got (ReadEvent.interrupted ∷ es) k
      ≡ read_loop fuel (suc left) got es (record k { eintr = true })
unfolding read_loop
read_interrupted fuel left got es k = refl

-- What is got behind a chunk that was taken whole is what is got from the whole stream.
Got-chunk :
    (fuel left : ℕ) (got : List ℕ) (k : Sock) (b : ℕ) (bs : List ℕ) (es : List ReadEvent)
    → length bs < left
    → Got k es
        (left - length bs)
        (got ++ b ∷ bs)
        (read_loop fuel (left - length bs) (got ++ b ∷ bs) es k)
    → Got k
        (chunk b bs ∷ es)
        (suc left)
        got
        (read_loop (suc fuel) (suc left) got (chunk b bs ∷ es) k)
Got-chunk fuel left got k b bs es h (k', e, i, o, w) =
    let rest = take (left - length bs) (stream es) in
    let bytes : (got ++ b ∷ bs) ++ rest ≡ got ++ b ∷ take left (bs ++ stream es) =
      append_assoc got (b ∷ bs) rest
      ∙ ap (λ (t : List ℕ). got ++ b ∷ t)
          (sym (take-append_ge left bs (stream es) (omega arith))) in
    (
      k',
      read_chunk_more fuel left got k b bs es h ∙ e ∙ ap (λ (t : List ℕ). some (some t, k')) bytes,
      i ∙ sym (drop-append_ge left bs (stream es) (omega arith)),
      o,
      w,
    )

-- The stream holds `left` bytes, and there is a round for each event: the loop gets them.
read_loop-Got :
    (fuel left : ℕ) (got : List ℕ) (es : List ReadEvent) (k : Sock)
    → length es < fuel
    → left ≤ length (stream es)
    → Got k es left got (read_loop fuel left got es k)
read_loop-Got zero left got es k f h = absurd (omega arith)
read_loop-Got (suc fuel) zero got es k f h =
    unfold read_loop in
    (
      record k { input = es },
      ap (λ (t : List ℕ). some (some t, _)) (sym (append-nil got)),
      refl,
      refl,
      refl,
    )
read_loop-Got (suc fuel) (suc left) got [] k f h = absurd (omega arith)
read_loop-Got (suc fuel) (suc left) got (chunk b bs ∷ es) k f h =
    elim (Bool-cases (leb left (length bs))) [
      | inl last ↦ read_chunk_last fuel left got k b bs es (ground arith) (omega arith)
      | inr more ↦
          let short : length bs < left = ground arith in
          Got-chunk fuel left got k b bs es short (
            read_loop-Got fuel (left - length bs) (got ++ b ∷ bs) es k (omega arith)
              (omega (arith, length-append bs (stream es))))
    ]
read_loop-Got (suc fuel) (suc left) got (ReadEvent.interrupted ∷ es) k f h =
    let (k', e, i, o, w) =
      read_loop-Got fuel (suc left) got es (record k { eintr = true }) (omega arith) h in
    (k', read_interrupted fuel left got es k ∙ e, i, o, w)
read_loop-Got (suc fuel) (suc left) got (ReadEvent.failed ∷ es) k f h = absurd (omega arith)

-- `read_all` ends with exactly the next `len` bytes when the stream holds so many before an error,
-- however they are split into chunks and interrupted; the rest of the stream stays.
pub read_all-Got :
    (len : ℕ) (k : Sock) → len ≤ length (stream k.input) → Got k k.input len [] (read_all len k)
unfolding read_all
read_all-Got len k h = read_loop-Got (length k.input + 2) len [] k.input k (omega arith) h

-- No read of the script fails, and when the stream ends errno is EINTR: `e` says whether it is now.
abbrev pub Stale : Bool → List ReadEvent → Type 0
Stale e [] = e ≡ true
Stale e (chunk b bs ∷ es) = Stale e es
Stale e (ReadEvent.interrupted ∷ es) = Stale true es
Stale e (ReadEvent.failed ∷ es) = ⊥

read_end_stale :
    (fuel left : ℕ) (got : List ℕ) (k : Sock)
    → k.eintr ≡ true
    → read_loop fuel (suc left) got [] k ≡ none
    → read_loop (suc fuel) (suc left) got [] k ≡ none
unfolding read_loop
read_end_stale fuel left got k e h = simp e h

read_loop_hangs :
    (fuel left : ℕ) (got : List ℕ) (es : List ReadEvent) (k : Sock)
    → Stale k.eintr es
    → length (stream es) < left
    → read_loop fuel left got es k ≡ none
read_loop_hangs zero left got es k st h = unfold read_loop in refl
read_loop_hangs (suc fuel) zero got es k st h = absurd (omega arith)
read_loop_hangs (suc fuel) (suc left) got [] k st h =
    read_end_stale fuel left got k st (read_loop_hangs fuel (suc left) got [] k st h)
read_loop_hangs (suc fuel) (suc left) got (chunk b bs ∷ es) k st h =
    let n = length-append bs (stream es) in
    read_chunk_more fuel left got k b bs es (omega (arith, n))
    ∙ read_loop_hangs fuel (left - length bs) (got ++ b ∷ bs) es k st (omega (arith, n))
read_loop_hangs (suc fuel) (suc left) got (ReadEvent.interrupted ∷ es) k st h =
    read_interrupted fuel left got es k
    ∙ read_loop_hangs fuel (suc left) got es (record k { eintr = true }) st h
read_loop_hangs (suc fuel) (suc left) got (ReadEvent.failed ∷ es) k st h = absurd st

-- `read_all` never ends when the peer closes before the buffer is full and errno is EINTR from an
-- earlier interruption: at the end of the stream `read` returns 0, errno is not set, and the loop
-- goes on. No number of rounds is enough.
pub read_all_hangs :
    (fuel len : ℕ) (k : Sock)
    → Stale k.eintr k.input
    → length (stream k.input) < len
    → read_loop fuel len [] k.input k ≡ none
read_all_hangs fuel len k st h = read_loop_hangs fuel len [] k.input k st h
