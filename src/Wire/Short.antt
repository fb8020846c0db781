-- ===== src/Wire/Short.antt =====
-- `read_all` of source/message-private.c where the stream ends or fails before all has come.
use list_server.Wire.Reads.{stream, read_chunk_more, read_interrupted}
use list_server.Base.{
  ℕ, zero, suc, ◌+◌, ◌-◌, ◌<◌, ◌≡◌, refl, ◌∙◌, Bool, true, false, none, some, List, [], ◌∷◌, ◌++◌,
  arith, length, length-append,
}
use list_server.Wire.{ReadEvent, Sock, chunk, read_loop, read_all}

-- A read of the script fails, or errno is not EINTR when the stream ends.
abbrev Ended : Bool → List ReadEvent → Type 0
Ended e [] = e ≡ false
Ended e (chunk b bs ∷ es) = Ended e es
Ended e (ReadEvent.interrupted ∷ es) = Ended true es
Ended e (ReadEvent.failed ∷ es) = Unit

read_end_fresh :
    (fuel left : ℕ) (got : List ℕ) (k : Sock)
    → k.eintr ≡ false
    → read_loop (suc fuel) (suc left) got [] k ≡ some (none, record k { input = [] })
unfolding read_loop
read_end_fresh fuel left got k e = simp e

read_failed :
    (fuel left : ℕ) (got : List ℕ) (es : List ReadEvent) (k : Sock)
    → read_loop (suc fuel) (suc left) got (ReadEvent.failed ∷ es) k
      ≡ some (none, record k { input = es; eintr = false })
unfolding read_loop
read_failed fuel left got es k = refl

read_loop_short :
    (fuel left : ℕ) (got : List ℕ) (es : List ReadEvent) (k : Sock)
    → Ended k.eintr es
    → length es < fuel
    → length (stream es) < left
    → (k' : Sock) × (read_loop fuel left got es k ≡ some (none, k'))
read_loop_short zero left got es k en f h = absurd (omega arith)
read_loop_short (suc fuel) zero got es k en f h = absurd (omega arith)
read_loop_short (suc fuel) (suc left) got [] k en f h = (_, read_end_fresh fuel left got k en)
read_loop_short (suc fuel) (suc left) got (chunk b bs ∷ es) k en f h =
    let n = length-append bs (stream es) in
    let (k', e) =
      read_loop_short fuel (left - length bs) (got ++ b ∷ bs) es k en (omega arith)
        (omega (arith, n)) in
    (k', read_chunk_more fuel left got k b bs es (omega (arith, n)) ∙ e)
read_loop_short (suc fuel) (suc left) got (ReadEvent.interrupted ∷ es) k en f h =
    let (k', e) =
      read_loop_short fuel (suc left) got es (record k { eintr = true }) en (omega arith) h in
    (k', read_interrupted fuel left got es k ∙ e)
read_loop_short (suc fuel) (suc left) got (ReadEvent.failed ∷ es) k en f h =
    (_, read_failed fuel left got es k)

-- `read_all` ends with -1 when the stream is too short, if a read failed or errno is not EINTR.
read_all_short :
    (len : ℕ) (k : Sock)
    → Ended k.eintr k.input
    → length (stream k.input) < len
    → (k' : Sock) × (read_all len k ≡ some (none, k'))
unfolding read_all
read_all_short len k en h = read_loop_short (length k.input + 2) len [] k.input k en (omega arith) h
