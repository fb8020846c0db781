-- ===== src/Server/Log/Closing.antt =====
-- How the log of source/network_server.c begins and ends: create_server_log and close_server_log,
-- with what the writer still does between the two.
use list_server.Base.{
  ◌≡◌, refl, sym, ap, ◌∙◌, Bool, true, false, not, Option, none, some, List, [], ◌∷◌, ◌++◌,
  if◌then◌else◌, CStr, ltb, length, ℤ, pos, minus_one,
}
use mathlib.Core.List.{append-nil}
use list_server.Wire.{WriteEvent}
use list_server.Wire.Writes.{NoFailure}
use list_server.Chain.Address.{decimal}
use list_server.Server.Log.{Queue, Log, created, written, taken, asked, stopped}
use list_server.Server.Log.Order.{text, Logged, goes_on, Logged-Orderly}

-- "server_%s_%d.log", `none` where it does not fit the 256 bytes of the buffer
unfoldable pub filename : CStr → ℤ → Option CStr
filename hostbuf port =
    let name =
      (b's' ∷ b'e' ∷ b'r' ∷ b'v' ∷ b'e' ∷ b'r' ∷ b'_' ∷ [])
      ++ hostbuf
      ++ (b'_' ∷ [])
      ++ decimal port
      ++ (b'.' ∷ b'l' ∷ b'o' ∷ b'g' ∷ []) in
    if ltb (length name) 256 then some name else none

-- `open` and `pthread_create` give what they are said to; the log is there where both succeed.
unfoldable pub create_server_log : CStr → ℤ → Bool → Bool → List WriteEvent → ℤ × Option Log
create_server_log hostbuf port opens starts es = elim (filename hostbuf port) [
  | none ↦ (minus_one, none)
  | some name ↦
      if not opens
      then (minus_one, none)
      else if not starts
      then (minus_one, some (record (created es) { writer_running = false }))
      else (pos 1, some (created es))
]

-- The writer takes the nodes one after the other, and ends when none is left.
unfoldable pub drain : Queue → Log → Log
drain [] log = record log { ended = true }
drain (line ∷ rest) log = drain rest (written line (record log { queue = rest }))

-- No other thread enqueues by now. `close` succeeds or not.
unfoldable pub close_server_log : Bool → Log → ℤ × Log
close_server_log closes log =
    (if closes then pos 0 else minus_one, drain log.queue (record log { writer_running = false }))

written_running :
    (line : Option CStr) (log : Log)
    → ((written line log).writer_running ≡ log.writer_running)
      × ((written line log).ended ≡ log.ended)
      × ((written line log).queue ≡ log.queue)
unfolding written
written_running none log = (refl, refl, refl)
written_running (some line) log = (refl, refl, refl)

-- The writer's last steps are steps of the log, and it stops with no node left.
drain-Logged :
    (es : List WriteEvent) (lines queue : Queue) (log : Log)
    → log.queue ≡ queue
    → log.writer_running ≡ false
    → log.ended ≡ false
    → Logged es lines log
    → Logged es lines (drain queue log)
      × ((drain queue log).queue ≡ [])
      × ((drain queue log).ended ≡ true)
unfolding drain
drain-Logged es lines [] log q r f run = (goes_on run (stopped q r), q, refl)
drain-Logged es lines (line ∷ rest) log q r f run =
    let (r', f', q') = written_running line (record log { queue = rest }) in
    drain-Logged es lines rest (written line (record log { queue = rest })) q' (r' ∙ r) (f' ∙ f)
      (goes_on run (taken line rest q f))

-- No line is lost when the server stops: in whatever order the threads and the writer have come to
-- the call of `close_server_log`, behind it the file holds every line that was ever enqueued, whole
-- and in order, no node is left, and the writer has ended. No write fails, it may be short or
-- interrupted; the writer had not ended before, and no thread enqueues a line any more.
pub close_server_log_lem :
    (es : List WriteEvent) (lines : Queue) (log : Log) (closes : Bool)
    → NoFailure es
    → Logged es lines log
    → log.ended ≡ false
    → let closed = (close_server_log closes log).1 in
      (closed.file ≡ text lines) × (closed.queue ≡ []) × (closed.ended ≡ true)
unfolding close_server_log
close_server_log_lem es lines log closes calm run f =
    let (run', none_left, over) =
      drain-Logged es lines log.queue (record log { writer_running = false }) refl refl f
        (goes_on run asked) in
    let closed = drain log.queue (record log { writer_running = false }) in
    let whole = Logged-Orderly es lines closed calm run' in
    (
      sym (append-nil _) ∙ ap (λ (q : Queue). closed.file ++ text q) (sym none_left) ∙ whole,
      none_left,
      over,
    )
