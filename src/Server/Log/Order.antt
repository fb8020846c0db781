-- ===== src/Server/Log/Order.antt =====
-- The order of the lines in the server's log of source/network_server.c, over all interleavings.
use list_server.Base.{
  ℕ, ◌≡◌, refl, sym, ap, ◌∙◌, Option, none, some, List, [], ◌∷◌, ◌++◌, CStr, take, drop,
  take-append-drop,
}
use mathlib.Core.List.{append-nil, append_assoc}
use list_server.Wire.{WriteEvent, took}
use list_server.Wire.Writes.{NoFailure}
use list_server.Server.Log.{Queue, Log, created, write_line, written, LogStep}

-- The bytes of some nodes' lines, one after the other; a node without a line has none.
abbrev pub text : Queue → List ℕ
text [] = []
text (none ∷ lines) = text lines
text (some line ∷ lines) = line ++ text lines

text-append : (a b : Queue) → text (a ++ b) ≡ text a ++ text b
text-append [] b = refl
text-append (none ∷ a) b = text-append a b
text-append (some line ∷ a) b =
    ap (λ (t : List ℕ). line ++ t) (text-append a b) ∙ sym (append_assoc line (text a) (text b))

-- While no write fails a line is written whole, behind what the file holds.
write_line_lem :
    (es : List WriteEvent) (line file : List ℕ)
    → NoFailure es
    → let out = write_line es line file in NoFailure out.0 × (out.1 ≡ file ++ line)
unfolding write_line
write_line_lem es [] file h = (h, sym (append-nil file))
write_line_lem [] (b ∷ bs) file h = (tt, refl)
write_line_lem (took n ∷ es) (b ∷ bs) file h =
    let now = b ∷ take n bs in
    let (calm, e) = write_line_lem es (drop n bs) (file ++ now) h in
    (
      calm,
      e
          ∙ append_assoc file now (drop n bs)
          ∙ ap (λ (t : List ℕ). file ++ b ∷ t) (take-append-drop n bs),
    )
write_line_lem (WriteEvent.interrupted ∷ es) (b ∷ bs) file h = write_line_lem es (b ∷ bs) file h
write_line_lem (WriteEvent.failed ∷ es) (b ∷ bs) file h = absurd h

-- The lines enqueued so far are in the file and behind it in the queue, in their order.
abbrev pub Orderly : Queue → Log → Type 0
Orderly lines log = NoFailure log.writes × (log.file ++ text log.queue ≡ text lines)

-- The lines enqueued before and by a step.
abbrev pub noted : {log log' : Log} → LogStep log log' → Queue → Queue
noted (LogStep.enqueued line) lines = lines ++ line ∷ []
noted (LogStep.taken line rest e f) lines = lines
noted LogStep.asked lines = lines
noted (LogStep.stopped e f) lines = lines

written-Orderly :
    (line : Option CStr) (rest lines : Queue) (log : Log)
    → NoFailure log.writes
    → log.file ++ text (line ∷ rest) ≡ text lines
    → Orderly lines (written line (record log { queue = rest }))
unfolding written
written-Orderly none rest lines log calm h = (calm, h)
written-Orderly (some line) rest lines log calm h =
    let (calm', e) = write_line_lem log.writes line log.file calm in
    (calm', ap (λ (t : List ℕ). t ++ text rest) e ∙ append_assoc log.file line (text rest) ∙ h)

step-Orderly :
    (lines : Queue) (log log' : Log) (st : LogStep log log')
    → Orderly lines log
    → Orderly (noted st lines) log'
step-Orderly lines log _ (LogStep.enqueued line) (calm, h) = (
  calm,
  ap (λ (t : List ℕ). log.file ++ t) (text-append log.queue (line ∷ []))
      ∙ sym (append_assoc log.file (text log.queue) (text (line ∷ [])))
      ∙ ap (λ (t : List ℕ). t ++ text (line ∷ [])) h
      ∙ sym (text-append lines (line ∷ [])),
)
step-Orderly lines log _ (LogStep.taken line rest e f) (calm, h) =
    written-Orderly line rest lines log calm (ap (λ (q : Queue). log.file ++ text q) (sym e) ∙ h)
step-Orderly lines log _ LogStep.asked h = h
step-Orderly lines log _ (LogStep.stopped e f) h = h

-- The logs that come about, with the lines enqueued until then.
pub data Logged (es : List WriteEvent) : Queue → Log → Type 0 where
  opened : Logged es [] (created es)
  goes_on :
      {lines : Queue} {log log' : Log}
      → Logged es lines log
      → (st : LogStep log log') → Logged es (noted st lines) log'

-- However the threads' lines and the writer's steps interleave, the file holds the lines in the
-- order in which they were enqueued, each whole and once, and those that are not in it yet stand in
-- the queue in that order. No write to the file fails; it may be short or interrupted.
pub Logged-Orderly :
    (es : List WriteEvent) (lines : Queue) (log : Log)
    → NoFailure es
    → Logged es lines log
    → log.file ++ text log.queue ≡ text lines
Logged-Orderly es lines log h run = (go lines log run).1
  where
    go : (lines' : Queue) (log' : Log) → Logged es lines' log' → Orderly lines' log'
    go _ _ opened = (h, refl)
    go _ _ (goes_on run' st) = step-Orderly _ _ _ st (go _ _ run')
