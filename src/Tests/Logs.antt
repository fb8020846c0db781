-- ===== src/Tests/Logs.antt =====
-- The theorems on the server's log at sample values.
use list_server.Base.{◌≡◌, refl, ◌↔◌, ◌⊎◌, true, none, some, List, [], ◌∷◌, ◌++◌, CStr}
use list_server.Message.{MessageT, message_init, op_del}
use list_server.Skel.{first_model}
use list_server.Stub.{crash}
use list_server.Wire.{WriteEvent, took}
use list_server.Server.Log.{EventType, Log, LogStep, created, written, write_in_server_log}
use list_server.Server.Log.Order.{Logged, opened, goes_on, text, Logged-Orderly}
use list_server.Server.Log.Progress.{Steps, Waits, Taken, line_in_time}
use list_server.Server.Log.Closing.{close_server_log, close_server_log_lem}
use list_server.Server.Log.Lines.{write_in_server_log-crash}
use list_server.Tests.{tight}

abbrev first_line : CStr
first_line = b'o' ∷ b'n' ∷ b'e' ∷ []

abbrev second_line : CStr
second_line = b't' ∷ b'w' ∷ b'o' ∷ []

abbrev two_writes : List WriteEvent
two_writes = took 0 ∷ WriteEvent.interrupted ∷ []

-- Two lines enqueued, the first of them taken by the writer.
abbrev busy_log : Log
busy_log = written (some first_line) (record (created two_writes) { queue = some second_line ∷ [] })

busy_log-Logged : Logged two_writes (some first_line ∷ some second_line ∷ []) busy_log
busy_log-Logged =
    goes_on
      (goes_on (goes_on opened (LogStep.enqueued (some first_line)))
        (LogStep.enqueued (some second_line)))
      (LogStep.taken (some first_line) (some second_line ∷ []) refl refl)

Logged-Orderly_example :
    busy_log.file ++ text busy_log.queue ≡ text (some first_line ∷ some second_line ∷ [])
Logged-Orderly_example =
    Logged-Orderly two_writes (some first_line ∷ some second_line ∷ []) busy_log tt busy_log-Logged

abbrev bare_del : MessageT
bare_del = record message_init { opcode = op_del }

write_in_server_log-crash_example :
    ((write_in_server_log
        (λ _ _ _. first_line)
        (some 0)
        []
        EventType.request
        (some bare_del)
        []
        tight).0
      ≡ crash)
    ↔ ((bare_del.opcode ≡ op_del) × (first_model bare_del.models ≡ none))
write_in_server_log-crash_example =
    write_in_server_log-crash (λ _ _ _. first_line) 0 [] EventType.request bare_del [] tight

-- Two lines are queued, and another thread's comes before the writer takes the first.
abbrev both_queued : Log
both_queued = record (created two_writes) { queue = some first_line ∷ some second_line ∷ [] }

abbrev three_queued : Log
three_queued = record both_queued { queue = some first_line ∷ some second_line ∷ none ∷ [] }

line_in_time_example :
    let after =
      written (some first_line) (record three_queued { queue = some second_line ∷ none ∷ [] }) in
    Waits 1 (some first_line ∷ []) (some second_line) [] after
    ⊎ Taken 1 (some first_line ∷ []) (some second_line) both_queued after
line_in_time_example =
    line_in_time
      (Steps.other (LogStep.enqueued none) refl (
        Steps.take (LogStep.taken (some first_line) (some second_line ∷ none ∷ []) refl refl) refl
          Steps.here))
      (some first_line ∷ []) [] (some second_line) refl refl

close_server_log_example :
    let closed = (close_server_log true busy_log).1 in
    (closed.file ≡ text (some first_line ∷ some second_line ∷ []))
    × (closed.queue ≡ [])
    × (closed.ended ≡ true)
unfolding written
close_server_log_example =
    close_server_log_lem two_writes (some first_line ∷ some second_line ∷ []) busy_log true tt
      busy_log-Logged refl
