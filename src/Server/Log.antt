-- ===== src/Server/Log.antt =====
-- The server's log in source/network_server.c: the line that `write_in_server_log` makes of an
-- event, the queue between the threads of the clients and the writer, and the writer's steps.
-- `snprintf` is the parameter `render`.
pub mod Progress
pub mod Closing
pub mod Order
pub mod Lines
use list_server.Base.{
  ℕ, ◌≡◌, Bool, true, false, ◌||◌, not, Option, none, some, List, [], ◌∷◌, ◌++◌, ◌==◌,
  if◌then◌else◌, CStr, take, drop, ℤ, pos,
}
use list_server.Sys.{Sys, M, pure, ◌>>=◌, ◌>>◌, malloc, free}
use list_server.Message.{
  PbData, MessageT, op_add, op_get, op_del, op_size, op_getmodels, op_getlistbytear, op_order,
  op_error, op_busy, op_ready, ct_data, ct_marca, ct_year, ct_model, ct_result, ct_list, ct_none,
}
use list_server.Stub.{Run, ret, crash}
use list_server.Wire.{WriteEvent, took, interrupted, failed}

-- enum event_type
pub data EventType : Type 0 where
  connect request close : EventType

-- What a line is made of, behind the time and the address: the event, and of a request the
-- opcode's and the content type's name, each `none` for "UNKNOWN".
pub data Entry : Type 0 where
  event_line : EventType → Entry
  plain_line : EventType → Option ℕ → Option ℕ → Entry
  text_line : EventType → Option ℕ → Option ℕ → CStr → Entry
  number_line : EventType → Option ℕ → Option ℕ → ℤ → Entry
  car_line : EventType → Option ℕ → Option ℕ → CStr → ℤ → ℕ → ℕ → ℕ → Entry

-- The opcodes and the content types that have a name; the name stands for itself.
unfoldable pub op_str : ℕ → Option ℕ
op_str op =
    if op == op_add
      || op == op_get
      || op == op_del
      || op == op_size
      || op == op_getmodels
      || op == op_getlistbytear
      || op == op_order
      || op == op_error
      || op == op_busy
      || op == op_ready
    then some op
    else none

unfoldable pub ct_str : ℕ → Option ℕ
ct_str ct =
    if ct == ct_data
      || ct == ct_marca
      || ct == ct_year
      || ct == ct_model
      || ct == ct_result
      || ct == ct_list
      || ct == ct_none
    then some ct
    else none

-- "-"
abbrev pub no_text : CStr
no_text = b'-' ∷ []

-- The line of an OP_ADD.
unfoldable pub added_line : EventType → MessageT → Option PbData → Entry
added_line e msg none = car_line e (op_str msg.opcode) (ct_str msg.c_type) no_text (pos 0) 0 0 0
added_line e msg (some d) =
    car_line e (op_str msg.opcode) (ct_str msg.c_type)
      (elim d.modelo [ none ↦ no_text | some modelo ↦ modelo ]) d.ano d.preco d.marca d.combustivel

-- The line of an OP_DEL: `*(msg->models)` is read whether or not there are models.
unfoldable pub deleted_line : EventType → MessageT → Option (List CStr) → Run (Option Entry)
deleted_line e msg none = crash
deleted_line e msg (some []) = crash
deleted_line e msg (some (m ∷ ms)) =
    ret (some (text_line e (op_str msg.opcode) (ct_str msg.c_type) m))

-- `final_line`, `none` for NULL.
unfoldable pub entry_of : EventType → Option MessageT → Run (Option Entry)
entry_of e none = ret (some (event_line e))
entry_of e (some msg) =
    if msg.opcode == op_add
    then ret (some (added_line e msg msg.data_))
    else if msg.opcode == op_del
    then deleted_line e msg msg.models
    else if msg.opcode == op_get || msg.opcode == op_getlistbytear
    then ret (some (number_line e (op_str msg.opcode) (ct_str msg.c_type) msg.result))
    else if msg.opcode == op_getmodels || msg.opcode == op_size
    then ret (some (plain_line e (op_str msg.opcode) (ct_str msg.c_type)))
    else ret none

-- The nodes from `log_head` on, each with its `str`; a node that is made stands last.
abbrev pub Queue : Type 0
Queue = List (Option CStr)

-- A node for the line, or the line freed if there is no memory for the node.
unfoldable pub enqueue : Option CStr → Queue → M Queue
enqueue line queue = do
  given ← malloc
  if given
      then pure (queue ++ line ∷ [])
      else elim line [ none ↦ pure queue | some _ ↦ do free; pure queue ]

module _ (render : ℕ → CStr → Entry → CStr) where
  -- `now` is `gettimeofday` (`none`: it fails), `addrbuf` the peer's address.
  unfoldable pub write_in_server_log :
      Option ℕ → CStr → EventType → Option MessageT → Queue → M (Run Queue)
  write_in_server_log none addrbuf e msg queue = pure (ret queue)
  write_in_server_log (some ts) addrbuf e msg queue = elim (entry_of e msg) [
    | crash ↦ pure crash
    | ret none ↦ do queue' ← enqueue none queue; pure (ret queue')
    | ret (some entry) ↦ do
      given ← malloc
      if not given
          then pure (ret queue)
          else do queue' ← enqueue (some (render ts addrbuf entry)) queue; pure (ret queue')
  ]

-- The writer's loop on one line: what is left of the script, and the file.
unfoldable pub write_line : List WriteEvent → CStr → List ℕ → List WriteEvent × List ℕ
write_line es [] file = (es, file)
write_line [] (b ∷ bs) file = ([], file ++ b ∷ bs)
write_line (took n ∷ es) (b ∷ bs) file = write_line es (drop n bs) (file ++ b ∷ take n bs)
write_line (WriteEvent.interrupted ∷ es) (b ∷ bs) file = write_line es (b ∷ bs) file
write_line (WriteEvent.failed ∷ es) (b ∷ bs) file = (es, file)

-- The shared state of the log.
pub record Log : Type 0 where
  pub queue : Queue
  pub writer_running : Bool
  pub writes : List WriteEvent
  pub file : List ℕ
  pub ended : Bool

-- `create_server_log`, where `es` is what the writes will do.
abbrev pub created : List WriteEvent → Log
created es = record { queue = []; writer_running = true; writes = es; file = []; ended = false }

-- The writer with the node that it took.
unfoldable pub written : Option CStr → Log → Log
written none log = log
written (some line) log =
    let out = write_line log.writes line log.file in record log { writes = out.0; file = out.1 }

-- What happens to the log, each step under lock_log but for the writing itself, which only the
-- writer does: a thread enqueues a line, the writer takes one, `close_server_log` asks it to stop,
-- it stops when there is nothing left.
pub data LogStep (log : Log) : Log → Type 0 where
  enqueued : (line : Option CStr) → LogStep log (record log { queue = log.queue ++ line ∷ [] })
  taken :
      (line : Option CStr) (rest : Queue)
      → log.queue ≡ line ∷ rest
      → log.ended ≡ false
      → LogStep log (written line (record log { queue = rest }))
  asked : LogStep log (record log { writer_running = false })
  stopped : log.queue ≡ [] → log.writer_running ≡ false → LogStep log (record log { ended = true })
