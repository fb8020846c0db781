-- ===== src/Tests/Connection.antt =====
-- The theorem on a connection at sample values.
use list_server.Base.{
  ℕ, ◌+◌, ◌≡◌, refl, arith, false, Option, some, none, List, [], ◌∷◌, ◌==◌, if◌then◌else◌, pos, map,
}
use list_server.Sys.{Sys, State, pure}
use list_server.Car.{ano_atual}
use list_server.CarList.Edit.{list_of}
use list_server.CarList.Query.{models_of}
use list_server.Message.{MessageT, op_size}
use list_server.Spec.{Request, Answer, Serves}
use list_server.Stub.{RList, size_request, models_request}
use list_server.Wire.{ReadEvent, WriteEvent, Sock, chunk, took}
use list_server.Wire.Reads.{stream}
use list_server.Wire.Frames.{IsSendable}
use list_server.Server.Session.{over, next, frames, replies, serve_on}
use list_server.Stub.Requests.{request, reply_to}
use list_server.Server.Session.Calls.{calls, calls-Session}
use list_server.Tests.{calm, two_cars}

-- Messages packed to their opcode alone; two that come back.
abbrev pack : MessageT → List ℕ
pack m = m.opcode ∷ []

abbrev unpack : List ℕ → Option MessageT
unpack (op ∷ []) = some (if op == op_size then size_request else models_request)
unpack _ = none

-- The two answers come back also.
abbrev unpack_all : List ℕ → Option MessageT
unpack_all (op ∷ []) =
    if op == 41
    then some (reply_to size_request (Answer.counted 2))
    else if op == 51
    then some (reply_to models_request (Answer.named (models_of two_cars)))
    else unpack (op ∷ [])
unpack_all _ = none

-- A client that asks for the number of cars, then for the models, in two pieces.
abbrev asker : Sock
asker = record {
  input = chunk 0 (1 ∷ 40 ∷ 0 ∷ []) ∷ ReadEvent.interrupted ∷ chunk 1 (50 ∷ []) ∷ [];
  writes = took 1 ∷ WriteEvent.interrupted ∷ [];
  output = [];
  eintr = false;
}

abbrev quiet_log : MessageT → State (Sys × Sock) (Unit {0})
quiet_log m = pure tt

abbrev nobody : RList → MessageT → State Sock (Option MessageT)
nobody r m = pure none

one_byte : (op : ℕ) → IsSendable (op ∷ [])
one_byte op = (omega arith, omega arith)

abbrev asked : List Request
asked = Request.count ∷ Request.names ∷ []

abbrev told : List Answer
told = Answer.counted 2 ∷ Answer.named (models_of two_cars) ∷ []

-- The client of those requests, with the answers that arrive.
abbrev hearer : Sock
hearer = record {
  input = chunk 0 (1 ∷ 41 ∷ 0 ∷ 1 ∷ []) ∷ chunk 51 [] ∷ [];
  writes = took 0 ∷ [];
  output = [];
  eintr = false;
}

abbrev link : RList
link = record { server_address = b'h' ∷ []; server_port = pos 9000; sockfd = pos 4 }

calls-Session_example :
    (d t : Sys) × (i l : Sock) × (calls pack unpack_all link (map request asked) (calm, hearer)
      ≡ some (map some (replies asked told), (d, i)))
    × (serve_on pack unpack_all quiet_log nobody (2 + 7) (some (list_of two_cars)) (calm, asker)
        ≡ serve_on pack unpack_all quiet_log nobody 7 (some (list_of two_cars)) (t, l))
    × (i.output ≡ frames pack (map request asked))
    × (l.output ≡ frames pack (replies asked told))
    × (stream i.input ≡ [])
    × (stream l.input ≡ [])
unfolding size_request models_request
calls-Session_example =
    calls-Session pack unpack_all quiet_log nobody (ano_atual calm) two_cars two_cars asked told []
      [] 7 link 4 calm calm hearer asker (λ m w ok. ((ok, refl), refl))
      (next Serves.size (next Serves.models over))
      ((tt, one_byte 40, refl), ((tt, one_byte 50, refl), tt)) (one_byte 41, (one_byte 51, tt))
      (refl, (refl, tt)) refl refl refl refl tt tt refl refl
