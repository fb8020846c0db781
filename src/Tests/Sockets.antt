-- ===== src/Tests/Sockets.antt =====
-- The theorems on source/message-private.c and on the frames at sample values.
use list_server.Base.{
  ℕ, sym, ap, ◌≡◌, refl, arith, false, Option, some, none, List, [], ◌∷◌, ◌++◌, pos,
}
use list_server.Sys.{Sys, malloc, take_outcome}
use list_server.Message.{MessageT, message_init, op_ready}
use list_server.Wire.{
  ReadEvent, WriteEvent, chunk, took, Sock, write_all, read_loop, network_send, send_frame,
  write_loop, network_receive,
}
use list_server.Wire.Reads.{stream, read_all_hangs}
use list_server.Wire.Writes.{Sent, write_all-Sent}
use list_server.Wire.Exchange.{sent_by, network_receive-network_send}
use list_server.Tests.{calm}

-- A socket that takes two bytes, is interrupted, and whose peer sends two frames of one byte.
abbrev busy_peer : Sock
busy_peer = record {
  input = chunk 0 [] ∷ ReadEvent.interrupted ∷ chunk 1 (101 ∷ 0 ∷ []) ∷ chunk 1 (100 ∷ []) ∷ [];
  writes = took 1 ∷ WriteEvent.interrupted ∷ [];
  output = [];
  eintr = false;
}

-- A socket whose peer closes behind an interruption, and one whose peer closes at once.
abbrev interrupted_peer : Sock
interrupted_peer = record busy_peer { input = chunk 0 [] ∷ ReadEvent.interrupted ∷ [] }

abbrev gone_peer : Sock
gone_peer = record busy_peer { input = chunk 0 [] ∷ [] }

abbrev bytes : List ℕ
bytes = 1 ∷ 2 ∷ 3 ∷ []

-- Messages of an opcode alone, packed to that byte.
abbrev opcode_alone : ℕ → MessageT
opcode_alone op = record message_init { opcode = op }

abbrev pack_opcode : MessageT → List ℕ
pack_opcode m = m.opcode ∷ []

abbrev unpack_opcode : List ℕ → Option MessageT
unpack_opcode (op ∷ []) = some (opcode_alone op)
unpack_opcode _ = none

write_all-Sent_example : Sent busy_peer bytes (write_all bytes busy_peer)
write_all-Sent_example = write_all-Sent bytes busy_peer

read_all_hangs_example : read_loop 1000 2 [] interrupted_peer.input interrupted_peer ≡ none
read_all_hangs_example = read_all_hangs 1000 2 interrupted_peer refl (omega arith)

ready_sent :
    sent_by (network_send pack_opcode (opcode_alone op_ready) (calm, busy_peer)) ≡ 0 ∷ 1 ∷ 101 ∷ []
unfolding network_send send_frame write_all write_loop malloc take_outcome
ready_sent = refl

network_receive-network_send_example :
    let m = opcode_alone op_ready in
    (w : Sys × Sock) × (v : Sys × Sock) × (network_send pack_opcode m (calm, busy_peer)
      ≡ some (pos 0, w))
    × (w.0.live ≡ 10)
    × (network_receive unpack_opcode (calm, busy_peer) ≡ some (some m, v))
    × (stream v.1.input ≡ 0 ∷ 1 ∷ 100 ∷ [])
    × (v.0.live ≡ 10)
network_receive-network_send_example =
    network_receive-network_send pack_opcode unpack_opcode (opcode_alone op_ready)
      (0 ∷ 1 ∷ 100 ∷ []) calm calm busy_peer busy_peer refl (omega arith, omega arith) refl refl tt
      refl (sym (ap (λ (t : List ℕ). t ++ 0 ∷ 1 ∷ 100 ∷ []) ready_sent))
