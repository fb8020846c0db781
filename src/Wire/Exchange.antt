-- ===== src/Wire/Exchange.antt =====
-- Both ends of a connection: `network_connect` and `network_send_receive` of
-- source/network_client.c, and what `network_send` and `network_receive` of source/network_server.c
-- make of each other.
use list_server.Base.{
  ℕ, ◌≡◌, sym, subst, ap, ◌∙◌, ◌⊎◌, inl, inr, true, false, Option, none, some, List, [], ◌++◌,
  arith, ◌==◌, ℤ, pos, minus_one, if◌then◌else◌,
}
use list_server.Sys.{Sys, NeverFails, malloc, free, malloc-NeverFails, free_lem}
use list_server.Message.{MessageT, op_busy, op_ready}
use list_server.Stub.{RList}
use list_server.Wire.{
  Sock, WriteEvent, connected, outcome, greet, network_send, network_receive, network_send_receive,
  network_connect,
}
use list_server.Wire.Reads.{stream}
use list_server.Wire.Writes.{NoFailure}
use list_server.Wire.Frames.{
  frame, IsSendable, send_frame_lem, network_send_lem, receive_frame_lem, network_receive_lem,
}

module _ (unpack : List ℕ → Option MessageT) where
  -- The client that a server greets with OP_READY is connected: 0, and the descriptor is kept.
  -- Greeted with OP_BUSY it gets -1 and EBUSY, and the descriptor is gone. The greeting's
  -- bytes, between 1 and 65535, unpack to it, the stream begins with their frame, in any chunks, and
  -- no allocation fails.
  network_connect_lem :
      (body rest : List ℕ) (m : MessageT) (r : RList) (fd : ℕ) (s : Sys) (k : Sock)
      → IsSendable body
      → NeverFails s
      → stream k.input ≡ frame body ++ rest
      → unpack body ≡ some m
      → (m.opcode ≡ op_ready) ⊎ (m.opcode ≡ op_busy)
      → (w : Sys × Sock) × (network_connect unpack (some r) (connected fd) (s, k)
          ≡ some (
            if m.opcode == op_ready
                then outcome (pos 0) (record r { sockfd = pos fd }) false
                else outcome minus_one (record r { sockfd = minus_one }) true,
            w,
          ))
        × (stream w.1.input ≡ rest)
        × (w.0.live ≡ s.live)
  unfolding network_connect greet
  network_connect_lem body rest m r fd s k p ok h u c =
      let (s', k', e, i, o, l, _, _) = receive_frame_lem unpack body rest s k p ok h in
      (
        (s', k'),
        elim c [ inl ready ↦ ground (arith, e, u, ready) | inr busy ↦ ground (arith, e, u, busy) ],
        i,
        l,
      )

-- The bytes on the socket after a call that ended.
abbrev pub sent_by : Option (ℤ × (Sys × Sock)) → List ℕ
sent_by none = []
sent_by (some (code, (s, k))) = k.output

module _ (pack : MessageT → List ℕ) (unpack : List ℕ → Option MessageT) where
  -- What one side sends by `network_send` the other side gets by `network_receive`: the same
  -- message, whatever follows it in the stream, and both free their buffers. Unpacking undoes
  -- packing for this message, its packed form has between 1 and 65535 bytes, no write fails, no
  -- allocation fails, and the bytes that arrive begin with those that were sent.
  pub network_receive-network_send :
      (m : MessageT) (rest : List ℕ) (s t : Sys) (k l : Sock)
      → unpack (pack m) ≡ some m
      → IsSendable (pack m)
      → NeverFails s
      → NeverFails t
      → NoFailure k.writes
      → k.output ≡ []
      → stream l.input ≡ sent_by (network_send pack m (s, k)) ++ rest
      → (w v : Sys × Sock) × (network_send pack m (s, k) ≡ some (pos 0, w))
        × (w.0.live ≡ s.live)
        × (network_receive unpack (t, l) ≡ some (some m, v))
        × (stream v.1.input ≡ rest)
        × (v.0.live ≡ t.live)
  network_receive-network_send m rest s t k l u fits ok ok' h fresh arrives =
      let (s', k', e, o, _, f, _, _) = network_send_lem pack m s k fits ok h in
      let sent : sent_by (network_send pack m (s, k)) ≡ frame (pack m) =
        ap sent_by e ∙ o ∙ rw fresh in
      let (t', l', e', i, _, f', _, _) =
        network_receive_lem unpack (pack m) rest t l fits ok'
          (arrives ∙ ap (λ (b : List ℕ). b ++ rest) sent) in
      ((s', k'), (t', l'), e, f, e' ∙ ap (λ (a : Option MessageT). some (a, (t', l'))) u, i, f')

  send_frame_live :
      (buf : List ℕ) (s : Sys) (k : Sock) → NeverFails s → NeverFails (free (malloc s).1).1
  send_frame_live buf s k h = ground (arith, malloc-NeverFails s h, free_lem (malloc s).1)

  -- A request of the client and its answer: `network_send_receive` sends exactly the frame of the
  -- request and gives the message whose frame arrives, and frees what it allocates; the allocator
  -- still gives and the connection takes what is written. The packed
  -- request and the answer's bytes have between 1 and 65535 bytes, the answer's unpack to it, the
  -- client is connected, no write and no allocation fails, and the stream begins with the answer's
  -- frame.
  pub network_send_receive_lem :
      (m answer : MessageT) (body rest : List ℕ) (r : RList) (fd : ℕ) (s : Sys) (k : Sock)
      → r.sockfd ≡ pos fd
      → IsSendable (pack m)
      → IsSendable body
      → unpack body ≡ some answer
      → NeverFails s
      → NoFailure k.writes
      → stream k.input ≡ frame body ++ rest
      → (w : Sys × Sock) × (network_send_receive pack unpack (some r) (some m) (s, k)
          ≡ some (some answer, w))
        × (w.1.output ≡ k.output ++ frame (pack m))
        × (stream w.1.input ≡ rest)
        × (w.0.live ≡ s.live)
        × NeverFails w.0
        × NoFailure w.1.writes
  unfolding network_send_receive
  network_send_receive_lem m answer body rest r fd s k c (p, fits) q u ok h arrives =
      let given = malloc-NeverFails s ok in
      let t = (malloc s).1 in
      let (j, e, o, i, flows) = send_frame_lem (pack m) t k h in
      let (s', k', e', i', o', l, w', y') =
        receive_frame_lem unpack body rest (free t).1 j q (send_frame_live (pack m) s k ok)
          (ap stream i ∙ arrives) in
      (
        (s', k'),
        ground (arith, c, given, e, e', u),
        o' ∙ o,
        i',
        ground (arith, l, given, free_lem t),
        y'.0,
        subst (λ (es : List WriteEvent). NoFailure es) (sym w') flows,
      )
