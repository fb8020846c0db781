-- ===== src/Wire/Frames.antt =====
-- The frames of source/network_server.c and source/network_client.c: what is sent is received.
use list_server.Base.{
  ℕ, ◌≤◌, ◌<◌, ◌≡◌, ap, ◌∙◌, inl, inr, true, Option, none, some, List, ◌++◌, arith, ◌==◌,
  Bool-cases, Option-cases, length, length-append, take, drop, pos, minus_one, take-append_le,
  drop-append_le, take_all, drop_all,
}
use mathlib.Core.List.{append_assoc}
use list_server.Sys.{
  Sys, NeverFails, Steady, malloc, free, malloc-cases, malloc-NeverFails, free_lem,
}
use list_server.Message.{MessageT}
use list_server.Wire.{
  Sock, Frame, message, broken, htons, ntohs, write_all, read_all, receive_frame, send_frame,
  network_send, network_receive,
}
use list_server.Wire.Reads.{stream, read_all-Got}
use list_server.Wire.Writes.{NoFailure, write_all_full}

-- The bytes of a message on the wire.
abbrev pub frame : List ℕ → List ℕ
frame body = htons (length body) ++ body

buffer-Steady : (s : Sys) → NeverFails s → Steady s (free (malloc s).1).1
buffer-Steady s ok =
    let given = malloc-NeverFails s ok in
    let gone = free_lem (malloc s).1 in ground (arith, given, gone, malloc-cases s)

pub send_frame_lem :
    (buf : List ℕ) (s : Sys) (k : Sock)
    → NoFailure k.writes
    → (k' : Sock) × (send_frame buf (s, k) ≡ some (true, ((free s).1, k')))
      × (k'.output ≡ k.output ++ frame buf)
      × (k'.input ≡ k.input)
      × NoFailure k'.writes
unfolding send_frame
send_frame_lem buf s k h =
    let header = htons (length buf) in
    let one = write_all_full header k h in
    let j = (write_all header k).1 in
    let two = write_all_full buf j one.3 in
    (
      (write_all buf j).1,
      ground (arith, one, two),
      two.1 ∙ ap (λ (t : List ℕ). t ++ buf) one.1 ∙ append_assoc k.output header buf,
      two.2 ∙ one.2,
      two.3,
    )

-- A packed message that fits the 16 bits of the length.
abbrev pub IsSendable : List ℕ → Type 0
IsSendable body = (0 < length body) × (length body ≤ 0xFFFF)

module _ (pack : MessageT → List ℕ) where
  -- `network_send` of a message that fits sends exactly its frame and returns 0, however short the
  -- writes are; its buffer is freed.
  pub network_send_lem :
      (m : MessageT) (s : Sys) (k : Sock)
      → IsSendable (pack m)
      → NeverFails s
      → NoFailure k.writes
      → (s' : Sys) × (k' : Sock) × (network_send pack m (s, k) ≡ some (pos 0, (s', k')))
        × (k'.output ≡ k.output ++ frame (pack m))
        × (k'.input ≡ k.input)
        × (s'.live ≡ s.live)
        × NoFailure k'.writes
        × Steady s s'
  unfolding network_send
  network_send_lem m s k (some_bytes, fits) ok h =
      let t = (malloc s).1 in
      let given = malloc-NeverFails s ok in
      let (k', e, o, i, w) = send_frame_lem (pack m) t k h in
      (
        (free t).1,
        k',
        ground (arith, given, e),
        o,
        i,
        ground (arith, given, free_lem t),
        w,
        buffer-Steady s ok,
      )

  -- A message that is empty or longer than 65535 bytes is refused before anything is sent.
  pub network_send_refused :
      (m : MessageT) (w : Sys × Sock)
      → ¬ IsSendable (pack m)
      → network_send pack m w ≡ some (minus_one, w)
  unfolding network_send
  network_send_refused m w h = elim (Bool-cases (length (pack m) == 0)) [
    | inl empty ↦ ground arith
    | inr more ↦
        ground (arith, λ (p : 0 < length (pack m)). λ (q : length (pack m) ≤ 0xFFFF). h (p, q))
  ]

-- What reading `len` bytes of a stream that begins with the bytes `buf` of that length leaves.
abbrev Took : ℕ → List ℕ → List ℕ → Sock → Sock → Type 0
Took len buf rest k j =
    (read_all len k ≡ some (some buf, j))
    × (stream j.input ≡ rest)
    × (j.output ≡ k.output)
    × (j.writes ≡ k.writes)

read_all-Took :
    (buf rest : List ℕ) (k : Sock)
    → stream k.input ≡ buf ++ rest
    → (j : Sock) × Took (length buf) buf rest k j
read_all-Took buf rest k h =
    let n = length buf in
    let (j, e, i, o, w) = read_all-Got n k (rw h (omega (arith, length-append buf rest))) in
    let front : take n (stream k.input) ≡ buf =
      ap (take n) h ∙ take-append_le n buf rest (omega arith) ∙ take_all n buf (omega arith) in
    let behind : drop n (stream k.input) ≡ rest =
      ap (drop n) h
      ∙ drop-append_le n buf rest (omega arith)
      ∙ ap (λ (t : List ℕ). t ++ rest) (drop_all n buf (omega arith)) in
    (j, (e ∙ ap (λ (t : List ℕ). some (some t, j)) front, i ∙ behind, o, w))

-- The length of a frame is read as it was written.
ntohs-htons : (len : ℕ) → len ≤ 0xFFFF → ntohs (htons len) ≡ len
unfolding ntohs
ntohs-htons len h = omega arith

-- The steps of `receive_frame`, where the length and the message are read.
receive_frame_steps :
    (unpack : List ℕ → Option MessageT) (body header : List ℕ) (s : Sys) (k j l : Sock)
    → read_all 2 k ≡ some (some header, j)
    → ntohs header ≡ length body
    → 0 < length body
    → (malloc s).0 ≡ true
    → read_all (length body) j ≡ some (some body, l)
    → receive_frame unpack (s, k)
      ≡ some (elim (unpack body) [ none ↦ broken | some m ↦ message m ], ((free (malloc s).1).1, l))
unfolding receive_frame
receive_frame_steps unpack body header s k j l e n p g f = ground (arith, e, n, g, f)

module _ (unpack : List ℕ → Option MessageT) where
  -- What a frame that has arrived comes to.
  abbrev pub arrived : List ℕ → Frame
  arrived body = elim (unpack body) [ none ↦ broken | some m ↦ message m ]

  pub receive_frame_lem :
      (body rest : List ℕ) (s : Sys) (k : Sock)
      → IsSendable body
      → NeverFails s
      → stream k.input ≡ frame body ++ rest
      → (s' : Sys) × (k' : Sock) × (receive_frame unpack (s, k) ≡ some (arrived body, (s', k')))
        × (stream k'.input ≡ rest)
        × (k'.output ≡ k.output)
        × (s'.live ≡ s.live)
        × (k'.writes ≡ k.writes)
        × Steady s s'
  receive_frame_lem body rest s k (p, fits) ok h =
      let len = length body in
      let given = malloc-NeverFails s ok in
      let t = (malloc s).1 in
      let (j, (e, i, o, w)) =
        read_all-Took (htons len) (body ++ rest) k (h ∙ append_assoc (htons len) body rest) in
      let (l, (f, i', o', w')) = read_all-Took body rest j i in
      (
        (free t).1,
        l,
        receive_frame_steps unpack body (htons len) s k j l e (ntohs-htons len fits) p given.0 f,
        i',
        o' ∙ o,
        ground (arith, given, free_lem t),
        w' ∙ w,
        buffer-Steady s ok,
      )

  -- On a stream that begins with the frame of a message's bytes, `network_receive` gives what
  -- unpacking those bytes gives, takes exactly the frame, sends nothing and frees its buffer. The
  -- bytes are at most 65535 and at least one; no allocation fails.
  pub network_receive_lem :
      (body rest : List ℕ) (s : Sys) (k : Sock)
      → IsSendable body
      → NeverFails s
      → stream k.input ≡ frame body ++ rest
      → (s' : Sys) × (k' : Sock) × (network_receive unpack (s, k) ≡ some (unpack body, (s', k')))
        × (stream k'.input ≡ rest)
        × (k'.output ≡ k.output)
        × (s'.live ≡ s.live)
        × (k'.writes ≡ k.writes)
        × Steady s s'
  unfolding network_receive
  network_receive_lem body rest s k p ok h =
      let (s', k', e, i, o, l, w, y) = receive_frame_lem body rest s k p ok h in
      (
        s',
        k',
        elim (Option-cases (unpack body)) [
          | inl none_there ↦ ground (arith, e, none_there)
          | inr (m, there) ↦ ground (arith, e, there)
        ],
        i,
        o,
        l,
        w,
        y,
      )
