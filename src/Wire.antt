-- ===== src/Wire.antt =====
-- source/message-private.c, `network_receive` and `network_send` of source/network_server.c, and
-- source/network_client.c: frames of a length in network byte order and a packed message. The
-- protobuf-c library is the section's `pack` and `unpack`; the system calls are scripts of events.
pub mod Short
pub mod Writes
pub mod Reads
pub mod Frames
pub mod Exchange
pub mod Dialing
use list_server.Base.{
  ℕ, zero, suc, ◌+◌, ◌-◌, ◌*◌, ◌/◌, ◌%◌, Bool, true, false, not, ◌||◌, Option, none, some, List, [],
  ◌∷◌, ◌++◌, ◌==◌, ltb, if◌then◌else◌, length, take, drop, ℤ, pos, minus_one, ltb_ℤ,
}
use list_server.Sys.{Sys, malloc, free}
use list_server.Message.{MessageT, op_busy, op_ready}
use list_server.Stub.{RList}

-- What the next `read` finds: bytes, at least one; an interruption (-1, EINTR); another error (-1).
-- Behind the last event stands the end of the stream: 0, with errno as it was.
pub data ReadEvent : Type 0 where
  chunk : ℕ → List ℕ → ReadEvent
  interrupted failed : ReadEvent

-- What the next `write` does: it takes `k + 1` bytes, or all if they are fewer; or it fails. Behind
-- the last event every `write` takes all.
pub data WriteEvent : Type 0 where
  took : ℕ → WriteEvent
  interrupted failed : WriteEvent

-- A connected socket: the events to come, the bytes sent so far, and whether errno is EINTR.
pub record Sock : Type 0 where
  pub input : List ReadEvent
  pub writes : List WriteEvent
  pub output : List ℕ
  pub eintr : Bool

-- The loop of `write_all` over what is left to write; false for the return of -1.
unfoldable pub write_loop : List WriteEvent → List ℕ → Sock → Bool × Sock
write_loop [] buf k = (true, record k { writes = []; output = k.output ++ buf })
write_loop (e ∷ es) [] k = (true, record k { writes = e ∷ es })
write_loop (took n ∷ es) (b ∷ bs) k =
    write_loop es (drop n bs) (record k { output = k.output ++ b ∷ take n bs })
write_loop (WriteEvent.interrupted ∷ es) (b ∷ bs) k =
    write_loop es (b ∷ bs) (record k { eintr = true })
write_loop (WriteEvent.failed ∷ es) (b ∷ bs) k = (false, record k { writes = es; eintr = false })

unfoldable pub write_all : List ℕ → Sock → Bool × Sock
write_all buf k = write_loop k.writes buf k

-- What is left of a chunk goes back in front of the events.
unfoldable pub put_back : List ℕ → List ReadEvent → List ReadEvent
put_back [] es = es
put_back (b ∷ bs) es = chunk b bs ∷ es

-- The loop of `read_all` with `left` bytes to go and `got` read: the bytes, or `none` for -1. It is
-- `none` outside when the fuel runs out.
unfoldable pub read_loop : ℕ → ℕ → List ℕ → List ReadEvent → Sock → Option (Option (List ℕ) × Sock)
read_loop zero left got es k = none
read_loop (suc fuel) zero got es k = some (some got, record k { input = es })
read_loop (suc fuel) (suc left) got [] k =
    let again = read_loop fuel (suc left) got [] k in
    if k.eintr then again else some (none, record k { input = [] })
read_loop (suc fuel) (suc left) got (chunk b bs ∷ es) k =
    read_loop fuel (left - length bs) (got ++ b ∷ take left bs) (put_back (drop left bs) es) k
read_loop (suc fuel) (suc left) got (ReadEvent.interrupted ∷ es) k =
    read_loop fuel (suc left) got es (record k { eintr = true })
read_loop (suc fuel) (suc left) got (ReadEvent.failed ∷ es) k =
    some (none, record k { input = es; eintr = false })

-- One round for each event, one for the end of the stream and one for the loop's last test.
unfoldable pub read_all : ℕ → Sock → Option (Option (List ℕ) × Sock)
read_all len k = read_loop (length k.input + 2) len [] k.input k

-- A process with a socket, in code that may not end: `none`.
abbrev pub Net {ℓ} : Type ℓ → Type ℓ
Net A = Sys × Sock → Option (A × (Sys × Sock))

abbrev pub done {ℓ} : {A : Type ℓ} → A → Net A
done a w = some (a, w)

infixl 5 ◌>>=◌ ◌>>◌
abbrev pub ◌>>=◌ {ℓ κ} : {A : Type ℓ} {B : Type κ} → Net A → (A → Net B) → Net B
◌>>=◌ m f w = elim (m w) [ none ↦ none | some (a, w') ↦ f a w' ]

abbrev pub ◌>>◌ {ℓ} : {B : Type ℓ} → Net (Unit {0}) → Net B → Net B
m >> k = m >>= λ _. k

abbrev pub alloc : Net Bool
alloc (s, k) = some ((malloc s).0, ((malloc s).1, k))

abbrev pub release_buf : Net (Unit {0})
release_buf (s, k) = some (tt, ((free s).1, k))

abbrev pub send_bytes : List ℕ → Net Bool
send_bytes buf (s, k) = some ((write_all buf k).0, (s, (write_all buf k).1))

abbrev pub read_bytes : ℕ → Net (Option (List ℕ))
read_bytes len (s, k) = elim (read_all len k) [ none ↦ none | some (r, k') ↦ some (r, (s, k')) ]

-- `htons` and `ntohs` of a length, as the bytes that travel.
abbrev pub htons : ℕ → List ℕ
htons len = len / 256 % 256 ∷ len % 256 ∷ []

unfoldable pub ntohs : List ℕ → ℕ
ntohs (hi ∷ lo ∷ []) = hi * 256 + lo
ntohs _ = 0

-- What reading one frame comes to: a message, an error, or no memory for the body.
pub data Frame : Type 0 where
  message : MessageT → Frame
  broken no_buffer : Frame

-- What `socket`, `inet_pton` and `connect` come to: an error, or the descriptor.
pub data Dial : Type 0 where
  refused : Dial
  connected : ℕ → Dial

-- The return code of `network_connect`, the structure afterwards, and whether errno is EBUSY.
pub record Connected : Type 0 where
  pub code : ℤ
  pub rlist : Option RList
  pub ebusy : Bool

abbrev pub outcome : ℤ → RList → Bool → Connected
outcome c r b = record { code = c; rlist = some r; ebusy = b }

-- A caller that takes every failure for NULL.
abbrev pub message_of : Frame → Option MessageT
message_of (message m) = some m
message_of _ = none

-- The length, then the message; false if either cannot be written.
unfoldable pub send_frame : List ℕ → Net Bool
send_frame buf = do
  headed ← send_bytes (htons (length buf))
  if not headed
      then (do release_buf; done false)
      else do sent ← send_bytes buf; release_buf; done sent

-- The first message of the server: OP_READY is 0, OP_BUSY is EBUSY and closes the socket, anything
-- else is -1; but 0 where there is no memory to read it.
unfoldable pub greet : RList → Frame → Connected
greet r no_buffer = outcome (pos 0) r false
greet r broken = outcome minus_one r false
greet r (message m) =
    if m.opcode == op_busy
    then outcome minus_one (record r { sockfd = minus_one }) true
    else if m.opcode == op_ready
    then outcome (pos 0) r false
    else outcome minus_one r false

-- `pack` is `message_t__pack`, `unpack` is `message_t__unpack`.
module _ (pack : MessageT → List ℕ) where
  unfoldable pub network_send : MessageT → Net ℤ
  network_send msg =
      let len = length (pack msg) in
      if len == 0 || ltb 0xFFFF len then done minus_one else do
        given ← alloc
        if not given
            then done minus_one
            else do sent ← send_frame (pack msg); done (if sent then pos 0 else minus_one)

module _ (unpack : List ℕ → Option MessageT) where
  abbrev unpacked : List ℕ → Frame
  unpacked bytes = elim (unpack bytes) [ none ↦ broken | some m ↦ message m ]

  -- The steps that `network_receive`, `network_send_receive` and `network_connect` share: the length,
  -- a buffer, the packed message.
  unfoldable pub receive_frame : Net Frame
  receive_frame = do
    header ← read_bytes 2
    elim header [
      | none ↦ done broken
      | some bytes ↦ if ntohs bytes == 0 then done broken else do
        given ← alloc
        if not given then done no_buffer else do
          body ← read_bytes (ntohs bytes)
          release_buf
          elim body [ none ↦ done broken | some b ↦ done (unpacked b) ]
    ]

  unfoldable pub network_receive : Net (Option MessageT)
  network_receive = do frame ← receive_frame; done (message_of frame)

  unfoldable pub network_connect : Option RList → Dial → Net Connected
  network_connect none dial = done (record { code = minus_one; rlist = none; ebusy = false })
  network_connect (some r) refused = done (outcome minus_one r false)
  network_connect (some r) (connected fd) = do
    frame ← receive_frame
    done (greet (record r { sockfd = pos fd }) frame)

module _ (pack : MessageT → List ℕ) (unpack : List ℕ → Option MessageT) where
  -- The size is tested after the buffer is allocated and filled.
  unfoldable pub network_send_receive : Option RList → Option MessageT → Net (Option MessageT)
  network_send_receive none msg = done none
  network_send_receive (some r) none = done none
  network_send_receive (some r) (some msg) =
      let len = length (pack msg) in
      if ltb_ℤ r.sockfd (pos 0) then done none else if len == 0 then done none else do
        given ← alloc
        if not given then done none else if ltb 0xFFFF len then (do release_buf; done none) else do
          sent ← send_frame (pack msg)
          if not sent then done none else do frame ← receive_frame unpack; done (message_of frame)
