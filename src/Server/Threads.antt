-- ===== src/Server/Threads.antt =====
-- network_main_loop of source/network_server.c and the threads that it creates, interleaved in any
-- order: who is admitted, what a client is answered, and how the table of clients changes. What a
-- thread does with requests is left to the loop of client_thread.
pub mod Slots
pub mod Invariant
pub mod Admission
use list_server.Base.{
  ℕ, ◌+◌, ◌<◌, ◌≡◌, Bool, true, false, List, [], ◌∷◌, ◌==◌, if◌then◌else◌, ℤ, pos, minus_one,
}
use list_server.Server.Clients.{Client, Table, empty_table, mark_active, mark_inactive, is_full}

-- Where the thread with a number stands, with the socket of its client.
pub data Phase : Type 0 where
  absent : Phase  -- no thread has the number
  starting : ℕ → Phase  -- created, and before it marks its client as active
  serving : ℕ → Phase  -- in the loop of `client_thread`
  leaving : ℕ → Phase  -- the socket is closed, the client not yet marked as inactive

-- Where `network_main_loop` stands.
pub data Acceptor : Type 0 where
  waiting : Acceptor  -- in `accept`
  admitted : ℕ → Acceptor  -- behind the test of `num_clients`
  created : ℕ → Acceptor  -- behind `pthread_create`
  returned : ℤ → Acceptor

-- OP_BUSY or OP_READY
pub data Greeting : Type 0 where
  busy ready : Greeting

-- `accepted` counts the connections, `answers` holds what they were sent, the last one first.
pub record System : Type 0 where
  pub table : Table
  pub phase : ℕ → Phase
  pub acceptor : Acceptor
  pub server_shutdown : Bool
  pub accepted : ℕ
  pub answers : List Greeting

abbrev pub put {ℓ} : {A : Type ℓ} → (ℕ → A) → ℕ → A → ℕ → A
put f i a j = if i == j then a else f j

abbrev pub client_of : ℕ → ℕ → Client
client_of socket tid = record { client_socket = socket; tid = tid }

abbrev pub move : System → ℕ → Phase → System
move s tid p = record s { phase = put s.phase tid p }

-- One step of the loop or of a thread; each part between two changes of what is shared. Thread
-- numbers are below `n`, and `pthread_create` gives one that no thread has.
pub data Step (n : ℕ) (s : System) : System → Type 0 where
  admit :
      (socket : ℕ)
      → s.acceptor ≡ waiting
      → s.server_shutdown ≡ false
      → is_full s.table ≡ false
      → Step n s (record s { acceptor = admitted socket; accepted = s.accepted + 1 })
  refuse :
      s.acceptor ≡ waiting
      → s.server_shutdown ≡ false
      → is_full s.table ≡ true
      → Step n s (record s { accepted = s.accepted + 1; answers = busy ∷ s.answers })
  no_memory :
      {socket : ℕ}
      → s.acceptor ≡ admitted socket
      → Step n s (record s { acceptor = waiting; answers = busy ∷ s.answers })
  no_thread :
      {socket : ℕ}
      → s.acceptor ≡ admitted socket
      → Step n s (record s { acceptor = waiting; answers = busy ∷ s.answers })
  create :
      {socket : ℕ} (tid : ℕ)
      → tid < n
      → s.acceptor ≡ admitted socket
      → s.phase tid ≡ absent
      → Step n s (record (move s tid (starting socket)) { acceptor = created socket })
  greet :
      {socket : ℕ}
      → s.acceptor ≡ created socket
      → Step n s (record s { acceptor = waiting; answers = ready ∷ s.answers })
  interrupt : s.acceptor ≡ waiting → Step n s s
  stop :
      s.acceptor ≡ waiting
      → s.server_shutdown ≡ true
      → Step n s (record s { acceptor = returned (pos 0) })
  lose_listener : s.acceptor ≡ waiting → Step n s (record s { acceptor = returned (pos 0) })
  fail : s.acceptor ≡ waiting → Step n s (record s { acceptor = returned minus_one })
  request_shutdown : Step n s (record s { server_shutdown = true })
  mark :
      {socket : ℕ} (tid : ℕ)
      → tid < n
      → s.phase tid ≡ starting socket
      → Step n s (record (move s tid (serving socket)) {
        table = mark_active (client_of socket tid) s.table;
      })
  leave :
      {socket : ℕ} (tid : ℕ)
      → tid < n
      → s.phase tid ≡ serving socket
      → Step n s (move s tid (leaving socket))
  unmark :
      {socket : ℕ} (tid : ℕ)
      → tid < n
      → s.phase tid ≡ leaving socket
      → Step n s
          (record (move s tid absent) { table = mark_inactive (client_of socket tid) s.table })

-- Behind `network_server_init`.
abbrev pub listening : System
listening = record {
  table = empty_table;
  phase = λ _. absent;
  acceptor = waiting;
  server_shutdown = false;
  accepted = 0;
  answers = [];
}

pub data Reach (n : ℕ) : System → Type 0 where
  start : Reach n listening
  later : {s t : System} → Reach n s → Step n s t → Reach n t
