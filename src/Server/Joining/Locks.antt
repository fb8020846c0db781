-- ===== src/Server/Joining/Locks.antt =====
-- The locks of a server while another joins behind it: `rls_lock`, which `update` of
-- source/chain_server.c holds while it connects, and `lock_list`, which client_thread of
-- source/network_server.c holds from before the forwarding of a write to its end. The one that joins
-- greets nobody before network_main_loop, to which it comes when it has the list.
use list_server.Base.{◌≡◌, ◌≢◌, ◌↔◌, refl, ap}

-- The server that joins: in `init_list`, or in `network_main_loop`.
pub data Newcomer : Type 0 where
  joining accepting : Newcomer

-- The predecessor's thread of ZooKeeper: before `update`, in it with `rls_lock`, behind it.
pub data Watcher : Type 0 where
  unaware connecting linked : Watcher

-- The predecessor's threads of clients: none has `lock_list`, one has it and wants `rls_lock`, or has
-- both.
pub data Writer : Type 0 where
  idle locked forwarding : Writer

pub record Locks : Type 0 where
  pub newcomer : Newcomer
  pub watcher : Watcher
  pub writer : Writer

-- The list is copied by a request at the predecessor, which wants `lock_list`.
pub data LockStep (s : Locks) : Locks → Type 0 where
  copies : s.newcomer ≡ joining → s.writer ≡ idle → LockStep s (record s { newcomer = accepting })
  wakes :
      s.watcher ≡ unaware → s.writer ≢ forwarding → LockStep s (record s { watcher = connecting })
  greeted :
      s.watcher ≡ connecting → s.newcomer ≡ accepting → LockStep s (record s { watcher = linked })
  begins : s.writer ≡ idle → LockStep s (record s { writer = locked })
  forwards :
      s.writer ≡ locked → s.watcher ≢ connecting → LockStep s (record s { writer = forwarding })
  ends : s.writer ≡ forwarding → LockStep s (record s { writer = idle })

abbrev pub beginning : Locks
beginning = record { newcomer = joining; watcher = unaware; writer = idle }

pub data Reach : Locks → Type 0 where
  start : Reach beginning
  later : {s t : Locks} → Reach s → LockStep s t → Reach t

-- `update` waits for the greeting, the write for `rls_lock`, the list for `lock_list`.
abbrev pub dead : Locks
dead = record { newcomer = joining; watcher = connecting; writer = locked }

dead-Reach : Reach dead
dead-Reach = later (later start (wakes refl (λ e. cc))) (begins refl)

stuck→dead :
    (n : Newcomer) (w : Watcher) (x : Writer)
    → let s : Locks = record { newcomer = n; watcher = w; writer = x } in
      ((t : Locks) → ¬ LockStep s t) → s ≡ dead
stuck→dead n w idle h = absurd (h _ (begins refl))
stuck→dead n w forwarding h = absurd (h _ (ends refl))
stuck→dead n unaware locked h = absurd (h _ (forwards refl (λ e. cc)))
stuck→dead n linked locked h = absurd (h _ (forwards refl (λ e. cc)))
stuck→dead accepting connecting locked h = absurd (h _ (greeted refl refl))
stuck→dead joining connecting locked h = refl

dead→stuck : (s t : Locks) → s ≡ dead → ¬ LockStep s t
dead→stuck s _ e (copies a b) = cc
dead→stuck s _ e (wakes a b) = cc
dead→stuck s _ e (greeted a b) = cc
dead→stuck s _ e (begins a) = cc
dead→stuck s _ e (forwards a b) = b (ap (λ (l : Locks). l.watcher) e)
dead→stuck s _ e (ends a) = cc

-- Two servers and a write can wait for each other for ever: a state comes about in which the
-- predecessor connects to the server that joins, the write waits for the predecessor's connection,
-- and the list that the server that joins asks for waits for the write. Of all states it is the one
-- from which nothing goes on.
pub deadlock_lem : (s : Locks) → Reach dead × (((t : Locks) → ¬ LockStep s t) ↔ (s ≡ dead))
deadlock_lem s = (dead-Reach, (stuck→dead s.newcomer s.watcher s.writer, λ e t. dead→stuck s t e))
