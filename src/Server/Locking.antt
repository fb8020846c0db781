-- ===== src/Server/Locking.antt =====
-- The threads of clients around `lock_list`, in the loop of client_thread in
-- source/network_server.c: each takes the lock, forwards a write, applies the request to the list
-- and gives the lock back, in any interleaving with the other threads, with allocations elsewhere and
-- with ZooKeeper's thread, which changes the successor.
pub mod Sequence
pub mod Exclusion
pub mod Serial
pub mod Chained
pub mod Replicas
use list_server.Base.{
  ℕ, ◌≡◌, ◌≢◌, ◌⊎◌, true, false, Bool, Option, none, some, List, [], ◌∷◌, ℤ, pos, negsuc, minus_one,
  ◌==ℤ◌,
}
use list_server.Sys.{Sys, State}
use list_server.CarList.{ListT}
use list_server.Message.{MessageT, op_error}
use list_server.Stub.{RList}
use list_server.Chain.{zoo_forward_to_successor}
use list_server.Server.{needs_forward, apply_local}
use list_server.Server.Threads.{put}

-- Where a thread stands with its request: it has none; it wants `lock_list`; it has it; it has
-- `rls_lock` also and waits for the successor; it has forwarded a write, with the code of that; it
-- has the reply; it gave `lock_list` back and sends.
pub data Stage : Type 0 where
  receiving : Stage
  asking holding forwarding : MessageT → Stage
  forwarded : MessageT → ℤ → Stage
  replied : MessageT → MessageT → Stage
  sending : MessageT → Stage

-- Who has `rls_lock`: a thread that forwards, or the watcher, in `update`.
pub data Owner : Type 0 where
  client : ℕ → Owner
  watcher : Owner

-- A request and its reply.
abbrev pub Served : Type 0
Served = MessageT × MessageT

-- What the threads share: the owners of `lock_list` and `rls_lock`, `rl_next_server`, the list, the allocator and the
-- clock, and what is behind the successor. `served` holds the requests whose threads gave the lock
-- back, the last one first.
pub record Shared (W : Type 0) : Type 0 where
  pub lock_list : Option ℕ
  pub rls_lock : Option Owner
  pub rl_next_server : Option RList
  pub list : Option ListT
  pub sys : Sys
  pub world : W
  pub stage : ℕ → Stage
  pub served : List Served

module _ {W : Type 0} where
  abbrev pub to_stage : Shared W → ℕ → Stage → Shared W
  to_stage t i p = record t { stage = put t.stage i p }

  -- The list after a request was applied to it, and the reply.
  abbrev pub applied : Shared W → ℕ → MessageT → Shared W
  applied t i msg =
      let out = apply_local msg t.list t.sys in
      record (to_stage t i (replied msg out.0.0)) { list = out.0.1; sys = out.1 }

module _ {W : Type 0} (send : RList → MessageT → State W (Option MessageT)) where
  -- A write behind `zoo_forward_to_successor`, which gives `rls_lock` back.
  abbrev pub sent_on : Shared W → ℕ → MessageT → Shared W
  sent_on t i msg =
      let out = zoo_forward_to_successor send (some msg) t.rl_next_server t.world in
      record (to_stage t i (forwarded msg out.0)) { world = out.1; rls_lock = none }

  -- The code goes on for -2, without a successor, and for 0. Nothing says that a thread at
  -- `forwarding` gets a reply: it may stay there for ever, with both locks.
  pub data Turn (t : Shared W) : Shared W → Type 0 where
    receive : (i : ℕ) (msg : MessageT) → t.stage i ≡ receiving → Turn t (to_stage t i (asking msg))
    lock :
        (i : ℕ) {msg : MessageT}
        → t.stage i ≡ asking msg
        → t.lock_list ≡ none
        → Turn t (record (to_stage t i (holding msg)) { lock_list = some i })
    forward :
        (i : ℕ) {msg : MessageT}
        → t.stage i ≡ holding msg
        → needs_forward msg ≡ true
        → t.rls_lock ≡ none
        → Turn t (record (to_stage t i (forwarding msg)) { rls_lock = some (client i) })
    hear : (i : ℕ) {msg : MessageT} → t.stage i ≡ forwarding msg → Turn t (sent_on t i msg)
    invoke_read :
        (i : ℕ) {msg : MessageT}
        → t.stage i ≡ holding msg
        → needs_forward msg ≡ false
        → Turn t (applied t i msg)
    invoke_write :
        (i : ℕ) {msg : MessageT} {fwd_rc : ℤ}
        → t.stage i ≡ forwarded msg fwd_rc
        → ((fwd_rc ==ℤ negsuc 1) ≡ true) ⊎ ((fwd_rc ==ℤ pos 0) ≡ true)
        → Turn t (applied t i msg)
    give_up :
        (i : ℕ) {msg : MessageT} {fwd_rc : ℤ}
        → t.stage i ≡ forwarded msg fwd_rc
        → (fwd_rc ==ℤ negsuc 1) ≡ false
        → (fwd_rc ==ℤ pos 0) ≡ false
        → Turn t (to_stage t i (replied msg (record msg { opcode = op_error; result = minus_one })))
    unlock :
        (i : ℕ) {msg reply : MessageT}
        → t.stage i ≡ replied msg reply
        → Turn t (record (to_stage t i (sending reply)) {
          lock_list = none;
          served = (msg, reply) ∷ t.served;
        })
    answer :
        (i : ℕ) {reply : MessageT} → t.stage i ≡ sending reply → Turn t (to_stage t i receiving)
    allocate : (s : Sys) → Turn t (record t { sys = s })
    watch : t.rls_lock ≡ none → Turn t (record t { rls_lock = some watcher })
    relink :
        (next : Option RList)
        → t.rls_lock ≡ some watcher
        → Turn t (record t { rl_next_server = next; rls_lock = none })

  -- From a server that starts with the list `l`.
  pub data Reach (l : Option ListT) (w : W) : Shared W → Type 0 where
    start :
        (s : Sys) (next : Option RList)
        → Reach l w (record {
          lock_list = none;
          rls_lock = none;
          rl_next_server = next;
          list = l;
          sys = s;
          world = w;
          stage = λ _. receiving;
          served = [];
        })
    later : {t u : Shared W} → Reach l w t → Turn t u → Reach l w u
