-- ===== src/Server/Threads/Admission.antt =====
-- Who is admitted by network_main_loop of source/network_server.c, and what the clients are answered.
use list_server.Base.{
  ℕ, zero, suc, ◌+◌, ◌≤◌, ◌<◌, ◌≡◌, refl, true, false, ◌∷◌, arith, length, replicate, pos,
}
use list_server.Server.Clients.{num_max_clients, empty_table, is_full}
use list_server.Server.Clients.Count.{num_clients_lem, is_full_lem}
use list_server.Server.Threads.{
  absent, starting, serving, Acceptor, waiting, admitted, created, returned, ready, System, move,
  Step, admit, refuse, no_memory, no_thread, create, greet, interrupt, stop, lose_listener, fail,
  request_shutdown, mark, leave, unmark, listening, Reach, start, later,
}
use list_server.Server.Threads.Slots.{held, marked, held_bound}
use list_server.Server.Threads.Invariant.{Inv, Reach-Inv}

-- In every interleaving of the loop with the threads, a client is answered OP_BUSY for the number of
-- clients only while the threads that are serving, or are about to be counted out, are six at least
-- and have all six slots.
pub refused_lem :
    {n : ℕ} {s : System}
    → Reach n s
    → is_full s.table ≡ true
    → (held s.table.client_list n s.phase ≡ num_max_clients) × (num_max_clients ≤ marked n s.phase)
refused_lem {n} {s} run full =
    let (_, _, once) = num_clients_lem v.lost s.table v.reached in
    ground (
      arith,
      v.all_held,
      is_full_lem v.lost s.table v.reached full,
      held_bound s.table.client_list n s.phase once,
    )
  where
    v : Inv n s.table s.phase
    v = Reach-Inv run

-- What is still to be answered.
abbrev pub owed : Acceptor → ℕ
owed waiting = 0
owed (admitted _) = 1
owed (created _) = 1
owed (returned _) = 0

Step-answered :
    {n : ℕ} {s t : System}
    → Step n s t
    → length s.answers + owed s.acceptor ≡ s.accepted
    → length t.answers + owed t.acceptor ≡ t.accepted
Step-answered (admit socket w up free) h = ground (arith, w, h)
Step-answered (refuse w up full) h = ground (arith, w, h)
Step-answered (no_memory a) h = ground (arith, a, h)
Step-answered (no_thread a) h = ground (arith, a, h)
Step-answered (create tid below a e) h = ground (arith, a, h)
Step-answered (greet a) h = ground (arith, a, h)
Step-answered (interrupt w) h = h
Step-answered (stop w down) h = ground (arith, w, h)
Step-answered (lose_listener w) h = ground (arith, w, h)
Step-answered (fail w) h = ground (arith, w, h)
Step-answered request_shutdown h = h
Step-answered (mark tid below e) h = h
Step-answered (leave tid below e) h = h
Step-answered (unmark tid below e) h = h

-- Every connection that is accepted is answered once, before the next is accepted: the answers are as
-- many as the connections, less the one that the loop is about to answer.
answered_lem : {n : ℕ} {s : System} → Reach n s → length s.answers + owed s.acceptor ≡ s.accepted
answered_lem start = refl
answered_lem (later run step) = Step-answered step (answered_lem run)

-- The first `k` numbers have threads that have not marked their clients yet, of which the first `j`
-- have by now; all were answered OP_READY.
pub record Crowd (n j k : ℕ) : Type 0 where
  pub last : System
  pub reach : Reach n last
  pub idle : last.acceptor ≡ waiting
  pub up : last.server_shutdown ≡ false
  pub greeted : last.answers ≡ replicate k ready
  pub are_serving : (i : ℕ) → i < j → last.phase i ≡ serving i
  pub are_starting : (i : ℕ) → j ≤ i → i < k → last.phase i ≡ starting i
  pub are_absent : (i : ℕ) → k ≤ i → last.phase i ≡ absent

gather : (n k : ℕ) → k ≤ n → (c : Crowd n 0 k) × (c.last.table ≡ empty_table)
unfolding is_full
gather n zero h = (
  record {
    last = listening;
    reach = start;
    idle = refl;
    up = refl;
    greeted = refl;
    are_serving = λ i below. absurd (omega arith);
    are_starting = λ i above below. absurd (omega arith);
    are_absent = λ i above. refl;
  },
  refl,
)
gather n (suc k) h =
    let (c, clear) = gather n k (omega arith) in
    let s : System = c.last in
    let s1 : System = record s { acceptor = admitted k; accepted = s.accepted + 1 } in
    let s2 : System = record (move s1 k (starting k)) { acceptor = created k } in
    let s3 : System = record s2 { acceptor = waiting; answers = ready ∷ s2.answers } in
    let r1 : Reach n s1 = later c.reach (admit k c.idle c.up (ground (arith, clear))) in
    let r2 : Reach n s2 = later r1 (create k h refl (c.are_absent k (omega arith))) in
    (
      record {
        last = s3;
        reach = later r2 (greet refl);
        idle = refl;
        up = c.up;
        greeted = rw (c.greeted);
        are_serving = λ i below. absurd (omega arith);
        are_starting = λ i above below. ground (arith, c.are_starting i);
        are_absent = λ i above. ground (arith, c.are_absent i);
      },
      clear,
    )

begin_serving : (n j k : ℕ) → j ≤ k → k ≤ n → Crowd n j k
begin_serving n zero k few h = (gather n k h).0
begin_serving n (suc j) k few h =
    let c = begin_serving n j k (omega arith) h in
    record {
      last = _;
      reach = later c.reach (mark j (omega arith) (c.are_starting j (omega arith) few));
      idle = c.idle;
      up = c.up;
      greeted = c.greeted;
      are_serving = λ i below. ground (arith, c.are_serving i);
      are_starting = λ i above below. ground (arith, c.are_starting i);
      are_absent = λ i above. ground (arith, c.are_absent i);
    }

-- The limit is not kept: any number of clients, however large, can be served at the same time, all
-- answered OP_READY, as the loop tests the number of clients before the threads it created have
-- counted theirs. Thread numbers are below `n`, and `k` is at most `n`.
pub serves_any_number :
    (n k : ℕ)
    → k ≤ n
    → (s : System) × Reach n s
      × (s.answers ≡ replicate k ready)
      × ((i : ℕ) → i < k → s.phase i ≡ serving i)
serves_any_number n k h =
    let c = begin_serving n k k (omega arith) h in (c.last, c.reach, c.greeted, c.are_serving)

-- When the loop returns because of SIGINT any number of clients may still be served: nobody waits
-- for their threads before the caller goes on. Thread numbers are below `n`, and `k` is at most `n`.
returns_while_serving :
    (n k : ℕ)
    → k ≤ n
    → (s : System) × Reach n s
      × (s.acceptor ≡ returned (pos 0))
      × ((i : ℕ) → i < k → s.phase i ≡ serving i)
returns_while_serving n k h =
    let c = begin_serving n k k (omega arith) h in
    let down = later c.reach request_shutdown in
    (_, later down (stop c.idle refl), refl, c.are_serving)
