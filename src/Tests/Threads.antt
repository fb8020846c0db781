-- ===== src/Tests/Threads.antt =====
-- The theorems on the admission of clients at sample runs.
use list_server.Base.{ℕ, ◌+◌, ◌≡◌, ◌≤◌, ◌<◌, refl, arith, true, false, ◌∷◌, ◌+ℤ◌, replicate}
use list_server.Server.Clients.{claim, mark_active, is_full}
use list_server.Server.Threads.{
  System, absent, serving, starting, waiting, ready, move, client_of, admit, create, greet, mark,
  listening, Reach, start, later,
}
use list_server.Server.Threads.Slots.{held, marked}
use list_server.Server.Threads.Admission.{refused_lem, serves_any_number}

-- A client is admitted, its thread `i` created, and counted before the next client comes.
abbrev taken_in : System → ℕ → System
taken_in s i = record (move (move s i (starting i)) i (serving i)) {
  table = mark_active (client_of i i) s.table;
  acceptor = waiting;
  accepted = s.accepted + 1;
  answers = ready ∷ s.answers;
}

taken_in-Reach :
    (s : System) (i : ℕ)
    → Reach 10 s
    → i < 10
    → s.acceptor ≡ waiting
    → s.server_shutdown ≡ false
    → is_full s.table ≡ false
    → s.phase i ≡ absent
    → Reach 10 (taken_in s i)
taken_in-Reach s i run below idle up free new =
    later (later (later (later run (admit i idle up free)) (create i below refl new)) (greet refl))
      (mark i below (ground arith))

abbrev six_in : System
six_in = taken_in (taken_in (taken_in (taken_in (taken_in (taken_in listening 1) 2) 3) 4) 5) 6

six_in-Reach : Reach 10 six_in
unfolding is_full mark_active claim ◌+ℤ◌
six_in-Reach =
    taken_in-Reach _ 6
      (taken_in-Reach _ 5
        (taken_in-Reach _ 4
          (taken_in-Reach _ 3
            (taken_in-Reach _ 2 (taken_in-Reach listening 1 start (omega arith) refl refl refl refl)
              (omega arith) refl refl refl refl)
            (omega arith) refl refl refl refl)
          (omega arith) refl refl refl refl)
        (omega arith) refl refl refl refl)
      (omega arith) refl refl refl refl

six_in-full : is_full six_in.table ≡ true
unfolding is_full mark_active claim ◌+ℤ◌
six_in-full = refl

refused_example : (held six_in.table.client_list 10 six_in.phase ≡ 6) × (6 ≤ marked 10 six_in.phase)
refused_example = refused_lem six_in-Reach six_in-full

serves_any_number_example :
    (s : System) × Reach 10 s
    × (s.answers ≡ replicate 9 ready)
    × ((i : ℕ) → i < 9 → s.phase i ≡ serving i)
serves_any_number_example = serves_any_number 10 9 (omega arith)
