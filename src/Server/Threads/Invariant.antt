-- ===== src/Server/Threads/Invariant.antt =====
-- What holds in every state of the loop of source/network_server.c and its threads.
use list_server.Base.{
  ℕ, zero, suc, ◌≤◌, ◌<◌, ◌≡◌, refl, inl, inr, Option, List, arith, Bool-cases, Option-cases,
}
use list_server.Server.Clients.{
  Client, Table, same_client, claim, vacate, mark_active, mark_inactive,
}
use list_server.Server.Clients.Count.{
  taken_slots, slots_of, Reached, begun, begins, ends, claim_lem, vacate_lem, slots_of-claim,
}
use list_server.Server.Threads.{
  Phase, absent, starting, serving, leaving, System, client_of, put, Step, admit, refuse, no_memory,
  no_thread, create, greet, interrupt, stop, lose_listener, fail, request_shutdown, mark, leave,
  unmark, listening, Reach, start, later,
}
use list_server.Server.Threads.Slots.{
  weight, weight_same, held, owns, slots_of-claim_other, slots_of-vacate_other,
  slots_of-vacate_self, held_change,
}

-- The table came about in one of the orders that `Reached` has, a slot is a marked thread's, and the
-- threads have all the slots that are taken.
pub record Inv (n : ℕ) (t : Table) (phase : ℕ → Phase) : Type 0 where
  pub lost : ℕ
  pub reached : Reached lost t
  pub owned : (d : Client) → slots_of d t.client_list ≤ owns (phase d.tid) d.client_socket
  pub all_held : held t.client_list n phase ≡ taken_slots t.client_list

-- A thread that moves, and keeps what it owns, as others do.
move-Inv :
    (n : ℕ) (t : Table) (phase : ℕ → Phase) (tid : ℕ) (p : Phase)
    → tid < n
    → ((socket : ℕ) → owns p socket ≡ owns (phase tid) socket)
    → weight t.client_list tid p ≡ weight t.client_list tid (phase tid)
    → Inv n t phase
    → Inv n t (put phase tid p)
move-Inv n t phase tid p below same_owns same_weight v = record {
  lost = v.lost;
  reached = v.reached;
  owned = λ d. ground (arith, v.owned d, same_owns d.client_socket);
  all_held = ground (
    arith,
    v.all_held,
    same_weight,
    held_change t.client_list t.client_list phase (put phase tid p) tid
        (λ i other. ground (arith, other)) n below,
  );
}

no_slot :
    (n : ℕ) (t : Table) (phase : ℕ → Phase) (tid socket : ℕ)
    → Inv n t phase
    → phase tid ≡ starting socket
    → slots_of (client_of socket tid) t.client_list ≡ 0
no_slot n t phase tid socket v e = ground (arith, v.owned (client_of socket tid), e)

mark-Inv :
    (n : ℕ) (t : Table) (phase : ℕ → Phase) (tid socket : ℕ)
    → tid < n
    → phase tid ≡ starting socket
    → Inv n t phase
    → Inv n (mark_active (client_of socket tid) t) (put phase tid (serving socket))
unfolding mark_active weight
mark-Inv n t phase tid socket below e v =
    let none_yet = no_slot n t phase tid socket v e in
    elim (Option-cases (claim (client_of socket tid) t.client_list)) [
      | inl full ↦ record {
        lost = v.lost;
        reached = begins v.reached (client_of socket tid) none_yet;
        owned = λ d. ground (arith, full, v.owned d, e);
        all_held = ground (
          arith,
          full,
          e,
          none_yet,
          v.all_held,
          held_change t.client_list t.client_list phase (put phase tid (serving socket)) tid
              (λ i other. ground (arith, other)) n below,
        );
      }
      | inr (taken, got) ↦ record {
        lost = v.lost;
        reached = begins v.reached (client_of socket tid) none_yet;
        owned = λ d. ground (
          arith,
          got,
          v.owned d,
          e,
          slots_of-claim (client_of socket tid) d t.client_list taken got,
        );
        all_held = ground (
          arith,
          got,
          e,
          none_yet,
          v.all_held,
          claim_lem (client_of socket tid) t.client_list taken got,
          slots_of-claim (client_of socket tid) (client_of socket tid) t.client_list taken got,
          held_change t.client_list taken phase (put phase tid (serving socket)) tid
              (λ i other.
                let same = weight_same t.client_list taken i (phase i) (λ x.
                  slots_of-claim_other (client_of socket tid) t.client_list taken x i got other) in
                ground (arith, other, same))
              n below,
        );
      }
    ]

unmark-Inv :
    (n : ℕ) (t : Table) (phase : ℕ → Phase) (tid socket : ℕ)
    → tid < n
    → phase tid ≡ leaving socket
    → Inv n t phase
    → Inv n (mark_inactive (client_of socket tid) t) (put phase tid absent)
unfolding mark_inactive weight
unmark-Inv n t phase tid socket below e v = record {
  lost = _;
  reached = ends v.reached c;
  owned = λ d. elim (Bool-cases (same_client d c)) [
    | inl same ↦ ground (arith, slots_of-vacate_self c d t.client_list same)
    | inr other ↦ ground (arith, e, other, v.owned d, slots_of-vacate_other c d t.client_list other)
  ];
  all_held = ground (
    arith,
    e,
    v.all_held,
    vacate_lem c t.client_list,
    held_change t.client_list (vacate c t.client_list) phase (put phase tid absent) tid
        (λ i other.
          let same =
            weight_same t.client_list (vacate c t.client_list) i (phase i) (λ x.
              slots_of-vacate_other c (client_of x i) t.client_list (ground (arith, other))) in
          ground (arith, other, same))
        n below,
  );
}
  where
    c : Client
    c = client_of socket tid

Step-Inv : {n : ℕ} {s t : System} → Step n s t → Inv n s.table s.phase → Inv n t.table t.phase
unfolding weight
Step-Inv (admit socket w open_ free) v = v
Step-Inv (refuse w open_ full) v = v
Step-Inv (no_memory a) v = v
Step-Inv (no_thread a) v = v
Step-Inv {n} {s} (create tid below a e) v =
    move-Inv n s.table s.phase tid _ below (λ x. ground (arith, e)) (ground (arith, e)) v
Step-Inv (greet a) v = v
Step-Inv (interrupt w) v = v
Step-Inv (stop w down) v = v
Step-Inv (lose_listener w) v = v
Step-Inv (fail w) v = v
Step-Inv request_shutdown v = v
Step-Inv {n} {s} (mark tid below e) v = mark-Inv n s.table s.phase tid _ below e v
Step-Inv {n} {s} (leave tid below e) v =
    move-Inv n s.table s.phase tid _ below (λ x. ground (arith, e)) (ground (arith, e)) v
Step-Inv {n} {s} (unmark tid below e) v = unmark-Inv n s.table s.phase tid _ below e v

held-nothing : (n : ℕ) (list : List (Option Client)) → held list n (λ _. absent) ≡ 0
unfolding held weight
held-nothing zero list = refl
held-nothing (suc n) list = omega (arith, held-nothing n list)

pub Reach-Inv : {n : ℕ} {s : System} → Reach n s → Inv n s.table s.phase
unfolding slots_of taken_slots
Reach-Inv {n} start = record {
  lost = 0;
  reached = begun;
  owned = λ d. omega arith;
  all_held = held-nothing n listening.table.client_list;
}
Reach-Inv (later run step) = Step-Inv step (Reach-Inv run)
