-- ===== src/Server/Clients/Count.antt =====
-- What `num_clients` of source/network_server.c counts, over all orders of the threads' steps.
use list_server.Base.{
  ℕ, ◌+◌, ◌-◌, ◌≤◌, ◌≡◌, refl, inl, inr, true, Option, none, some, List, [], ◌∷◌, arith,
  if◌then◌else◌, length, pos, ◌+ℤ◌, ◌-ℤ◌, Bool-cases, Option-cases,
}
use list_server.Server.Clients.{
  Client, Table, num_max_clients, empty_table, claim, mark_active, same_client, vacate,
  mark_inactive, is_full,
}

-- The slots that are taken, and those that one client has.
unfoldable pub taken_slots : List (Option Client) → ℕ
taken_slots [] = 0
taken_slots (none ∷ rest) = taken_slots rest
taken_slots (some d ∷ rest) = 1 + taken_slots rest

unfoldable pub slots_of : Client → List (Option Client) → ℕ
slots_of c [] = 0
slots_of c (none ∷ rest) = slots_of c rest
slots_of c (some d ∷ rest) = if same_client c d then 1 + slots_of c rest else slots_of c rest

pub claim_lem :
    (c : Client) (list taken : List (Option Client))
    → claim c list ≡ some taken
    → (taken_slots taken ≡ taken_slots list + 1) × (length taken ≡ length list)
unfolding claim taken_slots
claim_lem c [] taken h = ground (arith, h)
claim_lem c (none ∷ rest) taken h = ground (arith, h)
claim_lem c (some d ∷ rest) taken h = elim (Option-cases (claim c rest)) [
  | inl e ↦ ground (arith, h, e)
  | inr (more, e) ↦ ground (arith, h, e, claim_lem c rest more e)
]

-- No client but the one that claims gets a slot, and that one gets one.
pub slots_of-claim :
    (c d : Client) (list taken : List (Option Client))
    → claim c list ≡ some taken
    → slots_of d taken ≡ slots_of d list + (if same_client d c then 1 else 0)
unfolding claim slots_of
slots_of-claim c d [] taken h = ground (arith, h)
slots_of-claim c d (none ∷ rest) taken h = ground (arith, h)
slots_of-claim c d (some x ∷ rest) taken h = elim (Option-cases (claim c rest)) [
  | inl e ↦ ground (arith, h, e)
  | inr (more, e) ↦ ground (arith, h, e, slots_of-claim c d rest more e)
]

pub vacate_lem :
    (c : Client) (list : List (Option Client))
    → (taken_slots (vacate c list) + slots_of c list ≡ taken_slots list)
      × (length (vacate c list) ≡ length list)
unfolding vacate taken_slots slots_of
vacate_lem c [] = (refl, refl)
vacate_lem c (none ∷ rest) = ground (arith, vacate_lem c rest)
vacate_lem c (some d ∷ rest) = ground (arith, vacate_lem c rest)

pub slots_of-vacate :
    (c d : Client) (list : List (Option Client)) → slots_of d (vacate c list) ≤ slots_of d list
unfolding vacate slots_of
slots_of-vacate c d [] = omega arith
slots_of-vacate c d (none ∷ rest) = slots_of-vacate c d rest
slots_of-vacate c d (some x ∷ rest) = ground (arith, slots_of-vacate c d rest)

taken_slots_bound : (list : List (Option Client)) → taken_slots list ≤ length list
unfolding taken_slots
taken_slots_bound [] = omega arith
taken_slots_bound (none ∷ rest) = ground (arith, taken_slots_bound rest)
taken_slots_bound (some d ∷ rest) = ground (arith, taken_slots_bound rest)

slots_of_same :
    (c d : Client) (list : List (Option Client))
    → same_client d c ≡ true
    → slots_of d list ≡ slots_of c list
unfolding slots_of
slots_of_same c d [] h = refl
slots_of_same c d (none ∷ rest) h = slots_of_same c d rest h
slots_of_same c d (some x ∷ rest) h = ground (arith, h, slots_of_same c d rest h)

-- The tables that come about, with the number of clients that were counted out without having had a
-- slot. A client that begins has no slot: its thread is new.
pub data Reached : ℕ → Table → Type 0 where
  begun : Reached 0 empty_table
  begins :
      {n : ℕ} {t : Table}
      → Reached n t
      → (c : Client) → slots_of c t.client_list ≡ 0
      → Reached n (mark_active c t)
  ends :
      {n : ℕ} {t : Table}
      → Reached n t
      → (c : Client) → Reached (n + (1 - slots_of c t.client_list)) (mark_inactive c t)

abbrev Counted : ℕ → Table → Type 0
Counted n t =
    (t.num_clients +ℤ pos n ≡ pos (taken_slots t.client_list))
    × (length t.client_list ≡ num_max_clients)
    × ((d : Client) → slots_of d t.client_list ≤ 1)

once_more :
    (c d : Client) (t : Table) (taken : List (Option Client))
    → slots_of c t.client_list ≡ 0
    → claim c t.client_list ≡ some taken
    → slots_of d t.client_list ≤ 1
    → slots_of d (mark_active c t).client_list ≤ 1
unfolding mark_active
once_more c d t taken fresh e once =
    let more = slots_of-claim c d t.client_list taken e in
    elim (Bool-cases (same_client d c)) [
      | inl same ↦
          let equal = slots_of_same c d t.client_list same in
          ground (arith, e, more, same, equal, fresh)
      | inr other ↦ ground (arith, e, more, other, once)
    ]

begins-Counted :
    (n : ℕ) (t : Table) (c : Client)
    → slots_of c t.client_list ≡ 0
    → Counted n t
    → Counted n (mark_active c t)
unfolding mark_active ◌+ℤ◌
begins-Counted n t c fresh (count, size, once) = elim (Option-cases (claim c t.client_list)) [
  | inl e ↦ (ground (arith, e, count), ground (arith, e, size), λ d. ground (arith, e, once d))
  | inr (taken, e) ↦
      let one = claim_lem c t.client_list taken e in
      (
        ground (arith, e, count, one),
        ground (arith, e, size, one),
        λ d. once_more c d t taken fresh e (once d),
      )
]

ends-Counted :
    (n : ℕ) (t : Table) (c : Client)
    → Counted n t
    → Counted (n + (1 - slots_of c t.client_list)) (mark_inactive c t)
unfolding mark_inactive ◌+ℤ◌ ◌-ℤ◌
ends-Counted n t c (count, size, once) =
    let one = vacate_lem c t.client_list in
    (
      ground (arith, count, one, once c),
      ground (arith, one, size),
      λ d. ground (arith, once d, slots_of-vacate c d t.client_list),
    )

Reached-Counted : (n : ℕ) (t : Table) → Reached n t → Counted n t
unfolding ◌+ℤ◌ taken_slots slots_of
Reached-Counted _ _ begun = (refl, refl, λ d. omega arith)
Reached-Counted _ _ (begins run c fresh) = begins-Counted _ _ c fresh (Reached-Counted _ _ run)
Reached-Counted _ _ (ends run c) = ends-Counted _ _ c (Reached-Counted _ _ run)

-- In every order of the threads' steps, `num_clients` and the number of clients that were counted
-- out without having had a slot add up to the number of slots that are taken, of which there are
-- six; and no client has two. A thread that begins is new: its client has no slot.
pub num_clients_lem :
    (n : ℕ) (t : Table)
    → Reached n t
    → (t.num_clients +ℤ pos n ≡ pos (taken_slots t.client_list))
      × (taken_slots t.client_list ≤ num_max_clients)
      × ((d : Client) → slots_of d t.client_list ≤ 1)
num_clients_lem n t run =
    let (count, size, once) = Reached-Counted n t run in
    (count, ground (arith, size, taken_slots_bound t.client_list), once)

-- A client is answered OP_BUSY only when all six slots are taken, in every order of the threads'
-- steps, and then no client was counted out wrongly before. A thread that begins is new.
pub is_full_lem :
    (n : ℕ) (t : Table)
    → Reached n t
    → is_full t ≡ true
    → (taken_slots t.client_list ≡ num_max_clients) × (n ≡ 0)
unfolding is_full ◌+ℤ◌
is_full_lem n t run h =
    let (count, bound, once) = num_clients_lem n t run in ground (arith, count, bound, h)
