-- ===== src/Server/Threads/Slots.antt =====
-- The slots of `client_list` in source/network_server.c that each thread has, and their sum.
use list_server.Base.{
  ℕ, zero, suc, ◌+◌, ◌≤◌, ◌<◌, ◌≡◌, refl, ◌≢◌, inl, inr, true, false, Option, none, some, List, [],
  ◌∷◌, arith, ◌==◌, if◌then◌else◌, Bool-cases,
}
use list_server.Server.Clients.{Client, same_client, claim, vacate}
use list_server.Server.Clients.Count.{slots_of, slots_of-claim}
use list_server.Server.Threads.{Phase, absent, starting, serving, leaving, client_of}

-- The slots of the thread with number `i`.
unfoldable pub weight : List (Option Client) → ℕ → Phase → ℕ
weight list i absent = 0
weight list i (starting socket) = 0
weight list i (serving socket) = slots_of (client_of socket i) list
weight list i (leaving socket) = slots_of (client_of socket i) list

unfoldable pub held : List (Option Client) → ℕ → (ℕ → Phase) → ℕ
held list zero phase = 0
held list (suc n) phase = held list n phase + weight list n (phase n)

-- The threads that have marked their clients as active and not yet as inactive.
abbrev pub is_marked : Phase → ℕ
is_marked absent = 0
is_marked (starting _) = 0
is_marked (serving _) = 1
is_marked (leaving _) = 1

unfoldable pub marked : ℕ → (ℕ → Phase) → ℕ
marked zero phase = 0
marked (suc n) phase = marked n phase + is_marked (phase n)

-- Whether a thread may have a slot for a socket.
abbrev pub owns : Phase → ℕ → ℕ
owns absent socket = 0
owns (starting _) socket = 0
owns (serving own) socket = if socket == own then 1 else 0
owns (leaving own) socket = if socket == own then 1 else 0

-- Another thread's slots stay as they are.
pub slots_of-claim_other :
    (c : Client) (list taken : List (Option Client)) (socket i : ℕ)
    → claim c list ≡ some taken
    → i ≢ c.tid
    → slots_of (client_of socket i) taken ≡ slots_of (client_of socket i) list
slots_of-claim_other c list taken socket i e other =
    ground (arith, slots_of-claim c (client_of socket i) list taken e)

pub slots_of-vacate_other :
    (c d : Client) (list : List (Option Client))
    → same_client d c ≡ false
    → slots_of d (vacate c list) ≡ slots_of d list
unfolding slots_of vacate
slots_of-vacate_other c d [] h = refl
slots_of-vacate_other c d (none ∷ rest) h = slots_of-vacate_other c d rest h
slots_of-vacate_other c d (some x ∷ rest) h = ground (arith, slots_of-vacate_other c d rest h)

pub slots_of-vacate_self :
    (c d : Client) (list : List (Option Client))
    → same_client d c ≡ true
    → slots_of d (vacate c list) ≡ 0
unfolding slots_of vacate
slots_of-vacate_self c d [] h = refl
slots_of-vacate_self c d (none ∷ rest) h = slots_of-vacate_self c d rest h
slots_of-vacate_self c d (some x ∷ rest) h = ground (arith, slots_of-vacate_self c d rest h)

pub weight_same :
    (list list' : List (Option Client)) (i : ℕ) (p : Phase)
    → ((socket : ℕ) → slots_of (client_of socket i) list' ≡ slots_of (client_of socket i) list)
    → weight list' i p ≡ weight list i p
unfolding weight
weight_same list list' i absent same = refl
weight_same list list' i (starting socket) same = refl
weight_same list list' i (serving socket) same = same socket
weight_same list list' i (leaving socket) same = same socket

-- Where one thread moves and the others' slots stay, the sum changes by that thread's.
module _ (list list' : List (Option Client)) (phase phase' : ℕ → Phase) (tid : ℕ) where
  held_above :
      ((i : ℕ) → i ≢ tid → weight list' i (phase' i) ≡ weight list i (phase i))
      → (n : ℕ) → n ≤ tid
      → held list' n phase' ≡ held list n phase
  unfolding held
  held_above same zero h = refl
  held_above same (suc n) h = omega (arith, held_above same n (omega arith), same n (omega arith))

  pub held_change :
      ((i : ℕ) → i ≢ tid → weight list' i (phase' i) ≡ weight list i (phase i))
      → (n : ℕ) → tid < n
      → held list' n phase' + weight list tid (phase tid)
        ≡ held list n phase + weight list' tid (phase' tid)
  unfolding held
  held_change same zero h = absurd (omega arith)
  held_change same (suc n) h = elim (Bool-cases (n == tid)) [
    | inl e ↦ ground (arith, e, held_above same n)
    | inr e ↦ ground (arith, e, held_change same n, same n)
  ]

weight_bound :
    (list : List (Option Client)) (i : ℕ) (p : Phase)
    → ((d : Client) → slots_of d list ≤ 1)
    → weight list i p ≤ is_marked p
unfolding weight
weight_bound list i absent once = omega arith
weight_bound list i (starting socket) once = omega arith
weight_bound list i (serving socket) once = once (client_of socket i)
weight_bound list i (leaving socket) once = once (client_of socket i)

-- Where no client has two slots, the threads have at most one each.
pub held_bound :
    (list : List (Option Client)) (n : ℕ) (phase : ℕ → Phase)
    → ((d : Client) → slots_of d list ≤ 1)
    → held list n phase ≤ marked n phase
unfolding held marked
held_bound list zero phase once = omega arith
held_bound list (suc n) phase once =
    omega (arith, held_bound list n phase once, weight_bound list n (phase n) once)
