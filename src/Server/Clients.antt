-- ===== src/Server/Clients.antt =====
-- The table of the clients that are served, in source/network_server.c: `client_list` and
-- `num_clients`, which the threads change under lock_num_clients.
pub mod Count
use list_server.Base.{
  ℕ, zero, suc, Bool, not, ◌&&◌, Option, none, some, List, [], ◌∷◌, ◌==◌, if◌then◌else◌, ℤ, pos,
  ltb_ℤ, ◌+ℤ◌, ◌-ℤ◌,
}

-- struct cl; a slot whose client_socket is -1 is `none`.
pub record Client : Type 0 where
  pub client_socket : ℕ
  pub tid : ℕ

pub record Table : Type 0 where
  pub client_list : List (Option Client)
  pub num_clients : ℤ

-- `NUM_MAX_CLIENTS`
abbrev pub num_max_clients : ℕ
num_max_clients = 6

abbrev pub slots : ℕ → List (Option Client)
slots zero = []
slots (suc n) = none ∷ slots n

-- `network_server_init`
abbrev pub empty_table : Table
empty_table = record { client_list = slots num_max_clients; num_clients = pos 0 }

-- The first free slot is taken; `none` if there is none.
unfoldable pub claim : Client → List (Option Client) → Option (List (Option Client))
claim c [] = none
claim c (none ∷ rest) = some (some c ∷ rest)
claim c (some d ∷ rest) = elim (claim c rest) [ none ↦ none | some taken ↦ some (some d ∷ taken) ]

-- A thread marks its client as active. Without a free slot nothing changes.
unfoldable pub mark_active : Client → Table → Table
mark_active c t = elim (claim c t.client_list) [
  | none ↦ t
  | some taken ↦ record { client_list = taken; num_clients = t.num_clients +ℤ pos 1 }
]

abbrev pub same_client : Client → Client → Bool
same_client c d = c.client_socket == d.client_socket && c.tid == d.tid

unfoldable pub vacate : Client → List (Option Client) → List (Option Client)
vacate c [] = []
vacate c (none ∷ rest) = none ∷ vacate c rest
vacate c (some d ∷ rest) = (if same_client c d then none else some d) ∷ vacate c rest

-- A thread marks its client as inactive: it counts itself out, and frees its slots.
unfoldable pub mark_inactive : Client → Table → Table
mark_inactive c t = record {
  client_list = vacate c t.client_list;
  num_clients = t.num_clients -ℤ pos 1;
}

-- The test of `network_main_loop` that answers OP_BUSY.
unfoldable pub is_full : Table → Bool
is_full t = not (ltb_ℤ t.num_clients (pos num_max_clients))
