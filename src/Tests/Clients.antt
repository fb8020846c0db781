-- ===== src/Tests/Clients.antt =====
-- The theorems on the server's table of clients at sample values.
use list_server.Base.{ℕ, ◌+◌, ◌≡◌, ◌≤◌, refl, true, pos, ◌+ℤ◌}
use list_server.Server.Clients.{
  Client, Table, empty_table, claim, mark_active, mark_inactive, is_full,
}
use list_server.Server.Clients.Count.{
  taken_slots, slots_of, Reached, begun, begins, ends, num_clients_lem,
}

abbrev client : ℕ → Client
client n = record { client_socket = n; tid = n + 100 }

-- Two clients begin and the first of them ends.
abbrev one_left : Table
one_left = mark_inactive (client 5) (mark_active (client 6) (mark_active (client 5) empty_table))

one_left-Reached : Reached 0 one_left
unfolding claim mark_active slots_of
one_left-Reached = ends (begins (begins begun (client 5) refl) (client 6) refl) (client 5)

num_clients_example :
    (one_left.num_clients +ℤ pos 0 ≡ pos (taken_slots one_left.client_list))
    × (taken_slots one_left.client_list ≤ 6)
    × ((d : Client) → slots_of d one_left.client_list ≤ 1)
num_clients_example = num_clients_lem 0 one_left one_left-Reached

-- Six clients.
abbrev six : Table
six = mark_active (client 6) (
    mark_active (client 5) (
      mark_active (client 4)
        (mark_active (client 3) (mark_active (client 2) (mark_active (client 1) empty_table)))))

six-Reached : Reached 0 six
unfolding claim mark_active slots_of
six-Reached =
    begins
      (begins
        (begins (begins (begins (begins begun (client 1) refl) (client 2) refl) (client 3) refl)
          (client 4) refl)
        (client 5) refl)
      (client 6) refl

six-full : is_full six ≡ true
unfolding is_full claim mark_active ◌+ℤ◌
six-full = refl
