-- ===== src/Tests/Loops.antt =====
-- The theorems on the client's program at sample values.
use list_server.Base.{
  ℕ, zero, suc, ◌≡◌, ◌≤◌, refl, arith, Bool, true, false, Option, some, none, [], ◌∷◌, CStr, ℤ, pos,
  str_eq,
}
use list_server.Sys.{Sys, State, pure, malloc, free, take_outcome}
use list_server.CLib.{
  cut_line, split_at, atoi, scan_int, after_prefix, signed, unsigned, skip_spaces, digits_value,
}
use list_server.Message.{MessageT}
use list_server.Stub.{ret, RList}
use list_server.Stub.Calls.{rlist_connect, rlist_disconnect}
use list_server.Chain.{disconnect_last}
use list_server.Chain.Start.{ZooKeeper}
use list_server.ChainClient.{
  Remote, update_ends, reconnect, update_remote_list, head_node, tail_node, bounds_loop,
  bounds_step, min_step, max_step,
}
use list_server.ChainClient.Start.{zoo_init_client, zoo_clean_client, find_ends, Connected}
use list_server.Client.{cmd_size, cmd_quit, parse_line, cut_newline}
use list_server.Client.Main.{Input, main_loop, nobody, close_ends, client_main}
use list_server.Client.Main.Ending.{main_loop_hangs, client_main-Connected}
use list_server.Tests.{calm}

abbrev one : CStr → ℕ
one text = 1

-- Servers that do not answer, and no connection.
abbrev silent : RList → MessageT → State (Unit {0}) (Option MessageT)
silent r msg = pure none

abbrev no_ends : ℕ → Remote
no_ends i = (none, none)

abbrev typed : CStr → Input
typed text = record { line = some text; g_client_shutdown = false }

abbrev end_of_file : Input
end_of_file = record { line = none; g_client_shutdown = false }

-- "size", then "quit", then the end of the input.
abbrev two_lines : ℕ → Input
two_lines zero = typed cmd_size
two_lines (suc zero) = typed cmd_quit
two_lines (suc (suc i)) = end_of_file

at_end : (j : ℕ) → 2 ≤ j → ((two_lines j).line ≡ none) × ((two_lines j).g_client_shutdown ≡ false)
at_end zero h = absurd (omega arith)
at_end (suc zero) h = absurd (omega arith)
at_end (suc (suc j)) h = (refl, refl)

main_loop_hangs_example : main_loop one silent two_lines no_ends 100 2 (calm, tt) ≡ none
main_loop_hangs_example = main_loop_hangs one silent two_lines no_ends 2 at_end 100 (calm, tt)

-- One server, node-1 at "h:9".
abbrev keeper : ZooKeeper (Unit {0})
keeper = record {
  zookeeper_init = λ hp. pure true;
  no_root = pure false;
  create_root = pure true;
  create_node = λ text. pure none;
  get_children = pure (some ((b'n' ∷ b'o' ∷ b'd' ∷ b'e' ∷ b'-' ∷ b'1' ∷ []) ∷ []));
  zoo_get = λ path. pure (some (b'h' ∷ b':' ∷ b'9' ∷ []));
  zookeeper_close = pure tt;
}

abbrev dial : RList → State (Unit {0}) (Option RList)
dial r = pure (some (record r { sockfd = pos 4 }))

abbrev hang_up : ℤ → State (Unit {0}) Bool
hang_up fd = pure true

abbrev quits : ℕ → Input
quits i = typed cmd_quit

left :
    client_main one silent keeper dial hang_up
      (pure false)
      quits
      (λ r i. r)
      (λ r. r)
      true
      ((b'z' ∷ []) ∷ [])
      1
      (calm, tt)
    ≡ some (ret (pos 0, []), (calm, tt))
unfolding client_main zoo_init_client main_loop close_ends zoo_clean_client find_ends update_ends
    reconnect update_remote_list head_node tail_node bounds_loop bounds_step min_step max_step
    rlist_connect rlist_disconnect disconnect_last parse_line cut_newline str_eq scan_int
    after_prefix signed unsigned skip_spaces digits_value cut_line split_at atoi malloc take_outcome
    free
left = refl

client_main-Connected_example :
    (hp : CStr) × ((b'z' ∷ []) ∷ [] ≡ hp ∷ [])
    × Connected keeper dial hang_up
        (pure false)
        (some hp)
        (calm, tt)
        (zoo_init_client keeper dial hang_up (pure false) (some hp) nobody (calm, tt))
client_main-Connected_example =
    client_main-Connected one silent keeper dial hang_up (pure false) quits (λ r i. r) (λ r. r) true
      ((b'z' ∷ []) ∷ []) 1 (calm, tt) (calm, tt) [] left
