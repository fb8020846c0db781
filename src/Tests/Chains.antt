-- ===== src/Tests/Chains.antt =====
-- The theorems on the chain of servers at sample values.
use list_server.Base.{
  ℕ, ◌≡◌, refl, Bool, true, Option, some, none, List, [], ◌∷◌, length, CStr, All, ℤ, pos,
}
use list_server.Sys.{Sys, State, pure, malloc, take_outcome, free}
use list_server.Car.{DataT, ano_atual}
use list_server.CarList.Edit.{list_of}
use list_server.CarList.Sorted.{stable_sort}
use list_server.Spec.{Request, Answer, Serves}
use list_server.Stub.{RList, ret}
use list_server.Stub.Calls.{rlist_connect}
use list_server.Stub.Requests.{request, reply_to}
use list_server.Stub.Remote.{Server, direct}
use list_server.CLib.{
  cut_line, split_at, atoi, scan_int, after_prefix, signed, unsigned, skip_spaces, digits_value,
}
use list_server.Chain.{
  prev_loop, prev_step, node_number, successor, predecessor, next_loop, next_step, own_number,
  rlist_get_list_add, connect_to,
}
use list_server.Chain.Choice.{predecessor-successor}
use list_server.Chain.Transfer.{rlist_get_list_add_remote}
use list_server.Server.Replicas.{Holds}
use list_server.Server.Chain.{chain_serve, chain_serve-Serves}
use list_server.ChainClient.{head_node, tail_node}
use list_server.ChainClient.Ends.{Within, head_node-tail_node}
use list_server.Tests.{calm, i3, two_cars, two_cars-IsValid}

abbrev node : ℕ → CStr
node digit = b'n' ∷ b'o' ∷ b'd' ∷ b'e' ∷ b'-' ∷ b'0' ∷ b'0' ∷ digit ∷ []

-- node-007, node-001, node-003
abbrev three_nodes : List CStr
three_nodes = node b'7' ∷ node b'1' ∷ node b'3' ∷ []

node_one : node_number (node b'1') ≡ some (pos 1)
unfolding scan_int after_prefix signed unsigned skip_spaces digits_value
node_one = refl

node_three : node_number (node b'3') ≡ some (pos 3)
unfolding scan_int after_prefix signed unsigned skip_spaces digits_value
node_three = refl

one_to_three : successor (pos 1) three_nodes ≡ some (node b'3')
unfolding successor next_loop next_step scan_int after_prefix signed unsigned skip_spaces
    digits_value
one_to_three = refl

predecessor-successor_example :
    (found : CStr) × (predecessor (pos 3) three_nodes ≡ some found)
    × (node_number found ≡ some (pos 1))
predecessor-successor_example =
    predecessor-successor (pos 1) (pos 3) (node b'1') (node b'3') three_nodes refl (1, refl)
      node_one one_to_three node_three

abbrev link : RList
link = record { server_address = b'h' ∷ []; server_port = pos 9000; sockfd = pos 4 }

rlist_get_list_add_example :
    let out =
      rlist_get_list_add direct
        (some link)
        (some (list_of []))
        (calm, (calm, some (list_of two_cars))) in
    (out.0 ≡ (ret (pos 0), some (list_of (stable_sort two_cars))))
    × (out.1.1.1 ≡ some (list_of (stable_sort two_cars)))
    × (out.1.0.live ≡ 20)
rlist_get_list_add_example =
    rlist_get_list_add_remote link calm calm two_cars [] refl refl two_cars-IsValid

-- A chain of two replicas with the same two cars.
abbrev full : Server
full = (calm, some (list_of two_cars))

full-Holds : Holds (ano_atual calm) two_cars full
full-Holds = (refl, refl, refl)

chain_serve_example :
    (a : Answer) × (ds : List DataT) × Serves (ano_atual calm) two_cars (Request.del i3.modelo) a ds
    × (let out = chain_serve link (request (Request.del i3.modelo)) (full ∷ full ∷ []) in
        (out.0 ≡ some (reply_to (request (Request.del i3.modelo)) a))
        × All (Holds (ano_atual calm) ds) out.1
        × (length out.1 ≡ 2))
chain_serve_example =
    chain_serve-Serves link full (full ∷ []) (ano_atual calm) two_cars (Request.del i3.modelo)
      (full-Holds, (full-Holds, tt)) tt tt

-- node-003 joins behind node-001, over a link to a server that holds the cars.
abbrev address_of : CStr → State Server (Option CStr)
address_of path = pure (some (b'h' ∷ b':' ∷ b'9' ∷ []))

abbrev dial : RList → State Server (Option RList)
dial r = pure (some (record r { sockfd = pos 4 }))

abbrev hang_up : ℤ → State Server Bool
hang_up fd = pure true

abbrev path_three : CStr
path_three = b'/' ∷ b'c' ∷ b'h' ∷ b'a' ∷ b'i' ∷ b'n' ∷ b'/' ∷ node b'3'

abbrev dialled : RList
dialled = record { server_address = b'h' ∷ []; server_port = pos 9; sockfd = pos 4 }

three_to_one : predecessor (own_number (pos 0) path_three) three_nodes ≡ some (node b'1')
unfolding predecessor prev_loop prev_step scan_int after_prefix signed unsigned skip_spaces
    digits_value
three_to_one = refl

abbrev start : Sys × Server
start = (calm, full)

reached :
    connect_to address_of dial hang_up (node b'1') start
    ≡ (some dialled, (record calm { live = 12 }, full))
unfolding connect_to rlist_connect cut_line split_at atoi signed unsigned skip_spaces digits_value
    malloc take_outcome free
reached = refl

head_node-tail_node_example :
    (head : CStr) × (tail : CStr) × (lo : ℤ) × (hi : ℤ) × (head_node three_nodes ≡ some head)
    × (node_number head ≡ some lo)
    × (tail_node three_nodes ≡ some tail)
    × (node_number tail ≡ some hi)
    × All (Within lo hi) three_nodes
    × (predecessor lo three_nodes ≡ none)
    × (successor hi three_nodes ≡ none)
head_node-tail_node_example =
    head_node-tail_node three_nodes (node b'3') (pos 3) ((2, refl), node_three, refl, refl)
