-- ===== src/Tests/Starts.antt =====
-- The theorems on a server's start at sample values.
use list_server.Base.{
  ◌≡◌, refl, arith, Bool, true, false, some, none, [], ◌∷◌, All, CStr, ℤ, pos, Option,
}
use list_server.Sys.{State, pure, malloc, free, take_outcome}
use list_server.Car.{ano_atual}
use list_server.CarList.Edit.{list_of}
use list_server.CarList.Sorted.{stable_sort}
use list_server.CLib.{
  cut_line, split_at, atoi, scan_int, after_prefix, signed, unsigned, skip_spaces, digits_value,
}
use list_server.Stub.{RList, ret}
use list_server.Stub.Calls.{rlist_connect}
use list_server.Stub.Remote.{Server, direct}
use list_server.Chain.{
  predecessor, prev_loop, prev_step, own_number, node_number, node_text, connect_to,
}
use list_server.Chain.Address.{digits, decimal, regdata}
use list_server.Chain.Address.Registered.{rlist_connect-regdata}
use list_server.Chain.Start.{ZooKeeper, zoo_init_server}
use list_server.Chain.Start.Enters.{
  IsUp, alone, IsLast, Started, zoo_init_server_joins, zoo_init_server-cases,
}
use list_server.Tests.{calm, two_cars, two_cars-IsValid}

abbrev host : CStr
host = b'h' ∷ []

-- "h:9"
abbrev address : CStr
address = b'h' ∷ b':' ∷ b'9' ∷ []

abbrev dial : RList → State Server (Option RList)
dial r = pure (some (record r { sockfd = pos 4 }))

abbrev hang_up : ℤ → State Server Bool
hang_up fd = pure true

rlist_connect-regdata_example :
    (rlist_connect dial (some (node_text address)) (calm, (calm, none))).0
    ≡ (dial (record { server_address = host; server_port = pos 9; sockfd = pos 0 }) (calm, none)).0
unfolding regdata decimal digits
rlist_connect-regdata_example =
    rlist_connect-regdata dial host address 9 calm (calm, none) ((refl, refl, refl), tt)
      (omega arith) refl refl

-- node-1 is there, and node-3 comes.
abbrev first_node : CStr
first_node = b'n' ∷ b'o' ∷ b'd' ∷ b'e' ∷ b'-' ∷ b'1' ∷ []

abbrev own_node : CStr
own_node = b'n' ∷ b'o' ∷ b'd' ∷ b'e' ∷ b'-' ∷ b'3' ∷ []

abbrev own_path : CStr
own_path = b'/' ∷ b'c' ∷ b'h' ∷ b'a' ∷ b'i' ∷ b'n' ∷ b'/' ∷ own_node

abbrev keeper : ZooKeeper Server
keeper = record {
  zookeeper_init = λ hp. pure true;
  no_root = pure false;
  create_root = pure true;
  create_node = λ text. pure (some own_path);
  get_children = pure (some (first_node ∷ own_node ∷ []));
  zoo_get = λ path. pure (some address);
  zookeeper_close = pure tt;
}

keeper-IsUp : IsUp keeper host address own_path (first_node ∷ own_node ∷ [])
keeper-IsUp = record {
  accepts = λ w. refl;
  rooted = λ w. refl;
  creates = λ w. refl;
  lists = λ w. refl;
}

abbrev full : Server
full = (calm, some (list_of two_cars))

abbrev dialled : RList
dialled = record { server_address = host; server_port = pos 9; sockfd = pos 4 }

own_number_three : own_number (pos 0) own_path ≡ pos 3
unfolding scan_int after_prefix signed unsigned skip_spaces digits_value
own_number_three = refl

first_number : node_number first_node ≡ some (pos 1)
unfolding scan_int after_prefix signed unsigned skip_spaces digits_value
first_number = refl

third_number : node_number own_node ≡ some (pos 3)
unfolding scan_int after_prefix signed unsigned skip_spaces digits_value
third_number = refl

both_before : All (IsLast (own_number (pos 0) own_path)) (first_node ∷ own_node ∷ [])
both_before = (
  λ num e. ground (arith, e, first_number, own_number_three),
  (λ num e. ground (arith, e, third_number, own_number_three), tt),
)

before_three :
    predecessor (own_number (pos 0) own_path) (first_node ∷ own_node ∷ []) ≡ some first_node
unfolding predecessor prev_loop prev_step scan_int after_prefix signed unsigned skip_spaces
    digits_value
before_three = refl

reached :
    connect_to keeper.zoo_get dial hang_up first_node (calm, full)
    ≡ (some dialled, (record calm { live = 12 }, full))
unfolding connect_to rlist_connect cut_line split_at atoi signed unsigned skip_spaces digits_value
    malloc take_outcome free
reached = refl

fits : regdata host (pos 9) ≡ some address
unfolding regdata decimal digits
fits = refl

zoo_init_server_joins_example :
    let out =
      zoo_init_server keeper dial hang_up direct
        (pos 0)
        (some host)
        host
        (pos 9)
        alone
        (calm, full) in
    (out.0 ≡ (
      ret (pos 1),
      record alone {
        zh = true;
        node_path = own_path;
        list = some (list_of (stable_sort two_cars));
      },
    ))
    × (out.1.1.1 ≡ some (list_of (stable_sort two_cars)))
unfolding ano_atual
zoo_init_server_joins_example =
    zoo_init_server_joins dialled (record calm { live = 12 }) calm two_cars refl refl
      two_cars-IsValid hang_up (λ w. refl) keeper dial (pos 0) (pos 9) host host address own_path
      first_node own_node first_node [] (calm, full) fits keeper-IsUp both_before before_three
      reached

zoo_init_server-cases_example :
    let out =
      zoo_init_server keeper dial hang_up direct
        (pos 0)
        (some host)
        host
        (pos 9)
        alone
        (calm, full) in
    Started keeper dial hang_up direct (pos 0) (some host) host (pos 9) alone (calm, full) out
zoo_init_server-cases_example =
    zoo_init_server-cases keeper dial hang_up direct (pos 0) (some host) host (pos 9) alone
      (calm, full)
