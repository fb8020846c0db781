-- ===== src/Chain.antt =====
-- source/chain_server.c: the server's place in the chain of replicas, the transfer of the list from
-- its predecessor, and the forwarding of requests to its successor. ZooKeeper's `zoo_get` and the
-- connection are parameters.
pub mod Choice
pub mod Transfer
pub mod Address
pub mod Start
use list_server.Base.{
  ◌*◌, ◌-◌, ◌||◌, Bool, true, false, ℕ, zero, suc, ◌+◌, not, ◌&&◌, Option, none, some, List, [],
  ◌∷◌, ◌++◌, if◌then◌else◌, CStr, length, leb, get_elem?, take, ◌==◌, ℤ, pos, negsuc, minus_one,
  ltb_ℤ, ◌==ℤ◌,
}
use list_server.Sys.{Sys, State, M, pure, ◌>>=◌, ◌>>◌}
use list_server.Car.{DataT, data_destroy}
use list_server.CarList.{ListT, list_add}
use list_server.Message.{PbData, MessageT, message_init, op_getlistbytear, ct_result, ct_list}
use list_server.CLib.{scan_int, cut_line}
use list_server.Stub.{
  Run, crash, ret, RList, local, outside, op_success, year_request, create_received,
}
use list_server.Stub.Calls.{rlist_connect, rlist_disconnect}

-- `INT_MAX` and `INT_MIN`
abbrev pub int_max : ℤ
int_max = pos 0x7FFFFFFF

abbrev pub int_min : ℤ
int_min = negsuc 0x7FFFFFFF

-- `sscanf(name, "node-%d", &num) == 1`, with num
abbrev pub node_number : CStr → Option ℤ
node_number = scan_int (b'n' ∷ b'o' ∷ b'd' ∷ b'e' ∷ b'-' ∷ [])

-- A bound and the index that goes with it, `none` for -1.
abbrev pub Best : Type 0
Best = ℤ × Option ℕ

-- The loop of `update`: the least number above `lower`, from the name with index `i` on.
unfoldable pub next_step : ℤ → CStr → ℕ → Best → Best
next_step lower name i (next, at) = elim (node_number name) [
  | none ↦ (next, at)
  | some num ↦ if ltb_ℤ lower num && ltb_ℤ num next then (num, some i) else (next, at)
]

unfoldable pub next_loop : ℤ → List CStr → ℕ → Best → Best
next_loop lower [] i best = best
next_loop lower (name ∷ names) i best = next_loop lower names (suc i) (next_step lower name i best)

-- The loop of `init_list`: the greatest number below `maximum`.
unfoldable pub prev_step : ℤ → CStr → ℕ → Best → Best
prev_step maximum name i (prev, at) = elim (node_number name) [
  | none ↦ (prev, at)
  | some num ↦ if ltb_ℤ num maximum && ltb_ℤ prev num then (num, some i) else (prev, at)
]

unfoldable pub prev_loop : ℤ → List CStr → ℕ → Best → Best
prev_loop maximum [] i best = best
prev_loop maximum (name ∷ names) i best =
    prev_loop maximum names (suc i) (prev_step maximum name i best)

-- `children_list->data[index]`, where the index is not -1.
abbrev pub chosen : List CStr → Best → Option CStr
chosen names (n, none) = none
chosen names (n, some i) = get_elem? names i

unfoldable pub successor : ℤ → List CStr → Option CStr
successor lower names = chosen names (next_loop lower names 0 (int_max, none))

unfoldable pub predecessor : ℤ → List CStr → Option CStr
predecessor maximum names = chosen names (prev_loop maximum names 0 (int_min, none))

-- The number of the server's own node; `junk` is what the variable holds where `sscanf` leaves it.
abbrev pub own_number : ℤ → CStr → ℤ
own_number junk node_path =
    elim (scan_int
      (b'/' ∷ b'c' ∷ b'h' ∷ b'a' ∷ b'i' ∷ b'n' ∷ b'/' ∷ b'n' ∷ b'o' ∷ b'd' ∷ b'e' ∷ b'-' ∷ [])
      node_path) [ none ↦ junk | some n ↦ n ]

-- `ZDATALEN`
abbrev pub zdatalen : ℕ
zdatalen = 1024 * 1024

-- The path of a child, cut to its buffer, and the text of a node's data.
abbrev pub child_path : CStr → CStr
child_path name = take 1023 (b'/' ∷ b'c' ∷ b'h' ∷ b'a' ∷ b'i' ∷ b'n' ∷ b'/' ∷ name)

abbrev pub node_text : CStr → CStr
node_text buffer = cut_line (take (zdatalen - 1) buffer)

-- `get` is `zoo_get` (`none`: not ZOK), `connect` is `network_connect`, `close` the system call.
module _ {W : Type 0} (get : CStr → State W (Option CStr))
    (connect : RList → State W (Option RList)) (close : ℤ → State W Bool) where
  unfoldable pub disconnect_last : Option RList → State (Sys × W) (Unit {0})
  disconnect_last none = pure tt
  disconnect_last (some r) = do _ ← rlist_disconnect close (some r); pure tt

  -- Read the node of the child and connect to the address it holds.
  unfoldable pub connect_to : CStr → State (Sys × W) (Option RList)
  connect_to name = do
    text ← outside (get (child_path name))
    elim text [ none ↦ pure none | some buffer ↦ rlist_connect connect (some (node_text buffer)) ]

  -- `update`, from the old `rl_next_server` to the new one.
  unfoldable pub update : ℤ → CStr → List CStr → Option RList → State (Sys × W) (Option RList)
  update junk node_path [] next = pure next
  update junk node_path (c ∷ []) next = do disconnect_last next; pure none
  update junk node_path (c ∷ d ∷ names) next = do
    disconnect_last next
    elim (successor (own_number junk node_path) (c ∷ d ∷ names)) [
      | none ↦ pure none
      | some name ↦ connect_to name
    ]

-- The loop of `rlist_get_list_add`: each received car is made, and `list_add` appends a copy of it;
-- the car is destroyed only where `list_add` fails.
unfoldable pub add_loop : ℕ → List (Option PbData) → Option ListT → M (Run ℤ × Option ListT)
add_loop zero ds l = pure (ret (pos 0), l)
add_loop (suc n) [] l = pure (crash, l)
add_loop (suc n) (none ∷ ds) l = pure (crash, l)
add_loop (suc n) (some d ∷ ds) l = do
  made ← create_received d
  elim made [
    | none ↦ pure (ret minus_one, l)
    | some car ↦ do
      added ← list_add l (some car)
      elim (added.0 ==ℤ pos 0) [
        | false ↦ do _ ← data_destroy (some car); pure (ret minus_one, added.1)
        | true ↦ add_loop n ds added.1
      ]
  ]

-- What `rlist_get_list_add` makes of the reply.
unfoldable pub read_list : Option MessageT → Option ListT → M (Run ℤ × Option ListT)
read_list none l = pure (ret minus_one, l)
read_list (some res) l =
    if not (op_success (some res) op_getlistbytear ct_list)
    then pure (ret minus_one, l)
    else if res.n_cars == 0
    then pure (ret (pos 0), l)
    else elim res.cars [ none ↦ pure (crash, l) | some ds ↦ add_loop res.n_cars ds l ]

module _ {W : Type 0} (send : RList → MessageT → State W (Option MessageT)) where
  unfoldable pub rlist_get_list_add :
      Option RList → Option ListT → State (Sys × W) (Run ℤ × Option ListT)
  rlist_get_list_add none l = pure (ret minus_one, l)
  rlist_get_list_add (some r) l = do
    res ← outside (send r (year_request minus_one))
    local (read_list res l)

  -- -2 without a successor, 0 for any reply, -1 for none.
  unfoldable pub zoo_forward_to_successor : Option MessageT → Option RList → State W ℤ
  zoo_forward_to_successor none next = pure minus_one
  zoo_forward_to_successor (some msg) none = pure (negsuc 1)
  zoo_forward_to_successor (some msg) (some r) = do
    resp ← send r msg
    pure (elim resp [ none ↦ minus_one | some _ ↦ pos 0 ])

module _ {W : Type 0} (close : ℤ → State W Bool)
    (send : RList → MessageT → State W (Option MessageT)) where
  -- Ask the predecessor at `rl` for its list and leave it.
  unfoldable pub copy_from : Option RList → Option ListT → State (Sys × W) (Run ℤ × Option ListT)
  copy_from none l = pure (ret minus_one, l)
  copy_from (some rl) l = do
    copied ← rlist_get_list_add send (some rl) l
    elim copied.0 [
      | crash ↦ pure copied
      | ret code ↦ do
        left ← rlist_disconnect close (some rl)
        pure (ret (if code ==ℤ minus_one || left ==ℤ minus_one then minus_one else pos 1), copied.1)
    ]

module _ {W : Type 0} (get : CStr → State W (Option CStr))
    (connect : RList → State W (Option RList)) (close : ℤ → State W Bool)
    (send : RList → MessageT → State W (Option MessageT)) where
  unfoldable pub init_list :
      ℤ → CStr → List CStr → Option ListT → State (Sys × W) (Run ℤ × Option ListT)
  init_list junk node_path [] l = pure (ret (pos 1), l)
  init_list junk node_path (c ∷ []) l = pure (ret (pos 1), l)
  init_list junk node_path (c ∷ d ∷ names) l =
      elim (predecessor (own_number junk node_path) (c ∷ d ∷ names)) [
        | none ↦ pure (ret (pos 1), l)
        | some name ↦ do rl ← connect_to get connect close name; copy_from close send rl l
      ]
