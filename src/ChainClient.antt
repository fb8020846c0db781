-- ===== src/ChainClient.antt =====
-- source/chain_client.c: the servers that a client talks to, the head of the chain for writes and
-- its tail for reads. ZooKeeper's `zoo_get` and the connection are parameters.
pub mod Ends
pub mod Start
pub mod Node
use list_server.Base.{
  ℕ, zero, suc, Bool, Option, none, some, List, [], ◌∷◌, if◌then◌else◌, CStr, get_elem?, ℤ, ltb_ℤ,
}
use list_server.Sys.{Sys, State, pure, ◌>>=◌, ◌>>◌}
use list_server.Stub.{RList, outside}
use list_server.Stub.Calls.{rlist_connect}
use list_server.Chain.{int_max, int_min, node_number, child_path, node_text, disconnect_last}

-- The least and the greatest number so far, and the indices of their names.
pub record Bounds : Type 0 where
  pub min : ℤ
  pub max : ℤ
  pub min_index : ℕ
  pub max_index : ℕ

unfoldable pub min_step : ℤ → ℕ → Bounds → Bounds
min_step num i b = if ltb_ℤ num b.min then record b { min = num; min_index = i } else b

unfoldable pub max_step : ℤ → ℕ → Bounds → Bounds
max_step num i b = if ltb_ℤ b.max num then record b { max = num; max_index = i } else b

unfoldable pub bounds_step : CStr → ℕ → Bounds → Bounds
bounds_step name i b = elim (node_number name) [
  | none ↦ b
  | some num ↦ max_step num i (min_step num i b)
]

-- The loop of `update`, from the name with index `i` on.
unfoldable pub bounds_loop : List CStr → ℕ → Bounds → Bounds
bounds_loop [] i b = b
bounds_loop (name ∷ names) i b = bounds_loop names (suc i) (bounds_step name i b)

-- Before the loop both indices are 0: names without numbers leave the first name for both ends.
abbrev pub no_bounds : Bounds
no_bounds = record { min = int_max; max = int_min; min_index = 0; max_index = 0 }

unfoldable pub head_node : List CStr → Option CStr
head_node names = get_elem? names (bounds_loop names 0 no_bounds).min_index

unfoldable pub tail_node : List CStr → Option CStr
tail_node names = get_elem? names (bounds_loop names 0 no_bounds).max_index

-- The connections to the head and to the tail; `none` for NULL.
abbrev pub Remote : Type 0
Remote = Option RList × Option RList

-- `get` is `zoo_get` (`none`: not ZOK), `connect` is `network_connect`, `close` the system call.
module _ {W : Type 0} (get : CStr → State W (Option CStr))
    (connect : RList → State W (Option RList)) (close : ℤ → State W Bool) where
  -- The old connection is kept only where the node cannot be read.
  unfoldable pub update_remote_list : CStr → Option RList → State (Sys × W) (Option RList)
  update_remote_list path rl = do
    text ← outside (get (child_path path))
    elim text [
      | none ↦ pure rl
      | some buffer ↦ do
        disconnect_last get connect close rl
        rlist_connect connect (some (node_text buffer))
    ]

  unfoldable pub reconnect : Option CStr → Option RList → State (Sys × W) (Option RList)
  reconnect none rl = pure rl
  reconnect (some node) rl = update_remote_list node rl

  -- `update` of the client.
  unfoldable pub update_ends : List CStr → Remote → State (Sys × W) Remote
  update_ends [] (head, tail) = pure (head, tail)
  update_ends (c ∷ names) (head, tail) = do
    head' ← reconnect (head_node (c ∷ names)) head
    tail' ← reconnect (tail_node (c ∷ names)) tail
    pure (head', tail')
