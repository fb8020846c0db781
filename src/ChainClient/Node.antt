-- ===== src/ChainClient/Node.antt =====
-- `get_node_data` of source/chain_client.c, and the bounds of its buffers.
use list_server.Base.{
  ℕ, ◌≡◌, ◌<◌, ◌≤◌, none, some, Option, List, [], ◌∷◌, not, ◌++◌, arith, leb, if◌then◌else◌, CStr,
  ℤ, pos, ◌==ℤ◌, length, length-append,
}
use list_server.Chain.{zdatalen}

-- The result of `zoo_get` and the data of the node; `none` for a node without data, whose length
-- `zoo_get` gives as -1.
pub record NodeData : Type 0 where
  pub rc : ℤ
  pub value : Option (List ℕ)

-- What it prints: an error, or the content with its length; or it writes outside a buffer.
pub data NodeShown : Type 0 where
  unread : ℤ → NodeShown
  shown : List ℕ → ℕ → NodeShown
  outside_buffer : NodeShown

abbrev pub chain_prefix : CStr
chain_prefix = b'/' ∷ b'c' ∷ b'h' ∷ b'a' ∷ b'i' ∷ b'n' ∷ b'/' ∷ []

-- `zoo_get` copies as many bytes as the buffer has; the NUL goes behind them.
unfoldable pub print_node : NodeData → NodeShown
print_node n = if not (n.rc ==ℤ pos 0) then unread n.rc else elim n.value [
  | none ↦ outside_buffer
  | some bytes ↦ if leb zdatalen (length bytes) then outside_buffer else shown bytes (length bytes)
]

unfoldable pub get_node_data : (CStr → NodeData) → CStr → NodeShown
get_node_data zoo_get path =
    if leb 1024 (length (chain_prefix ++ path))
    then outside_buffer
    else print_node (zoo_get (chain_prefix ++ path))

-- Of a node that is there, with a name of at most 1016 bytes, exactly the data that are shorter than
-- the buffer are shown.
get_node_data_short :
    (zoo_get : CStr → NodeData) (path bytes : List ℕ)
    → length path ≤ 1016
    → zoo_get (chain_prefix ++ path) ≡ record { rc = pos 0; value = some bytes }
    → length bytes < zdatalen
    → get_node_data zoo_get path ≡ shown bytes (length bytes)
unfolding get_node_data print_node
get_node_data_short zoo_get path bytes h e small =
    rw e (ground (arith, length-append chain_prefix path))
