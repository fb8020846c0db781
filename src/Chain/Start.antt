-- ===== src/Chain/Start.antt =====
-- How a server of source/chain_server.c enters the chain, follows it and leaves it: zoo_init_server,
-- the watchers and zoo_clean_server. ZooKeeper's client library is a record of operations.
pub mod Enters
use list_server.Base.{
  ◌≡◌, ◌⊎◌, ℕ, Bool, true, false, not, ◌&&◌, Option, none, some, List, [], ◌∷◌, if◌then◌else◌, CStr,
  ℤ, pos, minus_one, ltb_ℤ,
}
use list_server.Sys.{Sys, State, pure, ◌>>=◌, ◌>>◌}
use list_server.CarList.{ListT}
use list_server.Message.{MessageT}
use list_server.Stub.{Run, crash, ret, RList, outside}
use list_server.Chain.{update, init_list, disconnect_last}
use list_server.Chain.Address.{regdata}

-- What the program calls. `no_root` is `zoo_exists` answering ZNONODE for /chain, `create_node` gives
-- the path of the new ephemeral, sequential node, `get_children` is `zoo_wget_children`, which also
-- sets the watch; `none` and `false` stand for results that are not ZOK.
pub record ZooKeeper (W : Type 0) : Type 0 where
  pub zookeeper_init : CStr → State W Bool
  pub no_root : State W Bool
  pub create_root : State W Bool
  pub create_node : CStr → State W (Option CStr)
  pub get_children : State W (Option (List CStr))
  pub zoo_get : CStr → State W (Option CStr)
  pub zookeeper_close : State W (Unit {0})

-- A session was opened, and /chain was there or was made; `w` is behind these calls.
abbrev pub Rooted : {W : Type 0} → ZooKeeper W → CStr → W → W → Type 0
Rooted zk hp w0 w =
    let w1 = (zk.zookeeper_init hp w0).1 in
    let w2 = (zk.no_root w1).1 in
    ((zk.zookeeper_init hp w0).0 ≡ true)
    × ((((zk.no_root w1).0 ≡ false) × (w ≡ w2))
        ⊎ (((zk.no_root w1).0 ≡ true)
            × ((zk.create_root w2).0 ≡ true)
            × (w ≡ (zk.create_root w2).1)))

-- The globals of the file, and the server's list. `zh` is true where the handle is not NULL.
pub record Member : Type 0 where
  pub zh : Bool
  pub is_connected : Bool
  pub node_path : CStr
  pub rl_next_server : Option RList
  pub list : Option ListT

-- Types and states of ZooKeeper's events.
pub data ZooEvent : Type 0 where
  session_event child_event other_event : ZooEvent

-- The watcher of the connection.
unfoldable pub connection_watcher : ZooEvent → Bool → Bool → Bool
connection_watcher session_event connected is_connected = connected
connection_watcher child_event connected is_connected = is_connected
connection_watcher other_event connected is_connected = is_connected

module _ {W : Type 0} (zk : ZooKeeper W) (connect : RList → State W (Option RList))
    (close : ℤ → State W Bool) (send : RList → MessageT → State W (Option MessageT))
    (junk : ℤ) where
  -- With the handle, the node and the children.
  unfoldable pub join_chain : List CStr → Member → State (Sys × W) (Run ℤ × Member)
  join_chain names m = do
    next ← update zk.zoo_get connect close junk m.node_path names m.rl_next_server
    out ← init_list zk.zoo_get connect close send junk m.node_path names m.list
    let m' = record m { rl_next_server = next; list = out.1 }
    pure (elim out.0 [
      | crash ↦ (crash, m')
      | ret code ↦ (ret (if ltb_ℤ code (pos 0) then minus_one else pos 1), m')
    ])

  unfoldable pub register : CStr → ℤ → Member → State (Sys × W) (Run ℤ × Member)
  register hostbuf port m = elim (regdata hostbuf port) [
    | none ↦ pure (ret minus_one, m)
    | some text ↦ do
      path ← outside (zk.create_node text)
      elim path [
        | none ↦ pure (ret minus_one, m)
        | some node_path ↦ do
          let m' = record m { node_path = node_path }
          children ← outside zk.get_children
          elim children [ none ↦ pure (ret minus_one, m') | some names ↦ join_chain names m' ]
      ]
  ]

  unfoldable pub zoo_init_server :
      Option CStr → CStr → ℤ → Member → State (Sys × W) (Run ℤ × Member)
  zoo_init_server none hostbuf port m = pure (ret minus_one, m)
  zoo_init_server (some hp) hostbuf port m = do
    zh ← outside (zk.zookeeper_init hp)
    let m' = record m { zh = zh }
    if not zh then pure (ret minus_one, m') else do
      missing ← outside zk.no_root
      made ← if missing then outside zk.create_root else pure true
      if not made then pure (ret minus_one, m') else register hostbuf port m'

  -- `connected` is the state that comes with the event.
  unfoldable pub child_watcher : Bool → ZooEvent → Member → State (Sys × W) Member
  child_watcher true child_event m = do
    children ← outside zk.get_children
    elim children [
      | none ↦ pure m
      | some names ↦ do
        next ← update zk.zoo_get connect close junk m.node_path names m.rl_next_server
        pure (record m { rl_next_server = next })
    ]
  child_watcher _ _ m = pure m

  unfoldable pub zoo_clean_server : Member → State (Sys × W) Member
  zoo_clean_server m = if not m.zh then pure m else do
    disconnect_last zk.zoo_get connect close m.rl_next_server
    outside zk.zookeeper_close
    pure (record m { rl_next_server = none; zh = false })
