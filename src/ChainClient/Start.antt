-- ===== src/ChainClient/Start.antt =====
-- How a client of source/chain_client.c finds the chain, follows it and leaves: zoo_init_client, the
-- watchers and zoo_clean_client. `errno == EBUSY` at the end is a parameter, as `errno` is.
use list_server.Base.{
  refl, ◌≡◌, sym, subst, ap, ◌∙◌, inl, inr, Bool, [], ◌∷◌, true, false, not, ◌||◌, Option, none,
  some, List, arith, if◌then◌else◌, CStr, ℤ, pos, minus_one, ltb_ℤ, Bool-cases, Option-cases,
}
use list_server.Sys.{Sys, State, pure, ◌>>=◌, ◌>>◌}
use list_server.Stub.{RList, outside}
use list_server.Chain.{child_path, node_text, disconnect_last}
use list_server.Stub.Calls.{rlist_connect}
use list_server.Chain.Start.{ZooKeeper, Rooted, ZooEvent, session_event, child_event, other_event}
use list_server.ChainClient.{
  Remote, update_ends, reconnect, update_remote_list, head_node, tail_node,
}

-- What the file keeps: whether there is a handle, and the connections.
pub record Follower : Type 0 where
  pub zh : Bool
  pub ends : Remote

abbrev pub is_null : Option RList → Bool
is_null none = true
is_null (some r) = false

-- The watcher of the connection.
unfoldable pub connection_watcher : ZooEvent → Bool → Bool → Bool
connection_watcher session_event connected is_connected = connected
connection_watcher child_event connected is_connected = is_connected
connection_watcher other_event connected is_connected = is_connected

module _ {W : Type 0} (zk : ZooKeeper W) (connect : RList → State W (Option RList))
    (close : ℤ → State W Bool) (is_busy : State W Bool) where
  unfoldable pub find_ends : Follower → State (Sys × W) (ℤ × Follower)
  find_ends f = do
    children ← outside zk.get_children
    elim children [
      | none ↦ pure (minus_one, f)
      | some names ↦ do
        ends ← update_ends zk.zoo_get connect close names f.ends
        busy ← outside is_busy
        pure (
          if is_null ends.0 || is_null ends.1 || busy then minus_one else pos 1,
          record f { ends = ends },
        )
    ]

  unfoldable pub zoo_init_client : Option CStr → Follower → State (Sys × W) (ℤ × Follower)
  zoo_init_client none f = pure (minus_one, f)
  zoo_init_client (some hp) f = do
    zh ← outside (zk.zookeeper_init hp)
    let f' = record f { zh = zh }
    if not zh then pure (minus_one, f') else do
      missing ← outside zk.no_root
      made ← if missing then outside zk.create_root else pure true
      if not made then pure (minus_one, f') else find_ends f'

  unfoldable pub child_watcher : Bool → ZooEvent → Follower → State (Sys × W) Follower
  child_watcher true child_event f = do
    children ← outside zk.get_children
    elim children [
      | none ↦ pure f
      | some names ↦ do
        ends ← update_ends zk.zoo_get connect close names f.ends
        pure (record f { ends = ends })
    ]
  child_watcher _ _ f = pure f

  -- The handle is closed and stays set.
  unfoldable pub zoo_clean_client : Follower → State (Sys × W) Follower
  zoo_clean_client f = if not f.zh then pure f else do outside zk.zookeeper_close; pure f

  -- The connection `end` was made to the address that ZooKeeper gave for the node `name`.
  abbrev pub Dialled : CStr → Option RList → Type 0
  Dialled name end =
      (w : W) × (buffer : CStr) × (y : Sys × W) × ((zk.zoo_get (child_path name) w).0 ≡ some buffer)
      × ((rlist_connect connect (some (node_text buffer)) y).0 ≡ end)
      × (is_null end ≡ false)

  -- The children of /chain were listed behind a session and a root, and the two connections were made
  -- to the addresses of the head and of the tail among them.
  abbrev pub Connected : Option CStr → Sys × W → (ℤ × Follower) × (Sys × W) → Type 0
  Connected none x out = ⊥
  Connected (some hp) x out =
      (w : W) × (names : List CStr) × (head tail : CStr) × Rooted zk hp x.1 w
      × ((zk.get_children w).0 ≡ some names)
      × (head_node names ≡ some head)
      × (tail_node names ≡ some tail)
      × Dialled head out.0.1.ends.0
      × Dialled tail out.0.1.ends.1

  reconnect_read :
      (name buffer : CStr) (x : Sys × W)
      → (zk.zoo_get (child_path name) x.1).0 ≡ some buffer
      → reconnect zk.zoo_get connect close (some name) none x
        ≡ rlist_connect connect
            (some (node_text buffer))
            (x.0, (zk.zoo_get (child_path name) x.1).1)
  unfolding reconnect update_remote_list disconnect_last
  reconnect_read name buffer x e =
      let dial : Option CStr → State (Sys × W) (Option RList) = λ text. elim text [
        | none ↦ pure none
        | some found ↦ do
          disconnect_last zk.zoo_get connect close none
          rlist_connect connect (some (node_text found))
      ] in
      ap (λ (text : Option CStr). dial text (x.0, (zk.zoo_get (child_path name) x.1).1)) e

  reconnect-Dialled :
      (node : Option CStr) (x : Sys × W)
      → let out = reconnect zk.zoo_get connect close node none x in
        is_null out.0 ≡ false → (name : CStr) × (node ≡ some name) × Dialled name out.0
  unfolding reconnect update_remote_list
  reconnect-Dialled none x h = absurd (ground (arith, h))
  reconnect-Dialled (some name) x h = elim (Option-cases (zk.zoo_get (child_path name) x.1).0) [
    | inl e ↦ absurd (ground (arith, e, h))
    | inr (buffer, e) ↦
        let y : Sys × W = (x.0, (zk.zoo_get (child_path name) x.1).1) in
        (name, refl, (x.1, buffer, y, e, ap (λ z. z.0) (sym (reconnect_read name buffer x e)), h))
  ]

  -- The two ends of `update`, for a client that had none.
  update_ends-Dialled :
      (names : List CStr) (x : Sys × W)
      → let out = update_ends zk.zoo_get connect close names (none, none) x in
        is_null out.0.0 ≡ false
        → is_null out.0.1 ≡ false
        → (head : CStr) × (tail : CStr) × (head_node names ≡ some head)
          × (tail_node names ≡ some tail)
          × Dialled head out.0.0
          × Dialled tail out.0.1
  unfolding update_ends
  update_ends-Dialled [] x h k = absurd (ground (arith, h))
  update_ends-Dialled (c ∷ names) x h k =
      let y = (reconnect zk.zoo_get connect close (head_node (c ∷ names)) none x).1 in
      let (head, e, d) = reconnect-Dialled (head_node (c ∷ names)) x h in
      let (tail, e', d') = reconnect-Dialled (tail_node (c ∷ names)) y k in
      (head, tail, e, e', d, d')

  -- What `find_ends` comes to in a world behind a session and a root.
  abbrev Found : W → (ℤ × Follower) × (Sys × W) → Type 0
  Found w out =
      (names : List CStr) × (head tail : CStr) × ((zk.get_children w).0 ≡ some names)
      × (head_node names ≡ some head)
      × (tail_node names ≡ some tail)
      × Dialled head out.0.1.ends.0
      × Dialled tail out.0.1.ends.1

  find_ends-Found :
      (s : Sys) (w : W)
      → let out = find_ends (record { zh = true; ends = (none, none) }) (s, w) in
        ltb_ℤ out.0.0 (pos 0) ≡ false → Found w out
  unfolding find_ends
  find_ends-Found s w h = elim (Option-cases (zk.get_children w).0) [
    | inl e ↦ absurd (ground (arith, h, e))
    | inr (names, e) ↦
        let y : Sys × W = (s, (zk.get_children w).1) in
        let ends = (update_ends zk.zoo_get connect close names (none, none) y).0 in
        let (head, tail, eh, et, dh, dt) =
          update_ends-Dialled names y (ground (arith, h, e)) (ground (arith, h, e)) in
        let out = find_ends (record { zh = true; ends = (none, none) }) (s, w) in
        let same : out.0.1.ends ≡ ends = ground (arith, e) in
        (
          names,
          head,
          tail,
          e,
          eh,
          et,
          subst (λ (z : Remote). Dialled head z.0) (sym same) dh,
          subst (λ (z : Remote). Dialled tail z.1) (sym same) dt,
        )
  ]

  behind_root :
      (hp : CStr) (x : Sys × W) (w : W)
      → Rooted zk hp x.1 w
      → (out : (ℤ × Follower) × (Sys × W))
      → out ≡ find_ends (record { zh = true; ends = (none, none) }) (x.0, w)
      → ltb_ℤ out.0.0 (pos 0) ≡ false
      → Connected (some hp) x out
  behind_root hp x w root out run h =
      let (names, head, tail, e, eh, et, dh, dt) =
        find_ends-Found x.0 w
          (ap (λ (q : (ℤ × Follower) × (Sys × W)). ltb_ℤ q.0.0 (pos 0)) (sym run) ∙ h) in
      subst (Connected (some hp) x) (sym run) (w, names, head, tail, root, e, eh, et, dh, dt)

  -- The start of a client that has no connections, if it does not return below 0: a session was
  -- opened, /chain was there or made, and the connections were made to the addresses of the head and
  -- of the tail among the children that ZooKeeper then listed.
  pub zoo_init_client-Connected :
      (hp : Option CStr) (x : Sys × W)
      → let out = zoo_init_client hp (record { zh = false; ends = (none, none) }) x in
        ltb_ℤ out.0.0 (pos 0) ≡ false → Connected hp x out
  unfolding zoo_init_client
  zoo_init_client-Connected none x h = absurd (ground (arith, h))
  zoo_init_client-Connected (some hp) x h =
      let w = (zk.zookeeper_init hp x.1).1 in
      let w1 = (zk.no_root w).1 in
      let out = zoo_init_client (some hp) (record { zh = false; ends = (none, none) }) x in
      elim (Bool-cases (zk.zookeeper_init hp x.1).0) [
        | inr down ↦ absurd (ground (arith, down, h))
        | inl there ↦ elim (Bool-cases (zk.no_root w).0) [
          | inr found ↦
              behind_root hp x w1 (there, inl (found, refl)) out (ground (arith, there, found)) h
          | inl gone ↦ elim (Bool-cases (zk.create_root w1).0) [
            | inr bad ↦ absurd (ground (arith, there, gone, bad, h))
            | inl made ↦
                behind_root hp x (zk.create_root w1).1 (there, inr (gone, made, refl)) out
                  (ground (arith, there, gone, made)) h
          ]
        ]
      ]
