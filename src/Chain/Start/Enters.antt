-- ===== src/Chain/Start/Enters.antt =====
-- What a server of source/chain_server.c has when it has entered the chain, and when it could not.
use list_server.Base.{
  ◌≡◌, refl, sym, subst, ◌⊎◌, inl, inr, Bool, true, false, Option, none, some, List, [], ◌∷◌, arith,
  CStr, ℤ, pos, minus_one, ◌≤ℤ◌, All, Bool-cases, Option-cases,
}
use list_server.Sys.{Sys, State, NeverFails}
use list_server.Car.{DataT, ano_atual}
use list_server.Car.Laws.{IsValid}
use list_server.CarList.Edit.{list_of}
use list_server.CarList.Sorted.{stable_sort}
use list_server.Message.{MessageT}
use list_server.Stub.{Run, ret, RList}
use list_server.Stub.Remote.{Server, direct}
use list_server.Chain.{
  node_number, own_number, successor, predecessor, connect_to, disconnect_last, update,
}
use list_server.Chain.Choice.{All-IsAt, successor_lem}
use list_server.Chain.Transfer.{init_list_copies}
use list_server.Chain.Address.{regdata}
use list_server.Chain.Start.{ZooKeeper, Rooted, Member, join_chain, register, zoo_init_server}

-- A session with ZooKeeper in which all calls succeed: the server's node gets the path `path`, and
-- then /chain has the children `names`.
pub record IsUp (zk : ZooKeeper Server) (hp text path : CStr) (names : List CStr) : Type 0 where
  pub accepts : (w : Server) → zk.zookeeper_init hp w ≡ (true, w)
  pub rooted : (w : Server) → zk.no_root w ≡ (false, w)
  pub creates : (w : Server) → zk.create_node text w ≡ (some path, w)
  pub lists : (w : Server) → zk.get_children w ≡ (some names, w)

-- `main` calls `zoo_init_server` with this.
abbrev pub alone : Member
alone = record {
  zh = false;
  is_connected = false;
  node_path = [];
  rl_next_server = none;
  list = some (list_of []);
}

-- Nobody's number is above `n`.
abbrev pub IsLast : ℤ → CStr → Type 0
IsLast n name = (num : ℤ) → node_number name ≡ some num → num ≤ℤ n

no_successor : (n : ℤ) (names : List CStr) → All (IsLast n) names → successor n names ≡ none
no_successor n names last = elim (successor_lem n names) [
  | inr (e, _) ↦ e
  | inl (name, num, _, here, numbered, above, _) ↦
      let low = All-IsAt (IsLast n) name names last here num numbered in absurd (ground arith)
]

module _ {W : Type 0} (get : CStr → State W (Option CStr))
    (connect : RList → State W (Option RList)) (close : ℤ → State W Bool) where
  update_last :
      (junk : ℤ) (path c d : CStr) (names : List CStr) (x : Sys × W)
      → All (IsLast (own_number junk path)) (c ∷ d ∷ names)
      → update get connect close junk path (c ∷ d ∷ names) none x ≡ (none, x)
  unfolding update disconnect_last
  update_last junk path c d names x last =
      let e = no_successor (own_number junk path) (c ∷ d ∷ names) last in ground (arith, e)

module _ (r : RList) (s t : Sys) (cs : List DataT) (up : NeverFails s) (ok : NeverFails t)
    (v : All (IsValid (ano_atual s)) cs) (close : ℤ → State Server Bool)
    (shut : (w : Server) → close r.sockfd w ≡ (true, w)) where
  -- A server that starts while others are in the chain ends `zoo_init_server` with 1, as the tail of
  -- the chain: it has no successor, and its list is that of its predecessor, which is sorted by it.
  -- Its own number is the greatest of two names or more. All calls of ZooKeeper succeed, the
  -- predecessor is connected to, no allocation fails behind that, and its cars are valid here.
  pub zoo_init_server_joins :
      (zk : ZooKeeper Server) (connect : RList → State Server (Option RList)) (junk port : ℤ)
      (hp hostbuf text path c d name : CStr) (names : List CStr) (x : Sys × Server)
      → regdata hostbuf port ≡ some text
      → IsUp zk hp text path (c ∷ d ∷ names)
      → All (IsLast (own_number junk path)) (c ∷ d ∷ names)
      → predecessor (own_number junk path) (c ∷ d ∷ names) ≡ some name
      → connect_to zk.zoo_get connect close name x ≡ (some r, (s, (t, some (list_of cs))))
      → let out = zoo_init_server zk connect close direct junk (some hp) hostbuf port alone x in
        (out.0 ≡ (
          ret (pos 1),
          record alone { zh = true; node_path = path; list = some (list_of (stable_sort cs)) },
        ))
        × (out.1.1.1 ≡ some (list_of (stable_sort cs)))
  unfolding zoo_init_server register join_chain
  zoo_init_server_joins zk connect junk port hp hostbuf text path c d name names x fits z last p
        dialled =
      let (s0, w) = x in
      let tail = update_last zk.zoo_get connect close junk path c d names x last in
      let copied =
        init_list_copies r s t cs up ok v close shut zk.zoo_get connect junk path c d name names x p
          dialled in
      ground (arith, fits, z.accepts w, z.rooted w, z.creates w, z.lists w, tail, copied)

module _ {W : Type 0} (zk : ZooKeeper W) (connect : RList → State W (Option RList))
    (close : ℤ → State W Bool) (send : RList → MessageT → State W (Option MessageT))
    (junk : ℤ) where
  -- A start that does not come to the chain: -1, and nothing of the server but the handle and the
  -- node's path has changed.
  abbrev pub Refused : Member → Sys × W → (Run ℤ × Member) × (Sys × W) → Type 0
  Refused m x out =
      (out.0.0 ≡ ret minus_one)
      × (out.0.1.list ≡ m.list)
      × (out.0.1.rl_next_server ≡ m.rl_next_server)
      × (out.1.0 ≡ x.0)

  -- A call that fails behind the handle and the root: the address is too long, or the node cannot be
  -- made, or the children cannot be listed.
  pub data Unregistered (hostbuf : CStr) (port : ℤ) (w : W) : Type 0 where
    too_long : regdata hostbuf port ≡ none → Unregistered hostbuf port w
    no_node :
        {text : CStr}
        → regdata hostbuf port ≡ some text
        → (zk.create_node text w).0 ≡ none
        → Unregistered hostbuf port w
    no_children :
        {text path : CStr}
        → regdata hostbuf port ≡ some text
        → (zk.create_node text w).0 ≡ some path
        → (zk.get_children (zk.create_node text w).1).0 ≡ none
        → Unregistered hostbuf port w

  -- The first call that fails, of a start with the argument `hp`.
  pub data Fails (hostbuf : CStr) (port : ℤ) (w : W) : Option CStr → Type 0 where
    no_argument : Fails hostbuf port w none
    no_session : {hp : CStr} → (zk.zookeeper_init hp w).0 ≡ false → Fails hostbuf port w (some hp)
    no_root :
        {hp : CStr}
        → (zk.zookeeper_init hp w).0 ≡ true
        → (zk.no_root (zk.zookeeper_init hp w).1).0 ≡ true
        → (zk.create_root (zk.no_root (zk.zookeeper_init hp w).1).1).0 ≡ false
        → Fails hostbuf port w (some hp)
    no_entry :
        {hp : CStr} {z : W}
        → Rooted zk hp w z
        → Unregistered hostbuf port z
        → Fails hostbuf port w (some hp)

  -- The server's node was made with its address, and `update` and `init_list` run on the children
  -- that ZooKeeper then listed and the path that it gave the node.
  abbrev pub Registers : CStr → ℤ → Member → Sys → W → (Run ℤ × Member) × (Sys × W) → Type 0
  Registers hostbuf port m s w out =
      (text path : CStr) × (names : List CStr) × (regdata hostbuf port ≡ some text)
      × ((zk.create_node text w).0 ≡ some path)
      × ((zk.get_children (zk.create_node text w).1).0 ≡ some names)
      × (out
          ≡ join_chain zk connect close send junk names (record m { node_path = path })
              (s, (zk.get_children (zk.create_node text w).1).1))

  abbrev pub Joins :
      Option CStr → CStr → ℤ → Member → Sys × W → (Run ℤ × Member) × (Sys × W) → Type 0
  Joins none hostbuf port m x out = ⊥
  Joins (some hp) hostbuf port m x out =
      (w : W) × Rooted zk hp x.1 w × Registers hostbuf port (record m { zh = true }) x.0 w out

  abbrev pub Started :
      Option CStr → CStr → ℤ → Member → Sys × W → (Run ℤ × Member) × (Sys × W) → Type 0
  Started hp hostbuf port m x out =
      (Fails hostbuf port x.1 hp × Refused m x out) ⊎ Joins hp hostbuf port m x out

  register-cases :
      (hostbuf : CStr) (port : ℤ) (m : Member) (s : Sys) (w : W)
      → let out = register zk connect close send junk hostbuf port m (s, w) in
        (Unregistered hostbuf port w × Refused m (s, w) out) ⊎ Registers hostbuf port m s w out
  unfolding register
  register-cases hostbuf port m s w = elim (Option-cases (regdata hostbuf port)) [
    | inl long ↦ inl (too_long long, ground (arith, long))
    | inr (text, fits) ↦ elim (Option-cases (zk.create_node text w).0) [
      | inl bad ↦ inl (no_node fits bad, ground (arith, fits, bad))
      | inr (path, made) ↦ elim (Option-cases (zk.get_children (zk.create_node text w).1).0) [
        | inl bad ↦ inl (no_children fits made bad, ground (arith, fits, made, bad))
        | inr (names, got) ↦
            inr (text, path, names, fits, made, got, ground (arith, fits, made, got))
      ]
    ]
  ]

  -- Behind the handle and the root.
  behind_root :
      (hp hostbuf : CStr) (port : ℤ) (m : Member) (x : Sys × W) (w : W)
      → Rooted zk hp x.1 w
      → (out : (Run ℤ × Member) × (Sys × W))
      → out ≡ register zk connect close send junk hostbuf port (record m { zh = true }) (x.0, w)
      → Started (some hp) hostbuf port m x out
  behind_root hp hostbuf port m x w root out run =
      elim (register-cases hostbuf port (record m { zh = true }) x.0 w) [
        | inl (why, refused) ↦ inl (no_entry root why, subst (Refused m x) (sym run) refused)
        | inr joins ↦
            inr (
              w,
              root,
              subst (Registers hostbuf port (record m { zh = true }) x.0 w) (sym run) joins,
            )
      ]

  -- On every outcome of ZooKeeper's calls the start of a server is one of two: a call fails, or the
  -- argument or the address does not do, and it ends with -1 and leaves its list, its successor and
  -- its memory as they were; or all calls succeed in their order, and it goes on with `update` and
  -- `init_list` on the children that ZooKeeper listed, with the path that ZooKeeper gave its node.
  pub zoo_init_server-cases :
      (hp : Option CStr) (hostbuf : CStr) (port : ℤ) (m : Member) (x : Sys × W)
      → Started hp hostbuf port m x (zoo_init_server zk connect close send junk hp hostbuf port m x)
  unfolding zoo_init_server
  zoo_init_server-cases none hostbuf port m x = inl (no_argument, (refl, refl, refl, refl))
  zoo_init_server-cases (some hp) hostbuf port m x =
      let w = (zk.zookeeper_init hp x.1).1 in
      let w1 = (zk.no_root w).1 in
      let out = zoo_init_server zk connect close send junk (some hp) hostbuf port m x in
      elim (Bool-cases (zk.zookeeper_init hp x.1).0) [
        | inr down ↦ inl (no_session down, ground (arith, down))
        | inl there ↦ elim (Bool-cases (zk.no_root w).0) [
          | inr found ↦
              behind_root hp hostbuf port m x w1 (there, inl (found, refl)) out
                (ground (arith, there, found))
          | inl gone ↦ elim (Bool-cases (zk.create_root w1).0) [
            | inr bad ↦ inl (no_root there gone bad, ground (arith, there, gone, bad))
            | inl made ↦
                behind_root hp hostbuf port m x (zk.create_root w1).1
                  (there, inr (gone, made, refl)) out (ground (arith, there, gone, made))
          ]
        ]
      ]
