-- ===== src/CarList/Ending.antt =====
-- `list_destroy` of source/list.c: every block of a list is given back.
use list_server.Base.{ℕ, ◌+◌, ◌≤◌, ◌≡◌, some, List, [], ◌∷◌, arith, pos}
use list_server.Sys.{Sys, free, free_lem}
use list_server.Car.{DataT, data_destroy}
use list_server.CarList.{ListT, destroy_nodes, list_destroy}

-- Three blocks for each node: the node, the car and its model.
abbrev pub held : List DataT → ℕ
held [] = 0
held (c ∷ cs) = 3 + held cs

destroy_nodes_lem :
    (s : Sys) (cs : List DataT) → held cs ≤ s.live → (destroy_nodes cs s).1.live + held cs ≡ s.live
unfolding destroy_nodes data_destroy
destroy_nodes_lem s [] h = omega arith
destroy_nodes_lem s (c ∷ cs) h =
    let t = (free s).1 in
    let u = (free t).1 in
    ground (arith, free_lem s, free_lem t, free_lem u, destroy_nodes_lem (free u).1 cs)

-- `list_destroy` returns 0 and frees as many blocks as the list holds, three for each car and its
-- own. They are live before.
list_destroy_lem :
    (s : Sys) (l : ListT)
    → held l.cars + 1 ≤ s.live
    → let r = list_destroy (some l) s in (r.0 ≡ pos 0) × (r.1.live + (held l.cars + 1) ≡ s.live)
unfolding list_destroy
list_destroy_lem s l h =
    ground (arith, destroy_nodes_lem s l.cars, free_lem (destroy_nodes l.cars s).1)
