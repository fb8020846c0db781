-- ===== src/Skel/Clock.antt =====
-- The replies of source/list_skel.c leave the local clock alone.
use list_server.Base.{ℕ, ◌≡◌, refl, Option, some, List, [], ◌∷◌, arith}
use list_server.Sys.{Sys, malloc, malloc-cases, free_lem}
use list_server.Car.{DataT}
use list_server.CarList.{ListT, array}
use list_server.Message.{MessageT}
use list_server.Skel.{data_to_protobuf, convert_loop, data_array_to_protobuf_array, send_list}

pub data_to_protobuf_year :
    (s : Sys) (c : DataT) → (data_to_protobuf (some c) s).1.tm_year ≡ s.tm_year
unfolding data_to_protobuf
data_to_protobuf_year s c =
    ground (arith, malloc-cases s, malloc-cases (malloc s).1, free_lem (malloc (malloc s).1).1)

convert_loop_year : (s : Sys) (cs : List DataT) → (convert_loop cs s).1.tm_year ≡ s.tm_year
unfolding convert_loop
convert_loop_year s [] = refl
convert_loop_year s (c ∷ cs) =
    let t = (data_to_protobuf (some c) s).1 in
    ground (arith, data_to_protobuf_year s c, convert_loop_year t cs)

pub send_list_year :
    (s : Sys) (msg : MessageT) (n : ℕ) (cs : List DataT) (l : Option ListT)
    → (send_list msg (some (array n cs)) l s).1.tm_year ≡ s.tm_year
unfolding send_list data_array_to_protobuf_array
send_list_year s msg n cs l =
    let t = (malloc s).1 in
    ground
      (arith, malloc-cases s, convert_loop_year t cs, free_lem (convert_loop cs t).1, free_lem t)
