-- ===== src/Skel/Conversion.antt =====
-- The cars of a reply of source/list_skel.c as protobuf messages, while the allocator gives.
use list_server.Base.{ℕ, ◌+◌, ◌≡◌, refl, Option, some, List, [], ◌∷◌, map, arith, pos, length}
use list_server.Sys.{Sys, NeverFails, malloc, malloc-NeverFails, free_lem}
use list_server.Car.{DataT}
use list_server.CarList.{ListT, array}
use list_server.Message.{PbData, MessageT, ct_list}
use list_server.Skel.{data_to_protobuf, convert_loop, data_array_to_protobuf_array, send_list}

abbrev pub to_pb : DataT → PbData
to_pb c = record {
  ano = c.ano;
  preco = c.preco;
  marca = c.marca;
  modelo = some c.modelo;
  combustivel = c.combustivel;
}

abbrev pub to_pbs : List DataT → List (Option PbData)
to_pbs = map λ c. some (to_pb c)

pub data_to_protobuf_valid :
    (s : Sys) (c : DataT)
    → NeverFails s
    → let r = data_to_protobuf (some c) s in (r.0 ≡ some (to_pb c)) × NeverFails r.1
unfolding data_to_protobuf
data_to_protobuf_valid s c ok = ground (arith, malloc-NeverFails s, malloc-NeverFails (malloc s).1)

convert_loop_valid :
    (s : Sys) (cs : List DataT)
    → NeverFails s
    → let r = convert_loop cs s in (r.0 ≡ to_pbs cs) × NeverFails r.1
unfolding convert_loop
convert_loop_valid s [] ok = (refl, ok)
convert_loop_valid s (c ∷ cs) ok =
    let d = data_to_protobuf_valid s c ok in
    ground (arith, d, convert_loop_valid (data_to_protobuf (some c) s).1 cs d.1)

pub send_list_valid :
    (s : Sys) (msg : MessageT) (n : ℕ) (cs : List DataT) (l : Option ListT)
    → NeverFails s
    → let r = send_list msg (some (array n cs)) l s in
      (r.0 ≡ (
        pos 0,
        record msg {
          opcode = msg.opcode + 1;
          c_type = ct_list;
          n_cars = length cs;
          cars = some (to_pbs cs);
        },
        l,
      ))
      × NeverFails r.1
unfolding send_list data_array_to_protobuf_array
send_list_valid s msg n cs l ok =
    let t = (malloc s).1 in
    let given = malloc-NeverFails s ok in
    ground (arith, given, convert_loop_valid t cs given.1, free_lem (convert_loop cs t).1)
