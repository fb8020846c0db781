-- ===== src/Stub/Received.antt =====
-- What the functions of source/client_stub.c read in a reply that a server sends.
use list_server.Base.{
  ℕ, ◌+◌, ◌≤◌, ◌≡◌, refl, sym, subst, none, some, List, [], ◌∷◌, map, arith, ◌==◌, CStr, pos,
  length, All, enum_of_int, int_of_enum, if◌then◌else◌,
}
use list_server.Sys.{Sys, NeverFails, malloc, malloc-NeverFails, malloc-cases}
use list_server.Car.{DataT, ano_atual, data_create, marca_mercedes, combustivel_hibrido}
use list_server.Car.Laws.{IsValid, data_create_valid, ano_atual_eq}
use list_server.Message.{MessageT, op_get, op_getlistbytear, ct_data}
use list_server.Skel.Replies.{list_reply}
use list_server.Skel.Conversion.{to_pb, to_pbs}
use list_server.Stub.{
  ret, marca_to_proto, combustivel_to_proto, proto_to_marca, proto_to_combustivel, op_success,
  create_received, receive_loop, receive_cars, read_get, read_year, copy_loop,
}

-- For the enums of a valid car the conversion there and back is the identity.
pub marca_round_trip : (m : ℕ) → m ≤ marca_mercedes → marca_to_proto (int_of_enum m) ≡ pos m
unfolding marca_to_proto int_of_enum
marca_round_trip m h = ground arith

pub combustivel_round_trip :
    (f : ℕ) → f ≤ combustivel_hibrido → combustivel_to_proto (int_of_enum f) ≡ pos f
unfolding combustivel_to_proto int_of_enum
combustivel_round_trip f h = ground arith

-- The cars of a reply, made again on the client: each valid one, in order, two blocks each.
receive_loop_lem :
    (s : Sys) (cs made : List DataT)
    → NeverFails s
    → All (IsValid (ano_atual s)) cs
    → let r = receive_loop (length cs) (to_pbs cs) made s in (r.0 ≡ ret (some cs)) × NeverFails r.1
unfolding receive_loop create_received
receive_loop_lem s [] made ok v = (refl, ok)
receive_loop_lem s (c ∷ cs) made ok v =
    let one = data_create_valid s c v.0 ok in
    let t = (data_create c.ano c.preco c.marca (some c.modelo) c.combustivel s).1 in
    let v' = subst (λ y. All (IsValid y) cs) (sym (ano_atual_eq t s one.3)) v.1 in
    ground (arith, one, receive_loop_lem t cs (c ∷ made) one.1 v')

-- The reply that lists the cars `cs` is read as those cars; an empty one is read as NULL.
pub read_year_listed :
    (s : Sys) (msg : MessageT) (cs : List DataT)
    → NeverFails s
    → All (IsValid (ano_atual s)) cs
    → msg.opcode ≡ op_getlistbytear
    → let r = read_year (some (list_reply msg cs)) s in
      (r.0 ≡ ret (if length cs == 0 then none else some cs)) × NeverFails r.1
unfolding read_year receive_cars op_success
read_year_listed s msg cs ok v h =
    let t = (malloc s).1 in
    let given = malloc-NeverFails s ok in
    let clock : t.tm_year ≡ s.tm_year = ground (arith, malloc-cases s) in
    let v' = subst (λ y. All (IsValid y) cs) (sym (ano_atual_eq t s clock)) v in
    ground (arith, given, receive_loop_lem t cs [] given.1 v')

marca_back : (m : ℕ) → m ≤ marca_mercedes → enum_of_int (proto_to_marca (int_of_enum m)) ≡ m
unfolding proto_to_marca int_of_enum enum_of_int
marca_back m h = ground arith

combustivel_back :
    (f : ℕ) → f ≤ combustivel_hibrido → enum_of_int (proto_to_combustivel (int_of_enum f)) ≡ f
unfolding proto_to_combustivel int_of_enum enum_of_int
combustivel_back f h = ground arith

-- The reply that holds the valid car `c` is read as that car.
pub read_get_found :
    (s : Sys) (res : MessageT) (c : DataT)
    → NeverFails s
    → IsValid (ano_atual s) c
    → res.opcode ≡ op_get + 1
    → res.c_type ≡ ct_data
    → res.data_ ≡ some (to_pb c)
    → (read_get (some res) s).0 ≡ ret (some c)
unfolding read_get op_success
read_get_found s res c ok v op k d =
    let one = data_create_valid s c v ok in
    let m = marca_back c.marca v.brand in
    let f = combustivel_back c.combustivel v.fuel in ground (arith, m, f, one)

pub copy_loop_lem :
    (s : Sys) (ms : List CStr)
    → NeverFails s
    → let r = copy_loop (length ms) ms s in (r.0 ≡ ret (map some ms)) × NeverFails r.1
unfolding copy_loop
copy_loop_lem s [] ok = (refl, ok)
copy_loop_lem s (m ∷ ms) ok =
    let one = malloc-NeverFails s ok in ground (arith, one, copy_loop_lem (malloc s).1 ms one.1)
