-- ===== src/Skel/Replies.antt =====
-- The replies of `invoke` in source/list_skel.c while the allocator gives.
use list_server.Skel.Conversion.{data_to_protobuf_valid, send_list_valid, to_pb, to_pbs}
use list_server.Base.{
  ◌+◌, ◌≡◌, ◌≢◌, sym, subst, false, none, some, List, [], ◌∷◌, ◌++◌, arith, CStr, pos, minus_one,
  ◌==ℤ◌, ◌+ℤ◌, pos_part, length, keep, first, enum_of_int, ==ℤ_iff,
}
use list_server.Sys.{Sys, NeverFails, malloc-cases, free, malloc-NeverFails, free_lem}
use list_server.Car.{DataT, ano_atual, data_create, data_destroy}
use list_server.Car.Laws.{IsValid, data_create_valid, data_create_invalid, ano_atual_eq}
use list_server.CarList.{
  ListT, list_add, list_remove_by_model, list_get_by_year, list_get_all, list_size,
}
use list_server.CarList.Edit.{list_of, list_add_valid}
use list_server.CarList.Query.{
  same_marca, same_ano, models_of, list_get_by_marca_lem, list_get_by_year_valid,
  list_get_model_list_valid, list_get_all_valid,
}
use list_server.CarList.Sorted.{stable_sort}
use list_server.Message.{MessageT, ct_data, ct_marca, ct_model, ct_result, ct_list, ct_none}
use list_server.Skel.{
  error_reply, invoke_size, invoke_add, invoke_get, invoke_year, invoke_models, first_model,
  invoke_del,
}
use list_server.Skel.Clock.{send_list_year}
use list_server.Skel.Invariant.{ordered-stable_sort}

-- While the allocator gives, a valid car is appended, the reply is OP_ADD + 1 with result 0, and
-- only the three blocks of the new node stay.
pub invoke_add_valid :
    (s : Sys) (msg : MessageT) (c : DataT) (l : ListT)
    → IsValid (ano_atual s) c
    → NeverFails s
    → let r = invoke_add msg (some (to_pb c)) (some l) s in
      (r.0 ≡ (
        pos 0,
        record msg { opcode = msg.opcode + 1; c_type = ct_none; result = pos 0 },
        some (record { size = l.size +ℤ pos 1; cars = l.cars ++ c ∷ [] }),
      ))
      × NeverFails r.1
      × (r.1.live ≡ s.live + 3)
      × (r.1.tm_year ≡ s.tm_year)
unfolding invoke_add data_destroy
invoke_add_valid s msg c l v ok =
    let made = data_create_valid s c v ok in
    let t = (data_create c.ano c.preco c.marca (some c.modelo) c.combustivel s).1 in
    let v' = subst (λ y. IsValid y c) (sym (ano_atual_eq t s made.3)) v in
    let added = list_add_valid t l c v' made.1 in
    let u = (list_add (some l) (some c) t).1 in
    ground (arith, made, added, free_lem u, free_lem (free u).1)

-- A car that is not valid is refused: OP_ERROR, code -1, and the list as it was.
pub invoke_add_invalid :
    (s : Sys) (msg : MessageT) (c : DataT) (l : ListT)
    → ¬ IsValid (ano_atual s) c
    → invoke_add msg (some (to_pb c)) (some l) s ≡ ((minus_one, error_reply msg, some l), s)
unfolding invoke_add
invoke_add_invalid s msg c l bad =
    let refused = data_create_invalid s c bad in ground (arith, refused)

-- OP_GET of a brand: the first car of it.
pub invoke_get_found :
    (s : Sys) (msg : MessageT) (l : ListT) (c : DataT)
    → NeverFails s
    → msg.c_type ≡ ct_marca
    → first (same_marca (enum_of_int msg.result)) l.cars ≡ some c
    → (invoke_get msg (some l) s).0 ≡ (
      pos 0,
      record msg { data_ = some (to_pb c); opcode = msg.opcode + 1; c_type = ct_data },
      some l,
    )
unfolding invoke_get
invoke_get_found s msg l c ok k h =
    ground (arith, list_get_by_marca_lem l (enum_of_int msg.result), data_to_protobuf_valid s c ok)

pub invoke_get_nothing :
    (s : Sys) (msg : MessageT) (l : ListT)
    → msg.c_type ≡ ct_marca
    → first (same_marca (enum_of_int msg.result)) l.cars ≡ none
    → invoke_get msg (some l) s ≡ ((pos 0, error_reply msg, some l), s)
unfolding invoke_get
invoke_get_nothing s msg l k h = ground (arith, list_get_by_marca_lem l (enum_of_int msg.result))

-- The reply that lists `cs`.
abbrev pub list_reply : MessageT → List DataT → MessageT
list_reply msg cs = record msg {
  opcode = msg.opcode + 1;
  c_type = ct_list;
  n_cars = length cs;
  cars = some (to_pbs cs);
}

-- OP_GETLISTBYTEAR of a year that is not -1: the cars of the year, and the list as it was.
pub invoke_year_one :
    (s : Sys) (msg : MessageT) (l : ListT)
    → NeverFails s
    → msg.result ≢ minus_one
    → (invoke_year msg (some l) s).0
      ≡ (pos 0, list_reply msg (keep (same_ano msg.result) l.cars), some l)
unfolding invoke_year
invoke_year_one s msg l ok h =
    let cs = keep (same_ano msg.result) l.cars in
    let got = list_get_by_year_valid s l msg.result ok in
    let t = (list_get_by_year (some l) msg.result s).1 in
    let other : (msg.result ==ℤ minus_one) ≡ false = ground (arith, ==ℤ_iff msg.result minus_one) in
    ground (arith, got, send_list_valid t msg (length cs + 1) cs (some l) got.1)

-- OP_GETLISTBYTEAR of -1: the whole list in order, and the list stays in that order.
pub invoke_year_all :
    (s : Sys) (msg : MessageT) (l : ListT)
    → NeverFails s
    → msg.result ≡ minus_one
    → (invoke_year msg (some l) s).0
      ≡ (pos 0, list_reply msg (stable_sort l.cars), some (record l { cars = stable_sort l.cars }))
unfolding invoke_year
invoke_year_all s msg l ok h =
    let k = record l { cars = stable_sort l.cars } in
    let got = list_get_all_valid s k ok in
    let t = (list_get_all (some k) s).1 in
    let slots = pos_part (l.size +ℤ pos 1) in
    ground (arith, ordered-stable_sort l, got, send_list_valid t msg slots k.cars (some k) got.1)

-- The allocator and the clock behind it.
pub invoke_year_all_state :
    (s : Sys) (msg : MessageT) (l : ListT)
    → NeverFails s
    → msg.result ≡ minus_one
    → let t = (invoke_year msg (some l) s).1 in NeverFails t × (t.tm_year ≡ s.tm_year)
unfolding invoke_year list_get_all
invoke_year_all_state s msg l ok h =
    let k = record l { cars = stable_sort l.cars } in
    let got = list_get_all_valid s k ok in
    let t = (list_get_all (some k) s).1 in
    let slots = pos_part (l.size +ℤ pos 1) in
    ground (
      arith,
      ordered-stable_sort l,
      got,
      malloc-NeverFails s,
      malloc-cases s,
      send_list_valid t msg slots k.cars (some k) got.1,
      send_list_year t msg slots k.cars (some k),
    )

-- OP_GETMODELS: every model.
pub invoke_models_valid :
    (s : Sys) (msg : MessageT) (cs : List DataT)
    → NeverFails s
    → (invoke_models msg (some (list_of cs)) s).0 ≡ (
      pos 0,
      record msg {
        n_models = length cs;
        models = some (models_of cs);
        opcode = msg.opcode + 1;
        c_type = ct_model;
      },
      some (list_of cs),
    )
unfolding invoke_models list_size
invoke_models_valid s msg cs ok = ground (arith, list_get_model_list_valid s (list_of cs) ok)

-- OP_SIZE: the number of cars.
pub invoke_size_lem :
    (s : Sys) (msg : MessageT) (cs : List DataT)
    → invoke_size msg (some (list_of cs)) s ≡ (
      (
        pos 0,
        record msg { opcode = msg.opcode + 1; c_type = ct_result; result = pos (length cs) },
        some (list_of cs),
      ),
      s,
    )
unfolding invoke_size list_size
invoke_size_lem s msg cs = ground arith

-- OP_DEL of one model: the result is 0 and its first car is gone, or 1 and none is.
pub invoke_del_lem :
    (s : Sys) (msg : MessageT) (l : ListT) (m : CStr)
    → msg.n_models ≡ 1
    → msg.models ≡ some (m ∷ [])
    → let r = list_remove_by_model (some l) (some m) s in
      invoke_del msg (some l) s ≡ (
        (pos 0, record msg { opcode = msg.opcode + 1; c_type = ct_result; result = r.0.0 }, r.0.1),
        r.1,
      )
unfolding invoke_del first_model
invoke_del_lem s msg l m one h = ground arith
