-- ===== src/Stub/Remote.antt =====
-- The calls of source/client_stub.c through a link that delivers every message to `invoke` of
-- source/list_skel.c and its reply back: a call on the client is the operation on the server's list.
use list_server.Stub.Received.{
  combustivel_round_trip, copy_loop_lem, marca_round_trip, read_get_found, read_year_listed,
}
use list_server.Base.{
  ℕ, ◌≤◌, ◌≡◌, ◌≢◌, refl, ◌⊎◌, inl, inr, ◌++◌, Option, none, some, List, [], ◌∷◌, map, arith, ◌==◌,
  CStr, ℤ, pos, minus_one, length, length-map, keep, first, drop_first, All, enum_of_int,
  enum_of_int-pos, if◌then◌else◌,
}
use list_server.Sys.{Sys, State, NeverFails, malloc, malloc-NeverFails, free_lem}
use list_server.Car.{DataT, ano_atual, marca_mercedes}
use list_server.Car.Laws.{IsValid}
use list_server.CarList.{ListT}
use list_server.CarList.Edit.{
  list_of, list_remove_by_model_lem, same_model, list_of-append, list_of-drop_first,
}
use list_server.CarList.Query.{same_marca, same_ano, models_of}
use list_server.CarList.Sorted.{stable_sort, length-stable_sort, All-stable_sort}
use list_server.Message.{MessageT, ct_data}
use list_server.Skel.{dispatch, invoke}
use list_server.Skel.Replies.{
  invoke_add_valid, invoke_get_found, invoke_year_one, invoke_year_all, invoke_models_valid,
  invoke_size_lem, invoke_del_lem,
}
use list_server.Skel.Conversion.{to_pb}
use list_server.Stub.{
  ret, RList, add_request, del_request, get_request, year_request, size_request, models_request,
  op_success, read_add, read_del, read_get, read_size, read_models, read_order,
}
use list_server.Stub.Calls.{
  rlist_add, rlist_remove_by_model, rlist_get_by_marca, rlist_get_by_year, rlist_order_by_year,
  rlist_size, rlist_get_model_list,
}

-- The server: its allocator and clock, and its list.
abbrev pub Server : Type 0
Server = Sys × Option ListT

abbrev pub direct : RList → MessageT → State Server (Option MessageT)
direct r msg (t, l) =
    ((invoke (some msg) l t).0.1, ((invoke (some msg) l t).1, (invoke (some msg) l t).0.2))

module _ (r : RList) (s t : Sys) (cs : List DataT) (ok : NeverFails t) where
  -- Over a link that delivers, and while no allocation fails on the server, `rlist_size` is the
  -- number of cars on the server.
  pub rlist_size_remote :
      (rlist_size direct (some r) (s, (t, some (list_of cs)))).0 ≡ pos (length cs)
  unfolding rlist_size invoke dispatch size_request read_size op_success
  rlist_size_remote = ground (arith, invoke_size_lem t size_request cs)

  -- Over a link that delivers, `rlist_add` of a car that is valid in the server's year returns 0,
  -- the car stands at the end of the server's list, and the client holds no block more. No
  -- allocation fails on either side.
  pub rlist_add_remote :
      (c : DataT)
      → NeverFails s
      → IsValid (ano_atual t) c
      → let out = rlist_add direct (some r) (some c) (s, (t, some (list_of cs))) in
        (out.0 ≡ pos 0) × (out.1.1.1 ≡ some (list_of (cs ++ c ∷ []))) × (out.1.0.live ≡ s.live)
  unfolding rlist_add invoke dispatch add_request read_add op_success
  rlist_add_remote c up v =
      let msg = add_request c (pos c.marca) (pos c.combustivel) in
      rw (marca_round_trip c.marca v.brand, combustivel_round_trip c.combustivel v.fuel, rlist_add)
        (ground (
          arith,
          malloc-NeverFails s up,
          free_lem (malloc s).1,
          enum_of_int-pos c.marca,
          enum_of_int-pos c.combustivel,
          invoke_add_valid t msg c (list_of cs) v ok,
          list_of-append cs c,
        ))

  -- Over a link that delivers, and while no allocation fails on either side,
  -- `rlist_remove_by_model` returns 0 and the server's list loses the first car of the model, or
  -- returns 1 and the list stays, as no car has the model.
  pub rlist_remove_by_model_remote :
      (m : CStr)
      → NeverFails s
      → let out = rlist_remove_by_model direct (some r) (some m) (s, (t, some (list_of cs))) in
        ((c : DataT) × (first (same_model m) cs ≡ some c)
          × (out.0 ≡ ret (pos 0))
          × (out.1.1.1 ≡ some (list_of (drop_first (same_model m) cs))))
        ⊎ ((first (same_model m) cs ≡ none)
            × (out.0 ≡ ret (pos 1))
            × (out.1.1.1 ≡ some (list_of cs)))
  unfolding rlist_remove_by_model invoke dispatch del_request read_del
  rlist_remove_by_model_remote m up =
      let run = invoke_del_lem t (del_request m) (list_of cs) m refl refl in
      let given = malloc-NeverFails s up in
      elim (list_remove_by_model_lem t (list_of cs) m) [
        | inl (c, h, e, _) ↦ inl (
          c,
          h,
          ground (arith, given, run, e),
          ground (arith, given, run, e, list_of-drop_first (same_model m) cs c h),
        )
        | inr (h, e) ↦ inr (h, ground (arith, given, run, e), ground (arith, given, run, e))
      ]

  -- Over a link that delivers, and while no allocation fails on either side, `rlist_get_by_marca`
  -- of one of the brands gives the server's first car of it, where the list has one and that car is
  -- valid in the client's year.
  pub rlist_get_by_marca_remote :
      (marca : ℕ) (c : DataT)
      → NeverFails s
      → marca ≤ marca_mercedes
      → first (same_marca marca) cs ≡ some c
      → IsValid (ano_atual s) c
      → (rlist_get_by_marca direct (some r) marca (s, (t, some (list_of cs)))).0 ≡ ret (some c)
  unfolding rlist_get_by_marca invoke dispatch get_request read_get op_success
  rlist_get_by_marca_remote marca c up small h v =
      let msg = get_request (pos marca) in
      let m : enum_of_int (pos marca) ≡ marca = enum_of_int-pos marca (omega arith) in
      let run = invoke_get_found t msg (list_of cs) c ok refl (rw m h) in
      let got =
        read_get_found s (record msg { data_ = some (to_pb c); opcode = 21; c_type = ct_data }) c up
          v refl refl refl in
      rw (marca_round_trip marca small, rlist_get_by_marca) (ground (arith, run, got))

  -- Over a link that delivers, and while no allocation fails on either side, `rlist_get_by_year`
  -- of a year that is not -1 gives the server's cars of the year in list order, all of them valid
  -- in the client's year; but NULL, as for an error, where there is none.
  pub rlist_get_by_year_remote :
      (ano : ℤ)
      → NeverFails s
      → ano ≢ minus_one
      → All (IsValid (ano_atual s)) (keep (same_ano ano) cs)
      → let found = keep (same_ano ano) cs in
        (rlist_get_by_year direct (some r) ano (s, (t, some (list_of cs)))).0
        ≡ ret (if length found == 0 then none else some found)
  unfolding rlist_get_by_year invoke dispatch year_request
  rlist_get_by_year_remote ano up h v =
      let msg = year_request ano in
      let run = invoke_year_one t msg (list_of cs) ok h in
      ground (arith, run, read_year_listed s msg (keep (same_ano ano) cs) up v refl)

  -- Over a link that delivers, and while no allocation fails on either side, `rlist_order_by_year`
  -- prints the stable sort of the server's cars, which is then the server's list, and returns 0;
  -- but -1 where the list is empty. The cars are valid in the client's year.
  pub rlist_order_by_year_remote :
      NeverFails s
      → All (IsValid (ano_atual s)) cs
      → let out = rlist_order_by_year direct (some r) (s, (t, some (list_of cs))) in
        (out.0 ≡ ret (if length cs == 0 then (minus_one, []) else (pos 0, stable_sort cs)))
        × (out.1.1.1 ≡ some (list_of (stable_sort cs)))
  unfolding rlist_order_by_year invoke dispatch year_request read_order
  rlist_order_by_year_remote up v =
      let msg = year_request minus_one in
      let ds = stable_sort cs in
      let n = length-stable_sort cs in
      let run = invoke_year_all t msg (list_of cs) ok refl in
      let got = read_year_listed s msg ds up (All-stable_sort _ cs v) refl in
      (ground (arith, run, got, n), ground (arith, run, n))

  -- Over a link that delivers, and while no allocation fails on either side, `rlist_get_model_list`
  -- gives a copy of the model of every car on the server, in list order.
  pub rlist_get_model_list_remote :
      NeverFails s
      → (rlist_get_model_list direct (some r) (s, (t, some (list_of cs)))).0
        ≡ ret (some (map some (models_of cs)))
  unfolding rlist_get_model_list invoke dispatch models_request read_models op_success
  rlist_get_model_list_remote up =
      let run = invoke_models_valid t models_request cs ok in
      let given = malloc-NeverFails s up in
      ground (
        arith,
        run,
        given,
        copy_loop_lem (malloc s).1 (models_of cs) given.1,
        length-map cs (λ (c : DataT). c.modelo),
      )
