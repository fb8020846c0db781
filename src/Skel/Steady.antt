-- ===== src/Skel/Steady.antt =====
-- The requests of source/list_skel.c that only read: the allocator and the clock behind them.
use list_server.Base.{
  ℕ, ◌+◌, ◌≡◌, ◌≢◌, refl, false, ℤ, some, List, [], ◌∷◌, arith, ◌==ℤ◌, minus_one, length, keep,
  first, enum_of_int, ==ℤ_iff,
}
use list_server.Sys.{Sys, NeverFails, Steady, malloc, malloc-cases, malloc-NeverFails}
use list_server.Car.{DataT}
use list_server.CarList.{ListT, list_get_by_year, list_get_model_list, models_loop}
use list_server.CarList.Edit.{list_of}
use list_server.CarList.Query.{
  same_marca, same_ano, list_get_by_marca_lem, list_get_by_year_valid, list_get_model_list_valid,
}
use list_server.Message.{MessageT, ct_marca}
use list_server.Skel.{invoke_get, invoke_year, invoke_models}
use list_server.Skel.Clock.{data_to_protobuf_year, send_list_year}
use list_server.Skel.Conversion.{data_to_protobuf_valid, send_list_valid}

pub invoke_get_found-Steady :
    (s : Sys) (msg : MessageT) (l : ListT) (c : DataT)
    → NeverFails s
    → msg.c_type ≡ ct_marca
    → first (same_marca (enum_of_int msg.result)) l.cars ≡ some c
    → Steady s (invoke_get msg (some l) s).1
unfolding invoke_get
invoke_get_found-Steady s msg l c ok k h = ground (
  arith,
  list_get_by_marca_lem l (enum_of_int msg.result),
  data_to_protobuf_valid s c ok,
  data_to_protobuf_year s c,
)

list_get_by_year_clock :
    (s : Sys) (l : ListT) (ano : ℤ) → (list_get_by_year (some l) ano s).1.tm_year ≡ s.tm_year
unfolding list_get_by_year
list_get_by_year_clock s l ano = ground (arith, malloc-cases s)

pub invoke_year_one-Steady :
    (s : Sys) (msg : MessageT) (l : ListT)
    → NeverFails s
    → msg.result ≢ minus_one
    → Steady s (invoke_year msg (some l) s).1
unfolding invoke_year
invoke_year_one-Steady s msg l ok h =
    let cs = keep (same_ano msg.result) l.cars in
    let got = list_get_by_year_valid s l msg.result ok in
    let t = (list_get_by_year (some l) msg.result s).1 in
    let other : (msg.result ==ℤ minus_one) ≡ false = ground (arith, ==ℤ_iff msg.result minus_one) in
    let clock : t.tm_year ≡ s.tm_year = list_get_by_year_clock s l msg.result in
    ground (
      arith,
      got,
      clock,
      send_list_valid t msg (length cs + 1) cs (some l) got.1,
      send_list_year t msg (length cs + 1) cs (some l),
    )

models_loop_clock :
    (s : Sys) (cs : List DataT) (i : ℕ) → NeverFails s → (models_loop cs i s).1.tm_year ≡ s.tm_year
unfolding models_loop
models_loop_clock s [] i ok = refl
models_loop_clock s (c ∷ cs) i ok =
    let t = (malloc s).1 in
    ground (arith, malloc-cases s, malloc-NeverFails s ok, models_loop_clock t cs (i + 1))

list_get_model_list_clock :
    (s : Sys) (l : ListT) → NeverFails s → (list_get_model_list (some l) s).1.tm_year ≡ s.tm_year
unfolding list_get_model_list
list_get_model_list_clock s l ok =
    let given = malloc-NeverFails s ok in
    ground (arith, malloc-cases s, given, models_loop_clock (malloc s).1 l.cars 0)

pub invoke_models-Steady :
    (s : Sys) (msg : MessageT) (cs : List DataT)
    → NeverFails s
    → Steady s (invoke_models msg (some (list_of cs)) s).1
unfolding invoke_models
invoke_models-Steady s msg cs ok = ground (
  arith,
  list_get_model_list_valid s (list_of cs) ok,
  list_get_model_list_clock s (list_of cs) ok,
)
