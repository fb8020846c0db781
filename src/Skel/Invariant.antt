-- ===== src/Skel/Invariant.antt =====
-- `invoke` of source/list_skel.c keeps the list well formed, on every message and every outcome of
-- the allocations, and which requests leave it as it is.
use list_server.Base.{
  ◌≡◌, refl, sym, subst, true, false, ◌⊎◌, inl, inr, Option, none, some, ◌==◌, arith, CStr, ℤ,
  minus_one, ◌==ℤ◌, Bool-cases, Option-cases, if_rule,
}
use list_server.Sys.{Sys, M}
use list_server.Car.{DataT, ano_atual, data_create}
use list_server.Car.Laws.{data_create_clock, ano_atual_eq}
use list_server.CarList.{
  ListT, Array, list_add, list_remove_by_model, list_get_by_year, list_get_all,
}
use list_server.CarList.Edit.{
  IsWell, StaysWell, list_add-Added, list_add-IsWell, list_remove_by_model-IsWell,
}
use list_server.CarList.Order.{list_order_by_year-stable_sort, stable_sort-IsWell}
use list_server.CarList.Sorted.{stable_sort}
use list_server.Message.{
  PbData, MessageT, op_size, op_add, op_get, op_getlistbytear, op_getmodels, op_del, op_error,
}
use list_server.Skel.{
  Served, invoke_size, invoke_add, invoke_get, ordered, send_list, invoke_year, invoke_models,
  first_model, invoke_del, dispatch, invoke,
}

send_list_keeps :
    (s : Sys) (msg : MessageT) (a : Option (Array DataT)) (l : Option ListT)
    → (send_list msg a l s).0.2 ≡ l
unfolding send_list
send_list_keeps s msg none l = refl
send_list_keeps s msg (some a) l = refl

invoke_size_keeps : (s : Sys) (msg : MessageT) (l : Option ListT) → (invoke_size msg l s).0.2 ≡ l
unfolding invoke_size
invoke_size_keeps s msg l = ground arith

invoke_get_keeps : (s : Sys) (msg : MessageT) (l : Option ListT) → (invoke_get msg l s).0.2 ≡ l
unfolding invoke_get
invoke_get_keeps s msg l = ground arith

invoke_models_keeps :
    (s : Sys) (msg : MessageT) (l : Option ListT) → (invoke_models msg l s).0.2 ≡ l
unfolding invoke_models
invoke_models_keeps s msg l = ground arith

invoke_add_refused :
    (s : Sys) (msg : MessageT) (d : PbData) (l : Option ListT)
    → (data_create d.ano d.preco d.marca d.modelo d.combustivel s).0 ≡ none
    → (invoke_add msg (some d) l s).0.2 ≡ l
unfolding invoke_add
invoke_add_refused s msg d l h = ground arith

invoke_add_made :
    (s : Sys) (msg : MessageT) (d : PbData) (l : Option ListT) (c : DataT)
    → let r = data_create d.ano d.preco d.marca d.modelo d.combustivel s in
      r.0 ≡ some c → (invoke_add msg (some d) l s).0.2 ≡ (list_add l (some c) r.1).0.1
unfolding invoke_add
invoke_add_made s msg d l c h = ground arith

invoke_add-IsWell :
    (s : Sys) (msg : MessageT) (d : Option PbData) (l : ListT)
    → IsWell (ano_atual s) l
    → StaysWell (ano_atual s) (invoke_add msg d (some l) s).0.2
invoke_add-IsWell s msg none l w = unfold invoke_add in w
invoke_add-IsWell s msg (some d) l w =
    let r = data_create d.ano d.preco d.marca d.modelo d.combustivel s in
    let clock =
      ano_atual_eq r.1 s (data_create_clock s d.ano d.preco d.marca d.modelo d.combustivel) in
    elim (Option-cases r.0) [
      | inl e ↦ subst (StaysWell (ano_atual s)) (sym (invoke_add_refused s msg d (some l) e)) w
      | inr (c, e) ↦ subst (StaysWell (ano_atual s)) (sym (invoke_add_made s msg d (some l) c e)) (
          subst (λ y. StaysWell y (list_add (some l) (some c) r.1).0.1) clock
            (list_add-IsWell r.1 l c (subst (λ y. IsWell y l) (sym clock) w)))
    ]

remove-IsWell :
    (year : ℤ) (s : Sys) (l : ListT) (modelo : Option CStr)
    → IsWell year l
    → StaysWell year (list_remove_by_model (some l) modelo s).0.1
remove-IsWell year s l none w = unfold list_remove_by_model in w
remove-IsWell year s l (some modelo) w = list_remove_by_model-IsWell year s l modelo w

invoke_del-IsWell :
    (year : ℤ) (s : Sys) (msg : MessageT) (l : ListT)
    → IsWell year l
    → StaysWell year (invoke_del msg (some l) s).0.2
unfolding invoke_del
invoke_del-IsWell year s msg l w = elim (Bool-cases (msg.n_models == 1)) [
  | inl one ↦ rw one (remove-IsWell year s l (first_model msg.models) w)
  | inr other ↦ rw other w
]

pub ordered-stable_sort :
    (l : ListT) → ordered (some l) ≡ some (record l { cars = stable_sort l.cars })
unfolding ordered
ordered-stable_sort l = rw (list_order_by_year-stable_sort l, ordered)

invoke_year_one :
    (s : Sys) (msg : MessageT) (l : Option ListT)
    → (msg.result ==ℤ minus_one) ≡ false
    → (invoke_year msg l s).0.2 ≡ l
unfolding invoke_year
invoke_year_one s msg l h =
    let r = list_get_by_year l msg.result s in ground (arith, send_list_keeps r.1 msg r.0 l)

invoke_year_all :
    (s : Sys) (msg : MessageT) (l : Option ListT)
    → (msg.result ==ℤ minus_one) ≡ true
    → (invoke_year msg l s).0.2 ≡ ordered l
unfolding invoke_year
invoke_year_all s msg l h =
    let r = list_get_all (ordered l) s in ground (arith, send_list_keeps r.1 msg r.0 (ordered l))

invoke_year-IsWell :
    (year : ℤ) (s : Sys) (msg : MessageT) (l : ListT)
    → IsWell year l
    → StaysWell year (invoke_year msg (some l) s).0.2
invoke_year-IsWell year s msg l w = elim (Bool-cases (msg.result ==ℤ minus_one)) [
  | inl all ↦
      rw (invoke_year_all s msg (some l) all, ordered-stable_sort l) (stable_sort-IsWell year l w)
  | inr one ↦ rw (invoke_year_one s msg (some l) one) w
]

dispatch-IsWell :
    (s : Sys) (msg : MessageT) (l : ListT)
    → IsWell (ano_atual s) l
    → StaysWell (ano_atual s) (dispatch msg (some l) s).0.2
unfolding dispatch
dispatch-IsWell s msg l w =
    let P : M Served → Type 0 = λ m. StaysWell (ano_atual s) (m s).0.2 in
    let list = some l in
    if_rule P (msg.opcode == op_size) (rw (invoke_size_keeps s msg list) w) (
      if_rule P (msg.opcode == op_add) (invoke_add-IsWell s msg msg.data_ l w) (
        if_rule P (msg.opcode == op_get) (rw (invoke_get_keeps s msg list) w) (
          if_rule P (msg.opcode == op_getlistbytear) (invoke_year-IsWell _ s msg l w) (
            if_rule P (msg.opcode == op_getmodels) (rw (invoke_models_keeps s msg list) w)
              (if_rule P (msg.opcode == op_del) (invoke_del-IsWell _ s msg l w) w)))))

-- `invoke` keeps the list well formed: the count is the number of cars, and every car is valid in
-- the current year. It holds for every message, also a malformed one, and when allocations fail.
pub invoke-IsWell :
    (s : Sys) (msg : Option MessageT) (l : ListT)
    → IsWell (ano_atual s) l
    → StaysWell (ano_atual s) (invoke msg (some l) s).0.2
unfolding invoke
invoke-IsWell s none l w = w
invoke-IsWell s (some msg) l w = dispatch-IsWell s msg l w

invoke_add_error :
    (s : Sys) (msg : MessageT) (d : Option PbData) (l : ListT)
    → msg.opcode ≡ op_add
    → (invoke_add msg d (some l) s).0.1.opcode ≡ op_error
    → (invoke_add msg d (some l) s).0.2 ≡ some l
unfolding invoke_add
invoke_add_error s msg none l k bad = refl
invoke_add_error s msg (some d) l k bad =
    let r = data_create d.ano d.preco d.marca d.modelo d.combustivel s in
    elim (Option-cases r.0) [
      | inl e ↦ ground arith
      | inr (c, e) ↦ ground (arith, list_add-Added r.1 l c)
    ]

invoke_del_error :
    (s : Sys) (msg : MessageT) (l : ListT)
    → msg.opcode ≡ op_del
    → (invoke_del msg (some l) s).0.1.opcode ≡ op_error
    → (invoke_del msg (some l) s).0.2 ≡ some l
unfolding invoke_del
invoke_del_error s msg l k bad = ground arith

-- An OP_ADD or OP_DEL whose reply is OP_ERROR leaves the list as it was, count included, whatever
-- the allocator does.
pub invoke_error_keeps :
    (s : Sys) (msg : MessageT) (l : ListT)
    → (msg.opcode ≡ op_add) ⊎ (msg.opcode ≡ op_del)
    → (m : MessageT) → (invoke (some msg) (some l) s).0.1 ≡ some m
    → m.opcode ≡ op_error
    → (invoke (some msg) (some l) s).0.2 ≡ some l
unfolding invoke dispatch
invoke_error_keeps s msg l (inl add) m e bad =
    ground (arith, invoke_add_error s msg msg.data_ l add)
invoke_error_keeps s msg l (inr del) m e bad = ground (arith, invoke_del_error s msg l del)
