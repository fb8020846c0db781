-- ===== src/Stub/Requests.antt =====
-- The requests of source/client_stub.c against `invoke` of source/list_skel.c: each is answered as
-- the specification says.
use list_server.Base.{
  ℕ, ◌+◌, ◌^◌, ◌<◌, ◌≡◌, ◌≢◌, refl, ap, ◌++◌, inl, inr, some, List, [], ◌∷◌, arith, CStr, ℤ, pos,
  minus_one, length, length-map, keep, first, Option-cases, enum_of_int, enum_of_int-pos,
}
use list_server.Sys.{Sys, NeverFails}
use list_server.Car.{DataT, ano_atual}
use list_server.Car.Laws.{IsValid-cases}
use list_server.CarList.Edit.{
  list_of, list_remove_by_model_lem, same_model, list_of-append, list_of-drop_first,
}
use list_server.CarList.Query.{same_marca, same_ano, models_of}
use list_server.CarList.Sorted.{stable_sort, length-stable_sort}
use list_server.Message.{MessageT, ct_data, ct_model, ct_result, ct_none}
use list_server.Skel.{error_reply, dispatch}
use list_server.Skel.Replies.{
  list_reply, invoke_add_valid, invoke_add_invalid, invoke_get_found, invoke_get_nothing,
  invoke_year_one, invoke_year_all, invoke_models_valid, invoke_size_lem, invoke_del_lem,
}
use list_server.Skel.Conversion.{to_pb}
use list_server.Spec.{Request, Answer, Serves}
use list_server.Stub.{
  add_request, del_request, get_request, year_request, size_request, models_request,
}

-- The message that the stub sends for a request.
abbrev pub request : Request → MessageT
request (Request.add c) = add_request c (pos c.marca) (pos c.combustivel)
request (Request.del m) = del_request m
request (Request.get marca) = get_request (pos marca)
request (Request.in_year ano) = year_request ano
request Request.in_order = year_request minus_one
request Request.count = size_request
request Request.names = models_request

-- What a request can hold: enums of 32 bits, and a year that is not -1.
abbrev pub IsAsked : Request → Type 0
IsAsked (Request.add c) = (c.marca < 2 ^ 32) × (c.combustivel < 2 ^ 32)
IsAsked (Request.get marca) = marca < 2 ^ 31
IsAsked (Request.in_year ano) = ano ≢ minus_one
IsAsked _ = Unit

-- The message that carries an answer, made from the request's.
abbrev pub reply_to : MessageT → Answer → MessageT
reply_to msg Answer.done = record msg { opcode = msg.opcode + 1; c_type = ct_none; result = pos 0 }
reply_to msg Answer.rejected = error_reply msg
reply_to msg Answer.nothing = error_reply msg
reply_to msg Answer.removed = record msg {
  opcode = msg.opcode + 1;
  c_type = ct_result;
  result = pos 0;
}
reply_to msg Answer.missing = record msg {
  opcode = msg.opcode + 1;
  c_type = ct_result;
  result = pos 1;
}
reply_to msg (Answer.found c) = record msg {
  data_ = some (to_pb c);
  opcode = msg.opcode + 1;
  c_type = ct_data;
}
reply_to msg (Answer.listed cs) = list_reply msg cs
reply_to msg (Answer.counted n) = record msg {
  opcode = msg.opcode + 1;
  c_type = ct_result;
  result = pos n;
}
reply_to msg (Answer.named ms) = record msg {
  n_models = length ms;
  models = some ms;
  opcode = msg.opcode + 1;
  c_type = ct_model;
}

-- `invoke` returns -1 for a rejected car alone.
abbrev pub code : Answer → ℤ
code Answer.rejected = minus_one
code _ = pos 0

-- The list service runs the request `q` on the cars `cs` as the specification says.
abbrev pub Refines : Sys → List DataT → Request → Type 0
Refines s cs q =
    (a : Answer) × (ds : List DataT) × Serves (ano_atual s) cs q a ds
    × ((dispatch (request q) (some (list_of cs)) s).0
        ≡ (code a, reply_to (request q) a, some (list_of ds)))

size-Refines : (s : Sys) (cs : List DataT) → Refines s cs Request.count
unfolding dispatch size_request
size-Refines s cs =
    (Answer.counted (length cs), cs, Serves.size, ap (λ r. r.0) (invoke_size_lem s size_request cs))

module _ (s : Sys) (cs : List DataT) (ok : NeverFails s) where
  models-Refines : Refines s cs Request.names
  unfolding dispatch models_request
  models-Refines =
      let n = length-map cs (λ (c : DataT). c.modelo) in
      (
        Answer.named (models_of cs),
        cs,
        Serves.models,
        ground (arith, n, invoke_models_valid s models_request cs ok),
      )

  add-Refines : (c : DataT) → IsAsked (Request.add c) → Refines s cs (Request.add c)
  unfolding dispatch add_request
  add-Refines c (small, tiny) =
      let msg = request (Request.add c) in
      let m = enum_of_int-pos c.marca small in
      let f = enum_of_int-pos c.combustivel tiny in
      elim (IsValid-cases (ano_atual s) c) [
        | inl v ↦ (
          Answer.done,
          cs ++ c ∷ [],
          Serves.add_valid c v,
          ground (arith, m, f, invoke_add_valid s msg c (list_of cs) v ok, list_of-append cs c),
        )
        | inr bad ↦ (
          Answer.rejected,
          cs,
          Serves.add_invalid c bad,
          ground (arith, m, f, invoke_add_invalid s msg c (list_of cs) bad),
        )
      ]

  del-Refines : (m : CStr) → Refines s cs (Request.del m)
  unfolding dispatch del_request
  del-Refines m =
      let run = invoke_del_lem s (del_request m) (list_of cs) m refl refl in
      elim (list_remove_by_model_lem s (list_of cs) m) [
        | inl (c, h, e, _) ↦ (
          Answer.removed,
          _,
          Serves.del_first m c h,
          ground (arith, run, e, list_of-drop_first (same_model m) cs c h),
        )
        | inr (h, e) ↦ (Answer.missing, cs, Serves.del_none m h, ground (arith, run, e))
      ]

  get-Refines : (marca : ℕ) → marca < 2 ^ 31 → Refines s cs (Request.get marca)
  unfolding dispatch get_request
  get-Refines marca small =
      let msg = get_request (pos marca) in
      let m : enum_of_int (pos marca) ≡ marca = enum_of_int-pos marca (omega arith) in
      elim (Option-cases (first (same_marca marca) cs)) [
        | inl h ↦ (
          Answer.nothing,
          cs,
          Serves.get_none marca h,
          ap (λ r. r.0) (invoke_get_nothing s msg (list_of cs) refl (rw m h)),
        )
        | inr (c, h) ↦ (
          Answer.found c,
          cs,
          Serves.get_first marca c h,
          invoke_get_found s msg (list_of cs) c ok refl (rw m h),
        )
      ]

  year-Refines : (ano : ℤ) → ano ≢ minus_one → Refines s cs (Request.in_year ano)
  unfolding dispatch year_request
  year-Refines ano h = (
    Answer.listed (keep (same_ano ano) cs),
    cs,
    Serves.of_year ano h,
    invoke_year_one s (year_request ano) (list_of cs) ok h,
  )

  order-Refines : Refines s cs Request.in_order
  unfolding dispatch year_request
  order-Refines =
      let run = invoke_year_all s (year_request minus_one) (list_of cs) ok refl in
      (
        Answer.listed (stable_sort cs),
        stable_sort cs,
        Serves.sorted,
        ground (arith, run, length-stable_sort cs),
      )

  -- Every request of the stub is answered by the switch of `invoke`, while the server's allocator
  -- gives, as the specification says: the reply, the return code and the list afterwards. The enums
  -- of a car to add fit 32 bits, a brand to get fits 31, and a year that is asked for is not -1.
  pub dispatch-Refines : (q : Request) → IsAsked q → Refines s cs q
  dispatch-Refines (Request.add c) h = add-Refines c h
  dispatch-Refines (Request.del m) h = del-Refines m
  dispatch-Refines (Request.get marca) h = get-Refines marca h
  dispatch-Refines (Request.in_year ano) h = year-Refines ano h
  dispatch-Refines Request.in_order h = order-Refines
  dispatch-Refines Request.count h = size-Refines s cs
  dispatch-Refines Request.names h = models-Refines
