-- ===== src/Skel.antt =====
-- source/list_skel.c: the conversions to Data, and `invoke`, which runs a request on the list and
-- turns the message into its reply.
pub mod Conversion
pub mod Invariant
pub mod Clock
pub mod Steady
pub mod Replies
use list_server.Base.{
  ℕ, ◌+◌, not, Option, none, some, List, [], ◌∷◌, ◌==◌, if◌then◌else◌, CStr, ℤ, pos, pos_part,
  minus_one, ◌==ℤ◌, enum_of_int, length,
}
use list_server.Sys.{M, pure, ◌>>=◌, ◌>>◌, malloc, free}
use list_server.Car.{DataT, data_create, data_destroy}
use list_server.CarList.{
  ListT, Array, list_create, list_destroy, list_add, list_remove_by_model, list_get_by_marca,
  list_get_by_year, list_order_by_year, list_size, list_get_model_list, list_get_all,
}
use list_server.Message.{
  PbData, MessageT, op_add, op_get, op_del, op_size, op_getmodels, op_getlistbytear, op_error,
  ct_data, ct_marca, ct_model, ct_result, ct_list, ct_none,
}

-- The copy of `modelo` is not checked: it may be NULL.
unfoldable pub data_to_protobuf : Option DataT → M (Option PbData)
data_to_protobuf none = pure none
data_to_protobuf (some c) = do
  given ← malloc
  if not given then pure none else do
    copied ← malloc
    pure (
        some (record {
          ano = c.ano;
          preco = c.preco;
          marca = c.marca;
          modelo = if copied then some c.modelo else none;
          combustivel = c.combustivel;
        }))

unfoldable pub convert_loop : List DataT → M (List (Option PbData))
convert_loop [] = pure []
convert_loop (c ∷ cs) = do d ← data_to_protobuf (some c); ds ← convert_loop cs; pure (d ∷ ds)

-- The count `*k` and the array.
unfoldable pub data_array_to_protobuf_array :
    Option (Array DataT) → M (ℕ × Option (List (Option PbData)))
data_array_to_protobuf_array none = pure (0, none)
data_array_to_protobuf_array (some a) = do
  given ← malloc
  if not given
      then pure (0, none)
      else do arr ← convert_loop a.items; pure (length a.items, some arr)

unfoldable pub list_skel_init : M (Option ListT)
list_skel_init = list_create

unfoldable pub list_skel_destroy : Option ListT → M ℤ
list_skel_destroy none = pure minus_one
list_skel_destroy (some l) = do _ ← list_destroy (some l); pure (pos 0)

-- The return code, the message as it is sent back, and the list.
abbrev pub Served : Type 0
Served = ℤ × MessageT × Option ListT

-- OP_ERROR, CT_NONE, -1
abbrev pub error_reply : MessageT → MessageT
error_reply msg = record msg { opcode = op_error; c_type = ct_none; result = minus_one }

unfoldable pub invoke_size : MessageT → Option ListT → M Served
invoke_size msg list =
    if list_size list ==ℤ minus_one
    then pure (
      minus_one,
      record msg { opcode = op_error; c_type = ct_none; result = list_size list },
      list,
    )
    else pure (
      pos 0,
      record msg { opcode = msg.opcode + 1; c_type = ct_result; result = list_size list },
      list,
    )

unfoldable pub invoke_add : MessageT → Option PbData → Option ListT → M Served
invoke_add msg none list = pure (minus_one, error_reply msg, list)
invoke_add msg (some d) list = do
  car ← data_create d.ano d.preco d.marca d.modelo d.combustivel
  elim car [
    | none ↦ pure (minus_one, error_reply msg, list)
    | some c ↦ do
      (res, list') ← list_add list (some c)
      _ ← data_destroy (some c)
      if res ==ℤ pos 0
          then pure (
            pos 0,
            record msg { opcode = msg.opcode + 1; c_type = ct_none; result = pos 0 },
            list',
          )
          else pure (pos 0, error_reply msg, list')
  ]

-- A request that is not of type CT_MARCA goes back as it came.
unfoldable pub invoke_get : MessageT → Option ListT → M Served
invoke_get msg list =
    if msg.c_type == ct_marca
    then elim (list_get_by_marca list (enum_of_int msg.result)) [
      | none ↦ pure (pos 0, error_reply msg, list)
      | some c ↦ do
        d ← data_to_protobuf (some c)
        elim d [
          | none ↦ pure (pos 0, error_reply (record msg { data_ = none }), list)
          | some pb ↦ pure (
            pos 0,
            record msg { data_ = some pb; opcode = msg.opcode + 1; c_type = ct_data },
            list,
          )
        ]
    ]
    else pure (pos 0, msg, list)

-- `list_order_by_year` for its effect; the loop always ends (CarList/Order).
unfoldable pub ordered : Option ListT → Option ListT
ordered list = elim (list_order_by_year list) [ none ↦ list | some (rc, list') ↦ list' ]

unfoldable pub send_list : MessageT → Option (Array DataT) → Option ListT → M Served
send_list msg none list = pure (pos 0, error_reply msg, list)
send_list msg (some cars) list = do
  (k, arr) ← data_array_to_protobuf_array (some cars)
  free
  pure (
    pos 0,
    record msg { opcode = msg.opcode + 1; c_type = ct_list; n_cars = k; cars = arr },
    list,
  )

-- A year, or -1 for the whole list in order.
unfoldable pub invoke_year : MessageT → Option ListT → M Served
invoke_year msg list =
    if not (msg.result ==ℤ minus_one)
    then (do cars ← list_get_by_year list msg.result; send_list msg cars list)
    else (do cars ← list_get_all (ordered list); send_list msg cars (ordered list))

unfoldable pub invoke_models : MessageT → Option ListT → M Served
invoke_models msg list = do
  models ← list_get_model_list list
  let msg' = record msg { n_models = pos_part (list_size list) }
  elim models [
    | none ↦ pure (pos 0, error_reply (record msg' { models = none }), list)
    | some a ↦ pure (
      pos 0,
      record msg' { models = some a.items; opcode = msg.opcode + 1; c_type = ct_model },
      list,
    )
  ]

-- `msg->models[0]`; NULL also for n_models 1 with no models, which unpacking does not give.
unfoldable pub first_model : Option (List CStr) → Option CStr
first_model none = none
first_model (some []) = none
first_model (some (m ∷ ms)) = some m

unfoldable pub invoke_del : MessageT → Option ListT → M Served
invoke_del msg list = if not (msg.n_models == 1) then pure (pos 0, error_reply msg, list) else do
  (res, list') ← list_remove_by_model list (first_model msg.models)
  pure (pos 0, record msg { opcode = msg.opcode + 1; c_type = ct_result; result = res }, list')

-- The `switch` on the opcode.
unfoldable pub dispatch : MessageT → Option ListT → M Served
dispatch msg list =
    if msg.opcode == op_size
    then invoke_size msg list
    else if msg.opcode == op_add
    then invoke_add msg msg.data_ list
    else if msg.opcode == op_get
    then invoke_get msg list
    else if msg.opcode == op_getlistbytear
    then invoke_year msg list
    else if msg.opcode == op_getmodels
    then invoke_models msg list
    else if msg.opcode == op_del
    then invoke_del msg list
    else pure (pos 0, error_reply msg, list)

unfoldable pub invoke : Option MessageT → Option ListT → M (ℤ × Option MessageT × Option ListT)
invoke none list = pure (minus_one, none, list)
invoke (some msg) none = pure (minus_one, some msg, none)
invoke (some msg) (some l) = do
  (rc, msg', list') ← dispatch msg (some l)
  pure (rc, some msg', list')
