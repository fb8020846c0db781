-- ===== src/Stub.antt =====
-- source/client_stub.c: each call builds a request, sends it, and reads the reply. What
-- `network_send_receive` does is the argument `send`, over a state that holds the client's allocator.
pub mod Received
pub mod Debug
pub mod Close
pub mod Calls
pub mod Requests
pub mod Remote
pub mod Replied
mod Enums
unfoldable pub use Enums.*
use list_server.Base.{
  ℕ, zero, suc, ◌+◌, Bool, true, false, not, ◌&&◌, ◌||◌, Option, none, some, List, [], ◌∷◌, ◌==◌,
  if◌then◌else◌, CStr, ℤ, pos, minus_one, ◌==ℤ◌, enum_of_int, int_of_enum, ltb_ℤ,
}
use list_server.CLib.{split_at, atoi}
use list_server.Sys.{Sys, State, M, pure, ◌>>=◌, ◌>>◌, malloc, free}
use list_server.Car.{
  DataT, data_create, data_destroy, marca_toyota, marca_bmw, marca_renault, marca_audi,
  marca_mercedes, combustivel_gasolina, combustivel_gasoleo, combustivel_eletrico,
  combustivel_hibrido,
}
use list_server.Message.{
  PbData, MessageT, message_init, op_bad, op_add, op_get, op_del, op_size, op_getmodels,
  op_getlistbytear, ct_data, ct_marca, ct_model, ct_result, ct_list, ct_none,
}

-- A call ends with a value, or in a read through NULL or past an array.
pub data Run {ℓ} (A : Type ℓ) : Type ℓ where
  ret : A → Run A
  crash : Run A

-- `op_success` here and `_op_success` in source/chain_server.c.
unfoldable pub op_success : Option MessageT → ℕ → ℕ → Bool
op_success none opcode ctype = false
op_success (some msg) opcode ctype =
    msg.opcode == opcode + 1 && not (msg.opcode == op_bad) && msg.c_type == ctype

unfoldable pub add_request : DataT → ℤ → ℤ → MessageT
add_request car marca combustivel = record message_init {
  opcode = op_add;
  c_type = ct_data;
  data_ = some (record {
    ano = car.ano;
    preco = car.preco;
    marca = enum_of_int marca;
    modelo = some car.modelo;
    combustivel = enum_of_int combustivel;
  });
}

unfoldable pub del_request : CStr → MessageT
del_request modelo = record message_init {
  models = some (modelo ∷ []);
  n_models = 1;
  opcode = op_del;
  c_type = ct_model;
}

unfoldable pub get_request : ℤ → MessageT
get_request marca = record message_init { opcode = op_get; c_type = ct_marca; result = marca }

unfoldable pub year_request : ℤ → MessageT
year_request ano = record message_init {
  opcode = op_getlistbytear;
  c_type = ct_result;
  result = ano;
}

unfoldable pub size_request : MessageT
size_request = record message_init { opcode = op_size; c_type = ct_none }

unfoldable pub models_request : MessageT
models_request = record message_init { opcode = op_getmodels; c_type = ct_none }

-- `data_create` on a received car, its enums as they came.
unfoldable pub create_received : PbData → M (Option DataT)
create_received d = data_create d.ano d.preco d.marca d.modelo d.combustivel

unfoldable pub destroy_all : List DataT → M (Unit {0})
destroy_all [] = pure tt
destroy_all (c ∷ cs) = do _ ← data_destroy (some c); destroy_all cs

-- The loop over `res_cars` for `n` more rounds; `made` holds the cars of the earlier rounds, which
-- are destroyed, with the array, when one cannot be made.
unfoldable pub receive_loop : ℕ → List (Option PbData) → List DataT → M (Run (Option (List DataT)))
receive_loop zero ds made = pure (ret (some []))
receive_loop (suc n) [] made = pure crash
receive_loop (suc n) (none ∷ ds) made = pure crash
receive_loop (suc n) (some d ∷ ds) made = do
  car ← create_received d
  elim car [
    | none ↦ do destroy_all made; free; pure (ret none)
    | some c ↦ do
      later ← receive_loop n ds (c ∷ made)
      elim later [
        | crash ↦ pure crash
        | ret none ↦ pure (ret none)
        | ret (some cs) ↦ pure (ret (some (c ∷ cs)))
      ]
  ]

-- `res->cars` of a reply with `n_cars` that is not 0, copied to an array of cars.
unfoldable pub receive_cars : MessageT → M (Run (Option (List DataT)))
receive_cars res = do
  given ← malloc
  if not given
      then pure (ret none)
      else elim res.cars [ none ↦ pure crash | some ds ↦ receive_loop res.n_cars ds [] ]

-- Reading the replies.
unfoldable pub read_add : Option MessageT → ℤ
read_add res = if op_success res op_add ct_none then pos 0 else minus_one

-- The reply is read before it is compared with NULL.
unfoldable pub read_del : Option MessageT → Run ℤ
read_del none = crash
read_del (some res) =
    if res.opcode == op_del + 1 && res.c_type == ct_result then ret res.result else ret minus_one

unfoldable pub read_get : Option MessageT → M (Run (Option DataT))
read_get none = pure (ret none)
read_get (some res) =
    if not (op_success (some res) op_get ct_data) then pure (ret none) else elim res.data_ [
      | none ↦ pure crash
      | some d ↦ do
        c ←
            data_create d.ano d.preco (enum_of_int (proto_to_marca (int_of_enum d.marca))) d.modelo
              (enum_of_int (proto_to_combustivel (int_of_enum d.combustivel)))
        pure (ret c)
    ]

unfoldable pub read_year : Option MessageT → M (Run (Option (List DataT)))
read_year none = pure (ret none)
read_year (some res) =
    if not (op_success (some res) op_getlistbytear ct_list)
    then pure (ret none)
    else if res.n_cars == 0
    then pure (ret none)
    else receive_cars res

-- The return code, and the cars that `_print_car` printed.
unfoldable pub read_order : Option MessageT → M (Run (ℤ × List DataT))
read_order res = do
  cars ← read_year res
  elim cars [
    | crash ↦ pure crash
    | ret none ↦ pure (ret (minus_one, []))
    | ret (some cs) ↦ do destroy_all cs; free; pure (ret (pos 0, cs))
  ]

unfoldable pub read_size : Option MessageT → ℤ
read_size none = minus_one
read_size (some res) = if op_success (some res) op_size ct_result then res.result else minus_one

-- Neither the array nor a copy is compared with NULL.
unfoldable pub copy_loop : ℕ → List CStr → M (Run (List (Option CStr)))
copy_loop zero ms = pure (ret [])
copy_loop (suc n) [] = pure crash
copy_loop (suc n) (m ∷ ms) = do
  copied ← malloc
  later ← copy_loop n ms
  elim later [ crash ↦ pure crash | ret cs ↦ pure (ret ((if copied then some m else none) ∷ cs)) ]

unfoldable pub read_models : Option MessageT → M (Run (Option (List (Option CStr))))
read_models none = pure (ret none)
read_models (some res) =
    if not (op_success (some res) op_getmodels ct_model) then pure (ret none) else do
      given ← malloc
      if not given then pure crash else do
        copies ← elim res.models [
          | none ↦ copy_loop res.n_models []
          | some ms ↦ copy_loop res.n_models ms
        ]
        elim copies [ crash ↦ pure crash | ret cs ↦ pure (ret (some cs)) ]

-- struct rlist_t
pub record RList : Type 0 where
  pub server_address : CStr
  pub server_port : ℤ
  pub sockfd : ℤ

abbrev pub local {ℓ} : {W : Type 0} {A : Type ℓ} → M A → State (Sys × W) A
local m (s, w) = ((m s).0, ((m s).1, w))

abbrev pub outside {ℓ} : {W : Type 0} {A : Type ℓ} → State W A → State (Sys × W) A
outside m (s, w) = ((m w).0, (s, (m w).1))
