-- ===== src/Stub/Debug.antt =====
-- What the debugging functions of source/client_stub.c print, as values: data_pb_debug_print and
-- message_debug_print.
use list_server.Base.{
  ℕ, zero, suc, ◌≡◌, refl, ◌||◌, Option, none, some, List, [], ◌∷◌, ◌++◌, arith, ◌==◌,
  if◌then◌else◌, CStr, length, map, ℤ,
}
use list_server.Message.{
  PbData, MessageT, op_bad, op_add, op_get, op_del, op_size, op_getmodels, op_getlistbytear,
  ct_data, ct_marca, ct_model, ct_result, ct_list, ct_none,
}
use list_server.Stub.{Run, crash, ret}

-- The opcodes and the content types with a name here; the name stands for itself, `none` for
-- "OP_UNKNOWN" and "CT_UNKNOWN".
unfoldable pub opcode_to_str : ℕ → Option ℕ
opcode_to_str op =
    if op == op_bad
      || op == op_size
      || op == op_add
      || op == op_del
      || op == op_get
      || op == op_getmodels
      || op == op_getlistbytear
    then some op
    else none

unfoldable pub ctype_to_str : ℕ → Option ℕ
ctype_to_str ct =
    if ct == ct_none
      || ct == ct_result
      || ct == ct_model
      || ct == ct_marca
      || ct == ct_data
      || ct == ct_list
    then some ct
    else none

pub data Line : Type 0 where
  null_message no_models no_data null_data no_cars end_line : Line
  head_line : ℕ → Option ℕ → ℕ → Option ℕ → Line
  result_line : ℤ → Line
  models_line cars_line : ℕ → Line
  model_line : CStr → Line
  data_line : PbData → Line

unfoldable pub data_pb_debug_print : Option PbData → Line
data_pb_debug_print none = null_data
data_pb_debug_print (some d) = data_line d

module _ {A : Type 0} (line : A → Line) where
  -- The first `n` items; a read behind the last is a crash.
  unfoldable pub print_items : ℕ → List A → Run (List Line)
  print_items zero xs = ret []
  print_items (suc n) [] = crash
  print_items (suc n) (x ∷ xs) = elim (print_items n xs) [
    | crash ↦ crash
    | ret lines ↦ ret (line x ∷ lines)
  ]

  unfoldable pub print_array : Line → (ℕ → Line) → ℕ → Option (List A) → Run (List Line)
  print_array empty title n none = ret (empty ∷ [])
  print_array empty title zero (some xs) = ret (empty ∷ [])
  print_array empty title (suc n) (some xs) = elim (print_items (suc n) xs) [
    | crash ↦ crash
    | ret lines ↦ ret (title (suc n) ∷ lines)
  ]

  print_items_all : (xs : List A) → print_items (length xs) xs ≡ ret (map line xs)
  unfolding print_items
  print_items_all [] = refl
  print_items_all (x ∷ xs) = rw (print_items_all xs, print_items)

-- The lines of a message, with those of its models and of its cars.
unfoldable pub printed : MessageT → List Line → List Line → List Line
printed msg models cars =
    (head_line msg.opcode (opcode_to_str msg.opcode) msg.c_type (ctype_to_str msg.c_type)
      ∷ result_line msg.result
      ∷ [])
    ++ models
    ++ ((elim msg.data_ [ none ↦ no_data | some d ↦ data_line d ]) ∷ [])
    ++ cars
    ++ (end_line ∷ [])

unfoldable pub message_debug_print : Option MessageT → Run (List Line)
message_debug_print none = ret (null_message ∷ [])
message_debug_print (some msg) =
    elim (print_array model_line no_models models_line msg.n_models msg.models) [
      | crash ↦ crash
      | ret models ↦ elim (print_array data_pb_debug_print no_cars cars_line msg.n_cars msg.cars) [
        | crash ↦ crash
        | ret cars ↦ ret (printed msg models cars)
      ]
    ]

print_array_all :
    {A : Type 0} (line : A → Line) (empty : Line) (title : ℕ → Line) (xs : List A)
    → (lines : List Line) × (print_array line empty title (length xs) (some xs) ≡ ret lines)
unfolding print_array
print_array_all line empty title [] = (empty ∷ [], refl)
print_array_all line empty title (x ∷ xs) =
    let all = print_items_all line (x ∷ xs) in
    (title (length (x ∷ xs)) ∷ map line (x ∷ xs), ground (arith, all))

-- A message whose counts are those of its arrays, as `message_t__unpack` makes it, is printed without
-- a read out of bounds.
message_debug_print_lem :
    (msg : MessageT) (models : List CStr) (cars : List (Option PbData))
    → msg.models ≡ some models
    → msg.n_models ≡ length models
    → msg.cars ≡ some cars
    → msg.n_cars ≡ length cars
    → (lines : List Line) × (message_debug_print (some msg) ≡ ret lines)
unfolding message_debug_print
message_debug_print_lem msg models cars m n c k =
    let (ms, e) = print_array_all model_line no_models models_line models in
    let (cs, f) = print_array_all data_pb_debug_print no_cars cars_line cars in
    (printed msg ms cs, ground (arith, m, n, c, k, e, f))
