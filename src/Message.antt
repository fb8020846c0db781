-- ===== src/Message.antt =====
-- The messages of include/sdmessage.pb-c.h (from sdmessage.proto): opcodes, content types, and the
-- structs Data and MessageT. An enum is the unsigned int of 32 bits that it is stored in.
use list_server.Base.{ℕ, Option, none, List, CStr, ℤ, pos}

-- The values of the enums of MessageT, named as in sdmessage.proto.
abbrev pub op_bad : ℕ
op_bad = 0

abbrev pub op_add : ℕ
op_add = 10

abbrev pub op_get : ℕ
op_get = 20

abbrev pub op_del : ℕ
op_del = 30

abbrev pub op_size : ℕ
op_size = 40

abbrev pub op_getmodels : ℕ
op_getmodels = 50

abbrev pub op_getlistbytear : ℕ
op_getlistbytear = 60

abbrev pub op_order : ℕ
op_order = 70

abbrev pub op_error : ℕ
op_error = 99

abbrev pub op_busy : ℕ
op_busy = 100

abbrev pub op_ready : ℕ
op_ready = 101

abbrev pub ct_bad : ℕ
ct_bad = 0

abbrev pub ct_data : ℕ
ct_data = 10

abbrev pub ct_marca : ℕ
ct_marca = 20

abbrev pub ct_year : ℕ
ct_year = 30

abbrev pub ct_model : ℕ
ct_model = 40

abbrev pub ct_result : ℕ
ct_result = 50

abbrev pub ct_list : ℕ
ct_list = 60

abbrev pub ct_none : ℕ
ct_none = 70

-- struct Data; `modelo` is NULL where a copy failed and nobody looked.
pub record PbData : Type 0 where
  pub ano : ℤ
  pub preco : ℕ
  pub marca : ℕ
  pub modelo : Option CStr
  pub combustivel : ℕ

-- struct MessageT: each array stands beside its count, as in the source.
pub record MessageT : Type 0 where
  pub opcode : ℕ
  pub c_type : ℕ
  pub data_ : Option PbData
  pub result : ℤ
  pub n_models : ℕ
  pub models : Option (List CStr)
  pub n_cars : ℕ
  pub cars : Option (List (Option PbData))

-- MESSAGE_T__INIT
abbrev pub message_init : MessageT
message_init = record {
  opcode = op_bad;
  c_type = ct_bad;
  data_ = none;
  result = pos 0;
  n_models = 0;
  models = none;
  n_cars = 0;
  cars = none;
}
