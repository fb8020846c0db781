-- ===== src/Tests/Calls.antt =====
-- The theorems on the calls of source/client_stub.c and source/list_skel.c at sample values.
use list_server.Base.{◌≡◌, ◌≢◌, refl, arith, some, [], ◌∷◌, first, pos, minus_one}
use list_server.Car.{ano_atual}
use list_server.CarList.Edit.{list_of, StaysWell}
use list_server.CarList.Query.{same_marca}
use list_server.Message.{MessageT, message_init, op_add, op_error, ct_none}
use list_server.Skel.{invoke, dispatch, invoke_add}
use list_server.Skel.Invariant.{invoke-IsWell}
use list_server.Spec.{Request}
use list_server.Stub.{RList}
use list_server.Stub.Requests.{Refines, dispatch-Refines}
use list_server.Tests.{calm, clio, concept, two_cars, two_cars-IsWell}

abbrev bare_add : MessageT
bare_add = record message_init { opcode = op_add }

abbrev replica : RList
replica = record { server_address = b'h' ∷ []; server_port = pos 9000; sockfd = pos 4 }

invoke-IsWell_example :
    StaysWell (ano_atual calm) (invoke (some bare_add) (some (list_of two_cars)) calm).0.2
invoke-IsWell_example = invoke-IsWell calm (some bare_add) (list_of two_cars) two_cars-IsWell

bare_add_refused :
    (invoke (some bare_add) (some (list_of two_cars)) calm).0.1
    ≡ some (record bare_add { opcode = op_error; c_type = ct_none; result = minus_one })
unfolding invoke dispatch invoke_add
bare_add_refused = refl

dispatch-Refines_example : Refines calm two_cars (Request.add concept)
dispatch-Refines_example =
    dispatch-Refines calm two_cars refl (Request.add concept) (omega arith, omega arith)

first-clio : first (same_marca 2) two_cars ≡ some clio
unfolding first
first-clio = refl

year_is_asked : pos 2015 ≢ minus_one
year_is_asked = ground arith
