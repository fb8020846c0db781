-- ===== src/Stub/Enums.antt =====
-- The conversions between the enums of include/data.h and of the messages in source/client_stub.c.
use list_server.Base.{if◌then◌else◌, ℤ, pos, minus_one, ◌==ℤ◌}
use list_server.Car.{
  marca_toyota, marca_bmw, marca_renault, marca_audi, marca_mercedes, combustivel_gasolina,
  combustivel_gasoleo, combustivel_eletrico, combustivel_hibrido,
}

-- The conversions are the identity on the enum and -1 elsewhere.
unfoldable pub marca_to_proto : ℤ → ℤ
marca_to_proto marca =
    if marca ==ℤ pos marca_toyota
    then pos 0
    else if marca ==ℤ pos marca_bmw
    then pos 1
    else if marca ==ℤ pos marca_renault
    then pos 2
    else if marca ==ℤ pos marca_audi
    then pos 3
    else if marca ==ℤ pos marca_mercedes
    then pos 4
    else minus_one

unfoldable pub proto_to_marca : ℤ → ℤ
proto_to_marca pb =
    if pb ==ℤ pos 0
    then pos marca_toyota
    else if pb ==ℤ pos 1
    then pos marca_bmw
    else if pb ==ℤ pos 2
    then pos marca_renault
    else if pb ==ℤ pos 3
    then pos marca_audi
    else if pb ==ℤ pos 4
    then pos marca_mercedes
    else minus_one

unfoldable pub combustivel_to_proto : ℤ → ℤ
combustivel_to_proto combustivel =
    if combustivel ==ℤ pos combustivel_gasolina
    then pos 0
    else if combustivel ==ℤ pos combustivel_gasoleo
    then pos 1
    else if combustivel ==ℤ pos combustivel_eletrico
    then pos 2
    else if combustivel ==ℤ pos combustivel_hibrido
    then pos 3
    else minus_one

unfoldable pub proto_to_combustivel : ℤ → ℤ
proto_to_combustivel pb =
    if pb ==ℤ pos 0
    then pos combustivel_gasolina
    else if pb ==ℤ pos 1
    then pos combustivel_gasoleo
    else if pb ==ℤ pos 2
    then pos combustivel_eletrico
    else if pb ==ℤ pos 3
    then pos combustivel_hibrido
    else minus_one
