-- ===== src/Tests/Cars.antt =====
-- The theorems on the cars and the list of source/data.c and source/list.c at sample values.
use list_server.Base.{◌+◌, ◌≡◌, ◌⊎◌, some, none, length, keep, first, drop_first, pos, ◌-ℤ◌}
use list_server.Car.{DataT, ano_atual, data_create}
use list_server.Car.Laws.{IsValid, Made, data_create-Made}
use list_server.CarList.{
  ListT, Array, list_add, list_remove_by_model, list_order_by_year, list_get_by_year,
}
use list_server.CarList.Edit.{list_of, Added, same_model, list_add-Added, list_remove_by_model_lem}
use list_server.CarList.Query.{same_ano, list_get_by_year_lem}
use list_server.CarList.Order.{list_order_by_year-IsSorted}
use list_server.CarList.Sorted.{IsSorted}
use list_server.Tests.{calm, tight, i3, clio, two_cars}

data_create-Made_example :
    let r = data_create (pos 2020) 0x41200000 1 (some i3.modelo) 2 tight in
    Made tight i3 r × ((r.0 ≡ none) ⊎ IsValid (ano_atual tight) i3)
data_create-Made_example = data_create-Made tight i3

list_add-Added_example :
    Added tight (list_of two_cars) i3 (list_add (some (list_of two_cars)) (some i3) tight)
list_add-Added_example = list_add-Added tight (list_of two_cars) i3

list_remove_by_model_example :
    let r = list_remove_by_model (some (list_of two_cars)) (some clio.modelo) calm in
    ((c : DataT) × (first (same_model clio.modelo) two_cars ≡ some c)
      × (r.0 ≡ (
        pos 0,
        some
            (record { size = pos 2 -ℤ pos 1; cars = drop_first (same_model clio.modelo) two_cars }),
      ))
      × (r.1.live ≡ 7))
    ⊎ ((first (same_model clio.modelo) two_cars ≡ none)
        × (r ≡ ((pos 1, some (list_of two_cars)), calm)))
list_remove_by_model_example = list_remove_by_model_lem calm (list_of two_cars) clio.modelo

list_order_by_year-IsSorted_example :
    (k : ListT) × (list_order_by_year (some (list_of two_cars)) ≡ some (pos 0, some k))
    × IsSorted k.cars
    × (k.size ≡ pos 2)
    × (keep (same_ano (pos 2015)) k.cars ≡ keep (same_ano (pos 2015)) two_cars)
list_order_by_year-IsSorted_example = list_order_by_year-IsSorted (list_of two_cars) (pos 2015)

list_get_by_year_example :
    let r = list_get_by_year (some (list_of two_cars)) (pos 2015) calm in
    ((a : Array DataT) × (r.0 ≡ some a)
      × (a.items ≡ keep (same_ano (pos 2015)) two_cars)
      × (length a.items + 1 ≡ a.slots)
      × (r.1.live ≡ 11))
    ⊎ ((r.0 ≡ none) × (r.1.live ≡ 10))
list_get_by_year_example = list_get_by_year_lem calm (list_of two_cars) (pos 2015)
