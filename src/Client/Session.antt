-- ===== src/Client/Session.antt =====
-- What source/list_client.c does for a command: writes go to the head of the chain, reads to its
-- tail, and what it prints is a value.
pub mod Makes
pub mod Written
pub mod Told
pub mod Link
pub mod Ends
pub mod Reading
use list_server.Base.{
  Bool, true, false, Option, none, some, List, [], ◌∷◌, if◌then◌else◌, CStr, ℕ, ℤ, pos, minus_one,
  ◌==ℤ◌, enum_of_int,
}
use list_server.Sys.{Sys, M, free, State, pure, ◌>>=◌, ◌>>◌}
use list_server.Car.{DataT, data_create, data_destroy}
use list_server.CarList.{Array}
use list_server.Message.{MessageT}
use list_server.Stub.{Run, ret, crash, RList, local, outside, destroy_all}
use list_server.Stub.Calls.{
  rlist_add, rlist_remove_by_model, rlist_get_by_marca, rlist_get_by_year, rlist_order_by_year,
  rlist_size, rlist_get_model_list,
}
use list_server.Client.{Command}

-- What is printed.
pub data Said : Type 0 where
  usage_shown help_shown invalid silent ended : Said
  added not_added removed missing not_removed : Said
  no_size no_car none_of_year none_at_all no_models : Said
  size_is : ℤ → Said
  car_is : DataT → Said
  cars_are : List DataT → Said
  models_are : List (Option CStr) → Said

unfoldable pub say_removed : ℤ → Said
say_removed r = if r ==ℤ pos 0 then removed else if r ==ℤ pos 1 then missing else not_removed

abbrev pub run_map {ℓ κ} : {A : Type ℓ} {B : Type κ} → (A → B) → Run A → Run B
run_map f crash = crash
run_map f (ret a) = ret (f a)

unfoldable pub say_car : Option DataT → Said
say_car none = no_car
say_car (some c) = car_is c

unfoldable pub say_cars : Option (List DataT) → Said
say_cars none = none_of_year
say_cars (some cs) = cars_are cs

unfoldable pub say_ordered : ℤ × List DataT → Said
say_ordered (code, cs) = if code ==ℤ pos 0 then cars_are cs else none_at_all

unfoldable pub say_models : Option (List (Option CStr)) → Said
say_models none = no_models
say_models (some ms) = models_are ms

-- What is printed is freed.
unfoldable pub free_car : Run (Option DataT) → M (Unit {0})
free_car (ret (some c)) = do _ ← data_destroy (some c); pure tt
free_car _ = pure tt

unfoldable pub free_cars : Run (Option (List DataT)) → M (Unit {0})
free_cars (ret (some cs)) = do destroy_all cs; free
free_cars _ = pure tt

-- Up to the first NULL.
unfoldable pub free_names : List (Option CStr) → M (Unit {0})
free_names [] = pure tt
free_names (none ∷ ms) = pure tt
free_names (some m ∷ ms) = do free; free_names ms

unfoldable pub free_models : Run (Option (List (Option CStr))) → M (Unit {0})
free_models (ret (some ms)) = do free_names ms; free
free_models _ = pure tt

-- `strtof` is a parameter; `send` is `network_send_receive`.
module _ {W : Type 0} (strtof : CStr → ℕ) (send : RList → MessageT → State W (Option MessageT))
    (rlh rlt : Option RList) where
  unfoldable pub run_add : CStr → ℤ → CStr → ℤ → ℤ → State (Sys × W) (Run Said)
  run_add modelo ano preco_s marca comb = do
    made ←
        local
          (data_create ano (strtof preco_s) (enum_of_int marca) (some modelo) (enum_of_int comb))
    elim made [
      | none ↦ pure (ret usage_shown)
      | some car ↦ do
        code ← rlist_add send rlh (some car)
        _ ← local (data_destroy (some car))
        pure (ret (if code ==ℤ pos 0 then added else not_added))
    ]

  unfoldable pub run_command : Command → State (Sys × W) (Run Said)
  run_command Command.quit = pure (ret ended)
  run_command Command.help = pure (ret help_shown)
  run_command Command.usage = pure (ret usage_shown)
  run_command Command.unknown = pure (ret invalid)
  run_command Command.nothing = pure (ret silent)
  run_command Command.size = do
    n ← rlist_size send rlt
    pure (ret (if n ==ℤ minus_one then no_size else size_is n))
  run_command (Command.add modelo ano preco_s marca comb) = run_add modelo ano preco_s marca comb
  run_command (Command.remove modelo) = do
    r ← rlist_remove_by_model send rlh (some modelo)
    pure (run_map say_removed r)
  run_command (Command.by_marca marca) = do
    car ← rlist_get_by_marca send rlt (enum_of_int marca)
    local (free_car car)
    pure (run_map say_car car)
  run_command (Command.by_year ano) = do
    cars ← rlist_get_by_year send rlt ano
    local (free_cars cars)
    pure (run_map say_cars cars)
  run_command Command.ordered = do
    out ← rlist_order_by_year send rlt
    pure (run_map say_ordered out)
  run_command Command.model_list = do
    models ← rlist_get_model_list send rlt
    local (free_models models)
    pure (run_map say_models models)
