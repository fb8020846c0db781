-- ===== src/Client/Session/Makes.antt =====
-- The commands of source/list_client.c that make a request, and what it prints for the answers.
use list_server.Base.{ℕ, ◌≡◌, ◌≢◌, ◌≤◌, some, [], ◌∷◌, CStr, ℤ, pos, minus_one, map}
use list_server.Car.{DataT, marca_mercedes}
use list_server.Car.Laws.{IsValid}
use list_server.Spec.{Request, Answer}
use list_server.Stub.{RList}
use list_server.Client.{Command}
use list_server.Client.Session.{
  Said, added, not_added, removed, missing, no_car, none_of_year, none_at_all, size_is, car_is,
  cars_are, models_are,
}

-- The request that a command makes, in the year of the client's clock; `strtof` reads a price.
pub data Makes (strtof : CStr → ℕ) (year : ℤ) : Command → Request → Type 0 where
  makes_size : Makes strtof year Command.size Request.count
  makes_models : Makes strtof year Command.model_list Request.names
  makes_ordered : Makes strtof year Command.ordered Request.in_order
  makes_all : Makes strtof year (Command.by_year minus_one) Request.in_order
  makes_year :
      (ano : ℤ) → ano ≢ minus_one → Makes strtof year (Command.by_year ano) (Request.in_year ano)
  makes_get :
      (marca : ℕ)
      → marca ≤ marca_mercedes
      → Makes strtof year (Command.by_marca (pos marca)) (Request.get marca)
  makes_del : (m : CStr) → Makes strtof year (Command.remove m) (Request.del m)
  makes_add :
      (c : DataT) (preco_s : CStr)
      → IsValid year c
      → strtof preco_s ≡ c.preco
      → Makes strtof year
          (Command.add c.modelo c.ano preco_s (pos c.marca) (pos c.combustivel))
          (Request.add c)

-- The connection that a request is made on: `rlh`, to the head, for a write, and `rlt`, to the tail,
-- for the others.
abbrev pub at_end : RList → RList → Request → RList
at_end rlh rlt (Request.add c) = rlh
at_end rlh rlt (Request.del m) = rlh
at_end rlh rlt _ = rlt

-- What is printed for an answer. Where no car is listed, it depends on the command.
abbrev pub told : Command → Answer → Said
told command Answer.done = added
told command Answer.rejected = not_added
told command Answer.removed = removed
told command Answer.missing = missing
told command Answer.nothing = no_car
told command (Answer.found c) = car_is c
told (Command.by_year ano) (Answer.listed []) = none_of_year
told command (Answer.listed []) = none_at_all
told command (Answer.listed (c ∷ cs)) = cars_are (c ∷ cs)
told command (Answer.counted n) = size_is (pos n)
told command (Answer.named ms) = models_are (map some ms)
