-- ===== src/Spec.antt =====
-- What the list service promises, with no pointers, counts, messages or allocations: a request on a
-- sequence of cars, its answer, and the sequence afterwards. Nothing here models a line of code.
use list_server.Base.{
  ℕ, ◌≡◌, ◌≢◌, none, some, List, [], ◌∷◌, ◌++◌, CStr, ℤ, minus_one, length, keep, first, drop_first,
}
use list_server.Car.{DataT}
use list_server.Car.Laws.{IsValid}
use list_server.CarList.Edit.{same_model}
use list_server.CarList.Query.{same_marca, same_ano, models_of}
use list_server.CarList.Sorted.{stable_sort}

pub data Request : Type 0 where
  add : DataT → Request
  del : CStr → Request
  get : ℕ → Request
  in_year : ℤ → Request
  in_order count names : Request

pub data Answer : Type 0 where
  done rejected removed missing nothing : Answer
  found : DataT → Answer
  listed : List DataT → Answer
  counted : ℕ → Answer
  named : List CStr → Answer

-- The year -1 is no year to ask for: it stands for the whole list in order.
pub data Serves (year : ℤ) (cs : List DataT) : Request → Answer → List DataT → Type 0 where
  add_valid : (c : DataT) → IsValid year c → Serves year cs (add c) done (cs ++ c ∷ [])
  add_invalid : (c : DataT) → ¬ IsValid year c → Serves year cs (add c) rejected cs
  del_first :
      (m : CStr) (c : DataT)
      → first (same_model m) cs ≡ some c
      → Serves year cs (del m) removed (drop_first (same_model m) cs)
  del_none : (m : CStr) → first (same_model m) cs ≡ none → Serves year cs (del m) missing cs
  get_first :
      (marca : ℕ) (c : DataT)
      → first (same_marca marca) cs ≡ some c
      → Serves year cs (get marca) (found c) cs
  get_none :
      (marca : ℕ) → first (same_marca marca) cs ≡ none → Serves year cs (get marca) nothing cs
  of_year :
      (ano : ℤ)
      → ano ≢ minus_one
      → Serves year cs (in_year ano) (listed (keep (same_ano ano) cs)) cs
  sorted : Serves year cs in_order (listed (stable_sort cs)) (stable_sort cs)
  size : Serves year cs count (counted (length cs)) cs
  models : Serves year cs names (named (models_of cs)) cs
