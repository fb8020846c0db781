-- ===== src/CarList.antt =====
-- source/list.c and `list_get_all` of source/list_skel.c. The chain of nodes from `head` is a list
-- of cars. A function that changes the list returns its code and the list afterwards.
pub mod Sorted
pub mod Ending
pub mod Edit
pub mod Query
pub mod Order
use list_server.Base.{
  ℕ, zero, suc, ◌+◌, ◌≡◌, Bool, true, false, ◌||◌, not, Option, none, some, List, [], ◌∷◌, arith,
  ◌==◌, if◌then◌else◌, CStr, str_eq, ℤ, pos, pos_part, minus_one, ◌+ℤ◌, ◌-ℤ◌, ltb_ℤ, ◌==ℤ◌, length,
}
use list_server.Sys.{Sys, M, pure, ◌>>=◌, ◌>>◌, malloc, free}
use list_server.Car.{DataT, data_destroy, data_dup}

-- struct list_t: the cached count, and the cars of the nodes from `head` on.
pub record ListT : Type 0 where
  pub size : ℤ
  pub cars : List DataT

-- A C array that ends in NULL: the slots that were allocated, and the items before the NULL.
pub record Array {ℓ} (A : Type ℓ) : Type ℓ where
  pub slots : ℕ
  pub items : List A

abbrev pub array {ℓ} : {A : Type ℓ} → ℕ → List A → Array A
array n xs = record { slots = n; items = xs }

unfoldable pub list_create : M (Option ListT)
list_create = do
  given ← malloc
  if not given then pure none else pure (some (record { size = pos 0; cars = [] }))

-- The loop of `list_destroy`: each car, then its node.
unfoldable pub destroy_nodes : List DataT → M (Unit {0})
destroy_nodes [] = pure tt
destroy_nodes (c ∷ cs) = do _ ← data_destroy (some c); free; destroy_nodes cs

unfoldable pub list_destroy : Option ListT → M ℤ
list_destroy none = pure minus_one
list_destroy (some l) = do destroy_nodes l.cars; free; pure (pos 0)

-- The walk to the last node, and the link behind it.
unfoldable pub link_last : List DataT → DataT → List DataT
link_last [] c = c ∷ []
link_last (x ∷ xs) c = x ∷ link_last xs c

unfoldable pub list_add : Option ListT → Option DataT → M (ℤ × Option ListT)
list_add none c = pure (minus_one, none)
list_add (some l) none = pure (minus_one, some l)
list_add (some l) (some c) = do
  given ← malloc
  if not given then pure (minus_one, some l) else do
    copy ← data_dup (some c)
    elim copy [
      | none ↦ do free; pure (minus_one, some l)
      | some d ↦ pure (pos 0, some (record { size = l.size +ℤ pos 1; cars = link_last l.cars d }))
    ]

-- The walk of `list_remove_by_model`: the first car of the model, and the chain without its node.
unfoldable pub unlink : CStr → List DataT → Option (DataT × List DataT)
unlink modelo [] = none
unlink modelo (c ∷ cs) =
    let later = unlink modelo cs in
    if str_eq c.modelo modelo
    then some (c, cs)
    else elim later [ none ↦ none | some (d, ds) ↦ some (d, c ∷ ds) ]

unfoldable pub list_remove_by_model : Option ListT → Option CStr → M (ℤ × Option ListT)
list_remove_by_model none modelo = pure (minus_one, none)
list_remove_by_model (some l) none = pure (minus_one, some l)
list_remove_by_model (some l) (some modelo) = elim (unlink modelo l.cars) [
  | none ↦ pure (pos 1, some l)
  | some (c, rest) ↦ do
    _ ← data_destroy (some c)
    free
    pure (pos 0, some (record { size = l.size -ℤ pos 1; cars = rest }))
]

unfoldable pub marca_loop : ℕ → List DataT → Option DataT
marca_loop marca [] = none
marca_loop marca (c ∷ cs) = if c.marca == marca then some c else marca_loop marca cs

-- The car stays in the list: the pointer is the node's own.
unfoldable pub list_get_by_marca : Option ListT → ℕ → Option DataT
list_get_by_marca none marca = none
list_get_by_marca (some l) marca = marca_loop marca l.cars

-- The first loop of `list_get_by_year` counts, the second fills.
unfoldable pub count_loop : ℤ → List DataT → ℕ → ℕ
count_loop ano [] count = count
count_loop ano (c ∷ cs) count = count_loop ano cs (if c.ano ==ℤ ano then count + 1 else count)

unfoldable pub year_loop : ℤ → List DataT → List DataT
year_loop ano [] = []
year_loop ano (c ∷ cs) = if c.ano ==ℤ ano then c ∷ year_loop ano cs else year_loop ano cs

unfoldable pub list_get_by_year : Option ListT → ℤ → M (Option (Array DataT))
list_get_by_year none ano = pure none
list_get_by_year (some l) ano = do
  given ← malloc
  if not given
      then pure none
      else pure (some (array (count_loop ano l.cars 0 + 1) (year_loop ano l.cars)))

-- One round of the `do`: it carries `current->data` along, and whether it has swapped.
unfoldable pub bubble : DataT → List DataT → Bool → Bool × List DataT
bubble x [] swapped = (swapped, x ∷ [])
bubble x (y ∷ ys) swapped =
    let greater = ltb_ℤ y.ano x.ano in
    let rest = bubble (if greater then x else y) ys (greater || swapped) in
    (rest.0, (if greater then y else x) ∷ rest.1)

unfoldable pub round : List DataT → Bool × List DataT
round [] = (false, [])
round (x ∷ xs) = bubble x xs false

-- `do … while (swapped)` on fuel; `none` if the fuel runs out.
unfoldable pub order_loop : ℕ → List DataT → Option (List DataT)
order_loop zero cs = none
order_loop (suc fuel) cs =
    let again = order_loop fuel (round cs).1 in if (round cs).0 then again else some (round cs).1

-- Pairs out of order, which each round that swaps makes fewer: the fuel.
unfoldable pub count_earlier : ℤ → List DataT → ℕ
count_earlier ano [] = 0
count_earlier ano (c ∷ cs) =
    if ltb_ℤ c.ano ano then count_earlier ano cs + 1 else count_earlier ano cs

unfoldable pub inversions : List DataT → ℕ
inversions [] = 0
inversions (c ∷ cs) = count_earlier c.ano cs + inversions cs

-- The return code and the list, or `none` if the loop did not end on its fuel.
unfoldable pub list_order_by_year : Option ListT → Option (ℤ × Option ListT)
list_order_by_year none = some (minus_one, none)
list_order_by_year (some l) = elim (order_loop (inversions l.cars + 1) l.cars) [
  | none ↦ none
  | some cs ↦ some (pos 0, some (record l { cars = cs }))
]

unfoldable pub list_size : Option ListT → ℤ
list_size none = minus_one
list_size (some l) = l.size

-- Copies each model; when a copy fails, those made so far (`i` of them) and the array are freed.
unfoldable pub release : ℕ → M (Unit {0})
release zero = pure tt
release (suc n) = do free; release n

unfoldable pub models_loop : List DataT → ℕ → M (Option (List CStr))
models_loop [] i = pure (some [])
models_loop (c ∷ cs) i = do
  copied ← malloc
  if not copied then (do release i; free; pure none) else do
    later ← models_loop cs (i + 1)
    elim later [ none ↦ pure none | some ms ↦ pure (some (c.modelo ∷ ms)) ]

unfoldable pub list_get_model_list : Option ListT → M (Option (Array CStr))
list_get_model_list none = pure none
list_get_model_list (some l) = do
  given ← malloc
  if not given then pure none else do
    models ← models_loop l.cars 0
    elim models [ none ↦ pure none | some ms ↦ pure (some (array (pos_part (l.size +ℤ pos 1)) ms)) ]

unfoldable pub list_free_model_list : Option (Array CStr) → M ℤ
list_free_model_list none = pure minus_one
list_free_model_list (some models) = do release (length models.items); free; pure (pos 0)

unfoldable pub list_get_all : Option ListT → M (Option (Array DataT))
list_get_all none = pure none
list_get_all (some l) = do
  given ← malloc
  if not given then pure none else pure (some (array (pos_part (l.size +ℤ pos 1)) l.cars))
