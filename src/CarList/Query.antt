-- ===== src/CarList/Query.antt =====
-- The functions of source/list.c that read a list, and `list_get_all` of source/list_skel.c: what
-- they return, and that what they write fits what they allocate.
use list_server.Base.{
  ℕ, ◌+◌, ◌≤◌, ◌≡◌, refl, ◌⊎◌, Bool, none, some, List, [], ◌∷◌, arith, ◌==◌, CStr, ℤ, pos, ◌==ℤ◌,
  pos_part, ◌+ℤ◌, length, keep, first, map, inl, inr, length-map,
}
use list_server.Sys.{Sys, NeverFails, malloc, free, malloc-cases, malloc-NeverFails, free_lem}
use list_server.Car.{DataT}
use list_server.CarList.{
  ListT, Array, array, marca_loop, list_get_by_marca, count_loop, year_loop, list_get_by_year,
  release, models_loop, list_get_model_list, list_free_model_list, list_get_all,
}
use list_server.CarList.Edit.{IsWell}

abbrev pub same_marca : ℕ → DataT → Bool
same_marca marca c = c.marca == marca

abbrev pub same_ano : ℤ → DataT → Bool
same_ano ano c = c.ano ==ℤ ano

pub marca_loop-first :
    (marca : ℕ) (cs : List DataT) → marca_loop marca cs ≡ first (same_marca marca) cs
unfolding marca_loop first
marca_loop-first marca [] = refl
marca_loop-first marca (c ∷ cs) = ground (arith, marca_loop-first marca cs)

-- `list_get_by_marca` is the first car of the brand, in list order, or NULL if there is none.
pub list_get_by_marca_lem :
    (l : ListT) (marca : ℕ) → list_get_by_marca (some l) marca ≡ first (same_marca marca) l.cars
unfolding list_get_by_marca
list_get_by_marca_lem l marca = marca_loop-first marca l.cars

pub year_loop-keep : (ano : ℤ) (cs : List DataT) → year_loop ano cs ≡ keep (same_ano ano) cs
unfolding year_loop keep
year_loop-keep ano [] = refl
year_loop-keep ano (c ∷ cs) = ground (arith, year_loop-keep ano cs)

-- The loop that counts and the loop that fills agree.
count_loop-year_loop :
    (ano : ℤ) (cs : List DataT) (n : ℕ) → count_loop ano cs n ≡ n + length (year_loop ano cs)
unfolding count_loop year_loop
count_loop-year_loop ano [] n = omega arith
count_loop-year_loop ano (c ∷ cs) n =
    ground (arith, count_loop-year_loop ano cs n, count_loop-year_loop ano cs (n + 1))

-- The items and the final NULL fit the slots.
abbrev pub Fits {ℓ} : {A : Type ℓ} → Array A → Type 0
Fits a = length a.items + 1 ≤ a.slots

-- `list_get_by_year` gives exactly the cars of the year, in list order, in an array that they and
-- the final NULL fill to the last slot; or NULL if its one allocation fails.
pub list_get_by_year_lem :
    (s : Sys) (l : ListT) (ano : ℤ)
    → let r = list_get_by_year (some l) ano s in
      ((a : Array DataT) × (r.0 ≡ some a)
        × (a.items ≡ keep (same_ano ano) l.cars)
        × (length a.items + 1 ≡ a.slots)
        × (r.1.live ≡ s.live + 1))
      ⊎ ((r.0 ≡ none) × (r.1.live ≡ s.live))
unfolding list_get_by_year
list_get_by_year_lem s l ano =
    ground (arith, malloc-cases s, year_loop-keep ano l.cars, count_loop-year_loop ano l.cars 0)

abbrev pub models_of : List DataT → List CStr
models_of = map λ c. c.modelo

release_lem : (n : ℕ) (s : Sys) → n ≤ s.live → (release n s).1.live + n ≡ s.live
unfolding release
release_lem ℕ.zero s h = omega arith
release_lem (ℕ.suc n) s h = ground (arith, free_lem s, release_lem n (free s).1)

-- `i` models and the array are held when the loop starts; a failure gives all of them back.
models_loop_lem :
    (s : Sys) (cs : List DataT) (i : ℕ)
    → i + 1 ≤ s.live
    → let r = models_loop cs i s in
      ((r.0 ≡ some (models_of cs)) × (r.1.live ≡ s.live + length cs))
      ⊎ ((r.0 ≡ none) × (r.1.live + i + 1 ≡ s.live))
unfolding models_loop
models_loop_lem s [] i h = ground arith
models_loop_lem s (c ∷ cs) i h =
    let t = (malloc s).1 in
    ground (
      arith,
      malloc-cases s,
      release_lem i t,
      free_lem (release i t).1,
      models_loop_lem t cs (i + 1),
    )

-- `list_get_model_list` of a well-formed list gives a copy of every model, in list order, in an
-- array that they fit; when any of its allocations fails it gives NULL and holds no block more.
pub list_get_model_list_lem :
    (year : ℤ) (s : Sys) (l : ListT)
    → IsWell year l
    → let r = list_get_model_list (some l) s in
      ((a : Array CStr) × (r.0 ≡ some a)
        × (a.items ≡ models_of l.cars)
        × Fits a
        × (r.1.live ≡ s.live + length l.cars + 1))
      ⊎ ((r.0 ≡ none) × (r.1.live ≡ s.live))
unfolding list_get_model_list ◌+ℤ◌
list_get_model_list_lem year s l w =
    let t = (malloc s).1 in
    let a = array (pos_part (l.size +ℤ pos 1)) (models_of l.cars) in
    elim (malloc-cases s) [
      | inl g ↦ elim (models_loop_lem t l.cars 0 (omega (arith, g.1))) [
        | inl m ↦ inl (
          a,
          ground arith,
          refl,
          ground (arith, length-map l.cars (λ (c : DataT). c.modelo)),
          ground arith,
        )
        | inr m ↦ inr (ground arith, ground arith)
      ]
      | inr g ↦ inr (ground arith, ground arith)
    ]

-- Freeing what `list_get_model_list` gave for a well-formed list returns every block that it took,
-- whatever the allocator does.
pub list_free_model_list-list_get_model_list :
    (year : ℤ) (s : Sys) (l : ListT)
    → IsWell year l
    → let r = list_get_model_list (some l) s in (list_free_model_list r.0 r.1).1.live ≡ s.live
unfolding list_free_model_list
list_free_model_list-list_get_model_list year s l w =
    let r = list_get_model_list (some l) s in
    elim (list_get_model_list_lem year s l w) [
      | inl (a, e, i, _, b) ↦ ground (
        arith,
        release_lem (length a.items) r.1,
        free_lem (release (length a.items) r.1).1,
        length-map l.cars (λ (c : DataT). c.modelo),
      )
      | inr (e, b) ↦ ground arith
    ]

models_loop_valid :
    (s : Sys) (cs : List DataT) (i : ℕ)
    → NeverFails s
    → let r = models_loop cs i s in (r.0 ≡ some (models_of cs)) × NeverFails r.1
unfolding models_loop
models_loop_valid s [] i ok = (refl, ok)
models_loop_valid s (c ∷ cs) i ok =
    let t = (malloc s).1 in ground (arith, malloc-NeverFails s, models_loop_valid t cs (i + 1))

-- While the allocator gives, the three queries answer.
pub list_get_model_list_valid :
    (s : Sys) (l : ListT)
    → NeverFails s
    → let r = list_get_model_list (some l) s in
      (r.0 ≡ some (array (pos_part (l.size +ℤ pos 1)) (models_of l.cars))) × NeverFails r.1
unfolding list_get_model_list
list_get_model_list_valid s l ok =
    ground (arith, malloc-NeverFails s, models_loop_valid (malloc s).1 l.cars 0)

pub list_get_by_year_valid :
    (s : Sys) (l : ListT) (ano : ℤ)
    → NeverFails s
    → let r = list_get_by_year (some l) ano s in
      (r.0 ≡ some (array (length (keep (same_ano ano) l.cars) + 1) (keep (same_ano ano) l.cars)))
      × NeverFails r.1
unfolding list_get_by_year
list_get_by_year_valid s l ano ok =
    ground
      (arith, malloc-NeverFails s, year_loop-keep ano l.cars, count_loop-year_loop ano l.cars 0)

-- `list_get_all` of a well-formed list gives every car in list order, in an array that they fit
-- and that costs one block, or NULL and no block.
pub list_get_all_lem :
    (year : ℤ) (s : Sys) (l : ListT)
    → IsWell year l
    → let r = list_get_all (some l) s in
      ((a : Array DataT) × (r.0 ≡ some a) × (a.items ≡ l.cars) × Fits a × (r.1.live ≡ s.live + 1))
      ⊎ ((r.0 ≡ none) × (r.1.live ≡ s.live))
unfolding list_get_all ◌+ℤ◌
list_get_all_lem year s l w = ground (arith, malloc-cases s)

pub list_get_all_valid :
    (s : Sys) (l : ListT)
    → NeverFails s
    → let r = list_get_all (some l) s in
      (r.0 ≡ some (array (pos_part (l.size +ℤ pos 1)) l.cars)) × NeverFails r.1
unfolding list_get_all
list_get_all_valid s l ok = ground (arith, malloc-NeverFails s)
