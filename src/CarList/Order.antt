-- ===== src/CarList/Order.antt =====
-- `list_order_by_year` of source/list.c: the rounds end, and what they leave is the stable sort of
-- the list by year.
use list_server.CarList.Sorted.{
  All-stable_sort, IsSorted, insert_by_year, keep-stable_sort, length-stable_sort, stable_sort,
  stable_sort-IsSorted,
}
use list_server.Base.{
  ℕ, zero, suc, ◌+◌, ◌≤◌, ◌<◌, ◌≡◌, refl, sym, ap, ◌∙◌, ◌⊎◌, inl, inr, Bool, true, false, some,
  List, [], ◌∷◌, arith, ℤ, pos, ltb_ℤ, keep, Bool-cases,
}
use list_server.Car.{DataT}
use list_server.CarList.{
  ListT, bubble, round, order_loop, count_earlier, inversions, list_order_by_year,
}
use list_server.Car.Laws.{IsValid}
use list_server.CarList.Edit.{IsWell}
use list_server.CarList.Query.{same_ano}

insert_comm :
    (x y : DataT) (zs : List DataT)
    → ltb_ℤ y.ano x.ano ≡ true
    → insert_by_year x (insert_by_year y zs) ≡ insert_by_year y (insert_by_year x zs)
unfolding insert_by_year
insert_comm x y [] h = ground arith
insert_comm x y (z ∷ zs) h = ground (arith, insert_comm x y zs h)

-- A round keeps the stable sort.
stable_sort-bubble :
    (x : DataT) (ys : List DataT) (b : Bool) → stable_sort (bubble x ys b).1 ≡ stable_sort (x ∷ ys)
unfolding stable_sort bubble
stable_sort-bubble x [] b = refl
stable_sort-bubble x (y ∷ ys) b = elim (Bool-cases (ltb_ℤ y.ano x.ano)) [
  | inl gt ↦ rw (gt, stable_sort-bubble x ys true) (sym (insert_comm x y (stable_sort ys) gt))
  | inr le ↦ rw (le, stable_sort-bubble y ys b)
]

stable_sort-round : (cs : List DataT) → stable_sort (round cs).1 ≡ stable_sort cs
unfolding round
stable_sort-round [] = refl
stable_sort-round (x ∷ xs) = stable_sort-bubble x xs false

count_earlier-bubble :
    (a : ℤ) (x : DataT) (ys : List DataT) (b : Bool)
    → count_earlier a (bubble x ys b).1 ≡ count_earlier a (x ∷ ys)
unfolding count_earlier bubble
count_earlier-bubble a x [] b = refl
count_earlier-bubble a x (y ∷ ys) b =
    ground (arith, count_earlier-bubble a x ys true, count_earlier-bubble a y ys b)

-- What a round does to the inversions: fewer if it swaps; and if it does not, the list is sorted and
-- stays as it is.
abbrev RoundDone : DataT → List DataT → Bool × List DataT → Type 0
RoundDone x ys r =
    ((r.0 ≡ true) × (inversions r.1 < inversions (x ∷ ys)))
    ⊎ ((r.0 ≡ false) × (r.1 ≡ x ∷ ys) × IsSorted (x ∷ ys))

bubble-true :
    (x : DataT) (ys : List DataT)
    → ((bubble x ys true).0 ≡ true) × (inversions (bubble x ys true).1 ≤ inversions (x ∷ ys))
unfolding bubble inversions count_earlier
bubble-true x [] = (refl, omega arith)
bubble-true x (y ∷ ys) = ground (
  arith,
  bubble-true x ys,
  bubble-true y ys,
  count_earlier-bubble y.ano x ys true,
  count_earlier-bubble x.ano y ys true,
)

bubble-RoundDone : (x : DataT) (ys : List DataT) → RoundDone x ys (bubble x ys false)
unfolding bubble inversions count_earlier
bubble-RoundDone x [] = inr (refl, refl, tt)
bubble-RoundDone x (y ∷ ys) = ground (
  arith,
  bubble-true x ys,
  bubble-RoundDone y ys,
  count_earlier-bubble y.ano x ys true,
  count_earlier-bubble x.ano y ys false,
)

order_loop_swaps :
    (fuel : ℕ) (cs : List DataT)
    → (round cs).0 ≡ true
    → order_loop (suc fuel) cs ≡ order_loop fuel (round cs).1
unfolding order_loop
order_loop_swaps fuel cs h = rw h

order_loop_rests :
    (fuel : ℕ) (cs : List DataT)
    → (round cs).0 ≡ false
    → order_loop (suc fuel) cs ≡ some (round cs).1
unfolding order_loop
order_loop_rests fuel cs h = rw h

-- The inversions of the list below the fuel: the loop ends, sorted, with the same stable sort.
order_loop_lem :
    (fuel : ℕ) (cs : List DataT)
    → inversions cs < fuel
    → (ds : List DataT) × (order_loop fuel cs ≡ some ds)
      × IsSorted ds
      × (stable_sort ds ≡ stable_sort cs)
unfolding round
order_loop_lem zero cs h = absurd (omega arith)
order_loop_lem (suc fuel) [] h = ([], order_loop_rests fuel [] refl, tt, refl)
order_loop_lem (suc fuel) (x ∷ xs) h = elim (bubble-RoundDone x xs) [
  | inl (swaps, fewer) ↦
      let (ds, e, sorted, same) = order_loop_lem fuel (bubble x xs false).1 (omega arith) in
      (ds, order_loop_swaps fuel (x ∷ xs) swaps ∙ e, sorted, same ∙ stable_sort-bubble x xs false)
  | inr (rests, stays, sorted) ↦
      (x ∷ xs, order_loop_rests fuel (x ∷ xs) rests ∙ ap some stays, sorted, refl)
]

insert_below : (x : DataT) (xs : List DataT) → IsSorted (x ∷ xs) → insert_by_year x xs ≡ x ∷ xs
unfolding insert_by_year
insert_below x [] s = refl
insert_below x (y ∷ ys) s = ground arith

-- A sorted list is its own stable sort.
pub stable_sort_of_IsSorted : (cs : List DataT) → IsSorted cs → stable_sort cs ≡ cs
unfolding stable_sort
stable_sort_of_IsSorted [] s = refl
stable_sort_of_IsSorted (x ∷ []) s = unfold insert_by_year in refl
stable_sort_of_IsSorted (x ∷ y ∷ ys) s =
    rw (stable_sort_of_IsSorted (y ∷ ys) s.1) (insert_below x (y ∷ ys) s)

-- `list_order_by_year` ends on its fuel, returns 0, keeps the count, and leaves the stable sort by
-- year of the cars.
pub list_order_by_year-stable_sort :
    (l : ListT)
    → list_order_by_year (some l) ≡ some (pos 0, some (record l { cars = stable_sort l.cars }))
unfolding list_order_by_year
list_order_by_year-stable_sort l =
    let (ds, e, sorted, same) = order_loop_lem (inversions l.cars + 1) l.cars (omega arith) in
    let done : ds ≡ stable_sort l.cars = sym (stable_sort_of_IsSorted ds sorted) ∙ same in
    rw (e, list_order_by_year) (rw done)

-- `list_order_by_year` keeps a list well formed.
pub stable_sort-IsWell :
    (year : ℤ) (l : ListT) → IsWell year l → IsWell year (record l { cars = stable_sort l.cars })
stable_sort-IsWell year l w = record {
  counted = rw length-stable_sort w.counted;
  valid = All-stable_sort (IsValid year) l.cars w.valid;
}

-- `list_order_by_year` ends, within the fuel of one round for each inversion and one more, and
-- returns 0. The list is then sorted by year, its count is as it was, and the cars of each year
-- `ano` are the same, in the same order: nothing is lost, made up or moved among its equals.
pub list_order_by_year-IsSorted :
    (l : ListT) (ano : ℤ)
    → (k : ListT) × (list_order_by_year (some l) ≡ some (pos 0, some k))
      × IsSorted k.cars
      × (k.size ≡ l.size)
      × (keep (same_ano ano) k.cars ≡ keep (same_ano ano) l.cars)
list_order_by_year-IsSorted l ano = (
  record l { cars = stable_sort l.cars },
  list_order_by_year-stable_sort l,
  stable_sort-IsSorted l.cars,
  refl,
  keep-stable_sort ano l.cars,
)
