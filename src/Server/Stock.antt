-- ===== src/Server/Stock.antt =====
-- What the servers of a chain agree on: their cars, without the order between cars of different
-- years, which the request for all cars in order changes on the server that answers it. Nothing
-- here models a line of code.
pub mod Removal
pub mod Offers
use native.Mathlib.Decide.{ℕ_discrete}
use mathlib.Core.Quot
use mathlib.Core.Quot.{Quot, Quot-set}
use list_server.Base.{
  ◌≡◌, ◌≢◌, subst, ap₂, refl, sym, ap, ◌∙◌, inl, inr, Bool-cases, Option, none, some, List, [], ◌∷◌,
  ◌++◌, arith, if◌then◌else◌, CStr, ℤ, ◌==ℤ◌, ◌&&◌, true, false, keep, first, drop_first, ℕ, length,
  length-append, length-map, map, Bool, ==ℤ_iff, ◌≤ℤ◌, All, ltb_ℤ,
}
use list_server.Car.{DataT}
use list_server.CarList.Edit.{same_model}
use list_server.CarList.Query.{same_ano}
use list_server.CarList.Sorted.{
  insert_by_year, stable_sort, IsSorted, stable_sort-IsSorted, keep-stable_sort,
}

DataT-discrete : Discrete DataT
DataT-discrete = hlevel ℕ_discrete

pub Cars-set : IsSet (List DataT)
Cars-set = hlevel DataT-discrete

-- The cars of each year are the same, in the same order.
abbrev pub SameYears : List DataT → List DataT → Type 0
SameYears cs ds = (ano : ℤ) → keep (same_ano ano) cs ≡ keep (same_ano ano) ds

abbrev pub Stock : Type 0
Stock = Quot SameYears

abbrev pub of_cars : List DataT → Stock
of_cars = Quot.mk

-- The cars of a year, which the list of any server gives.
unfoldable pub year_of : ℤ → Stock → List DataT
year_of ano = Quot.lift Cars-set (keep (same_ano ano)) λ cs ds h. h ano

pub keep-append :
    (p : DataT → Bool) (xs ys : List DataT) → keep p (xs ++ ys) ≡ keep p xs ++ keep p ys
unfolding keep
keep-append p [] ys = refl
keep-append p (x ∷ xs) ys = ground (arith, keep-append p xs ys)

-- A car more.
unfoldable pub put : DataT → Stock → Stock
put c =
    Quot.lift Quot-set (λ cs. of_cars (cs ++ c ∷ []))
      λ cs ds h. Quot.sound λ ano. simp (keep-append, h ano)

pub of_cars-stable_sort : (cs : List DataT) → of_cars (stable_sort cs) ≡ of_cars cs
of_cars-stable_sort cs = Quot.sound λ ano. keep-stable_sort ano cs

keep_none :
    (ano : ℤ) (x : DataT) (xs : List DataT)
    → ltb_ℤ ano x.ano ≡ true
    → IsSorted (x ∷ xs)
    → keep (same_ano ano) (x ∷ xs) ≡ []
unfolding keep
keep_none ano x [] lt s = ground arith
keep_none ano x (y ∷ ys) lt s = ground (arith, keep_none ano y ys (ground (arith, s.0)) s.1)

tail-IsSorted : (x : DataT) (xs : List DataT) → IsSorted (x ∷ xs) → IsSorted xs
tail-IsSorted x [] s = tt
tail-IsSorted x (y ∷ ys) s = s.1

keep_here :
    (c : DataT) (cs : List DataT) → keep (same_ano c.ano) (c ∷ cs) ≡ c ∷ keep (same_ano c.ano) cs
unfolding keep
keep_here c cs = ground arith

-- The first car of a sorted list is the first one of every sorted list with the same cars.
least_first :
    (c d : DataT) (cs ds : List DataT)
    → IsSorted (d ∷ ds)
    → SameYears (c ∷ cs) (d ∷ ds)
    → ltb_ℤ c.ano d.ano ≡ false
least_first c d cs ds s h = elim (Bool-cases (ltb_ℤ c.ano d.ano)) [
  | inr e ↦ e
  | inl lt ↦ let e = sym (keep_here c cs) ∙ h c.ano ∙ keep_none c.ano d ds lt s in absurd (cc)
]

same_first :
    (c d : DataT) (cs ds : List DataT)
    → IsSorted (c ∷ cs)
    → IsSorted (d ∷ ds)
    → SameYears (c ∷ cs) (d ∷ ds)
    → c ≡ d
unfolding keep
same_first c d cs ds s t h =
    let no1 = least_first c d cs ds t h in
    let no2 = least_first d c ds cs s (λ ano. sym (h ano)) in
    let same : c.ano ≡ d.ano = ground (arith, no1, no2) in
    let e =
      sym (keep_here c cs)
      ∙ h c.ano
      ∙ ap (λ (y : ℤ). keep (same_ano y) (d ∷ ds)) same
      ∙ keep_here d ds in
    cc

same_rest : (c : DataT) (cs ds : List DataT) → SameYears (c ∷ cs) (c ∷ ds) → SameYears cs ds
unfolding keep
same_rest c cs ds h ano = ground (arith, h ano)

pub sorted_unique : (cs ds : List DataT) → IsSorted cs → IsSorted ds → SameYears cs ds → cs ≡ ds
unfolding keep
sorted_unique [] [] s t h = refl
sorted_unique [] (d ∷ ds) s t h = absurd (ground (arith, h d.ano, keep_here d ds))
sorted_unique (c ∷ cs) [] s t h = absurd (ground (arith, h c.ano, keep_here c cs))
sorted_unique (c ∷ cs) (d ∷ ds) s t h =
    let e = same_first c d cs ds s t h in
    let h' = subst (λ x. SameYears (c ∷ cs) (x ∷ ds)) (sym e) h in
    ap₂ (λ x xs. x ∷ xs) e
      (sorted_unique cs ds (tail-IsSorted c cs s) (tail-IsSorted d ds t) (same_rest c cs ds h'))

pub stable_sort-SameYears : (cs ds : List DataT) → SameYears cs ds → stable_sort cs ≡ stable_sort ds
stable_sort-SameYears cs ds h =
    sorted_unique (stable_sort cs) (stable_sort ds) (stable_sort-IsSorted cs)
      (stable_sort-IsSorted ds)
      λ ano. keep-stable_sort ano cs ∙ h ano ∙ sym (keep-stable_sort ano ds)

-- The cars in order, which the list of any server gives.
unfoldable pub in_order_of : Stock → List DataT
in_order_of = Quot.lift Cars-set stable_sort stable_sort-SameYears
