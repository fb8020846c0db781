-- ===== src/CarList/Sorted.antt =====
-- The stable sort by year, which says what `list_order_by_year` of source/list.c should do.
use list_server.Base.{
  suc, ◌≡◌, refl, inl, inr, List, [], ◌∷◌, arith, if◌then◌else◌, ℤ, ◌≤ℤ◌, ltb_ℤ, length, keep, All,
  Bool-cases,
}
use list_server.Car.{DataT}
use list_server.CarList.Query.{same_ano}

-- The reference: insertion before the cars of the same year, which came later in the list.
unfoldable pub insert_by_year : DataT → List DataT → List DataT
insert_by_year x [] = x ∷ []
insert_by_year x (y ∷ ys) =
    let later = insert_by_year x ys in if ltb_ℤ y.ano x.ano then y ∷ later else x ∷ y ∷ ys

unfoldable pub stable_sort : List DataT → List DataT
stable_sort [] = []
stable_sort (x ∷ xs) = insert_by_year x (stable_sort xs)

-- Years rise along the list.
abbrev pub IsSorted : List DataT → Type 0
IsSorted [] = Unit
IsSorted (x ∷ []) = Unit
IsSorted (x ∷ y ∷ ys) = (x.ano ≤ℤ y.ano) × IsSorted (y ∷ ys)

insert_by_year-IsSorted :
    (x : DataT) (ys : List DataT) → IsSorted ys → IsSorted (insert_by_year x ys)
unfolding insert_by_year
insert_by_year-IsSorted x [] s = tt
insert_by_year-IsSorted x (y ∷ []) s = ground arith
insert_by_year-IsSorted x (y ∷ z ∷ zs) s = ground (arith, insert_by_year-IsSorted x (z ∷ zs))

-- The stable sort is sorted by year.
pub stable_sort-IsSorted : (cs : List DataT) → IsSorted (stable_sort cs)
unfolding stable_sort
stable_sort-IsSorted [] = tt
stable_sort-IsSorted (x ∷ xs) = insert_by_year-IsSorted x (stable_sort xs) (stable_sort-IsSorted xs)

keep-insert_by_year :
    (ano : ℤ) (x : DataT) (ys : List DataT)
    → keep (same_ano ano) (insert_by_year x ys) ≡ keep (same_ano ano) (x ∷ ys)
unfolding insert_by_year keep
keep-insert_by_year ano x [] = refl
keep-insert_by_year ano x (y ∷ ys) = ground (arith, keep-insert_by_year ano x ys)

-- The cars of each year are the same, in the same order, before and after: nothing is lost, made up
-- or moved among its equals.
pub keep-stable_sort :
    (ano : ℤ) (cs : List DataT) → keep (same_ano ano) (stable_sort cs) ≡ keep (same_ano ano) cs
unfolding stable_sort keep
keep-stable_sort ano [] = refl
keep-stable_sort ano (x ∷ xs) =
    ground (arith, keep-insert_by_year ano x (stable_sort xs), keep-stable_sort ano xs)

length-insert_by_year :
    (x : DataT) (ys : List DataT) → length (insert_by_year x ys) ≡ suc (length ys)
unfolding insert_by_year
length-insert_by_year x [] = refl
length-insert_by_year x (y ∷ ys) = ground (arith, length-insert_by_year x ys)

pub length-stable_sort : (cs : List DataT) → length (stable_sort cs) ≡ length cs
unfolding stable_sort
length-stable_sort [] = refl
length-stable_sort (x ∷ xs) =
    omega (arith, length-insert_by_year x (stable_sort xs), length-stable_sort xs)

All-insert_by_year :
    (P : DataT → Type 0) (x : DataT) (ys : List DataT)
    → P x
    → All P ys
    → All P (insert_by_year x ys)
unfolding insert_by_year
All-insert_by_year P x [] px h = (px, tt)
All-insert_by_year P x (y ∷ ys) px h = elim (Bool-cases (ltb_ℤ y.ano x.ano)) [
  | inl gt ↦ rw gt (h.0, All-insert_by_year P x ys px h.1)
  | inr le ↦ rw le (px, h)
]

pub All-stable_sort : (P : DataT → Type 0) (cs : List DataT) → All P cs → All P (stable_sort cs)
unfolding stable_sort
All-stable_sort P [] h = tt
All-stable_sort P (x ∷ xs) h =
    All-insert_by_year P x (stable_sort xs) h.0 (All-stable_sort P xs h.1)
