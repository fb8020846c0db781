-- ===== src/CarList/Edit.antt =====
-- The functions of source/list.c that make, extend and shorten a list: the invariant that
-- they keep, what they return on each branch, and the blocks that they hold.
use list_server.Base.{
  ◌+◌, ◌-◌, ◌≡◌, refl, sym, subst, ◌⊎◌, inl, inr, Bool, Option, none, some, List, [], ◌∷◌, ◌++◌,
  arith, CStr, str_eq, ℤ, pos, minus_one, ◌+ℤ◌, ◌-ℤ◌, length, length-append, first, drop_first, All,
  All-append, Bool-cases, Option-cases,
}
use list_server.Sys.{Sys, NeverFails, malloc, free, malloc-cases, malloc-NeverFails, free_lem}
use list_server.Car.{DataT, ano_atual, data_destroy, data_dup}
use list_server.Car.Laws.{IsValid, data_dup-Made, data_dup_valid}
use list_server.CarList.{ListT, list_create, link_last, list_add, unlink, list_remove_by_model}

-- The count is that of the nodes, and every car passed the validation of the year `year`.
pub record IsWell (year : ℤ) (l : ListT) : Type 0 where
  pub counted : l.size ≡ pos (length l.cars)
  pub valid : All (IsValid year) l.cars

abbrev pub list_of : List DataT → ListT
list_of cs = record { size = pos (length cs); cars = cs }

-- The count is no more than a cache of the length.
pub list_of_lem : (year : ℤ) (l : ListT) → IsWell year l → l ≡ list_of l.cars
list_of_lem year l w = ground arith

pub link_last-append : (cs : List DataT) (c : DataT) → link_last cs c ≡ cs ++ c ∷ []
unfolding link_last
link_last-append [] c = refl
link_last-append (x ∷ xs) c = rw (link_last-append xs c)

abbrev pub same_model : CStr → DataT → Bool
same_model modelo c = str_eq c.modelo modelo

pub unlink-first-drop_first :
    (modelo : CStr) (cs : List DataT)
    → unlink modelo cs ≡ elim (first (same_model modelo) cs) [
      | none ↦ none
      | some c ↦ some (c, drop_first (same_model modelo) cs)
    ]
unfolding unlink first drop_first
unlink-first-drop_first modelo [] = refl
unlink-first-drop_first modelo (c ∷ cs) = ground (arith, unlink-first-drop_first modelo cs)

-- `list_create` is the empty list, which is well formed, or nothing.
pub list_create_lem :
    (s : Sys)
    → let r = list_create s in
      ((r.0 ≡ some (list_of [])) × (r.1.live ≡ s.live + 1)) ⊎ ((r.0 ≡ none) × (r.1.live ≡ s.live))
unfolding list_create
list_create_lem s = ground (arith, malloc-cases s)

-- What `list_add` of `c` may leave: the car at the end, three blocks more and code 0, or code -1
-- with the list and the number of blocks as they were.
abbrev pub Added : Sys → ListT → DataT → (ℤ × Option ListT) × Sys → Type 0
Added s l c r =
    (((r.0 ≡ (pos 0, some (record { size = l.size +ℤ pos 1; cars = l.cars ++ c ∷ [] })))
        × (r.1.live ≡ s.live + 3)
        × IsValid (ano_atual s) c)
      ⊎ ((r.0 ≡ (minus_one, some l)) × (r.1.live ≡ s.live)))
    × (r.1.tm_year ≡ s.tm_year)

-- `list_add` appends a valid car, or changes nothing, on every outcome of its three allocations.
pub list_add-Added : (s : Sys) (l : ListT) (c : DataT) → Added s l c (list_add (some l) (some c) s)
unfolding list_add ano_atual
list_add-Added s l c =
    let t = (malloc s).1 in
    ground (
      arith,
      malloc-cases s,
      data_dup-Made t c,
      free_lem (data_dup (some c) t).1,
      link_last-append l.cars c,
    )

-- While the allocator gives, a valid car is appended.
pub list_add_valid :
    (s : Sys) (l : ListT) (c : DataT)
    → IsValid (ano_atual s) c
    → NeverFails s
    → let r = list_add (some l) (some c) s in
      (r.0 ≡ (pos 0, some (record { size = l.size +ℤ pos 1; cars = l.cars ++ c ∷ [] })))
      × NeverFails r.1
      × (r.1.live ≡ s.live + 3)
      × (r.1.tm_year ≡ s.tm_year)
unfolding list_add ano_atual
list_add_valid s l c v ok =
    let t = (malloc s).1 in
    let given = malloc-NeverFails s ok in
    let clock : t.tm_year ≡ s.tm_year = ground (arith, malloc-cases s) in
    let copy = data_dup_valid t c (ground (arith, v)) given.1 in
    ground (arith, malloc-cases s, link_last-append l.cars c, given, copy)

snoc-IsWell :
    (year : ℤ) (l : ListT) (c : DataT)
    → IsWell year l
    → IsValid year c
    → IsWell year (record { size = l.size +ℤ pos 1; cars = l.cars ++ c ∷ [] })
unfolding ◌+ℤ◌
snoc-IsWell year l c w v = record {
  counted = ground (arith, length-append l.cars (c ∷ []));
  valid = All-append (IsValid year) l.cars (c ∷ []) w.valid (v, tt);
}

-- `list_remove_by_model` on a model that is not NULL: the first car of the model goes, the count
-- goes down, three blocks are freed and the code is 0; or no car has the model, the list and the
-- blocks stay and the code is 1.
pub list_remove_by_model_lem :
    (s : Sys) (l : ListT) (modelo : CStr)
    → let r = list_remove_by_model (some l) (some modelo) s in
      ((c : DataT) × (first (same_model modelo) l.cars ≡ some c)
        × (r.0 ≡ (
          pos 0,
          some (record { size = l.size -ℤ pos 1; cars = drop_first (same_model modelo) l.cars }),
        ))
        × (r.1.live ≡ s.live - 3))
      ⊎ ((first (same_model modelo) l.cars ≡ none) × (r ≡ ((pos 1, some l), s)))
unfolding list_remove_by_model data_destroy
list_remove_by_model_lem s l modelo =
    let t = (free s).1 in
    elim (Option-cases (first (same_model modelo) l.cars)) [
      | inl e ↦ inr (e, ground (arith, unlink-first-drop_first modelo l.cars))
      | inr (c, e) ↦ inl (
        c,
        e,
        ground (arith, unlink-first-drop_first modelo l.cars),
        ground (
          arith,
          unlink-first-drop_first modelo l.cars,
          free_lem s,
          free_lem t,
          free_lem (free t).1,
        ),
      )
    ]

-- `list_remove_by_model` allocates nothing.
pub list_remove_by_model_quiet :
    (s : Sys) (l : ListT) (modelo : CStr)
    → let r = list_remove_by_model (some l) (some modelo) s in
      (r.1.outcomes ≡ s.outcomes) × (r.1.tm_year ≡ s.tm_year)
unfolding list_remove_by_model data_destroy
list_remove_by_model_quiet s l modelo = elim (Option-cases (unlink modelo l.cars)) [
  | inl e ↦ ground (arith, e)
  | inr (found, e) ↦
      let t = (free s).1 in ground (arith, e, free_lem s, free_lem t, free_lem (free t).1)
]

pub All-drop_first :
    (year : ℤ) (p : DataT → Bool) (cs : List DataT)
    → All (IsValid year) cs
    → All (IsValid year) (drop_first p cs)
unfolding drop_first
All-drop_first year p [] v = tt
All-drop_first year p (c ∷ cs) v = elim (Bool-cases (p c)) [
  | inl hit ↦ rw hit v.1
  | inr miss ↦ rw miss (v.0, All-drop_first year p cs v.1)
]

-- Dropping a car that is there takes one off the length.
length-drop_first :
    (p : DataT → Bool) (cs : List DataT) (d : DataT)
    → first p cs ≡ some d
    → length (drop_first p cs) + 1 ≡ length cs
unfolding first drop_first
length-drop_first p [] d h = cc
length-drop_first p (c ∷ cs) d h = ground (arith, length-drop_first p cs d)

drop-IsWell :
    (year : ℤ) (p : DataT → Bool) (l : ListT) (c : DataT)
    → IsWell year l
    → first p l.cars ≡ some c
    → IsWell year (record { size = l.size -ℤ pos 1; cars = drop_first p l.cars })
unfolding ◌-ℤ◌
drop-IsWell year p l c w h = record {
  counted = ground (arith, length-drop_first p l.cars c h);
  valid = All-drop_first year p l.cars w.valid;
}

-- The list behind a pointer that is not NULL is well formed.
abbrev pub StaysWell : ℤ → Option ListT → Type 0
StaysWell year none = ⊥
StaysWell year (some l) = IsWell year l

-- `list_add` keeps a list well formed, whatever the allocator does.
pub list_add-IsWell :
    (s : Sys) (l : ListT) (c : DataT)
    → IsWell (ano_atual s) l
    → StaysWell (ano_atual s) (list_add (some l) (some c) s).0.1
list_add-IsWell s l c w = elim (list_add-Added s l c).0 [
  | inl (e, _, v) ↦ subst (λ r. StaysWell (ano_atual s) r.1) (sym e) (snoc-IsWell _ l c w v)
  | inr (e, _) ↦ subst (λ r. StaysWell (ano_atual s) r.1) (sym e) w
]

-- `list_remove_by_model` keeps a list well formed.
pub list_remove_by_model-IsWell :
    (year : ℤ) (s : Sys) (l : ListT) (modelo : CStr)
    → IsWell year l
    → StaysWell year (list_remove_by_model (some l) (some modelo) s).0.1
list_remove_by_model-IsWell year s l modelo w = elim (list_remove_by_model_lem s l modelo) [
  | inl (c, h, e, _) ↦
      subst (λ r. StaysWell year r.1) (sym e) (drop-IsWell year (same_model modelo) l c w h)
  | inr (_, e) ↦ subst (λ r. StaysWell year r.0.1) (sym e) w
]

-- The cached count after an addition and after a removal.
pub list_of-append :
    (cs : List DataT) (c : DataT)
    → record { size = pos (length cs) +ℤ pos 1; cars = cs ++ c ∷ [] } ≡ list_of (cs ++ c ∷ [])
unfolding ◌+ℤ◌
list_of-append cs c = ground (arith, length-append cs (c ∷ []))

pub list_of-drop_first :
    (p : DataT → Bool) (cs : List DataT) (c : DataT)
    → first p cs ≡ some c
    → record { size = pos (length cs) -ℤ pos 1; cars = drop_first p cs } ≡ list_of (drop_first p cs)
unfolding ◌-ℤ◌
list_of-drop_first p cs c h = ground (arith, length-drop_first p cs c h)
