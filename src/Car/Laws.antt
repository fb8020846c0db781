-- ===== src/Car/Laws.antt =====
-- Which cars source/data.c accepts, and what creating, copying and replacing one does.
use list_server.Base.{
  ℕ, ◌+◌, ◌≤◌, ◌<◌, ◌≡◌, refl, ap, ◌+ℤ◌, ◌⊎◌, inl, inr, true, false, Option, none, some, arith,
  CStr, ℤ, pos, minus_one, ◌≤ℤ◌, Bool-cases,
}
use list_server.Sys.{Sys, NeverFails, malloc, free, malloc-cases, malloc-NeverFails, free_lem}
use list_server.Car.{
  DataT, car, is_negative, ano_atual, validar_dados, data_create, data_destroy, data_dup,
  data_replace, build, overwrite, marca_mercedes, combustivel_hibrido,
}

-- The contract of `validar_dados` for the current year `year`.
pub record IsValid (year : ℤ) (c : DataT) : Type 0 where
  pub from_first : pos 1886 ≤ℤ c.ano
  pub until_now : c.ano ≤ℤ year
  pub price : is_negative c.preco ≡ false
  pub brand : c.marca ≤ marca_mercedes
  pub fuel : c.combustivel ≤ combustivel_hibrido

pub validar_dados→IsValid :
    (year ano : ℤ) (preco marca : ℕ) (modelo : CStr) (combustivel : ℕ)
    → validar_dados year ano preco marca (some modelo) combustivel ≡ true
    → IsValid year (car ano preco marca modelo combustivel)
unfolding validar_dados
validar_dados→IsValid year ano preco marca modelo combustivel h = ground arith

pub IsValid→validar_dados :
    (year : ℤ) (c : DataT)
    → IsValid year c
    → validar_dados year c.ano c.preco c.marca (some c.modelo) c.combustivel ≡ true
unfolding validar_dados
IsValid→validar_dados year c v = ground arith

-- What an attempt to make the car `c` from state `s` may leave: the car and two blocks more, or
-- nothing and no block more; the clock stays.
abbrev pub Made : Sys → DataT → Option DataT × Sys → Type 0
Made s c r =
    (((r.0 ≡ some c) × (r.1.live ≡ s.live + 2)) ⊎ ((r.0 ≡ none) × (r.1.live ≡ s.live)))
    × (r.1.tm_year ≡ s.tm_year)

build-Made :
    (s : Sys) (c : DataT) → Made s c (build c.ano c.preco c.marca (some c.modelo) c.combustivel s)
unfolding build
build-Made s c =
    let one = (malloc s).1 in
    ground (arith, malloc-cases s, malloc-cases one, free_lem (malloc one).1)

-- `data_create` on a non-NULL model gives the car that its arguments describe, which then is valid
-- at the current year, or nothing; it leaks no block and leaves the clock.
pub data_create-Made :
    (s : Sys) (c : DataT)
    → let r = data_create c.ano c.preco c.marca (some c.modelo) c.combustivel s in
      Made s c r × ((r.0 ≡ none) ⊎ IsValid (ano_atual s) c)
unfolding data_create
data_create-Made s c =
    elim (Bool-cases
      (validar_dados (ano_atual s) c.ano c.preco c.marca (some c.modelo) c.combustivel)) [
        | inl ok ↦ rw ok (build-Made s c, inr (validar_dados→IsValid _ _ _ _ _ _ ok))
        | inr bad ↦ rw bad ((inr (refl, refl), refl), inl refl)
      ]

-- An invalid car is refused before anything is allocated.
pub data_create_invalid :
    (s : Sys) (c : DataT)
    → ¬ IsValid (ano_atual s) c
    → data_create c.ano c.preco c.marca (some c.modelo) c.combustivel s ≡ (none, s)
unfolding data_create
data_create_invalid s c refused =
    elim (Bool-cases
      (validar_dados (ano_atual s) c.ano c.preco c.marca (some c.modelo) c.combustivel)) [
        | inl ok ↦ absurd (refused (validar_dados→IsValid _ _ _ _ _ _ ok))
        | inr bad ↦ rw bad
      ]

-- While the allocator gives, a valid car is created, at the price of two blocks.
pub data_create_valid :
    (s : Sys) (c : DataT)
    → IsValid (ano_atual s) c
    → NeverFails s
    → let r = data_create c.ano c.preco c.marca (some c.modelo) c.combustivel s in
      (r.0 ≡ some c) × NeverFails r.1 × (r.1.live ≡ s.live + 2) × (r.1.tm_year ≡ s.tm_year)
unfolding data_create build
data_create_valid s c v ok = rw (IsValid→validar_dados _ c v) (
    ground (
      arith,
      malloc-NeverFails s,
      malloc-NeverFails (malloc s).1,
      malloc-cases s,
      malloc-cases (malloc s).1,
    ))

-- `data_dup` of a valid car is an equal car, or nothing if an allocation fails.
pub data_dup-Made :
    (s : Sys) (c : DataT)
    → let r = data_dup (some c) s in Made s c r × ((r.0 ≡ none) ⊎ IsValid (ano_atual s) c)
unfolding data_dup
data_dup-Made s c = data_create-Made s c

pub data_dup_valid :
    (s : Sys) (c : DataT)
    → IsValid (ano_atual s) c
    → NeverFails s
    → let r = data_dup (some c) s in
      (r.0 ≡ some c) × NeverFails r.1 × (r.1.live ≡ s.live + 2) × (r.1.tm_year ≡ s.tm_year)
unfolding data_dup
data_dup_valid s c v ok = data_create_valid s c v ok

-- Destroying what `data_create` gave on a model that is not NULL returns every block that it took,
-- whatever the allocator does.
pub data_destroy-data_create :
    (s : Sys) (c : DataT)
    → let r = data_create c.ano c.preco c.marca (some c.modelo) c.combustivel s in
      (data_destroy r.0 r.1).1.live ≡ s.live
unfolding data_destroy
data_destroy-data_create s c =
    let r = data_create c.ano c.preco c.marca (some c.modelo) c.combustivel s in
    elim (data_create-Made s c).0.0 [
      | inl (e, l) ↦ rw (e, data_destroy) (omega (arith, free_lem r.1, free_lem (free r.1).1, l))
      | inr (e, l) ↦ rw (e, data_destroy) l
    ]

-- `data_replace` of a car by a model that is not NULL returns 0 with the new values, which are
-- valid, or -1 with the car as it was; the number of blocks is the same. A block is live before.
pub data_replace_lem :
    (s : Sys) (c d : DataT)
    → 0 < s.live
    → let r = data_replace (some c) d.ano d.preco d.marca (some d.modelo) d.combustivel s in
      (((r.0 ≡ (pos 0, some d)) × IsValid (ano_atual s) d) ⊎ (r.0 ≡ (minus_one, some c)))
      × (r.1.live ≡ s.live)
unfolding data_replace overwrite
data_replace_lem s c d h =
    elim (Bool-cases
      (validar_dados (ano_atual s) d.ano d.preco d.marca (some d.modelo) d.combustivel)) [
        | inl ok ↦
            let valid = validar_dados→IsValid _ _ _ _ _ _ ok in
            rw ok (ground (arith, malloc-cases s, free_lem (malloc s).1, valid))
        | inr bad ↦ rw bad (inr refl, refl)
      ]

-- A NULL model makes no car and allocates nothing.
pub data_create-none :
    (s : Sys) (ano : ℤ) (preco marca combustivel : ℕ)
    → data_create ano preco marca none combustivel s ≡ (none, s)
unfolding data_create validar_dados
data_create-none s ano preco marca combustivel = refl

-- Creating a car leaves the clock.
pub data_create_clock :
    (s : Sys) (ano : ℤ) (preco marca : ℕ) (modelo : Option CStr) (combustivel : ℕ)
    → (data_create ano preco marca modelo combustivel s).1.tm_year ≡ s.tm_year
data_create_clock s ano preco marca none combustivel = rw data_create-none
data_create_clock s ano preco marca (some modelo) combustivel =
    (data_create-Made s (car ano preco marca modelo combustivel)).0.1

-- The year depends on nothing but the clock.
pub ano_atual_eq : (s t : Sys) → s.tm_year ≡ t.tm_year → ano_atual s ≡ ano_atual t
unfolding ano_atual
ano_atual_eq s t h = ap (λ y. y +ℤ pos 1900) h

-- `validar_dados` decides validity.
pub IsValid-cases : (year : ℤ) (c : DataT) → IsValid year c ⊎ (¬ IsValid year c)
IsValid-cases year c =
    elim (Bool-cases (validar_dados year c.ano c.preco c.marca (some c.modelo) c.combustivel)) [
      | inl ok ↦ inl (validar_dados→IsValid _ _ _ _ _ _ ok)
      | inr bad ↦ inr (λ v. let good = IsValid→validar_dados year c v in cc)
    ]
