-- ===== src/Sys.antt =====
-- What the C library gives the program in source/data.c, source/list.c and source/list_skel.c:
-- the outcomes of `malloc` and `strdup`, and the year of the local clock.
use list_server.Base.{ℕ, ◌+◌, ◌-◌, ◌≡◌, refl, ◌⊎◌, Bool, true, false, List, [], ◌∷◌, arith, ℤ}

-- `outcomes` scripts the coming allocations (`false`: NULL); after the script they all succeed.
-- `live` counts the blocks that the program has obtained and not freed.
pub record Sys : Type 0 where
  pub outcomes : List Bool
  pub live : ℕ
  pub tm_year : ℤ

-- A function of the program with what it does to a state; over `Sys` alone, what it does to the
-- allocator.
abbrev pub State {ℓ κ} : Type κ → Type ℓ → Type (ℓ ⊔ κ)
State S A = S → A × S

abbrev pub M {ℓ} : Type ℓ → Type ℓ
M A = State Sys A

abbrev pub pure {ℓ κ} : {S : Type κ} {A : Type ℓ} → A → State S A
pure a s = (a, s)

infixl 5 ◌>>=◌ ◌>>◌
abbrev pub ◌>>=◌ {ℓ κ μ} :
    {S : Type μ} {A : Type ℓ} {B : Type κ} → State S A → (A → State S B) → State S B
◌>>=◌ m f s = f (m s).0 (m s).1

abbrev pub ◌>>◌ {κ μ} : {S : Type μ} {B : Type κ} → State S (Unit {0}) → State S B → State S B
◌>>◌ m k s = k (m s).1

unfoldable pub take_outcome : List Bool → ℕ → ℤ → Bool × Sys
take_outcome [] n y = (true, record { outcomes = []; live = n + 1; tm_year = y })
take_outcome (true ∷ os) n y = (true, record { outcomes = os; live = n + 1; tm_year = y })
take_outcome (false ∷ os) n y = (false, record { outcomes = os; live = n; tm_year = y })

-- `malloc` or `strdup`: whether the block was given.
unfoldable pub malloc : M Bool
unfolding take_outcome
malloc s = take_outcome s.outcomes s.live s.tm_year

-- `free` of a block that is not NULL.
unfoldable pub free : M (Unit {0})
free s = (tt, record s { live = s.live - 1 })

-- An allocation succeeds with one more block, or fails with none.
pub malloc-cases :
    (s : Sys)
    → (((malloc s).0 ≡ true)
        × ((malloc s).1.live ≡ s.live + 1)
        × ((malloc s).1.tm_year ≡ s.tm_year))
      ⊎ (((malloc s).0 ≡ false) × ((malloc s).1.live ≡ s.live) × ((malloc s).1.tm_year ≡ s.tm_year))
unfolding malloc
malloc-cases s = ground arith

-- While nothing fails, nothing ever will.
abbrev pub NeverFails : Sys → Type 0
NeverFails s = s.outcomes ≡ []

-- The allocator of the second never fails, and the clock shows the same year.
abbrev pub Steady : Sys → Sys → Type 0
Steady s t = NeverFails t × (t.tm_year ≡ s.tm_year)

pub malloc-NeverFails :
    (s : Sys)
    → NeverFails s
    → ((malloc s).0 ≡ true) × NeverFails (malloc s).1 × ((malloc s).1.live ≡ s.live + 1)
unfolding malloc
malloc-NeverFails s h = ground arith

pub free_lem :
    (s : Sys)
    → ((free s).1.outcomes ≡ s.outcomes)
      × ((free s).1.live ≡ s.live - 1)
      × ((free s).1.tm_year ≡ s.tm_year)
unfolding free
free_lem s = (refl, refl, refl)
