-- ===== src/Tests.antt =====
-- Sample values, and in the modules below the theorems applied to them.
pub mod Cars
pub mod Calls
pub mod Sockets
pub mod Chains
pub mod Logs
pub mod Clients
pub mod Lines
pub mod Sessions
pub mod Threads
pub mod Joins
pub mod Starts
pub mod Loops
pub mod Parting
pub mod Stocks
pub mod Locking
pub mod Connection
use list_server.Base.{
  ℕ, ◌≡◌, ◌≤◌, refl, arith, some, none, Option, List, [], ◌∷◌, CStr, ℤ, pos, ◌≤ℤ◌, All, ◌+ℤ◌, false,
  true, Bool,
}
use list_server.Sys.{Sys}
use list_server.Car.{DataT, ano_atual, is_negative}
use list_server.Car.Laws.{IsValid}
use list_server.CarList.{ListT}
use list_server.CarList.Edit.{list_of, IsWell}

-- A process in 2025 whose allocator always gives, and one whose second allocation fails.
abbrev pub calm : Sys
calm = record { outcomes = []; live = 10; tm_year = pos 125 }

abbrev pub tight : Sys
tight = record { outcomes = true ∷ false ∷ []; live = 10; tm_year = pos 125 }

abbrev pub i3 : DataT
i3 = record {
  ano = pos 2020;
  preco = 0x41200000;
  marca = 1;
  modelo = b'i' ∷ b'3' ∷ [];
  combustivel = 2;
}

abbrev pub clio : DataT
clio = record {
  ano = pos 2015;
  preco = 0x41100000;
  marca = 2;
  modelo = b'c' ∷ b'l' ∷ b'i' ∷ b'o' ∷ [];
  combustivel = 0;
}

-- A car of a year to come.
abbrev pub concept : DataT
concept = record i3 { ano = pos 2026 }

abbrev pub two_cars : List DataT
two_cars = i3 ∷ clio ∷ []

pub i3-IsValid : IsValid (ano_atual calm) i3
unfolding ano_atual ◌+ℤ◌ is_negative
i3-IsValid = record {
  from_first = omega arith;
  until_now = omega arith;
  price = refl;
  brand = omega arith;
  fuel = omega arith;
}

pub clio-IsValid : IsValid (ano_atual calm) clio
unfolding ano_atual ◌+ℤ◌ is_negative
clio-IsValid = record {
  from_first = omega arith;
  until_now = omega arith;
  price = refl;
  brand = omega arith;
  fuel = omega arith;
}

pub two_cars-IsWell : IsWell (ano_atual calm) (list_of two_cars)
two_cars-IsWell = record { counted = refl; valid = (i3-IsValid, (clio-IsValid, tt)) }

pub two_cars-IsValid : All (IsValid (ano_atual calm)) two_cars
two_cars-IsValid = two_cars-IsWell.valid
