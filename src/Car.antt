-- ===== src/Car.antt =====
-- source/data.c and the struct of include/data.h: one car, its validation, creation, copy and
-- replacement. `preco` is the bit pattern of an IEEE 754 float.
pub mod Laws
use list_server.Base.{
  ℕ, ◌≤◌, ◌≡◌, refl, Bool, true, false, ◌&&◌, ◌||◌, not, Option, none, some, List, arith, ltb, leb,
  if◌then◌else◌, CStr, ℤ, pos, minus_one, ◌+ℤ◌, ◌≤ℤ◌, ltb_ℤ,
}
use list_server.Sys.{Sys, M, pure, ◌>>=◌, ◌>>◌, malloc, free}

-- struct data_t; `modelo` is never NULL in a struct that `data_create` returned.
pub record DataT : Type 0 where
  pub ano : ℤ
  pub preco : ℕ
  pub marca : ℕ
  pub modelo : CStr
  pub combustivel : ℕ

abbrev pub marca_toyota : ℕ
marca_toyota = 0

abbrev pub marca_bmw : ℕ
marca_bmw = 1

abbrev pub marca_renault : ℕ
marca_renault = 2

abbrev pub marca_audi : ℕ
marca_audi = 3

abbrev pub marca_mercedes : ℕ
marca_mercedes = 4

abbrev pub combustivel_gasolina : ℕ
combustivel_gasolina = 0

abbrev pub combustivel_gasoleo : ℕ
combustivel_gasoleo = 1

abbrev pub combustivel_eletrico : ℕ
combustivel_eletrico = 2

abbrev pub combustivel_hibrido : ℕ
combustivel_hibrido = 3

-- `preco < 0.0f` on a float's bits: the sign is set, and it is neither -0 nor a NaN.
unfoldable pub is_negative : ℕ → Bool
is_negative bits = ltb 0x80000000 bits && leb bits 0xFF800000

unfoldable pub ano_atual : Sys → ℤ
ano_atual s = s.tm_year +ℤ pos 1900

-- The tests of `validar_dados`, in its order; it returns 1 if none of them refuses.
unfoldable pub validar_dados : ℤ → (ano : ℤ) (preco marca : ℕ) → Option CStr → ℕ → Bool
unfolding is_negative
validar_dados year ano preco marca none combustivel = false
validar_dados year ano preco marca (some modelo) combustivel =
    if ltb_ℤ ano (pos 1886) || ltb_ℤ year ano
    then false
    else if is_negative preco
    then false
    else if ltb marca marca_toyota || ltb marca_mercedes marca
    then false
    else if ltb combustivel combustivel_gasolina || ltb combustivel_hibrido combustivel
    then false
    else true

abbrev pub car : ℤ → ℕ → ℕ → CStr → ℕ → DataT
car ano preco marca modelo combustivel = record {
  ano = ano;
  preco = preco;
  marca = marca;
  modelo = modelo;
  combustivel = combustivel;
}

-- After the validation: the struct, then the copy of `modelo`; without the copy the struct is freed.
unfoldable pub build : ℤ → ℕ → ℕ → Option CStr → ℕ → M (Option DataT)
build ano preco marca none combustivel = pure none
build ano preco marca (some modelo) combustivel = do
  given ← malloc
  if not given then pure none else do
    copied ← malloc
    if not copied
        then (do free; pure none)
        else pure (some (car ano preco marca modelo combustivel))

unfoldable pub data_create : ℤ → ℕ → ℕ → Option CStr → ℕ → M (Option DataT)
data_create ano preco marca modelo combustivel s =
    if validar_dados (ano_atual s) ano preco marca modelo combustivel
    then build ano preco marca modelo combustivel s
    else (none, s)

-- Frees `modelo` and the struct; -1 for NULL.
unfoldable pub data_destroy : Option DataT → M ℤ
data_destroy none = pure minus_one
data_destroy (some c) = do free; free; pure (pos 0)

unfoldable pub data_dup : Option DataT → M (Option DataT)
data_dup none = pure none
data_dup (some c) = data_create c.ano c.preco c.marca (some c.modelo) c.combustivel

unfoldable pub overwrite : DataT → ℤ → ℕ → ℕ → Option CStr → ℕ → M (ℤ × Option DataT)
overwrite c ano preco marca none combustivel = pure (minus_one, some c)
overwrite c ano preco marca (some modelo) combustivel = do
  copied ← malloc
  if not copied
      then pure (minus_one, some c)
      else (do free; pure (pos 0, some (car ano preco marca modelo combustivel)))

-- The return code, and the struct afterwards.
unfoldable pub data_replace : Option DataT → ℤ → ℕ → ℕ → Option CStr → ℕ → M (ℤ × Option DataT)
data_replace none ano preco marca modelo combustivel s = ((minus_one, none), s)
data_replace (some c) ano preco marca modelo combustivel s =
    if validar_dados (ano_atual s) ano preco marca modelo combustivel
    then overwrite c ano preco marca modelo combustivel s
    else ((minus_one, some c), s)
