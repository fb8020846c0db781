-- ===== src/Server/Stock/Removal.antt =====
-- The removal of the first car of a model where all cars of the model are of one year: it is the
-- same car whatever the order between the years is.
use mathlib.Core.Quot
use mathlib.Core.Quot.{Quot, Quot-set}
use list_server.Base.{
  ◌≡◌, ◌≢◌, refl, ◌⊎◌, subst, sym, ap, ◌∙◌, inl, inr, Bool-cases, none, some, List, [], ◌∷◌, arith,
  CStr, ℤ, ◌==ℤ◌, ◌&&◌, keep, first, drop_first, Bool, ==ℤ_iff,
}
use list_server.Car.{DataT}
use list_server.CarList.Edit.{same_model}
use list_server.CarList.Query.{same_ano}
use list_server.Server.Stock.{SameYears, Stock, of_cars}

abbrev pub both : CStr → ℤ → DataT → Bool
both m y c = same_model m c && same_ano y c

pub years_cases : (a b : ℤ) → (a ≡ b) ⊎ (a ≢ b)
years_cases a b = elim (Bool-cases (a ==ℤ b)) [
  | inl e ↦ inl ((==ℤ_iff a b).0 e)
  | inr e ↦ inr λ same. ground (arith, e, same)
]

keep-drop_first_here :
    (m : CStr) (y : ℤ) (cs : List DataT)
    → keep (same_ano y) (drop_first (both m y) cs)
      ≡ drop_first (same_model m) (keep (same_ano y) cs)
unfolding keep drop_first
keep-drop_first_here m y [] = refl
keep-drop_first_here m y (c ∷ cs) = ground (arith, keep-drop_first_here m y cs)

keep-drop_first_there :
    (m : CStr) (y ano : ℤ) (cs : List DataT)
    → ano ≢ y
    → keep (same_ano ano) (drop_first (both m y) cs) ≡ keep (same_ano ano) cs
unfolding keep drop_first
keep-drop_first_there m y ano [] d = refl
keep-drop_first_there m y ano (c ∷ cs) d = ground (arith, keep-drop_first_there m y ano cs d)

pub drop_first-SameYears :
    (m : CStr) (y : ℤ) (cs ds : List DataT)
    → SameYears cs ds
    → SameYears (drop_first (both m y) cs) (drop_first (both m y) ds)
drop_first-SameYears m y cs ds h ano = elim (years_cases ano y) [
  | inl e ↦
      let here = keep-drop_first_here m y in
      subst
        (λ z.
          keep (same_ano z) (drop_first (both m y) cs)
          ≡ keep (same_ano z) (drop_first (both m y) ds))
        (sym e) (here cs ∙ ap (drop_first (same_model m)) (h y) ∙ sym (here ds))
  | inr d ↦ keep-drop_first_there m y ano cs d ∙ h ano ∙ sym (keep-drop_first_there m y ano ds d)
]

-- The first car of the model goes, where all are of the year `y`.
unfoldable pub take_out : CStr → ℤ → Stock → Stock
take_out m y =
    Quot.lift Quot-set (λ cs. of_cars (drop_first (both m y) cs))
      λ cs ds h. Quot.sound (drop_first-SameYears m y cs ds h)

pub first-keep :
    (p : DataT → Bool) (c : DataT) (cs : List DataT)
    → first p cs ≡ some c
    → first p (keep (same_ano c.ano) cs) ≡ some c
unfolding first keep
first-keep p c [] e = absurd (cc)
first-keep p c (x ∷ xs) e = ground (arith, first-keep p c xs)

pub keep-first-none :
    (p : DataT → Bool) (ano : ℤ) (cs : List DataT)
    → first p cs ≡ none
    → first p (keep (same_ano ano) cs) ≡ none
unfolding first keep
keep-first-none p ano [] e = refl
keep-first-none p ano (x ∷ xs) e = ground (arith, keep-first-none p ano xs)

pub drop_first-none :
    (p : DataT → Bool) (cs : List DataT) → first p cs ≡ none → drop_first p cs ≡ cs
unfolding first drop_first
drop_first-none p [] e = refl
drop_first-none p (x ∷ xs) e = ground (arith, drop_first-none p xs)

-- Every car of the model is of the year.
abbrev pub OneYear : CStr → ℤ → List DataT → Type 0
OneYear m y cs = (ano : ℤ) → ano ≢ y → first (same_model m) (keep (same_ano ano) cs) ≡ none

pub drop_first_one :
    (m : CStr) (y : ℤ) (cs : List DataT)
    → OneYear m y cs
    → drop_first (same_model m) cs ≡ drop_first (both m y) cs
unfolding first keep drop_first
drop_first_one m y [] h = refl
drop_first_one m y (c ∷ cs) h =
    ground (arith, h c.ano, drop_first_one m y cs (λ ano d. ground (arith, h ano d)))
