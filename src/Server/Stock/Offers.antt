-- ===== src/Server/Stock/Offers.antt =====
-- The list service over a stock: what the answers and the cars afterwards can be when the order
-- between the years is not known.
use list_server.Base.{
  ◌≡◌, ◌≢◌, refl, sym, ap, subst, inl, inr, none, some, List, CStr, ℤ, minus_one, first, ℕ, length,
}
use list_server.Car.{DataT}
use list_server.Car.Laws.{IsValid}
use list_server.CarList.Edit.{same_model}
use list_server.CarList.Query.{same_marca, models_of}
use list_server.CarList.Sorted.{stable_sort, length-stable_sort}
use list_server.Spec.{Request, Answer, Serves}
use list_server.Server.Replicas.{IsWrite}
use list_server.Server.Stock.{Stock, of_cars, year_of, put, in_order_of, of_cars-stable_sort}
use list_server.Server.Stock.Removal.{
  years_cases, take_out, first-keep, keep-first-none, drop_first_one,
}

-- A model to delete has cars of one year at most.
abbrev pub Settled : Stock → Request → Type 0
Settled x (Request.del m) =
    (y : ℤ) × ((ano : ℤ) → ano ≢ y → first (same_model m) (year_of ano x) ≡ none)
Settled x q = Unit

-- The car that is given is the first of its brand among the cars of its year; the models are
-- those of some list of the stock, in its order.
pub data Offers (year : ℤ) (x : Stock) : Request → Answer → Stock → Type 0 where
  add_valid : (c : DataT) → IsValid year c → Offers year x (Request.add c) Answer.done (put c x)
  add_invalid : (c : DataT) → ¬ IsValid year c → Offers year x (Request.add c) Answer.rejected x
  del_first :
      (m : CStr) (c : DataT)
      → ((ano : ℤ) → ano ≢ c.ano → first (same_model m) (year_of ano x) ≡ none)
      → first (same_model m) (year_of c.ano x) ≡ some c
      → Offers year x (Request.del m) Answer.removed (take_out m c.ano x)
  del_none :
      (m : CStr)
      → ((ano : ℤ) → first (same_model m) (year_of ano x) ≡ none)
      → Offers year x (Request.del m) Answer.missing x
  get_one :
      (marca : ℕ) (c : DataT)
      → first (same_marca marca) (year_of c.ano x) ≡ some c
      → Offers year x (Request.get marca) (Answer.found c) x
  get_none :
      (marca : ℕ)
      → ((ano : ℤ) → first (same_marca marca) (year_of ano x) ≡ none)
      → Offers year x (Request.get marca) Answer.nothing x
  of_year :
      (ano : ℤ)
      → ano ≢ minus_one
      → Offers year x (Request.in_year ano) (Answer.listed (year_of ano x)) x
  sorted : Offers year x Request.in_order (Answer.listed (in_order_of x)) x
  size : Offers year x Request.count (Answer.counted (length (in_order_of x))) x
  models :
      (cs : List DataT)
      → of_cars cs ≡ x
      → Offers year x Request.names (Answer.named (models_of cs)) x

-- A read leaves the stock.
pub reads_leave :
    {year : ℤ} {x y : Stock} {q : Request} {a : Answer} → Offers year x q a y → ¬ IsWrite q → x ≡ y
reads_leave (Offers.add_valid c v) r = absurd (r tt)
reads_leave (Offers.add_invalid c bad) r = absurd (r tt)
reads_leave (Offers.del_first m c one e) r = absurd (r tt)
reads_leave (Offers.del_none m e) r = absurd (r tt)
reads_leave (Offers.get_one marca c e) r = refl
reads_leave (Offers.get_none marca e) r = refl
reads_leave (Offers.of_year ano d) r = refl
reads_leave Offers.sorted r = refl
reads_leave Offers.size r = refl
reads_leave (Offers.models ms e) r = refl

after_valid :
    {year : ℤ} {x : Stock} (c : DataT)
    → IsValid year c
    → {z : Stock} {b : Answer} → Offers year x (Request.add c) b z
    → put c x ≡ z
after_valid c v (Offers.add_valid _ _) = refl
after_valid c v (Offers.add_invalid _ bad) = absurd (bad v)

after_invalid :
    {year : ℤ} {x : Stock} (c : DataT)
    → ¬ IsValid year c
    → {z : Stock} {b : Answer} → Offers year x (Request.add c) b z
    → x ≡ z
after_invalid c bad (Offers.add_valid _ v) = absurd (bad v)
after_invalid c bad (Offers.add_invalid _ _) = refl

after_removed :
    {year : ℤ} {x : Stock} (m : CStr) (c : DataT)
    → ((ano : ℤ) → ano ≢ c.ano → first (same_model m) (year_of ano x) ≡ none)
    → first (same_model m) (year_of c.ano x) ≡ some c
    → {z : Stock} {b : Answer} → Offers year x (Request.del m) b z
    → take_out m c.ano x ≡ z
after_removed {x = x} m c one e (Offers.del_first _ d two f) = elim (years_cases c.ano d.ano) [
  | inl same ↦ ap (λ (y : ℤ). take_out m y x) same
  | inr other ↦ let n = two c.ano other in absurd (cc)
]
after_removed m c one e (Offers.del_none _ gone) = let n = gone c.ano in absurd (cc)

after_missing :
    {year : ℤ} {x : Stock} (m : CStr)
    → ((ano : ℤ) → first (same_model m) (year_of ano x) ≡ none)
    → {z : Stock} {b : Answer} → Offers year x (Request.del m) b z
    → x ≡ z
after_missing m gone (Offers.del_first _ c one e) = let n = gone c.ano in absurd (cc)
after_missing m gone (Offers.del_none _ _) = refl

-- A request leaves one stock, whatever it is answered.
pub Offers-one :
    {year : ℤ} {x y z : Stock} {q : Request} {a b : Answer}
    → Offers year x q a y
    → Offers year x q b z
    → y ≡ z
Offers-one (Offers.add_valid c v) o = after_valid c v o
Offers-one (Offers.add_invalid c bad) o = after_invalid c bad o
Offers-one (Offers.del_first m c one e) o = after_removed m c one e o
Offers-one (Offers.del_none m gone) o = after_missing m gone o
Offers-one (Offers.get_one marca c e) o = reads_leave o λ w. w
Offers-one (Offers.get_none marca e) o = reads_leave o λ w. w
Offers-one (Offers.of_year ano d) o = reads_leave o λ w. w
Offers-one Offers.sorted o = reads_leave o λ w. w
Offers-one Offers.size o = reads_leave o λ w. w
Offers-one (Offers.models ms e) o = reads_leave o λ w. w

-- What a list is answered, its stock offers.
pub Serves-Offers :
    {year : ℤ} {cs ds : List DataT} {q : Request} {a : Answer}
    → Serves year cs q a ds
    → Settled (of_cars cs) q
    → Offers year (of_cars cs) q a (of_cars ds)
unfolding year_of put in_order_of take_out
Serves-Offers (Serves.add_valid c v) t = Offers.add_valid c v
Serves-Offers (Serves.add_invalid c bad) t = Offers.add_invalid c bad
Serves-Offers {year} {cs} (Serves.del_first m c e) (y, one) =
    let found = first-keep (same_model m) c cs e in
    elim (years_cases c.ano y) [
      | inl same ↦
          let one' =
            subst
              (λ z. (ano : ℤ) → ano ≢ z → first (same_model m) (year_of ano (of_cars cs)) ≡ none)
              (sym same) one in
          subst (Offers year (of_cars cs) (Request.del m) Answer.removed)
            (ap of_cars (sym (drop_first_one m c.ano cs one'))) (Offers.del_first m c one' found)
      | inr other ↦ let n = one c.ano other in absurd (cc)
    ]
Serves-Offers {year} {cs} (Serves.del_none m e) t =
    Offers.del_none m λ ano. keep-first-none (same_model m) ano cs e
Serves-Offers {year} {cs} (Serves.get_first marca c e) t =
    Offers.get_one marca c (first-keep (same_marca marca) c cs e)
Serves-Offers {year} {cs} (Serves.get_none marca e) t =
    Offers.get_none marca λ ano. keep-first-none (same_marca marca) ano cs e
Serves-Offers (Serves.of_year ano d) t = Offers.of_year ano d
Serves-Offers {year} {cs} Serves.sorted t =
    subst (Offers year (of_cars cs) Request.in_order (Answer.listed (stable_sort cs)))
      (sym (of_cars-stable_sort cs)) Offers.sorted
Serves-Offers {year} {cs} Serves.size t =
    subst (λ n. Offers year (of_cars cs) Request.count (Answer.counted n) (of_cars cs))
      (length-stable_sort cs) Offers.size
Serves-Offers {year} {cs} Serves.models t = Offers.models cs refl
