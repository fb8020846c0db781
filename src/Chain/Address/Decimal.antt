-- ===== src/Chain/Address/Decimal.antt =====
-- A number printed by `%d` is read back by `atoi`.
use list_server.Base.{
  ℕ, zero, suc, ◌+◌, ◌/◌, ◌%◌, ◌<◌, ◌≡◌, sym, ap, ◌∙◌, true, inl, inr, [], ◌∷◌, arith, ltb, CStr,
  pos, Bool-cases,
}
use list_server.CLib.{is_digit, digits_value, unsigned, signed, skip_spaces, atoi}
use list_server.Chain.Address.{digits, decimal}

digits_value-digits :
    (fuel n : ℕ) (rest : CStr)
    → n < fuel
    → digits_value 0 (digits fuel n rest) ≡ digits_value n rest
unfolding digits digits_value
digits_value-digits zero n rest h = absurd (omega arith)
digits_value-digits (suc fuel) n rest h = elim (Bool-cases (ltb n 10)) [
  | inl small ↦ ground (arith, small)
  | inr big ↦ ground (arith, big, digits_value-digits fuel (n / 10) ((b'0' + n % 10) ∷ rest))
]

-- A digit stands first.
digits-head :
    (fuel n : ℕ) (rest : CStr)
    → n < fuel
    → (c : ℕ) × (cs : CStr) × (digits fuel n rest ≡ c ∷ cs) × (is_digit c ≡ true)
unfolding digits
digits-head zero n rest h = absurd (omega arith)
digits-head (suc fuel) n rest h = elim (Bool-cases (ltb n 10)) [
  | inl small ↦ (b'0' + n, rest, ground (arith, small), ground (arith, small))
  | inr big ↦
      let (c, cs, e, d) =
        digits-head fuel (n / 10) ((b'0' + n % 10) ∷ rest) (ground (arith, big)) in
      (c, cs, ground (arith, big, e), d)
]

pub atoi-decimal : (n : ℕ) → atoi (decimal (pos n)) ≡ pos n
unfolding atoi decimal skip_spaces signed unsigned digits_value
atoi-decimal n =
    let (c, cs, e, d) = digits-head (n + 1) n [] (omega arith) in
    let v : digits_value 0 (c ∷ cs) ≡ n =
      ap (digits_value 0) (sym e) ∙ digits_value-digits (n + 1) n [] (omega arith) in
    ground (arith, e, d, v)
