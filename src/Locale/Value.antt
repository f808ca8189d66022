-- ===== src/Locale/Value.antt =====
-- The value of decimal digits: `String(n)` reads back as `n`.
use garage_admin_console.Base.{
  ℕ, zero, suc, ◌+◌, ◌*◌, ◌-◌, ◌/◌, ◌%◌, ◌<◌, ◌≡◌, ◌∙◌, ap, inl, inr, [], ◌∷◌, arith, Text, ltb,
  Bool-cases,
}
use garage_admin_console.Locale.{decimal, digits_from}

-- `Number(s)` of digits, after those that give `acc`
unfoldable pub value_of_digits : ℕ → Text → ℕ
value_of_digits acc [] = acc
value_of_digits acc (c ∷ s) = value_of_digits (acc * 10 + (c - b'0')) s

digits_from-value :
    (fuel n : ℕ) (acc : Text)
    → n < fuel
    → value_of_digits 0 (digits_from fuel n acc) ≡ value_of_digits n acc
unfolding digits_from value_of_digits
digits_from-value zero n acc lt = absurd (omega (arith, lt))
digits_from-value (suc fuel) n acc lt = elim (Bool-cases (ltb n 10)) [
  | inl e ↦ rw e (ap (λ m. value_of_digits m acc) (ground (arith, e)))
  | inr e ↦ rw e (
      digits_from-value fuel (n / 10) ((b'0' + n % 10) ∷ acc) (ground (arith, lt, e))
      ∙ ap (λ m. value_of_digits m acc) (omega arith))
]

pub value_of_digits-decimal : (n : ℕ) → value_of_digits 0 (decimal n) ≡ n
unfolding decimal value_of_digits
value_of_digits-decimal n = digits_from-value (suc n) n [] (omega arith)
