-- ===== src/Locale/Digits.antt =====
-- `String(n)` of a natural number: digits, which `trim` leaves as they are.
use mathlib.Core.List.{reverse, reverse-reverse, reverse_aux}
use garage_admin_console.Base.{
  ℕ, zero, suc, ◌+◌, ◌/◌, ◌%◌, ◌≡◌, refl, inl, inr, Bool, true, false, ◌&&◌, [], ◌∷◌, arith, Text,
  trim, is_space, trim_start, leb, ltb, is_empty, All, All-map_of, Bool-cases,
}
use garage_admin_console.Locale.{decimal, digits_from}

abbrev pub is_digit : ℕ → Bool
is_digit c = leb b'0' c && leb c b'9'

digits_from-All :
    (fuel n : ℕ) (acc : Text)
    → All (λ c. is_digit c ≡ true) acc
    → All (λ c. is_digit c ≡ true) (digits_from fuel n acc)
unfolding digits_from
digits_from-All zero n acc h = h
digits_from-All (suc fuel) n acc h =
    let digit = b'0' + n % 10 in
    let more : All (λ c. is_digit c ≡ true) (digit ∷ acc) = (ground arith, h) in
    elim (Bool-cases (ltb n 10)) [
      | inl e ↦ rw e more
      | inr e ↦ rw e (digits_from-All fuel (n / 10) (digit ∷ acc) more)
    ]

digits_from-filled :
    (fuel n : ℕ) (acc : Text) → is_empty acc ≡ false → is_empty (digits_from fuel n acc) ≡ false
unfolding digits_from
digits_from-filled zero n acc h = h
digits_from-filled (suc fuel) n acc h = elim (Bool-cases (ltb n 10)) [
  | inl e ↦ rw e refl
  | inr e ↦ rw e (digits_from-filled fuel (n / 10) ((b'0' + n % 10) ∷ acc) refl)
]

pub decimal-All : (n : ℕ) → All (λ c. is_digit c ≡ true) (decimal n)
unfolding decimal
decimal-All n = digits_from-All (suc n) n [] tt

pub decimal-filled : (n : ℕ) → is_empty (decimal n) ≡ false
unfolding decimal digits_from
decimal-filled n = elim (Bool-cases (ltb n 10)) [
  | inl e ↦ rw e refl
  | inr e ↦ rw e (digits_from-filled n (n / 10) ((b'0' + n % 10) ∷ []) refl)
]

trim_start-eq_self : (s : Text) → All (λ c. is_space c ≡ false) s → trim_start s ≡ s
trim_start-eq_self [] h = refl
trim_start-eq_self (c ∷ s) (solid, h) = rw solid refl

All-reverse_aux {κ} : (P : ℕ → Type κ) (s t : Text) → All P s → All P t → All P (reverse_aux s t)
All-reverse_aux P [] t h k = k
All-reverse_aux P (c ∷ s) t (p, h) k = All-reverse_aux P s (c ∷ t) h (p, k)

-- A text without spaces.
trim-eq_self : (s : Text) → All (λ c. is_space c ≡ false) s → trim s ≡ s
unfolding trim
trim-eq_self s h =
    rw (trim_start-eq_self s h, trim_start-eq_self (reverse s) (All-reverse_aux _ s [] h tt))
      (reverse-reverse s)

digit-solid : (c : ℕ) → is_digit c ≡ true → is_space c ≡ false
unfolding is_space
digit-solid c e = ground arith

pub trim-decimal : (n : ℕ) → trim (decimal n) ≡ decimal n
trim-decimal n = trim-eq_self (decimal n) (All-map_of digit-solid (decimal n) (decimal-All n))
