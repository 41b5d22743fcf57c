-- ===== src/Text/Digits.antt =====
-- What the printed form of a natural number looks like, and that it reads back.
use Prim.Native.Char.{Char, code}
use Prim.Native.String
use Prim.Native.String.{[], ◌∷◌}
use text.Mathlib.TextLemmas.{cons-append, nil-append}
use minepanel_backend.Common.{
  ℕ, zero, suc, ◌+◌, ◌/◌, ◌%◌, ◌≤◌, ◌<◌, String, ◌≡◌, refl, sym, ap, ◌∙◌, subst, ltb, ltb→lt,
  Bool-cases, inl, inr, arith,
}
use minepanel_backend.Text.{digit, digits_on, decimal, decimal_value}

pub record IsDigitOf (d : ℕ) (c : Char) : Type 0 where
  pub value : code c ≡ d + 48
  pub small : d < 10

digit-IsDigitOf : (d : ℕ) → d < 10 → (c : Char) × (digit d ≡ c ∷ []) × IsDigitOf d c
unfolding digit
digit-IsDigitOf zero h = ("0", refl, record { value = refl; small = h })
digit-IsDigitOf (suc zero) h = ("1", refl, record { value = refl; small = h })
digit-IsDigitOf (suc (suc zero)) h = ("2", refl, record { value = refl; small = h })
digit-IsDigitOf (suc (suc (suc zero))) h = ("3", refl, record { value = refl; small = h })
digit-IsDigitOf (suc (suc (suc (suc zero)))) h = ("4", refl, record { value = refl; small = h })
digit-IsDigitOf (suc (suc (suc (suc (suc zero))))) h =
    ("5", refl, record { value = refl; small = h })
digit-IsDigitOf (suc (suc (suc (suc (suc (suc zero)))))) h =
    ("6", refl, record { value = refl; small = h })
digit-IsDigitOf (suc (suc (suc (suc (suc (suc (suc zero))))))) h =
    ("7", refl, record { value = refl; small = h })
digit-IsDigitOf (suc (suc (suc (suc (suc (suc (suc (suc zero)))))))) h =
    ("8", refl, record { value = refl; small = h })
digit-IsDigitOf (suc (suc (suc (suc (suc (suc (suc (suc (suc zero))))))))) h =
    ("9", refl, record { value = refl; small = h })
digit-IsDigitOf (suc (suc (suc (suc (suc (suc (suc (suc (suc (suc n)))))))))) h =
    absurd (omega (arith, h))

single-append : (c : Char) (text : String) → String.◌++◌ (c ∷ []) text ≡ c ∷ text
single-append c text = cons-append c [] text ∙ ap (λ s. c ∷ s) (nil-append text)

digit-append :
    (d : ℕ)
    → d < 10
    → (c : Char) × ((text : String) → String.◌++◌ (digit d) text ≡ c ∷ text) × IsDigitOf d c
digit-append d h =
    let (c, printed, is_digit_of) = digit-IsDigitOf d h in
    (c, (λ text. ap (λ s. String.◌++◌ s text) printed ∙ single-append c text), is_digit_of)

mod_small : (n : ℕ) → n % 10 < 10
mod_small n = omega arith

-- what holds of a text and stays when a digit is put in front, holds with the digits of a number
digits_on-induction :
    (P : String → Type 0)
    → ((d : ℕ) (c : Char) (text : String) → IsDigitOf d c → P text → P (c ∷ text))
    → (fuel n : ℕ) (text : String) → P text
    → P (digits_on fuel n text)
unfolding digits_on
digits_on-induction P step zero n text h = h
digits_on-induction P step (suc fuel) n text h =
    let (c, printed, is_digit_of) = digit-append (n % 10) (mod_small n) in
    let longer : P (String.◌++◌ (digit (n % 10)) text) =
      subst P (sym (printed text)) (step (n % 10) c text is_digit_of h) in
    elim (Bool-cases (ltb n 10)) [
      | inl last ↦ rw last longer
      | inr more ↦ rw more (digits_on-induction P step fuel (n / 10) _ longer)
    ]

-- the number reads back, in front of other digits
decimal_value-digits_on :
    (fuel n : ℕ) (text : String)
    → n < fuel
    → decimal_value 0 (digits_on fuel n text) ≡ decimal_value n text
unfolding digits_on decimal_value
decimal_value-digits_on zero n text h = absurd (omega (arith, h))
decimal_value-digits_on (suc fuel) n text h =
    let (c, printed, is_digit_of) = digit-append (n % 10) (mod_small n) in
    elim (Bool-cases (ltb n 10)) [
      | inl last ↦
          rw (last, printed text)
            (ap (λ k. decimal_value k text) (omega (arith, is_digit_of.value, ltb→lt n 10 last)))
      | inr more ↦
          let large : 10 ≤ n = ground (arith, more) in
          rw (more, printed text)
            (decimal_value-digits_on fuel (n / 10) _ (omega (arith, h, large))
              ∙ ap (λ k. decimal_value k text) (omega (arith, is_digit_of.value)))
    ]

-- the first digit of a number other than zero is not zero
digits_on-positive :
    (fuel n : ℕ) (text : String)
    → 0 < n
    → n < fuel
    → (c : Char) × (rest : String) × (digits_on fuel n text ≡ c ∷ rest)
      × (48 < code c)
      × (code c ≤ 57)
unfolding digits_on
digits_on-positive zero n text positive h = absurd (omega (arith, h))
digits_on-positive (suc fuel) n text positive h =
    let (c, printed, is_digit_of) = digit-append (n % 10) (mod_small n) in
    elim (Bool-cases (ltb n 10)) [
      | inl last ↦
          rw (last, printed text)
            (
              c,
              text,
              refl,
              omega (arith, is_digit_of.value, ltb→lt n 10 last, positive),
              omega (arith, is_digit_of.value, is_digit_of.small),
            )
      | inr more ↦
          let large : 10 ≤ n = ground (arith, more) in
          rw more
            (digits_on-positive fuel (n / 10) _ (omega (arith, large)) (omega (arith, h, large)))
    ]

-- what holds of the empty text and stays when a digit is put in front, holds of a printed number
pub decimal-induction :
    (P : String → Type 0)
    → ((d : ℕ) (c : Char) (text : String) → IsDigitOf d c → P text → P (c ∷ text))
    → P ""
    → (n : ℕ) → P (decimal n)
unfolding decimal
decimal-induction P step base n = digits_on-induction P step (n + 1) n "" base

pub decimal_value-decimal : (n : ℕ) → decimal_value 0 (decimal n) ≡ n
unfolding decimal decimal_value
decimal_value-decimal n = decimal_value-digits_on (n + 1) n "" (omega arith)

-- a positive number is printed without a leading zero
pub decimal-positive :
    (n : ℕ)
    → 0 < n
    → (c : Char) × (rest : String) × (decimal n ≡ c ∷ rest) × (48 < code c) × (code c ≤ 57)
unfolding decimal
decimal-positive n positive = digits_on-positive (n + 1) n "" positive (omega arith)
