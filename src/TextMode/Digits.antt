-- ===== src/TextMode/Digits.antt =====
-- The texts that `PrintNumber` and `PrintHex32` print.
use native.Mathlib.Nat.{pow-suc}
use hydra_os.Common.{
  ℕ, zero, suc, ◌+◌, ◌-◌, ◌*◌, ◌/◌, ◌%◌, ◌^◌, ◌≤◌, ◌<◌, ◌≡◌, ◌∙◌, ◌⊎◌, inl, inr, refl, sym, ap,
  Bool, true, false, List, [], ◌∷◌, ltb, ◌==◌, if◌then◌else◌, arith, length,
}
use hydra_os.TextMode.{
  Screen, put_char, print, print_number, buffer_digits, hex_digit, print_hex, print_hex16,
  print_hex32,
}

-- The number that a text of digits in this base shows, behind the digits of `acc`.
pub value : ℕ → ℕ → List ℕ → ℕ
value base acc [] = acc
value base acc (c ∷ cs) = value base (acc * base + (if ltb c 58 then c - 48 else c - 55)) cs

pub data IsDecimal : List ℕ → Type 0 where
  none : IsDecimal []
  digit : {c : ℕ} {cs : List ℕ} → 48 ≤ c → c < 58 → IsDecimal cs → IsDecimal (c ∷ cs)

digits-value :
    (fuel n : ℕ) (cs : List ℕ)
    → n < 10 ^ fuel
    → value 10 0 (buffer_digits fuel n cs) ≡ value 10 n cs
unfolding buffer_digits
digits-value zero n cs lt = ap (λ a. value 10 a cs) (omega arith)
digits-value (suc fuel) n cs lt = elim (digit_cases n) [
  | inl e ↦
      ap (λ b. value 10 0 (if b then buffer_digits fuel (n / 10) ((48 + n % 10) ∷ cs) else cs)) e.1
      ∙ ap (λ a. value 10 a cs) (sym e.0)
  | inr e ↦
      ap (λ b. value 10 0 (if b then buffer_digits fuel (n / 10) ((48 + n % 10) ∷ cs) else cs)) e
      ∙ digits-value fuel (n / 10) ((48 + n % 10) ∷ cs) (omega (arith, pow-suc 10 fuel))
      ∙ unfold value in ap (λ a. value 10 a cs) (ground arith)
]
  where
    digit_cases : (n : ℕ) → ((n ≡ 0) × (ltb 0 n ≡ false)) ⊎ (ltb 0 n ≡ true)
    digit_cases n = ground arith

digits-IsDecimal : (fuel n : ℕ) (cs : List ℕ) → IsDecimal cs → IsDecimal (buffer_digits fuel n cs)
unfolding buffer_digits
digits-IsDecimal zero n cs v = v
digits-IsDecimal (suc fuel) n cs v =
    picks (ltb 0 n)
      (digits-IsDecimal fuel (n / 10) ((48 + n % 10) ∷ cs) (digit (omega arith) (omega arith) v))
  where
    picks :
        (b : Bool)
        → IsDecimal (buffer_digits fuel (n / 10) ((48 + n % 10) ∷ cs))
        → IsDecimal (if b then buffer_digits fuel (n / 10) ((48 + n % 10) ∷ cs) else cs)
    picks true d = d
    picks false d = v

-- The digits fit the buffer.
length-digits : (fuel n : ℕ) (cs : List ℕ) → length (buffer_digits fuel n cs) ≤ fuel + length cs
unfolding buffer_digits
length-digits zero n cs = omega arith
length-digits (suc fuel) n cs = ground (arith, length-digits fuel (n / 10) ((48 + n % 10) ∷ cs))

-- What `PrintNumber` prints: decimal digits, ten at most, for an eleven-byte buffer.
pub record Decimal (n : ℕ) (text : List ℕ) : Type 0 where
  pub digits : IsDecimal text
  pub shows : value 10 0 text ≡ n
  pub fits : length text ≤ 10
  pub nonempty : 0 < length text

value-empty : (n : ℕ) (text : List ℕ) → 0 < n → value 10 0 text ≡ n → 0 < length text
unfolding value
value-empty n [] pos e = absurd (omega arith)
value-empty n (c ∷ cs) pos e = omega arith

-- PrintNumber of a 32-bit number prints a non-empty text of at most ten decimal digits that
-- shows the number.
pub print_number_lem :
    (s : Screen) (n : ℕ)
    → n < 2 ^ 32
    → (text : List ℕ) × Decimal n text × (print_number s n ≡ print s text)
print_number_lem s n lt = elim (zero_cases n) [
  | inl e ↦ (
    48 ∷ [],
    record {
      digits = digit (omega arith) (omega arith) none;
      shows = unfold value in sym e.0;
      fits = omega arith;
      nonempty = omega arith;
    },
    unfold print_number print in
        ap (λ b. if b then put_char s 48 else print s (buffer_digits 10 n [])) e.1,
  )
  | inr e ↦ (
    buffer_digits 10 n [],
    record {
      digits = digits-IsDecimal 10 n [] none;
      shows = digits-value 10 n [] (omega arith) ∙ unfold value in refl;
      fits = length-digits 10 n [];
      nonempty =
          value-empty n _ (ground arith)
            (digits-value 10 n [] (omega arith) ∙ unfold value in refl);
    },
    unfold print_number in ap (λ b. if b then put_char s 48 else print s (buffer_digits 10 n [])) e,
  )
]
  where
    zero_cases : (n : ℕ) → ((n ≡ 0) × ((n == 0) ≡ true)) ⊎ ((n == 0) ≡ false)
    zero_cases n = ground arith

-- The eight hexadecimal digits of a 32-bit number.
abbrev pub hex_text : ℕ → List ℕ
hex_text n =
    hex_digit (n / 2 ^ 28 % 16)
    ∷ hex_digit (n / 2 ^ 24 % 16)
    ∷ hex_digit (n / 2 ^ 20 % 16)
    ∷ hex_digit (n / 2 ^ 16 % 16)
    ∷ hex_digit (n / 2 ^ 12 % 16)
    ∷ hex_digit (n / 2 ^ 8 % 16)
    ∷ hex_digit (n / 2 ^ 4 % 16)
    ∷ hex_digit (n % 16)
    ∷ []

hex_digit-value :
    (d acc : ℕ) (cs : List ℕ)
    → d < 16
    → value 16 acc (hex_digit d ∷ cs) ≡ value 16 (acc * 16 + d) cs
unfolding value hex_digit
hex_digit-value d acc cs lt = ap (λ a. value 16 a cs) (ground arith)

hex_text-value : (n : ℕ) → n < 2 ^ 32 → value 16 0 (hex_text n) ≡ n
hex_text-value n lt =
    hex_digit-value (n / 2 ^ 28 % 16) 0 _ (omega arith)
    ∙ hex_digit-value (n / 2 ^ 24 % 16) _ _ (omega arith)
    ∙ hex_digit-value (n / 2 ^ 20 % 16) _ _ (omega arith)
    ∙ hex_digit-value (n / 2 ^ 16 % 16) _ _ (omega arith)
    ∙ hex_digit-value (n / 2 ^ 12 % 16) _ _ (omega arith)
    ∙ hex_digit-value (n / 2 ^ 8 % 16) _ _ (omega arith)
    ∙ hex_digit-value (n / 2 ^ 4 % 16) _ _ (omega arith)
    ∙ hex_digit-value (n % 16) _ _ (omega arith)
    ∙ unfold value in omega arith

-- PrintHex32 of a 32-bit number prints a text of eight hexadecimal digits that shows the
-- number.
pub print_hex32_lem :
    (s : Screen) (n : ℕ)
    → n < 2 ^ 32
    → (text : List ℕ) × (length text ≡ 8) × (value 16 0 text ≡ n) × (print_hex32 s n ≡ print s text)
unfolding print_hex32 print_hex16 print_hex print
print_hex32_lem s n lt = (
  hex_text n,
  refl,
  hex_text-value n lt,
  λ i.
      put_char
        (put_char
          (put_char
            (put_char
              (put_char
                (put_char (put_char (put_char s (hex_digit (e28 i))) (hex_digit (e24 i)))
                  (hex_digit (e20 i)))
                (hex_digit (e16 i)))
              (hex_digit (e12 i)))
            (hex_digit (e8 i)))
          (hex_digit (e4 i)))
        (hex_digit (e0 i)),
)
  where
    e28 : n / 2 ^ 16 % 2 ^ 16 / 2 ^ 8 % 2 ^ 8 / 2 ^ 4 % 2 ^ 4 ≡ n / 2 ^ 28 % 16
    e28 = omega arith

    e24 : n / 2 ^ 16 % 2 ^ 16 / 2 ^ 8 % 2 ^ 8 % 2 ^ 4 ≡ n / 2 ^ 24 % 16
    e24 = omega arith

    e20 : n / 2 ^ 16 % 2 ^ 16 % 2 ^ 8 / 2 ^ 4 % 2 ^ 4 ≡ n / 2 ^ 20 % 16
    e20 = omega arith

    e16 : n / 2 ^ 16 % 2 ^ 16 % 2 ^ 8 % 2 ^ 4 ≡ n / 2 ^ 16 % 16
    e16 = omega arith

    e12 : n % 2 ^ 16 / 2 ^ 8 % 2 ^ 8 / 2 ^ 4 % 2 ^ 4 ≡ n / 2 ^ 12 % 16
    e12 = omega arith

    e8 : n % 2 ^ 16 / 2 ^ 8 % 2 ^ 8 % 2 ^ 4 ≡ n / 2 ^ 8 % 16
    e8 = omega arith

    e4 : n % 2 ^ 16 % 2 ^ 8 / 2 ^ 4 % 2 ^ 4 ≡ n / 2 ^ 4 % 16
    e4 = omega arith

    e0 : n % 2 ^ 16 % 2 ^ 8 % 2 ^ 4 ≡ n % 16
    e0 = omega arith
