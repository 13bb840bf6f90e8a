-- ===== src/Auth/Number.antt =====
-- `strtoll` in base 10.
use edgehost.Prelude.{
  ℕ, zero, suc, ◌+◌, ◌-◌, ◌*◌, ◌/◌, ◌%◌, ◌^◌, ◌<◌, ◌≡◌, refl, arith, min, Bool, true, false, [],
  ◌∷◌, ◌++◌, Option, none, some, ltb, ◌==◌, if◌then◌else◌, ap, ◌∙◌, Bool-cases, lt→ltb, inl, inr,
}
use edgehost.Prelude.Int.{ℤ, pos, negsuc}
use edgehost.Prelude.Text.{Bytes, is_space, is_digit, digits, decimal}

unfoldable pub drop_spaces : Bytes → Bytes
drop_spaces [] = []
drop_spaces (c ∷ s) = let rest = drop_spaces s in if is_space c then rest else c ∷ s

-- The number of the digits in front, behind those that make `n`, and the text after them.
unfoldable pub read_digits : ℕ → Bytes → ℕ × Bytes
read_digits n [] = (n, [])
read_digits n (c ∷ s) =
    let more = read_digits (n * 10 + (c - b'0')) s in if is_digit c then more else (n, c ∷ s)

abbrev pub starts_digit : Bytes → Bool
starts_digit [] = false
starts_digit (c ∷ s) = is_digit c

-- Out of range the result is the nearest 64-bit number.
abbrev pub signed : Bool → ℕ → ℤ
signed false n = pos (min n (2 ^ 63 - 1))
signed true zero = pos 0
signed true (suc n) = negsuc (min n (2 ^ 63 - 1))

unfoldable pub unsigned_part : Bool → Bytes → Option (ℤ × Bytes)
unfolding read_digits
unsigned_part negative s =
    if starts_digit s
    then (let (n, rest) = read_digits 0 s in some (signed negative n, rest))
    else none

unfoldable pub after_sign : Bytes → Option (ℤ × Bytes)
unfolding unsigned_part
after_sign [] = none
after_sign (c ∷ s) =
    if c == b'-'
    then unsigned_part true s
    else if c == b'+'
    then unsigned_part false s
    else unsigned_part false (c ∷ s)

-- `strtoll(s, &end, 10)` with the text at `end`; `none` is `end == s`, when there are no digits.
unfoldable pub strtoll : Bytes → Option (ℤ × Bytes)
unfolding drop_spaces after_sign
strtoll s = after_sign (drop_spaces s)

digit_last :
    (n : ℕ) (t : Bytes)
    → n < 10
    → (m : ℕ) → read_digits m ((n + b'0') ∷ t) ≡ read_digits (m * 10 + n) t
unfolding read_digits is_digit
digit_last n t h m =
    let good : is_digit (n + b'0') ≡ true = ground arith in
    rw good (ap (λ k. read_digits k t) (omega arith))

digit_first : (n : ℕ) (t : Bytes) → n < 10 → read_digits 0 ((n + b'0') ∷ t) ≡ read_digits n t
digit_first n t h = digit_last n t h 0 ∙ ap (λ k. read_digits k t) (omega arith)

read_digits-digits :
    (f n : ℕ) (t : Bytes) → n < 10 ^ suc f → read_digits 0 (digits (suc f) n t) ≡ read_digits n t
unfolding digits
read_digits-digits zero n t h = rw (lt→ltb n 10 h) (digit_first n t h)
read_digits-digits (suc f) n t h = elim (Bool-cases (ltb n 10)) [
  | inl last ↦ rw last (digit_first n t (ground arith))
  | inr more ↦ rw more (
      read_digits-digits f (n / 10) ((n % 10 + b'0') ∷ t) (omega arith)
      ∙ digit_last (n % 10) t (omega arith) (n / 10)
      ∙ ap (λ m. read_digits m t) (omega arith))
]

digits-append : (f n : ℕ) (s t : Bytes) → digits f n s ++ t ≡ digits f n (s ++ t)
unfolding digits
digits-append zero n s t = refl
digits-append (suc f) n s t = elim (Bool-cases (ltb n 10)) [
  | inl last ↦ rw last refl
  | inr more ↦ rw more (digits-append f (n / 10) ((n % 10 + b'0') ∷ s) t)
]

digits_head : (f n : ℕ) (t : Bytes) → starts_digit t ≡ true → starts_digit (digits f n t) ≡ true
unfolding digits is_digit
digits_head zero n t h = h
digits_head (suc f) n t h = elim (Bool-cases (ltb n 10)) [
  | inl last ↦ rw last (ground arith)
  | inr more ↦ rw more (digits_head f (n / 10) ((n % 10 + b'0') ∷ t) (ground arith))
]

pub decimal_head : (n : ℕ) (t : Bytes) → starts_digit (decimal n ++ t) ≡ true
unfolding decimal digits is_digit
decimal_head n t = rw (digits-append 20 n [] t) (elim (Bool-cases (ltb n 10)) [
  | inl last ↦ rw last (ground arith)
  | inr more ↦ rw more (digits_head 19 (n / 10) ((n % 10 + b'0') ∷ t) (ground arith))
])

strtoll_digit :
    (s : Bytes)
    → starts_digit s ≡ true
    → strtoll s ≡ (let (n, rest) = read_digits 0 s in some (signed false n, rest))
unfolding strtoll drop_spaces is_space after_sign unsigned_part is_digit
strtoll_digit [] h = cc
strtoll_digit (c ∷ s) h =
    let no_space : is_space c ≡ false = ground arith in
    let no_minus : (c == b'-') ≡ false = ground arith in
    let no_plus : (c == b'+') ≡ false = ground arith in rw (no_space, no_minus, no_plus, h) refl

read_stop : (n : ℕ) (t : Bytes) → starts_digit t ≡ false → read_digits n t ≡ (n, t)
unfolding read_digits
read_stop n [] h = refl
read_stop n (c ∷ t) h = rw h refl

-- `strtoll` reads back a 63-bit number that was printed before anything but a digit.
pub strtoll-decimal :
    (n : ℕ) (t : Bytes)
    → n < 2 ^ 63
    → starts_digit t ≡ false
    → strtoll (decimal n ++ t) ≡ some (pos n, t)
unfolding decimal
strtoll-decimal n t h stop =
    strtoll_digit (decimal n ++ t) (decimal_head n t)
    ∙ ap (λ (r : ℕ × Bytes). (let (k, rest) = r in some (signed false k, rest)))
        (ap (read_digits 0) (digits-append 20 n [] t)
          ∙ read_digits-digits 19 n t (omega arith)
          ∙ read_stop n t stop)
    ∙ ap (λ k. (let r : Option (ℤ × Bytes) = some (pos k, t) in r)) (omega arith)
