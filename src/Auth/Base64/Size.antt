-- ===== src/Auth/Base64/Size.antt =====
-- How long the text that `b64_encode` writes is, and which characters are not in it.
use edgehost.Prelude.{
  ℕ, zero, suc, ◌+◌, ◌*◌, ◌/◌, ◌%◌, ◌^◌, ◌≤◌, ◌<◌, ◌≡◌, refl, arith, Bool, true, false, not, ◌&&◌,
  [], ◌∷◌, some, some_inj, ltb, ◌==◌, length, get_or, All, ap, subst, Bool-cases, inl, inr,
}
use edgehost.Prelude.Text.{Bytes, is_empty}
use edgehost.Auth.Base64.{
  padding, alphabet, sextet, encode_groups, url_char, url_chars, strip_padding, b64_encode,
}

not_ltb : {a b : ℕ} → ltb a (b + 1) ≡ false → b < a
not_ltb h = ground (arith, h)

pub length-groups : (s : Bytes) → length (encode_groups s) ≡ (length s + 2) / 3 * 4
unfolding encode_groups
length-groups [] = refl
length-groups (a ∷ []) = refl
length-groups (a ∷ b ∷ []) = refl
length-groups (a ∷ b ∷ c ∷ s) = omega (arith, length-groups s)

length-url : (s : Bytes) → length (url_chars s) ≡ length s
unfolding url_chars
length-url [] = refl
length-url (c ∷ s) = ap suc (length-url s)

length-strip : (s : Bytes) → length (strip_padding s) ≤ length s
unfolding strip_padding
length-strip [] = omega arith
length-strip (c ∷ s) = elim (Bool-cases (is_empty (strip_padding s) && c == padding)) [
  | inl pad ↦ rw pad (omega arith)
  | inr other ↦ rw other (omega (arith, length-strip s))
]

All-strip : (P : ℕ → Type 0) (s : Bytes) → All P s → All P (strip_padding s)
unfolding strip_padding
All-strip P [] h = tt
All-strip P (c ∷ s) h = elim (Bool-cases (is_empty (strip_padding s) && c == padding)) [
  | inl pad ↦ rw pad tt
  | inr other ↦ rw other (h.0, All-strip P s h.1)
]

abbrev pub IsDotless : ℕ → Type 0
IsDotless c = (c == b'.') ≡ false

-- No character of the alphabet is a dot, nor one that is read for a number out of range.
dotless : Bytes → Bool
dotless [] = true
dotless (c ∷ s) = not (url_char c == b'.') && dotless s

dotless_get : (s : Bytes) (i : ℕ) → dotless s ≡ true → IsDotless (url_char (get_or s i 0))
unfolding dotless url_char
dotless_get [] i h = refl
dotless_get (c ∷ s) zero h = ground (arith, h)
dotless_get (c ∷ s) (suc i) h = dotless_get s i (ground (arith, h))

dotless-alphabet : dotless alphabet ≡ true
unfolding dotless url_char
dotless-alphabet = refl

sextet-IsDotless : (n shift : ℕ) → IsDotless (url_char (sextet n shift))
sextet-IsDotless n shift = dotless_get alphabet (n / 2 ^ shift % 64) dotless-alphabet

groups-IsDotless : (s : Bytes) → All IsDotless (url_chars (encode_groups s))
unfolding encode_groups url_chars url_char
groups-IsDotless [] = tt
groups-IsDotless (a ∷ []) =
    let n = a * 65536 in (sextet-IsDotless n 18, (sextet-IsDotless n 12, (refl, (refl, tt))))
groups-IsDotless (a ∷ b ∷ []) =
    let n = a * 65536 + b * 256 in
    (sextet-IsDotless n 18, (sextet-IsDotless n 12, (sextet-IsDotless n 6, (refl, tt))))
groups-IsDotless (a ∷ b ∷ c ∷ s) =
    let n = a * 65536 + b * 256 + c in
    (
      sextet-IsDotless n 18,
      (sextet-IsDotless n 12, (sextet-IsDotless n 6, (sextet-IsDotless n 0, groups-IsDotless s))),
    )

room :
    (s : Bytes) (out_sz : ℕ)
    → ltb out_sz ((length s + 2) / 3 * 4 + 1) ≡ false
    → length (strip_padding (url_chars (encode_groups s))) < out_sz
room s out_sz fits =
    let wide : (length s + 2) / 3 * 4 < out_sz = not_ltb fits in
    omega (
      arith,
      length-strip (url_chars (encode_groups s)),
      length-url (encode_groups s),
      length-groups s,
    )

-- The text fits the buffer, and has no dot.
pub b64_encode-url :
    (s src : Bytes) (out_sz : ℕ)
    → b64_encode s out_sz true ≡ some src
    → (length src < out_sz) × All IsDotless src
unfolding b64_encode
b64_encode-url s src out_sz h = elim (Bool-cases (ltb out_sz ((length s + 2) / 3 * 4 + 1))) [
  | inl small ↦ absurd (cc (rw small at h))
  | inr fits ↦
      let e = some_inj (rw fits at h) in
      (
        subst (λ t. length t < out_sz) e (room s out_sz fits),
        subst (λ t. All IsDotless t) e
            (All-strip IsDotless (url_chars (encode_groups s)) (groups-IsDotless s)),
      )
]

-- Every three bytes are four characters at most.
pub length-b64_encode :
    (s src : Bytes) (out_sz : ℕ)
    → b64_encode s out_sz true ≡ some src
    → length src ≤ (length s + 2) / 3 * 4
unfolding b64_encode
length-b64_encode s src out_sz h = elim (Bool-cases (ltb out_sz ((length s + 2) / 3 * 4 + 1))) [
  | inl small ↦ absurd (cc (rw small at h))
  | inr fits ↦
      subst (λ t. length t ≤ (length s + 2) / 3 * 4) (some_inj (rw fits at h))
        (omega (
          arith,
          length-strip (url_chars (encode_groups s)),
          length-url (encode_groups s),
          length-groups s,
        ))
]
