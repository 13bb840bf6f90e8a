-- ===== src/Auth/Base64/RoundTrip.antt =====
-- What is encoded for a URL decodes to itself.
use edgehost.Prelude.{
  ℕ, zero, suc, ◌+◌, ◌-◌, ◌*◌, ◌/◌, ◌%◌, ◌^◌, ◌≤◌, ◌<◌, ◌≡◌, refl, arith, Bool, true, false, ◌&&◌,
  [], ◌∷◌, ◌++◌, Option, none, some, some_inj, ltb, leb, ◌==◌, length, get_or, replicate, All, ap,
  ap₂, sym, ◌∙◌, subst, ==_iff, Bool-cases, inl, inr,
}
use edgehost.Prelude.Text.{Bytes}
use edgehost.Auth.Base64.{
  padding, alphabet, sextet, encode_groups, url_char, url_chars, strip_padding, b64_encode,
  b64_decode_char, emit, decode_from, b64_decode,
}

-- The character of six bits in the URL alphabet.
unfoldable pub char_of : ℕ → ℕ
char_of d = url_char (get_or alphabet d 0)

is_read : Option ℕ → ℕ → Bool
is_read none d = false
is_read (some x) d = x == d

all_read : ℕ → Bool
all_read zero = true
all_read (suc n) = is_read (b64_decode_char (char_of n)) n && all_read n

read_all : all_read 64 ≡ true
unfolding all_read is_read b64_decode_char url_char char_of
read_all = refl

is_read-some : (o : Option ℕ) (d : ℕ) → is_read o d ≡ true → o ≡ some d
unfolding is_read
is_read-some none d h = cc
is_read-some (some x) d h = ap some ((==_iff x d).0 h)

read_below : (n d : ℕ) → all_read n ≡ true → d < n → b64_decode_char (char_of d) ≡ some d
unfolding all_read
read_below zero d h lt = absurd (omega arith)
read_below (suc n) d h lt = elim (Bool-cases (d == n)) [
  | inl same ↦
      subst (λ k. b64_decode_char (char_of k) ≡ some k) (sym ((==_iff d n).0 same))
        (is_read-some (b64_decode_char (char_of n)) n (ground arith))
  | inr other ↦ read_below n d (ground arith) (ground arith)
]

-- Every character of the URL alphabet is read as its six bits.
read_char : (d : ℕ) → d < 64 → b64_decode_char (char_of d) ≡ some d
read_char d lt = read_below 64 d read_all lt

emit_skip : (byte : ℕ) (o : Option Bytes) → emit false byte o ≡ o
emit_skip byte none = refl
emit_skip byte (some s) = refl

-- The state after one more character.
abbrev pub shifted : ℕ → ℕ → ℕ
shifted val d = (val * 64 + d) % 2 ^ 32

some_room : (room : ℕ) → (suc room == 0) ≡ false
some_room room = ground arith

one_less : (room : ℕ) → suc room - 1 ≡ room
one_less room = omega arith

module _ (val d : ℕ) (src : Bytes) (lt : d < 64) where
  step_first :
      (room : ℕ) → decode_from (char_of d ∷ src) val 0 room ≡ decode_from src (shifted val d) 6 room
  unfolding decode_from
  step_first room =
      rw (read_char d lt, decode_from)
        (emit_skip (shifted val d / 2 ^ 0 % 256) (decode_from src (shifted val d) 6 room))

  step_second :
      (room : ℕ)
      → decode_from (char_of d ∷ src) val 6 (suc room)
        ≡ emit true (shifted val d / 16 % 256) (decode_from src (shifted val d) 4 room)
  unfolding decode_from
  step_second room = rw (read_char d lt, decode_from, some_room room, one_less room) refl

  step_third :
      (room : ℕ)
      → decode_from (char_of d ∷ src) val 4 (suc room)
        ≡ emit true (shifted val d / 4 % 256) (decode_from src (shifted val d) 2 room)
  unfolding decode_from
  step_third room = rw (read_char d lt, decode_from, some_room room, one_less room) refl

  step_fourth :
      (room : ℕ)
      → decode_from (char_of d ∷ src) val 2 (suc room)
        ≡ emit true (shifted val d / 1 % 256) (decode_from src (shifted val d) 0 room)
  unfolding decode_from
  step_fourth room = rw (read_char d lt, decode_from, some_room room, one_less room) refl

first_byte :
    (v a b : ℕ)
    → a < 256
    → b < 256
    → shifted (shifted v (a / 4)) (a % 4 * 16 + b / 16) / 16 % 256 ≡ a
first_byte v a b ha hb = omega arith

second_byte :
    (v a b c : ℕ)
    → b < 256
    → c < 256
    → shifted (shifted v (a % 4 * 16 + b / 16)) (b % 16 * 4 + c / 64) / 4 % 256 ≡ b
second_byte v a b c hb hc = omega arith

third_byte :
    (v b c : ℕ) → c < 256 → shifted (shifted v (b % 16 * 4 + c / 64)) (c % 64) / 1 % 256 ≡ c
third_byte v b c hc = omega arith

-- The encoding without padding, by the six bits of each character.
plain : Bytes → Bytes
plain [] = []
plain (a ∷ []) = char_of (a / 4) ∷ char_of (a % 4 * 16) ∷ []
plain (a ∷ b ∷ []) = char_of (a / 4) ∷ char_of (a % 4 * 16 + b / 16) ∷ char_of (b % 16 * 4) ∷ []
plain (a ∷ b ∷ c ∷ s) =
    char_of (a / 4)
    ∷ char_of (a % 4 * 16 + b / 16)
    ∷ char_of (b % 16 * 4 + c / 64)
    ∷ char_of (c % 64)
    ∷ plain s

abbrev pub IsByte : ℕ → Type 0
IsByte c = c < 256

-- The padding ends the loop, whatever the state.
decode_end : (k v bits room : ℕ) → decode_from (replicate k padding) v bits room ≡ some []
unfolding decode_from b64_decode_char
decode_end zero v bits room = refl
decode_end (suc k) v bits room = refl

last_of_one : (v a : ℕ) → a < 256 → shifted (shifted v (a / 4)) (a % 4 * 16) / 16 % 256 ≡ a
last_of_one v a ha = omega arith

last_of_two :
    (v a b : ℕ) → b < 256 → shifted (shifted v (a % 4 * 16 + b / 16)) (b % 16 * 4) / 4 % 256 ≡ b
last_of_two v a b hb = omega arith

decode_plain :
    (s : Bytes) (k v room : ℕ)
    → All IsByte s
    → length s ≤ room
    → decode_from (plain s ++ replicate k padding) v 0 room ≡ some s
unfolding plain
decode_plain [] k v room h le = decode_end k v 0 room
decode_plain (a ∷ s) k v zero h le = absurd (omega arith)
decode_plain (a ∷ []) k v (suc room) h le =
    step_first v (a / 4) _ (omega (arith, h.0)) (suc room)
    ∙ step_second _ (a % 4 * 16) _ (omega arith) room
    ∙ ap₂ (emit true) (last_of_one v a h.0) (decode_end k _ 4 room)
decode_plain (a ∷ b ∷ s) k v (suc zero) h le = absurd (omega arith)
decode_plain (a ∷ b ∷ []) k v (suc (suc room)) h le =
    step_first v (a / 4) _ (omega (arith, h.0)) (suc (suc room))
    ∙ step_second _ (a % 4 * 16 + b / 16) _ (omega (arith, h.1.0)) (suc room)
    ∙ ap₂ (emit true) (first_byte v a b h.0 h.1.0) (
        step_third _ (b % 16 * 4) _ (omega arith) room
        ∙ ap₂ (emit true) (last_of_two _ a b h.1.0) (decode_end k _ 2 room))
decode_plain (a ∷ b ∷ c ∷ s) k v (suc (suc zero)) h le = absurd (omega arith)
decode_plain (a ∷ b ∷ c ∷ s) k v (suc (suc (suc room))) h le =
    step_first v (a / 4) _ (omega (arith, h.0)) (suc (suc (suc room)))
    ∙ step_second _ (a % 4 * 16 + b / 16) _ (omega (arith, h.1.0)) (suc (suc room))
    ∙ ap₂ (emit true) (first_byte v a b h.0 h.1.0) (
        step_third _ (b % 16 * 4 + c / 64) _ (omega (arith, h.1.1.0)) (suc room)
        ∙ ap₂ (emit true) (second_byte _ a b c h.1.0 h.1.1.0) (
            step_fourth _ (c % 64) _ (omega arith) room
            ∙ ap₂ (emit true) (third_byte _ b c h.1.1.0)
                (decode_plain s k _ room h.1.1.1 (omega arith))))

not_padding : (d : ℕ) → d < 64 → (char_of d == padding) ≡ false
unfolding b64_decode_char
not_padding d lt = elim (Bool-cases (char_of d == padding)) [
  | inl same ↦
      absurd (cc (sym (ap b64_decode_char ((==_iff (char_of d) padding).0 same)) ∙ read_char d lt))
  | inr other ↦ other
]

strip_char :
    (d : ℕ) (t : Bytes) → d < 64 → strip_padding (char_of d ∷ t) ≡ char_of d ∷ strip_padding t
unfolding strip_padding
strip_char d t lt = ground (arith, not_padding d lt)

char_of-sextet : (n shift d : ℕ) → n / 2 ^ shift % 64 ≡ d → url_char (sextet n shift) ≡ char_of d
unfolding char_of
char_of-sextet n shift d e = ap (λ x. url_char (get_or alphabet x 0)) e

strip_end : (k : ℕ) → strip_padding (replicate k padding) ≡ []
unfolding strip_padding
strip_end zero = refl
strip_end (suc k) = ground (arith, strip_end k)

strip_more :
    (d : ℕ) (t u : Bytes)
    → d < 64
    → strip_padding t ≡ u
    → strip_padding (char_of d ∷ t) ≡ char_of d ∷ u
strip_more d t u lt e = strip_char d t lt ∙ ap (λ r. char_of d ∷ r) e

url_padding : url_char padding ≡ padding
unfolding url_char
url_padding = refl

strip-plain : (s : Bytes) → All IsByte s → strip_padding (url_chars (encode_groups s)) ≡ plain s
unfolding url_chars encode_groups plain
strip-plain [] h = strip_end 0
strip-plain (a ∷ []) h =
    let e1 = char_of-sextet (a * 65536) 18 (a / 4) (omega (arith, h.0)) in
    let e2 = char_of-sextet (a * 65536) 12 (a % 4 * 16) (omega (arith, h.0)) in
    (λ i. strip_padding (e1 i ∷ e2 i ∷ url_padding i ∷ url_padding i ∷ []))
    ∙ strip_more (a / 4) _ _ (omega (arith, h.0))
        (strip_more (a % 4 * 16) _ _ (omega arith) (strip_end 2))
strip-plain (a ∷ b ∷ []) h =
    let e1 = char_of-sextet (a * 65536 + b * 256) 18 (a / 4) (omega (arith, h.0, h.1.0)) in
    let e2 =
      char_of-sextet (a * 65536 + b * 256) 12 (a % 4 * 16 + b / 16) (omega (arith, h.0, h.1.0)) in
    let e3 = char_of-sextet (a * 65536 + b * 256) 6 (b % 16 * 4) (omega (arith, h.0, h.1.0)) in
    (λ i. strip_padding (e1 i ∷ e2 i ∷ e3 i ∷ url_padding i ∷ []))
    ∙ strip_more (a / 4) _ _ (omega (arith, h.0)) (
        strip_more (a % 4 * 16 + b / 16) _ _ (omega (arith, h.1.0))
          (strip_more (b % 16 * 4) _ _ (omega arith) (strip_end 1)))
strip-plain (a ∷ b ∷ c ∷ s) h =
    let n = a * 65536 + b * 256 + c in
    let e1 = char_of-sextet n 18 (a / 4) (omega (arith, h.0, h.1.0, h.1.1.0)) in
    let e2 = char_of-sextet n 12 (a % 4 * 16 + b / 16) (omega (arith, h.0, h.1.0, h.1.1.0)) in
    let e3 = char_of-sextet n 6 (b % 16 * 4 + c / 64) (omega (arith, h.0, h.1.0, h.1.1.0)) in
    let e4 = char_of-sextet n 0 (c % 64) (omega (arith, h.0, h.1.0, h.1.1.0)) in
    (λ i. strip_padding (e1 i ∷ e2 i ∷ e3 i ∷ e4 i ∷ url_chars (encode_groups s)))
    ∙ strip_more (a / 4) _ _ (omega (arith, h.0)) (
        strip_more (a % 4 * 16 + b / 16) _ _ (omega (arith, h.1.0)) (
          strip_more (b % 16 * 4 + c / 64) _ _ (omega (arith, h.1.1.0))
            (strip_more (c % 64) _ _ (omega arith) (strip-plain s h.1.1.1))))

encode-plain :
    (s src : Bytes) (out_sz : ℕ)
    → All IsByte s
    → b64_encode s out_sz true ≡ some src
    → src ≡ plain s
unfolding b64_encode
encode-plain s src out_sz bytes made = elim (Bool-cases (ltb out_sz ((length s + 2) / 3 * 4 + 1))) [
  | inl small ↦ absurd (cc (rw small at made))
  | inr room ↦ sym (some_inj (rw room at made)) ∙ strip-plain s bytes
]

-- What `b64_encode` makes of bytes for a URL, when it fits and is shorter than 508 characters,
-- `b64_decode` turns back into those bytes, given room for them.
pub b64_decode-encode :
    (s src : Bytes) (out_sz room : ℕ)
    → All IsByte s
    → b64_encode s out_sz true ≡ some src
    → length src < 508
    → length s ≤ room
    → b64_decode src room ≡ some s
unfolding b64_decode b64_encode
b64_decode-encode s src out_sz room bytes made short fits =
    let wide : leb 508 (length src) ≡ false = ground (arith, short) in
    rw wide (
      ap (λ t. decode_from (t ++ replicate ((4 - length src % 4) % 4) padding) 0 0 room)
        (encode-plain s src out_sz bytes made)
      ∙ decode_plain s ((4 - length src % 4) % 4) 0 room bytes fits)
