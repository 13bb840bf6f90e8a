-- ===== src/Auth/Hmac.antt =====
-- `hmac_sha256` and `ct_eq` of src/core/auth_rbac.c.
use Prim.Native.Nat.{bit_or, bit_xor}
use edgehost.Prelude.{
  ℕ, zero, suc, ◌-◌, ◌<◌, ◌≡◌, ◌↔◌, refl, arith, Bool, true, List, [], ◌∷◌, ◌++◌, ltb, ◌==◌, ==_iff,
  if◌then◌else◌, length, replicate, All, All-append, ap, ap₂, subst, ◌∙◌,
}
use edgehost.Prelude.Text.{Bytes}
use edgehost.Auth.Bits.{bit_or-zero, bit_xor-zero, bit_xor_self}
use edgehost.Auth.Sha256.{Registers, init, update, final, sha256, word_bytes, words_bytes, digest}

-- `k`: the key, or its hash when it is longer than a block, filled up with zeros.
abbrev pub block_key : Bytes → Bytes
block_key key =
    let short = if ltb 64 (length key) then sha256 key else key in
    short ++ replicate (64 - length short) 0

unfoldable pub masked : ℕ → Bytes → Bytes
masked mask [] = []
masked mask (x ∷ k) = bit_xor x mask ∷ masked mask k

unfoldable pub hmac_sha256 : Bytes → Bytes → Bytes
unfolding masked
hmac_sha256 key msg =
    let inner = final (update (update init (masked 0x36 (block_key key))) msg) in
    final (update (update init (masked 0x5c (block_key key))) inner)

-- The loop of `ct_eq`, with the differences so far.
unfoldable pub differences : ℕ → Bytes → Bytes → ℕ → ℕ
differences d (x ∷ a) (y ∷ b) (suc n) = differences (bit_or d (bit_xor x y)) a b n
differences d a b n = d

-- `ct_eq` of `n` bytes.
unfoldable pub ct_eq : Bytes → Bytes → ℕ → Bool
unfolding differences
ct_eq a b n = differences 0 a b n == 0

differences-same :
    (d : ℕ) (a b : Bytes) (n : ℕ)
    → length a ≡ n
    → length b ≡ n
    → differences d a b n ≡ 0
    → (d ≡ 0) × (a ≡ b)
unfolding differences
differences-same d [] [] n la lb h = (h, refl)
differences-same d [] (y ∷ b) n la lb h = absurd (omega arith)
differences-same d (x ∷ a) [] n la lb h = absurd (omega arith)
differences-same d (x ∷ a) (y ∷ b) zero la lb h = absurd (omega arith)
differences-same d (x ∷ a) (y ∷ b) (suc n) la lb h =
    let (low, rest) =
      differences-same (bit_or d (bit_xor x y)) a b n (omega arith) (omega arith) h in
    let (first, here) = bit_or-zero d (bit_xor x y) low in
    (first, ap₂ ◌∷◌ (bit_xor-zero x y here) rest)

differences_self : (a : Bytes) (n : ℕ) → differences 0 a a n ≡ 0
unfolding differences
differences_self [] n = refl
differences_self (x ∷ a) zero = refl
differences_self (x ∷ a) (suc n) =
    ap (λ y. differences (bit_or 0 y) a a n) (bit_xor_self x) ∙ differences_self a n

-- On texts of the compared length, `ct_eq` is equality.
pub ct_eq_iff : (a b : Bytes) (n : ℕ) → length a ≡ n → length b ≡ n → (ct_eq a b n ≡ true) ↔ (a ≡ b)
unfolding ct_eq
ct_eq_iff a b n la lb = (
  λ h. (differences-same 0 a b n la lb ((==_iff (differences 0 a b n) 0).0 h)).1,
  λ e.
      subst (λ t. ct_eq a t n ≡ true) e ((==_iff (differences 0 a a n) 0).1 (differences_self a n)),
)

abbrev pub IsByte : ℕ → Type 0
IsByte c = c < 256

word_bytes-IsByte : (w : ℕ) → All IsByte (word_bytes w)
word_bytes-IsByte w = (omega arith, (omega arith, (omega arith, (omega arith, tt))))

length-digest : (s : Registers) → length (digest s) ≡ 32
unfolding digest words_bytes
length-digest s = refl

words_bytes-IsByte : (ws : List ℕ) → All IsByte (words_bytes ws)
unfolding words_bytes
words_bytes-IsByte [] = tt
words_bytes-IsByte (w ∷ ws) =
    All-append IsByte (word_bytes w) (words_bytes ws) (word_bytes-IsByte w) (words_bytes-IsByte ws)

digest-IsByte : (s : Registers) → All IsByte (digest s)
unfolding digest
digest-IsByte s = words_bytes-IsByte (s.a ∷ s.b ∷ s.c ∷ s.d ∷ s.e ∷ s.f ∷ s.g ∷ s.h ∷ [])

pub length-hmac : (key msg : Bytes) → length (hmac_sha256 key msg) ≡ 32
unfolding hmac_sha256 final
length-hmac key msg = length-digest _

pub hmac-IsByte : (key msg : Bytes) → All IsByte (hmac_sha256 key msg)
unfolding hmac_sha256 final
hmac-IsByte key msg = digest-IsByte _
