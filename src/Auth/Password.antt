-- ===== src/Auth/Password.antt =====
-- `edge_auth_password_ok`: a comparison whose time does not depend on where the passwords differ.
use Prim.Native.Nat.{bit_or, bit_xor}
use edgehost.Prelude.{
  ℕ, zero, suc, ◌+◌, ◌%◌, ◌<◌, ◌≡◌, ◌≢◌, ◌↔◌, refl, arith, Bool, true, false, [], ◌∷◌, Option, none,
  some, ltb, ◌==◌, if◌then◌else◌, length, get_or, ap, ap₂, sym, ◌∙◌, subst,
}
use edgehost.Prelude.Text.{Bytes}
use edgehost.Auth.{Context}
use edgehost.Auth.Bits.{bit_xor-zero, bit_xor_self, bit_xor_bound, bit_or-zero}

abbrev pub password_max : ℕ
password_max = 128

-- The loop from `i` on for `n` more bytes; a text is read as 0 past its end.
unfoldable pub compare_from : Bytes → Bytes → ℕ → ℕ → ℕ → ℕ
compare_from password expect zero i d = d
compare_from password expect (suc n) i d =
    compare_from password expect n (i + 1)
      (bit_or d (bit_xor (get_or password i 0) (get_or expect i 0)))

abbrev pub longer : ℕ → ℕ → ℕ
longer a b = if ltb b a then a else b

-- The number of bytes that are compared.
abbrev pub compared : Bytes → Bytes → ℕ
compared expect password =
    let m = longer (length expect) (length password) in
    if ltb password_max m then password_max else m

-- The list is the `password_len` bytes at the pointer; a NULL pointer is `none`.
unfoldable pub password_ok : Context → Option Bytes → Bool
unfolding compare_from
password_ok ctx none = false
password_ok ctx (some password) =
    if length ctx.lab_password == 0
    then false
    else bit_or (compare_from password ctx.lab_password (compared ctx.lab_password password) 0 0)
        (bit_xor (length ctx.lab_password) (length password) % 256)
      == 0

compare_from-zero :
    (a b : Bytes) (n i d : ℕ)
    → compare_from a b n i d ≡ 0
    → (d ≡ 0) × ((k : ℕ) → k < n → get_or a (i + k) 0 ≡ get_or b (i + k) 0)
unfolding compare_from
compare_from-zero a b zero i d h = (h, λ k hk. absurd (omega arith))
compare_from-zero a b (suc n) i d h =
    let (low, rest) = compare_from-zero a b n (i + 1) _ h in
    let (first, here) = bit_or-zero d _ low in
    (first, λ k hk. later (bit_xor-zero _ _ here) rest k hk)
  where
    later :
        get_or a i 0 ≡ get_or b i 0
        → ((k : ℕ) → k < n → get_or a (i + 1 + k) 0 ≡ get_or b (i + 1 + k) 0)
        → (k : ℕ) → k < suc n
        → get_or a (i + k) 0 ≡ get_or b (i + k) 0
    later same rest zero hk = subst (λ j. get_or a j 0 ≡ get_or b j 0) (omega arith) same
    later same rest (suc k) hk =
        subst (λ j. get_or a j 0 ≡ get_or b j 0) (omega arith) (rest k (omega arith))

compare_from_self : (a : Bytes) (n i : ℕ) → compare_from a a n i 0 ≡ 0
unfolding compare_from
compare_from_self a zero i = refl
compare_from_self a (suc n) i =
    ap (λ x. compare_from a a n (i + 1) (bit_or 0 x)) (bit_xor_self (get_or a i 0))
    ∙ compare_from_self a n (i + 1)

-- Texts of one length with the same bytes are the same.
same_bytes :
    (a b : Bytes)
    → length a ≡ length b
    → ((k : ℕ) → k < length a → get_or a k 0 ≡ get_or b k 0)
    → a ≡ b
same_bytes [] [] l h = refl
same_bytes [] (y ∷ b) l h = absurd (omega arith)
same_bytes (x ∷ a) [] l h = absurd (omega arith)
same_bytes (x ∷ a) (y ∷ b) l h =
    ap₂ ◌∷◌ (h 0 (omega arith)) (same_bytes a b (omega arith) (λ k hk. h (suc k) (omega arith)))

password_same :
    (expect password : Bytes)
    → length expect < password_max
    → length password < 256
    → bit_or
        (compare_from password expect (compared expect password) 0 0)
        (bit_xor (length expect) (length password) % 256)
      ≡ 0
    → password ≡ expect
password_same expect password le lp h =
    let (bytes, lens) = bit_or-zero _ _ h in
    let bound = bit_xor_bound 8 (length expect) (length password) (omega arith) lp in
    let same : length expect ≡ length password = bit_xor-zero _ _ (omega arith) in
    let (_, each) = compare_from-zero password expect _ 0 0 bytes in
    same_bytes password expect (sym same) (λ k hk.
      subst (λ j. get_or password j 0 ≡ get_or expect j 0) (omega arith) (each k (ground arith)))

password_self :
    (expect : Bytes)
    → bit_or
        (compare_from expect expect (compared expect expect) 0 0)
        (bit_xor (length expect) (length expect) % 256)
      ≡ 0
password_self expect =
    ap₂ (λ x y. bit_or x (y % 256)) (compare_from_self expect (compared expect expect) 0)
      (bit_xor_self (length expect))

-- With a password set, of at most 127 bytes as its array holds, and a given one of fewer than 256
-- bytes, `edge_auth_password_ok` says yes exactly when the two are the same.
pub password_ok_iff :
    (ctx : Context) (password : Bytes)
    → ctx.lab_password ≢ []
    → length ctx.lab_password < password_max
    → length password < 256
    → (password_ok ctx (some password) ≡ true) ↔ (password ≡ ctx.lab_password)
unfolding password_ok
password_ok_iff ctx password set short given = (
  λ h. password_same ctx.lab_password password short given (ground arith),
  λ e.
      subst (λ pw. password_ok ctx (some pw) ≡ true) (sym e)
        (ground (arith, password_self ctx.lab_password, nonempty ctx.lab_password set)),
)
  where
    nonempty : (s : Bytes) → s ≢ [] → length s ≢ 0
    nonempty [] h = absurd (h refl)
    nonempty (x ∷ s) h = omega arith
