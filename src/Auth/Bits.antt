-- ===== src/Auth/Bits.antt =====
-- Exclusive or and or of numbers, as the comparisons in constant time use them.
use Prim.Native.Nat.{bit_or, bit_xor, bit_or-bitwise, bit_xor-bitwise, digits, differ, max}
use edgehost.Prelude.{ℕ, zero, suc, ◌/◌, ◌%◌, ◌^◌, ◌≤◌, ◌<◌, ◌≡◌, refl, arith, ap, sym, ◌∙◌}

differ-same : (x y : ℕ) → differ x y ≡ 0 → x ≡ y
differ-same zero y h = omega arith
differ-same (suc x) zero h = omega arith
differ-same (suc x) (suc y) h = ap suc (differ-same x y h)

differ_self : (x : ℕ) → differ x x ≡ 0
differ_self zero = refl
differ_self (suc x) = differ_self x

differ_bound : (x y : ℕ) → x < 2 → y < 2 → differ x y < 2
differ_bound zero y hx hy = hy
differ_bound (suc x) zero hx hy = hx
differ_bound (suc x) (suc y) hx hy = differ_bound x y (omega arith) (omega arith)

xor_same : (n a b : ℕ) → a ≤ n → digits (λ c. c) differ n a b ≡ 0 → a ≡ b
xor_same zero a b le h = omega arith
xor_same (suc n) zero b le h = omega arith
xor_same (suc n) (suc a) b le h =
    let up = xor_same n (suc a / 2) (b / 2) (omega arith) (omega arith) in
    let low = differ-same (suc a % 2) (b % 2) (omega arith) in omega arith

xor_self : (n a : ℕ) → a ≤ n → digits (λ c. c) differ n a a ≡ 0
xor_self zero a le = omega arith
xor_self (suc n) zero le = refl
xor_self (suc n) (suc a) le =
    omega (arith, xor_self n (suc a / 2) (omega arith), differ_self (suc a % 2))

xor_bound : (k n a b : ℕ) → a ≤ n → a < 2 ^ k → b < 2 ^ k → digits (λ c. c) differ n a b < 2 ^ k
xor_bound zero zero a b le ha hb = hb
xor_bound zero (suc n) zero b le ha hb = hb
xor_bound zero (suc n) (suc a) b le ha hb = absurd (omega arith)
xor_bound (suc k) zero a b le ha hb = hb
xor_bound (suc k) (suc n) zero b le ha hb = hb
xor_bound (suc k) (suc n) (suc a) b le ha hb =
    let up = xor_bound k n (suc a / 2) (b / 2) (omega arith) (omega arith) (omega arith) in
    let low = differ_bound (suc a % 2) (b % 2) (omega arith) (omega arith) in omega arith

max-zero : (x y : ℕ) → max x y ≡ 0 → (x ≡ 0) × (y ≡ 0)
max-zero zero y h = omega arith
max-zero (suc x) zero h = omega arith
max-zero (suc x) (suc y) h = omega arith

or_zero : (n a b : ℕ) → a ≤ n → digits (λ c. c) max n a b ≡ 0 → (a ≡ 0) × (b ≡ 0)
or_zero zero a b le h = (omega arith, h)
or_zero (suc n) zero b le h = (refl, h)
or_zero (suc n) (suc a) b le h =
    let up = or_zero n (suc a / 2) (b / 2) (omega arith) (omega arith) in
    absurd (omega (arith, max-zero (suc a % 2) (b % 2) (omega arith)))

bit_xor_lem : (a b : ℕ) → bit_xor a b ≡ digits (λ c. c) differ a a b
bit_xor_lem a b = λ i. bit_xor-bitwise a b i

bit_or_lem : (a b : ℕ) → bit_or a b ≡ digits (λ c. c) max a a b
bit_or_lem a b = λ i. bit_or-bitwise a b i

pub bit_xor-zero : (a b : ℕ) → bit_xor a b ≡ 0 → a ≡ b
bit_xor-zero a b h = xor_same a a b (omega arith) (sym (bit_xor_lem a b) ∙ h)

pub bit_xor_self : (a : ℕ) → bit_xor a a ≡ 0
bit_xor_self a = bit_xor_lem a a ∙ xor_self a a (omega arith)

pub bit_xor_bound : (k a b : ℕ) → a < 2 ^ k → b < 2 ^ k → bit_xor a b < 2 ^ k
bit_xor_bound k a b ha hb = omega (arith, bit_xor_lem a b, xor_bound k a a b (omega arith) ha hb)

pub bit_or-zero : (a b : ℕ) → bit_or a b ≡ 0 → (a ≡ 0) × (b ≡ 0)
bit_or-zero a b h = or_zero a a b (omega arith) (sym (bit_or_lem a b) ∙ h)
