-- ===== src/Prelude/Window.antt =====
-- A window of a list that goes round: the queue that a ring of slots holds, oldest first.
use Prim.Native.Nat.{ℕ, zero, suc, ◌+◌, ◌-◌, ◌%◌, ◌≤◌, ◌<◌}
use mathlib.Core.Path.{◌≡◌, refl, sym, ap, ap₂, ◌∙◌}
use mathlib.Core.Logic.{◌≢◌}
use mathlib.Core.List.{List, [], ◌∷◌, ◌++◌}
use native.Mathlib.Nat.{mod-add-mod, mod-eq_of_lt, add-zero}
use native.Mathlib.Omega.{arith}
use edgehost.Prelude.Lists.{length, get_or, set, get_or-set_self, get_or-set_ne}

-- The `n` elements from index `h` on, going round at `q`.
abbrev pub window {ℓ} : {A : Type ℓ} → A → List A → ℕ → ℕ → ℕ → List A
window d es q h zero = []
window d es q h (suc n) = get_or es h d ∷ window d es q ((h + 1) % q) n

pub length-window {ℓ} :
    {A : Type ℓ} (d : A) (es : List A) (q h n : ℕ) → length (window d es q h n) ≡ n
length-window d es q h zero = refl
length-window d es q h (suc n) = ap suc (length-window d es q ((h + 1) % q) n)

-- Fewer than `q` steps round the ring do not come back to where they began.
pub turn_ne : (q h k : ℕ) → h < q → suc k < q → (h + suc k) % q ≢ h
turn_ne q h k hh hk e = absurd (grind arith)

pub turn_next : (q h k : ℕ) → (h + suc k) % q ≡ ((h + 1) % q + k) % q
turn_next q h k = ap (λ t. t % q) (omega arith) ∙ sym (mod-add-mod (h + 1) q k)

-- A write outside a window leaves it.
pub window-set_ne {ℓ} :
    {A : Type ℓ} (d : A) (es : List A) (q i : ℕ) (x : A) (n h : ℕ)
    → h < q
    → ((k : ℕ) → k < n → i ≢ (h + k) % q)
    → window d (set es i x) q h n ≡ window d es q h n
window-set_ne d es q i x zero h hh away = refl
window-set_ne d es q i x (suc n) h hh away =
    ap₂ ◌∷◌
      (get_or-set_ne es i h x d
        (λ e. away 0 (omega arith) (e ∙ sym (ap (λ t. t % q) (add-zero h) ∙ mod-eq_of_lt hh))))
      (window-set_ne d es q i x n ((h + 1) % q) (omega arith)
        (λ k hk e. away (suc k) (omega arith) (e ∙ sym (turn_next q h k))))

-- A write just past a window extends it.
pub window-set_end {ℓ} :
    {A : Type ℓ} (d : A) (es : List A) (q : ℕ) (x : A) (n h i : ℕ)
    → q ≤ length es
    → h < q
    → n < q
    → i ≡ (h + n) % q
    → window d (set es i x) q h (suc n) ≡ window d es q h n ++ (x ∷ [])
window-set_end d es q x zero h i hs hh hn e =
    ap (λ a. a ∷ [])
      (ap (λ j. get_or (set es j x) h d) (e ∙ ap (λ t. t % q) (add-zero h) ∙ mod-eq_of_lt hh)
        ∙ get_or-set_self es h x d (omega arith))
window-set_end d es q x (suc n) h i hs hh hn e =
    ap₂ ◌∷◌ (get_or-set_ne es i h x d (λ f. turn_ne q h n hh hn (sym e ∙ f))) (
      window-set_end d es q x n ((h + 1) % q) i hs (omega arith) (omega arith)
        (e ∙ turn_next q h n))

-- The window that is not empty begins with the slot at its head.
pub cons-window {ℓ} :
    {A : Type ℓ} (d : A) (es : List A) (q h n : ℕ)
    → n ≢ 0
    → window d es q h n ≡ get_or es h d ∷ window d es q ((h + 1) % q) (n - 1)
cons-window d es q h zero f = absurd (f refl)
cons-window d es q h (suc n) f =
    ap (λ k. get_or es h d ∷ window d es q ((h + 1) % q) k) (omega arith)
