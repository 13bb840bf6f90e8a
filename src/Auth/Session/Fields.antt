-- ===== src/Auth/Session/Fields.antt =====
-- Where a quoted key is first found in a JSON text.
use edgehost.Prelude.{
  ℕ, ◌≡◌, refl, arith, true, false, ◌&&◌, [], ◌∷◌, ◌++◌, some, ◌==◌, All, ap, ◌∙◌,
}
use edgehost.Prelude.Text.{Bytes, str_eq, starts_with}
use edgehost.Auth.Login.{quote, strstr}
use edgehost.Auth.Session.{quoted}

abbrev pub IsUnquoted : Bytes → Type 0
IsUnquoted s = All (λ c. (c == quote) ≡ false) s

starts_with_string :
    (k n s : Bytes)
    → IsUnquoted k
    → IsUnquoted n
    → starts_with (k ++ (quote ∷ [])) (n ++ (quote ∷ s)) ≡ str_eq n k
unfolding starts_with str_eq
starts_with_string [] [] s hk hn = refl
starts_with_string [] (x ∷ n) s hk hn = ground arith
starts_with_string (c ∷ k) [] s hk hn = ground arith
starts_with_string (c ∷ k) (x ∷ n) s hk hn =
    ap (λ b. x == c && b) (starts_with_string k n s hk.1 hn.1)

pub strstr_miss :
    (key : Bytes) (c : ℕ) (s : Bytes)
    → starts_with key (c ∷ s) ≡ false
    → strstr key (c ∷ s) ≡ strstr key s
unfolding strstr
strstr_miss key c s h = rw h refl

pub strstr_hit :
    (key : Bytes) (c : ℕ) (s : Bytes)
    → starts_with key (c ∷ s) ≡ true
    → strstr key (c ∷ s) ≡ some (c ∷ s)
unfolding strstr
strstr_hit key c s h = rw h refl

-- No quoted key starts at a character that is no quote,
pub pass_char :
    (k : Bytes) (c : ℕ) (s : Bytes)
    → (c == quote) ≡ false
    → strstr (quoted k) (c ∷ s) ≡ strstr (quoted k) s
unfolding starts_with
pass_char k c s h = strstr_miss (quoted k) c s (rw h refl)

-- nor in a text without quotes,
pub pass_plain : (k a s : Bytes) → IsUnquoted a → strstr (quoted k) (a ++ s) ≡ strstr (quoted k) s
pass_plain k [] s h = refl
pass_plain k (c ∷ a) s h = pass_char k c (a ++ s) h.0 ∙ pass_plain k a s h.1

starts_quoted :
    (k n s : Bytes)
    → IsUnquoted k
    → IsUnquoted n
    → starts_with (quoted k) (quote ∷ (n ++ (quote ∷ s))) ≡ str_eq n k
unfolding starts_with
starts_quoted k n s hk hn = starts_with_string k n s hk hn

no_start :
    (k0 : ℕ) (k : Bytes) (c : ℕ) (s : Bytes)
    → (c == k0) ≡ false
    → starts_with (quoted (k0 ∷ k)) (quote ∷ c ∷ s) ≡ false
unfolding starts_with
no_start k0 k c s h = rw h refl

-- nor at another quoted string, before a character that the key does not start with.
pub pass_string :
    (k0 : ℕ) (k n : Bytes) (c : ℕ) (s : Bytes)
    → IsUnquoted (k0 ∷ k)
    → IsUnquoted n
    → str_eq n (k0 ∷ k) ≡ false
    → (c == k0) ≡ false
    → strstr (quoted (k0 ∷ k)) (quote ∷ (n ++ (quote ∷ c ∷ s))) ≡ strstr (quoted (k0 ∷ k)) (c ∷ s)
pass_string k0 k n c s hk hn other first =
    strstr_miss (quoted (k0 ∷ k)) quote (n ++ (quote ∷ c ∷ s))
      (starts_quoted (k0 ∷ k) n (c ∷ s) hk hn ∙ other)
    ∙ pass_plain (k0 ∷ k) n (quote ∷ c ∷ s) hn
    ∙ strstr_miss (quoted (k0 ∷ k)) quote (c ∷ s) (no_start k0 k c s first)

-- At the quoted key itself the search ends.
pub find_string :
    (k n s : Bytes)
    → IsUnquoted k
    → IsUnquoted n
    → str_eq n k ≡ true
    → strstr (quoted k) (quote ∷ (n ++ (quote ∷ s))) ≡ some (quote ∷ (n ++ (quote ∷ s)))
find_string k n s hk hn same =
    strstr_hit (quoted k) quote (n ++ (quote ∷ s)) (starts_quoted k n s hk hn ∙ same)
