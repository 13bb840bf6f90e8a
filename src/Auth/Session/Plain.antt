-- ===== src/Auth/Session/Plain.antt =====
-- The bytes of a session's payload: none is the NUL that would end it as a C string.
use edgehost.Prelude.{
  ℕ, zero, suc, ◌+◌, ◌/◌, ◌%◌, ◌≡◌, refl, arith, Bool, true, false, not, ◌&&◌, ◌||◌, List, [], ◌∷◌,
  ◌++◌, ltb, ◌==◌, All, All-append, Bool-cases, inl, inr,
}
use edgehost.Prelude.Text.{Bytes, text, digits, decimal}
use edgehost.Auth.Login.{quote, backslash}
use edgehost.Auth.Session.{role_names}
use edgehost.Auth.Session.Roles.{present, names_then}
use edgehost.Auth.Session.Array.{IsName, is_name_char, present-IsName}
use edgehost.Auth.Session.Payload.{IsSubject, tail_text, payload_of}

abbrev pub IsPlain : ℕ → Type 0
IsPlain c = (ltb 0 c && ltb c 256) ≡ true

digit-IsPlain : (n : ℕ) → IsPlain (n % 10 + b'0')
digit-IsPlain n = ground arith

digits-IsPlain : (f n : ℕ) (t : Bytes) → All IsPlain t → All IsPlain (digits f n t)
unfolding digits
digits-IsPlain zero n t h = h
digits-IsPlain (suc f) n t h = elim (Bool-cases (ltb n 10)) [
  | inl last ↦ rw last (ground arith, h)
  | inr more ↦ rw more (digits-IsPlain f (n / 10) ((n % 10 + b'0') ∷ t) (digit-IsPlain n, h))
]

name-IsPlain : (n : Bytes) → IsName n → All IsPlain n
unfolding is_name_char
name-IsPlain [] h = tt
name-IsPlain (c ∷ n) h = (ground (arith, h.0), name-IsPlain n h.1)

names-IsPlain :
    (first : Bool) (ns : List Bytes) (t : Bytes)
    → All IsName ns
    → All IsPlain t
    → All IsPlain (names_then first ns t)
unfolding names_then
names-IsPlain first [] t hs ht = ht
names-IsPlain true (n ∷ ns) t hs ht =
    (refl, All-append IsPlain n _ (name-IsPlain n hs.0) (refl, names-IsPlain false ns t hs.1 ht))
names-IsPlain false (n ∷ ns) t hs ht = (
  refl,
  (refl, All-append IsPlain n _ (name-IsPlain n hs.0) (refl, names-IsPlain false ns t hs.1 ht)),
)

plain_text : Bytes → Bool
plain_text [] = true
plain_text (c ∷ s) = ltb 0 c && ltb c 256 && plain_text s

text-IsPlain : (s t : Bytes) → plain_text s ≡ true → All IsPlain t → All IsPlain (s ++ t)
unfolding plain_text
text-IsPlain [] t h ht = ht
text-IsPlain (c ∷ s) t h ht = (ground (arith, h), text-IsPlain s t (ground (arith, h)) ht)

subject-IsPlain :
    (sub : Bytes)
    → All (λ c. (ltb 0 c && ltb c 256 && not (c == quote || c == backslash)) ≡ true) sub
    → All IsPlain sub
subject-IsPlain [] h = tt
subject-IsPlain (c ∷ sub) h = (ground (arith, h.0), subject-IsPlain sub h.1)

pub payload-IsPlain :
    (sub : Bytes) (roles exp : ℕ) → IsSubject sub → All IsPlain (payload_of sub roles exp)
unfolding plain_text decimal
payload-IsPlain sub roles exp good =
    let end =
      text-IsPlain (text ",\"exp\":") (decimal exp ++ text "}") refl
        (All-append IsPlain (decimal exp) (text "}") (digits-IsPlain 20 exp [] tt) (refl, tt)) in
    let array =
      names-IsPlain true (present roles role_names) (b']' ∷ tail_text exp) (present-IsName roles)
        (refl, end) in
    text-IsPlain (text "{\"sub\":\"") _ refl (
      All-append IsPlain sub _ (subject-IsPlain sub good.chars)
        (text-IsPlain (text "\",\"roles\":[") _ refl array))
