-- ===== src/Auth/Cookie.antt =====
-- `edge_auth_cookie_extract`: the session cookie in a Cookie header.
use edgehost.Prelude.{
  ℕ, zero, suc, ◌+◌, ◌-◌, ◌≤◌, ◌<◌, ◌≡◌, refl, arith, Bool, true, false, not, ◌&&◌, ◌||◌, ◌⊎◌, inl,
  inr, List, [], ◌∷◌, ◌++◌, Option, none, some, ◌==◌, if◌then◌else◌, length, length-append, drop,
  get_or, All, ap, ◌∙◌,
}
use edgehost.Prelude.Text.{Bytes, text, is_empty, starts_with}

abbrev pub cookie_name : Bytes
cookie_name = text "edge_session"

-- `while (*p == ' ' || *p == ';') p++;`
unfoldable pub skip_blanks : Bytes → Bytes
skip_blanks [] = []
skip_blanks (c ∷ p) = let rest = skip_blanks p in if c == b' ' || c == b';' then rest else c ∷ p

-- `while (*p && *p != ';') p++;`
unfoldable pub skip_to_semicolon : Bytes → Bytes
skip_to_semicolon [] = []
skip_to_semicolon (c ∷ p) = let rest = skip_to_semicolon p in if c == b';' then c ∷ p else rest

-- The loop that copies the value, at most `room` bytes of it.
unfoldable pub copy_value : ℕ → Bytes → Bytes
copy_value zero p = []
copy_value (suc room) [] = []
copy_value (suc room) (c ∷ p) = let rest = copy_value room p in if c == b';' then [] else c ∷ rest

-- `strncmp(p, name, nlen) == 0 && p[nlen] == '='`
abbrev pub at_session : Bytes → Bool
at_session p = starts_with cookie_name p && get_or p (length cookie_name) 0 == b'='

-- What is returned and what is left in `out`; `none` leaves it as it was.
abbrev pub found_value : Bytes → Bool × Option Bytes
found_value v = (not (is_empty v), some v)

-- The outer loop. A round takes a byte at least, so that the length of the text is fuel enough.
unfoldable pub find_cookie : ℕ → ℕ → Bytes → Bool × Option Bytes
unfolding skip_blanks skip_to_semicolon copy_value
find_cookie fuel out_sz [] = (false, none)
find_cookie zero out_sz (c ∷ p) = (false, none)
find_cookie (suc fuel) out_sz (c ∷ p) =
    let q = skip_blanks (c ∷ p) in
    let more = find_cookie fuel out_sz (skip_to_semicolon q) in
    if at_session q
    then found_value (copy_value (out_sz - 1) (drop (length cookie_name + 1) q))
    else more

-- A NULL header is `none`; `out` is not NULL.
unfoldable pub cookie_extract : Option Bytes → ℕ → Bool × Option Bytes
unfolding find_cookie
cookie_extract none out_sz = (false, none)
cookie_extract (some hdr) out_sz =
    if out_sz == 0 then (false, none) else find_cookie (length hdr) out_sz hdr

abbrev pub session_prefix : Bytes
session_prefix = text "edge_session="

-- Another cookie: not empty, without a semicolon, not behind a blank, and not the session's.
pub record IsOther (o : Bytes) : Type 0 where
  pub nonempty : is_empty o ≡ false
  pub no_blank : (get_or o 0 0 == b' ') ≡ false
  pub plain : All (λ c. (c == b';') ≡ false) o
  pub other : starts_with session_prefix o ≡ false

-- The session cookie behind others, and before whatever follows it.
unfoldable pub header : List Bytes → Bytes → Bytes
header [] last = last
header (o ∷ os) last = o ++ (b';' ∷ b' ' ∷ header os last)

abbrev pub Ends : Bytes → Type 0
Ends rest = (rest ≡ []) ⊎ ((r : Bytes) × (rest ≡ b';' ∷ r))

starts_with_cut :
    (p o r : Bytes)
    → All (λ c. (c == b';') ≡ false) p
    → starts_with p (o ++ (b';' ∷ r)) ≡ starts_with p o
unfolding starts_with
starts_with_cut [] o r h = refl
starts_with_cut (c ∷ p) [] r h = ground arith
starts_with_cut (c ∷ p) (x ∷ o) r h = ap (λ b. x == c && b) (starts_with_cut p o r h.1)

starts_with_then :
    (p q : Bytes) (c : ℕ)
    → (0 == c) ≡ false
    → (starts_with p q && get_or q (length p) 0 == c) ≡ starts_with (p ++ (c ∷ [])) q
unfolding starts_with
starts_with_then [] [] c h = h
starts_with_then [] (x ∷ q) c h = ground arith
starts_with_then (y ∷ p) [] c h = refl
starts_with_then (y ∷ p) (x ∷ q) c h = ground (arith, starts_with_then p q c h)

at_session_lem : (q : Bytes) → at_session q ≡ starts_with session_prefix q
at_session_lem q = starts_with_then cookie_name q b'=' refl

skip_over :
    (o r : Bytes)
    → All (λ c. (c == b';') ≡ false) o
    → skip_to_semicolon (o ++ (b';' ∷ r)) ≡ b';' ∷ r
unfolding skip_to_semicolon
skip_over [] r h = refl
skip_over (c ∷ o) r h = rw (h.0, skip_over o r h.1)

copy_whole :
    (room : ℕ) (v rest : Bytes)
    → length v ≤ room
    → All (λ c. (c == b';') ≡ false) v
    → Ends rest
    → copy_value room (v ++ rest) ≡ v
unfolding copy_value
copy_whole zero [] rest le h e = refl
copy_whole (suc room) [] rest le h (inl e) = rw e refl
copy_whole (suc room) [] rest le h (inr (r, e)) = rw e refl
copy_whole zero (c ∷ v) rest le h e = absurd (omega arith)
copy_whole (suc room) (c ∷ v) rest le h e = rw (h.0, copy_whole room v rest (omega arith) h.1 e)

skip_front : (o r : Bytes) → IsOther o → skip_blanks (o ++ r) ≡ o ++ r
unfolding skip_blanks
skip_front [] r v = absurd (cc (v.nonempty))
skip_front (c ∷ o) r v = rw (v.no_blank, v.plain.0)

length-skip_blanks : (t : Bytes) → length (skip_blanks t) ≤ length t
unfolding skip_blanks
length-skip_blanks [] = omega arith
length-skip_blanks (c ∷ t) = ground (arith, length-skip_blanks t)

-- A round that passes over another cookie.
pass :
    (fuel out_sz c : ℕ) (p o r : Bytes)
    → IsOther o
    → skip_blanks (c ∷ p) ≡ o ++ (b';' ∷ r)
    → find_cookie (suc fuel) out_sz (c ∷ p) ≡ find_cookie fuel out_sz (b';' ∷ r)
unfolding find_cookie
pass fuel out_sz c p o r v h = rw (
  h,
  at_session_lem (o ++ (b';' ∷ r)),
  starts_with_cut session_prefix o r plain_prefix,
  v.other,
  skip_over o r v.plain,
)
  where
    plain_prefix : All (λ x. (x == b';') ≡ false) session_prefix
    plain_prefix = (
      refl,
      (
        refl,
        (refl, (refl, (refl, (refl, (refl, (refl, (refl, (refl, (refl, (refl, (refl, tt))))))))))),
      ),
    )

-- The round that finds the session cookie.
stop :
    (fuel out_sz c : ℕ) (p v rest : Bytes)
    → length v < out_sz
    → All (λ x. (x == b';') ≡ false) v
    → Ends rest
    → skip_blanks (c ∷ p) ≡ session_prefix ++ (v ++ rest)
    → find_cookie (suc fuel) out_sz (c ∷ p) ≡ found_value v
unfolding find_cookie starts_with
stop fuel out_sz c p v rest fits plain ends h =
    rw (h, copy_whole (out_sz - 1) v rest (omega arith) plain ends)

pub record IsValue (v : Bytes) (out_sz : ℕ) : Type 0 where
  pub nonempty : is_empty v ≡ false
  pub fits : length v < out_sz
  pub plain : All (λ c. (c == b';') ≡ false) v

-- A text that goes on with another cookie is longer than what follows it.
rest_shorter : (t o r : Bytes) → skip_blanks t ≡ o ++ r → IsOther o → length r < length t
rest_shorter t [] r h v = absurd (cc (v.nonempty))
rest_shorter t (x ∷ o) r h v = omega (arith, length-skip_blanks t, ap length h, length-append o r)

find_in_header :
    (fuel out_sz : ℕ) (t : Bytes) (os : List Bytes) (v rest : Bytes)
    → length t ≤ fuel
    → All IsOther os
    → IsValue v out_sz
    → Ends rest
    → skip_blanks t ≡ skip_blanks (header os (session_prefix ++ (v ++ rest)))
    → find_cookie fuel out_sz t ≡ (true, some v)
unfolding header skip_blanks
find_in_header fuel out_sz [] [] v rest le others val ends h = absurd (cc h)
find_in_header fuel out_sz [] (o ∷ os) v rest le others val ends h =
    absurd (omega (arith, rest_shorter [] o _ (h ∙ skip_front o _ others.0) others.0))
find_in_header zero out_sz (c ∷ p) os v rest le others val ends h = absurd (omega arith)
find_in_header (suc fuel) out_sz (c ∷ p) [] v rest le others val ends h =
    stop fuel out_sz c p v rest val.fits val.plain ends h ∙ rw (val.nonempty)
find_in_header (suc fuel) out_sz (c ∷ p) (o ∷ os) v rest le others val ends h =
    let there =
      h ∙ skip_front o (b';' ∷ b' ' ∷ header os (session_prefix ++ (v ++ rest))) others.0 in
    pass fuel out_sz c p o (b' ' ∷ header os (session_prefix ++ (v ++ rest))) others.0 there
    ∙ find_in_header fuel out_sz (b';' ∷ b' ' ∷ header os (session_prefix ++ (v ++ rest))) os v rest
        (omega (arith, rest_shorter (c ∷ p) o _ there others.0)) others.1 val ends refl

-- In a Cookie header with any other cookies before the session's, and nothing or a semicolon and
-- anything after it, `edge_auth_cookie_extract` finds the session cookie and copies its whole value,
-- when that is not empty, has no semicolon and fits `out` with its NUL.
pub cookie_extract-header :
    (out_sz : ℕ) (os : List Bytes) (v rest : Bytes)
    → All IsOther os
    → IsValue v out_sz
    → Ends rest
    → cookie_extract (some (header os (session_prefix ++ (v ++ rest)))) out_sz ≡ (true, some v)
unfolding cookie_extract
cookie_extract-header out_sz os v rest others val ends =
    let wide : (out_sz == 0) ≡ false = ground (arith, val.fits) in
    rw wide (
      find_in_header (length (header os (session_prefix ++ (v ++ rest)))) out_sz
        (header os (session_prefix ++ (v ++ rest))) os v rest (omega arith) others val ends refl)
