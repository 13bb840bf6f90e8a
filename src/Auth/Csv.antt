-- ===== src/Auth/Csv.antt =====
-- `edge_auth_roles_from_csv`: the roles of a list of names.
use Prim.Native.Nat.{bit_or}
use edgehost.Prelude.{
  ℕ, zero, suc, ◌≤◌, ◌<◌, ◌≡◌, refl, arith, Bool, false, ◌||◌, List, [], ◌∷◌, ◌++◌, ◌⊎◌, Option,
  none, some, ◌==◌, if◌then◌else◌, length, length-append, All, inl, inr, ap, ◌∙◌,
}
use edgehost.Prelude.Text.{Bytes, is_empty}
use edgehost.Auth.{employee, role_parse}

abbrev pub is_separator : ℕ → Bool
is_separator c = c == b',' || c == b' ' || c == 9

-- `while (*p == ',' || *p == ' ' || *p == '\t') p++;`
unfoldable pub skip_separators : Bytes → Bytes
skip_separators [] = []
skip_separators (c ∷ p) = let rest = skip_separators p in if is_separator c then rest else c ∷ p

-- The loop that copies a token of at most `room` bytes, with what it leaves of the text.
unfoldable pub token : ℕ → Bytes → Bytes × Bytes
token room [] = ([], [])
token zero (c ∷ p) = ([], c ∷ p)
token (suc room) (c ∷ p) =
    let (tok, rest) = token room p in if is_separator c then ([], c ∷ p) else (c ∷ tok, rest)

-- `while (*p && *p != ',') p++;`
unfoldable pub skip_to_comma : Bytes → Bytes
skip_to_comma [] = []
skip_to_comma (c ∷ p) = let rest = skip_to_comma p in if c == b',' then c ∷ p else rest

-- The outer loop, with the roles so far. A round that does not end the loop takes a byte at least, so
-- that the length of the text is fuel enough.
unfoldable pub scan_roles : ℕ → Bytes → ℕ → ℕ
unfolding skip_separators token skip_to_comma
scan_roles fuel [] roles = roles
scan_roles zero (c ∷ p) roles = roles
scan_roles (suc fuel) (c ∷ p) roles =
    let q = skip_separators (c ∷ p) in
    let (tok, rest) = token 63 q in
    let more =
      scan_roles fuel (skip_to_comma rest)
        (bit_or roles (if is_empty tok then 0 else role_parse tok)) in
    if is_empty q then roles else more

-- A NULL text is `none`.
unfoldable pub roles_from_csv : Option Bytes → ℕ
unfolding scan_roles
roles_from_csv none = employee
roles_from_csv (some csv) =
    if is_empty csv
    then employee
    else let roles = scan_roles (length csv) csv 0 in if roles == 0 then employee else roles

-- Names without separators, joined by commas.
unfoldable pub tailed : List Bytes → Bytes
tailed [] = []
tailed (name ∷ names) = b',' ∷ (name ++ tailed names)

abbrev pub joined : Bytes → List Bytes → Bytes
joined name names = name ++ tailed names

unfoldable pub union : ℕ → List Bytes → ℕ
union roles [] = roles
union roles (name ∷ names) = union (bit_or roles (role_parse name)) names

-- A name that fits a token: not empty, of at most 63 bytes, none of them a separator.
pub record IsName (name : Bytes) : Type 0 where
  pub nonempty : is_empty name ≡ false
  pub fits : length name ≤ 63
  pub plain : All (λ c. is_separator c ≡ false) name

abbrev pub Ends : Bytes → Type 0
Ends rest = (rest ≡ []) ⊎ ((r : Bytes) × (rest ≡ b',' ∷ r))

token_end : (room : ℕ) (rest : Bytes) → Ends rest → token room rest ≡ ([], rest)
unfolding token
token_end room rest (inl e) = rw e refl
token_end zero rest (inr (r, e)) = rw e refl
token_end (suc room) rest (inr (r, e)) = rw e refl

token_name :
    (room : ℕ) (name rest : Bytes)
    → length name ≤ room
    → All (λ c. is_separator c ≡ false) name
    → Ends rest
    → token room (name ++ rest) ≡ (name, rest)
unfolding token
token_name room [] rest le plain ends = token_end room rest ends
token_name zero (c ∷ name) rest le plain ends = absurd (omega arith)
token_name (suc room) (c ∷ name) rest le plain ends =
    rw (plain.0, token_name room name rest (omega arith) plain.1 ends)

skip_at_end : (rest : Bytes) → Ends rest → skip_to_comma rest ≡ rest
unfolding skip_to_comma
skip_at_end rest (inl e) = rw e refl
skip_at_end rest (inr (r, e)) = rw e refl

skip_name : (name rest : Bytes) → IsName name → skip_separators (name ++ rest) ≡ name ++ rest
unfolding skip_separators
skip_name [] rest v = absurd (cc (v.nonempty))
skip_name (c ∷ name) rest v = rw (v.plain.0)

length-skip_separators : (t : Bytes) → length (skip_separators t) ≤ length t
unfolding skip_separators
length-skip_separators [] = omega arith
length-skip_separators (c ∷ t) = ground (arith, length-skip_separators t)

-- One round of the loop, at a text that goes on with a name.
round :
    (fuel roles c : ℕ) (p name rest : Bytes)
    → IsName name
    → Ends rest
    → skip_separators (c ∷ p) ≡ name ++ rest
    → scan_roles (suc fuel) (c ∷ p) roles ≡ scan_roles fuel rest (bit_or roles (role_parse name))
unfolding scan_roles
round fuel roles c p [] rest v ends h = absurd (cc (v.nonempty))
round fuel roles c p (x ∷ name) rest v ends h =
    rw (h, token_name 63 (x ∷ name) rest v.fits v.plain ends, skip_at_end rest ends)

tailed-Ends : (names : List Bytes) → Ends (tailed names)
unfolding tailed
tailed-Ends [] = inl refl
tailed-Ends (name ∷ names) = inr (name ++ tailed names, refl)

skip_comma : (t : Bytes) → skip_separators (b',' ∷ t) ≡ skip_separators t
unfolding skip_separators
skip_comma t = refl

scan_end : (fuel roles : ℕ) → scan_roles fuel [] roles ≡ roles
unfolding scan_roles
scan_end zero roles = refl
scan_end (suc fuel) roles = refl

-- What is left after a name is shorter than the text was.
tail_shorter :
    (t name rest : Bytes) → skip_separators t ≡ name ++ rest → IsName name → length rest < length t
tail_shorter t [] rest h v = absurd (cc (v.nonempty))
tail_shorter t (x ∷ name) rest h v =
    omega (arith, length-skip_separators t, ap length h, length-append name rest)

scan_joined :
    (fuel roles : ℕ) (t name : Bytes) (names : List Bytes)
    → length t ≤ fuel
    → IsName name
    → All IsName names
    → skip_separators t ≡ joined name names
    → scan_roles fuel t roles ≡ union roles (name ∷ names)
unfolding union tailed
scan_joined fuel roles [] name names le v vs h =
    absurd (omega (arith, tail_shorter [] name (tailed names) h v))
scan_joined zero roles (c ∷ p) name names le v vs h = absurd (omega arith)
scan_joined (suc fuel) roles (c ∷ p) name [] le v vs h =
    round fuel roles c p name [] v (inl refl) h ∙ scan_end fuel _
scan_joined (suc fuel) roles (c ∷ p) name (n ∷ ns) le v vs h =
    round fuel roles c p name (tailed (n ∷ ns)) v (tailed-Ends (n ∷ ns)) h
    ∙ scan_joined fuel (bit_or roles (role_parse name)) (tailed (n ∷ ns)) n ns
        (omega (arith, tail_shorter (c ∷ p) name (tailed (n ∷ ns)) h v)) vs.0 vs.1
        (skip_comma (joined n ns) ∙ skip_name n (tailed ns) vs.0)

-- `edge_auth_roles_from_csv` of names without separators and of at most 63 bytes, joined by commas:
-- the union of the roles that they name, where a name that is no role's counts for nothing, or the
-- role employee when none is a role's.
pub roles_from_csv-joined :
    (name : Bytes) (names : List Bytes)
    → IsName name
    → All IsName names
    → roles_from_csv (some (joined name names))
      ≡ (if union 0 (name ∷ names) == 0 then employee else union 0 (name ∷ names))
unfolding roles_from_csv
roles_from_csv-joined [] names v vs = absurd (cc (v.nonempty))
roles_from_csv-joined (x ∷ name) names v vs =
    ap (λ r. if r == 0 then employee else r)
      (scan_joined (length (joined (x ∷ name) names)) 0 (joined (x ∷ name) names) (x ∷ name) names
        (omega arith) v vs (skip_name (x ∷ name) (tailed names) v))
