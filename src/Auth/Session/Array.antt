-- ===== src/Auth/Session/Array.antt =====
-- `parse_roles_array` of src/core/auth_rbac.c on the array that `roles_to_json_array` wrote.
use edgehost.Prelude.{
  ℕ, ◌≡◌, refl, arith, Bool, true, false, ◌&&◌, ◌||◌, List, [], ◌∷◌, ◌++◌, some, leb, ◌==◌, All, ap,
  sym, ◌∙◌, subst, Bool-cases, Option-cases, inl, inr,
}
use edgehost.Prelude.Text.{Bytes, text, str_eq}
use edgehost.Auth.{role_has, employee, employee_admin, cpe, customer, service_openai, ingest}
use edgehost.Auth.Login.{quote, strstr}
use edgehost.Auth.Session.{quoted, role_names, to_bracket, found, occurs, roles_in}
use edgehost.Auth.Session.Mask.{mask, HasSameRoles, mask_roles}
use edgehost.Auth.Session.Fields.{IsUnquoted, pass_char}
use edgehost.Auth.Session.Roles.{
  present, comma, names_then, array_then, listed, AreUnquoted, IsKey, pass_names, occurs_names,
}

-- The characters of a role's name.
unfoldable pub is_name_char : ℕ → Bool
is_name_char c = leb b'a' c && leb c b'z' || c == b'_'

abbrev pub IsName : Bytes → Type 0
IsName n = All (λ c. is_name_char c ≡ true) n

name-IsUnquoted : (n : Bytes) → IsName n → IsUnquoted n
unfolding is_name_char
name-IsUnquoted [] h = tt
name-IsUnquoted (c ∷ n) h = (ground (arith, h.0), name-IsUnquoted n h.1)

names-AreUnquoted : (ns : List Bytes) → All IsName ns → AreUnquoted ns
names-AreUnquoted [] h = tt
names-AreUnquoted (n ∷ ns) h = (name-IsUnquoted n h.0, names-AreUnquoted ns h.1)

All-present :
    (P : Bytes → Type 0) (roles : ℕ) (l : List (ℕ × Bytes))
    → All (λ e. P e.1) l
    → All P (present roles l)
unfolding present
All-present P roles [] h = tt
All-present P roles ((bit, name) ∷ l) h = elim (Bool-cases (role_has roles bit)) [
  | inl has ↦ rw has (h.0, All-present P roles l h.1)
  | inr lacks ↦ rw lacks (All-present P roles l h.1)
]

name_of : (name : Bytes) → Bool
name_of [] = true
name_of (c ∷ n) = is_name_char c && name_of n

name_of-IsName : (n : Bytes) → name_of n ≡ true → IsName n
unfolding name_of
name_of-IsName [] h = tt
name_of-IsName (c ∷ n) h = (ground (arith, h), name_of-IsName n (ground (arith, h)))

pub present-IsName : (roles : ℕ) → All IsName (present roles role_names)
unfolding name_of is_name_char
present-IsName roles = All-present IsName roles role_names (
  name_of-IsName (text "employee") refl,
  (
    name_of-IsName (text "employee_admin") refl,
    (
      name_of-IsName (text "cpe") refl,
      (
        name_of-IsName (text "customer") refl,
        (name_of-IsName (text "service_openai") refl, (name_of-IsName (text "ingest") refl, tt)),
      ),
    ),
  ),
)

pub present-AreUnquoted : (roles : ℕ) → AreUnquoted (present roles role_names)
present-AreUnquoted roles = names-AreUnquoted (present roles role_names) (present-IsName roles)

-- Which names the array lists, by the mask.
any_role : Bytes → ℕ → List (ℕ × Bytes) → Bool
any_role k roles [] = false
any_role k roles ((bit, name) ∷ l) = role_has roles bit && str_eq name k || any_role k roles l

listed-present :
    (k : Bytes) (roles : ℕ) (l : List (ℕ × Bytes)) → listed k (present roles l) ≡ any_role k roles l
unfolding listed present any_role
listed-present k roles [] = refl
listed-present k roles ((bit, name) ∷ l) = elim (Bool-cases (role_has roles bit)) [
  | inl has ↦ rw has (ap (λ b. str_eq name k || b) (listed-present k roles l))
  | inr lacks ↦ rw lacks (listed-present k roles l)
]

-- The key of the expiry is none of them.
pub listed_exp : (roles : ℕ) → listed (text "exp") (present roles role_names) ≡ false
unfolding any_role str_eq
listed_exp roles = listed-present (text "exp") roles role_names ∙ ground arith

-- Which roles are found: those the array lists.
occurs-array :
    (k0 : ℕ) (k : Bytes) (roles : ℕ)
    → IsKey k0 k
    → occurs (quoted (k0 ∷ k)) (array_then roles []) ≡ any_role (k0 ∷ k) roles role_names
unfolding strstr
occurs-array k0 k roles good =
    ap found (pass_char (k0 ∷ k) b'[' (names_then true (present roles role_names) (b']' ∷ [])) refl)
    ∙ elim (Bool-cases (listed (k0 ∷ k) (present roles role_names))) [
      | inl is ↦
          occurs_names k0 k good true (present roles role_names) [] (present-AreUnquoted roles) is
          ∙ sym is
      | inr none_is ↦
          ap found (
            pass_names k0 k good true (present roles role_names) [] (present-AreUnquoted roles)
              none_is)
          ∙ sym none_is
    ]
    ∙ listed-present (k0 ∷ k) roles role_names

name-IsKey : (k0 : ℕ) (k : Bytes) → name_of (k0 ∷ k) ≡ true → IsKey k0 k
unfolding name_of is_name_char
name-IsKey k0 k h = record {
  unquoted = name-IsUnquoted (k0 ∷ k) (name_of-IsName (k0 ∷ k) h);
  no_comma = ground (arith, h);
  no_bracket = ground (arith, h);
}

occurs_role :
    (k0 : ℕ) (k : Bytes) (roles bit : ℕ)
    → name_of (k0 ∷ k) ≡ true
    → any_role (k0 ∷ k) roles role_names ≡ role_has roles bit
    → occurs (quoted (k0 ∷ k)) (array_then roles []) ≡ role_has roles bit
occurs_role k0 k roles bit h e = occurs-array k0 k roles (name-IsKey k0 k h) ∙ e

pub roles_in-array :
    (roles : ℕ)
    → roles_in (array_then roles [])
      ≡ mask
          (role_has roles employee)
          (role_has roles employee_admin)
          (role_has roles cpe)
          (role_has roles customer)
          (role_has roles service_openai)
          (role_has roles ingest)
unfolding roles_in any_role str_eq name_of is_name_char
roles_in-array roles =
    let e1 = occurs_role b'e' (text "mployee") roles employee refl (ground arith) in
    let e2 = occurs_role b'e' (text "mployee_admin") roles employee_admin refl (ground arith) in
    let e3 = occurs_role b'c' (text "pe") roles cpe refl (ground arith) in
    let e4 = occurs_role b'c' (text "ustomer") roles customer refl (ground arith) in
    let e5 = occurs_role b's' (text "ervice_openai") roles service_openai refl (ground arith) in
    let e6 = occurs_role b'i' (text "ngest") roles ingest refl (ground arith) in
    λ i. mask (e1 i) (e2 i) (e3 i) (e4 i) (e5 i) (e6 i)

-- The roles read from the array are those of the mask that was written.
pub roles_in-HasSameRoles : (roles : ℕ) → HasSameRoles (roles_in (array_then roles [])) roles
roles_in-HasSameRoles roles =
    subst (λ m. HasSameRoles m roles) (sym (roles_in-array roles))
      (mask_roles (role_has roles employee) (role_has roles employee_admin) (role_has roles cpe)
        (role_has roles customer) (role_has roles service_openai) (role_has roles ingest))

to_bracket_pass :
    (c : ℕ) (s t : Bytes)
    → (c == b']') ≡ false
    → to_bracket s ≡ some t
    → to_bracket (c ∷ s) ≡ some (c ∷ t)
unfolding to_bracket
to_bracket_pass c s t h e = rw (e, h) refl

to_bracket_name :
    (n s t : Bytes) → IsName n → to_bracket s ≡ some t → to_bracket (n ++ s) ≡ some (n ++ t)
unfolding is_name_char
to_bracket_name [] s t h e = e
to_bracket_name (c ∷ n) s t h e =
    to_bracket_pass c (n ++ s) (n ++ t) (ground (arith, h.0)) (to_bracket_name n s t h.1 e)

to_bracket-comma :
    (first : Bool) (s t : Bytes)
    → to_bracket s ≡ some t
    → to_bracket (comma first ++ s) ≡ some (comma first ++ t)
to_bracket-comma true s t e = e
to_bracket-comma false s t e = to_bracket_pass b',' s t refl e

to_bracket_end : (t : Bytes) → to_bracket (b']' ∷ t) ≡ some (b']' ∷ [])
unfolding to_bracket
to_bracket_end t = elim (Option-cases (to_bracket t)) [ inl e ↦ rw e refl | inr (s, e) ↦ rw e refl ]

to_bracket-names :
    (first : Bool) (ns : List Bytes) (t : Bytes)
    → All IsName ns
    → to_bracket (names_then first ns (b']' ∷ t)) ≡ some (names_then first ns (b']' ∷ []))
unfolding names_then
to_bracket-names first [] t h = to_bracket_end t
to_bracket-names first (n ∷ ns) t h =
    let tail = to_bracket-names false ns t h.1 in
    to_bracket-comma first _ _ (
      to_bracket_pass quote _ _ refl
        (to_bracket_name n _ _ h.0 (to_bracket_pass quote _ _ refl tail)))

-- The array ends at its own bracket.
pub to_bracket-array :
    (roles : ℕ) (t : Bytes) → to_bracket (array_then roles t) ≡ some (array_then roles [])
to_bracket-array roles t =
    to_bracket_pass b'[' _ _ refl
      (to_bracket-names true (present roles role_names) t (present-IsName roles))
