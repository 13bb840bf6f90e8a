-- ===== src/Auth/Session/Roles.antt =====
-- The list of roles in a session's payload: what is written, and what is read back from it.
use edgehost.Prelude.{
  ℕ, ◌+◌, ◌-◌, ◌≤◌, ◌≡◌, refl, arith, Bool, true, false, ◌||◌, List, [], ◌∷◌, ◌++◌, append_assoc,
  Option, none, some, some_inj, leb, ltb, ◌==◌, if◌then◌else◌, length, length-append, ap, sym, ◌∙◌,
  subst, Bool-cases, inl, inr,
}
use edgehost.Prelude.Text.{Bytes, str_eq}
use edgehost.Auth.{role_has}
use edgehost.Auth.Login.{quote, strstr}
use edgehost.Auth.Session.{
  quoted, role_names, add_roles, close_array, roles_to_json_array, found, occurs,
}
use edgehost.Auth.Session.Fields.{IsUnquoted, pass_char, pass_string, find_string}

-- The names of the roles of a mask, in the order of `role_names`.
unfoldable pub present : ℕ → List (ℕ × Bytes) → List Bytes
present roles [] = []
present roles ((bit, name) ∷ l) =
    let rest = present roles l in if role_has roles bit then name ∷ rest else rest

abbrev pub comma : Bool → Bytes
comma first = if first then [] else (b',' ∷ [])

-- The quoted names with commas between them, and then `t`.
unfoldable pub names_then : Bool → List Bytes → Bytes → Bytes
names_then first [] t = t
names_then first (n ∷ ns) t = comma first ++ (quote ∷ (n ++ (quote ∷ names_then false ns t)))

quoted-append : (n s : Bytes) → quoted n ++ s ≡ quote ∷ (n ++ (quote ∷ s))
quoted-append n s = ap (λ r. quote ∷ r) (append_assoc n (quote ∷ []) s)

add_roles_has :
    (roles bit : ℕ) (name : Bytes) (l : List (ℕ × Bytes)) (tmp out : Bytes) (first : Bool)
    → role_has roles bit ≡ true
    → add_roles roles ((bit, name) ∷ l) tmp first ≡ some out
    → add_roles roles l (tmp ++ (comma first ++ quoted name)) false ≡ some out
unfolding add_roles
add_roles_has roles bit name l tmp out first has h =
    elim (Bool-cases (leb (128 - length tmp) (length (comma first ++ quoted name)))) [
      | inl full ↦ absurd (cc (rw (has, full) at h))
      | inr fits ↦ rw (has, fits) at h
    ]

add_roles_lacks :
    (roles bit : ℕ) (name : Bytes) (l : List (ℕ × Bytes)) (tmp out : Bytes) (first : Bool)
    → role_has roles bit ≡ false
    → add_roles roles ((bit, name) ∷ l) tmp first ≡ some out
    → add_roles roles l tmp first ≡ some out
unfolding add_roles
add_roles_lacks roles bit name l tmp out first lacks h = rw lacks at h

add_roles-present :
    (roles : ℕ) (l : List (ℕ × Bytes)) (tmp out t : Bytes) (first : Bool)
    → add_roles roles l tmp first ≡ some out
    → out ++ t ≡ tmp ++ names_then first (present roles l) t
unfolding add_roles present names_then
add_roles-present roles [] tmp out t first h = ap (λ o. o ++ t) (sym (some_inj h))
add_roles-present roles ((bit, name) ∷ l) tmp out t first h =
    elim (Bool-cases (role_has roles bit)) [
      | inl has ↦ rw has (
          add_roles-present roles l (tmp ++ (comma first ++ quoted name)) out t false
            (add_roles_has roles bit name l tmp out first has h)
          ∙ append_assoc tmp (comma first ++ quoted name) (names_then false (present roles l) t)
          ∙ ap (λ r. tmp ++ r)
              (append_assoc (comma first) (quoted name) (names_then false (present roles l) t)
                ∙ ap (λ r. comma first ++ r)
                    (quoted-append name (names_then false (present roles l) t))))
      | inr lacks ↦ rw lacks (
          add_roles-present roles l tmp out t first
            (add_roles_lacks roles bit name l tmp out first lacks h))
    ]

abbrev pub array_then : ℕ → Bytes → Bytes
array_then roles t = b'[' ∷ names_then true (present roles role_names) (b']' ∷ t)

close_array-some :
    (out_sz : ℕ) (made : Option Bytes) (out : Bytes)
    → close_array out_sz made ≡ some out
    → (tmp : Bytes) × (made ≡ some tmp) × (tmp ++ (b']' ∷ []) ≡ out) × (length tmp ≤ 126)
close_array-some out_sz none out h = absurd (cc h)
close_array-some out_sz (some tmp) out h =
    elim (Bool-cases (ltb 128 (length tmp + 2) || ltb out_sz (length tmp + 2))) [
      | inl large ↦ absurd (cc (rw large at h))
      | inr fits ↦ (tmp, refl, some_inj (rw fits at h), ground (arith, fits))
    ]

-- The array that is written: the names of the roles in the mask.
pub roles_to_json_array-then :
    (roles out_sz : ℕ) (out t : Bytes)
    → roles_to_json_array roles out_sz ≡ some out
    → (out ++ t ≡ array_then roles t) × (length out ≤ 127)
unfolding roles_to_json_array
roles_to_json_array-then roles out_sz out t h =
    let (tmp, made, e, short) =
      close_array-some out_sz (add_roles roles role_names (b'[' ∷ []) true) out h in
    (
      ap (λ o. o ++ t) (sym e)
          ∙ append_assoc tmp (b']' ∷ []) t
          ∙ add_roles-present roles role_names (b'[' ∷ []) tmp (b']' ∷ t) true made,
      subst (λ o. length o ≤ 127) e (omega (arith, length-append tmp (b']' ∷ []))),
    )

-- Whether a name is among those.
unfoldable pub listed : Bytes → List Bytes → Bool
listed k [] = false
listed k (n ∷ ns) = str_eq n k || listed k ns

abbrev pub AreUnquoted : List Bytes → Type 0
AreUnquoted [] = Unit
AreUnquoted (n ∷ ns) = IsUnquoted n × AreUnquoted ns

-- A name that can be searched for in the array.
pub record IsKey (k0 : ℕ) (k : Bytes) : Type 0 where
  pub unquoted : IsUnquoted (k0 ∷ k)
  pub no_comma : (b',' == k0) ≡ false
  pub no_bracket : (b']' == k0) ≡ false

module _ (k0 : ℕ) (k : Bytes) (good : IsKey k0 k) where
  -- The search passes a name that is another one,
  pass_name :
      (n : Bytes) (ns : List Bytes) (t : Bytes)
      → IsUnquoted n
      → str_eq n (k0 ∷ k) ≡ false
      → strstr (quoted (k0 ∷ k)) (quote ∷ (n ++ (quote ∷ names_then false ns (b']' ∷ t))))
        ≡ strstr (quoted (k0 ∷ k)) (names_then false ns (b']' ∷ t))
  unfolding names_then
  pass_name n [] t hn other = pass_string k0 k n b']' t good.unquoted hn other good.no_bracket
  pass_name n (m ∷ ns) t hn other =
      pass_string k0 k n b',' (quote ∷ (m ++ (quote ∷ names_then false ns (b']' ∷ t))))
        good.unquoted hn other good.no_comma

  pass_comma :
      (first : Bool) (s : Bytes)
      → strstr (quoted (k0 ∷ k)) (comma first ++ s) ≡ strstr (quoted (k0 ∷ k)) s
  pass_comma true s = refl
  pass_comma false s = pass_char (k0 ∷ k) b',' s refl

  -- so it passes an array that does not list the name
  pub pass_names :
      (first : Bool) (ns : List Bytes) (t : Bytes)
      → AreUnquoted ns
      → listed (k0 ∷ k) ns ≡ false
      → strstr (quoted (k0 ∷ k)) (names_then first ns (b']' ∷ t)) ≡ strstr (quoted (k0 ∷ k)) t
  unfolding names_then listed
  pass_names first [] t hs none_is = pass_char (k0 ∷ k) b']' t refl
  pass_names first (n ∷ ns) t hs none_is =
      pass_comma first (quote ∷ (n ++ (quote ∷ names_then false ns (b']' ∷ t))))
      ∙ pass_name n ns t hs.0 (ground (arith, none_is))
      ∙ pass_names false ns t hs.1 (ground (arith, none_is))

  -- and finds the name in one that does.
  pub occurs_names :
      (first : Bool) (ns : List Bytes) (t : Bytes)
      → AreUnquoted ns
      → listed (k0 ∷ k) ns ≡ true
      → occurs (quoted (k0 ∷ k)) (names_then first ns (b']' ∷ t)) ≡ true
  unfolding names_then listed
  occurs_names first [] t hs is = absurd (cc is)
  occurs_names first (n ∷ ns) t hs is = elim (Bool-cases (str_eq n (k0 ∷ k))) [
    | inl same ↦ ap found (
        pass_comma first (quote ∷ (n ++ (quote ∷ names_then false ns (b']' ∷ t))))
        ∙ find_string (k0 ∷ k) n (names_then false ns (b']' ∷ t)) good.unquoted hs.0 same)
    | inr other ↦
        ap found (
          pass_comma first (quote ∷ (n ++ (quote ∷ names_then false ns (b']' ∷ t))))
          ∙ pass_name n ns t hs.0 other)
        ∙ occurs_names false ns t hs.1 (rw other at is)
  ]
