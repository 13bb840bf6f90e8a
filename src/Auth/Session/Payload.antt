-- ===== src/Auth/Session/Payload.antt =====
-- What `edge_auth_session_verify` reads from a payload that `edge_auth_session_issue` wrote.
use edgehost.Prelude.{
  ℕ, ◌≤◌, ◌<◌, ◌^◌, ◌≡◌, refl, arith, Bool, true, false, not, ◌&&◌, ◌||◌, [], ◌∷◌, ◌++◌, Option,
  none, some, ltb, ◌==◌, length, drop, All, ap, sym, ◌∙◌, subst,
}
use edgehost.Prelude.Int.{ℤ, pos}
use edgehost.Prelude.Text.{Bytes, text, str_eq, is_empty, bounded, decimal, is_digit}
use edgehost.Auth.Number.{strtoll, strtoll-decimal, decimal_head, starts_digit}
use edgehost.Auth.Login.{
  copy_string, string_after, past, quote, backslash, strstr, strchr, string_field,
  copy_string-plain,
}
use edgehost.Auth.Session.{
  close_after, bracket_after, number_after, quoted, role_names, array_roles, parse_roles_array,
  int64_field, skip_blanks,
}
use edgehost.Auth.Session.Fields.{IsUnquoted, pass_char, pass_string, find_string}
use edgehost.Auth.Session.Roles.{present, array_then, pass_names, IsKey}
use edgehost.Auth.Session.Mask.{HasSameRoles}
use edgehost.Auth.Session.Array.{
  present-AreUnquoted, listed_exp, to_bracket-array, roles_in-HasSameRoles,
}

-- A subject whose text the payload holds as it is, and which is not the name of a later field.
pub record IsSubject (sub : Bytes) : Type 0 where
  pub chars : All (λ c. (ltb 0 c && ltb c 256 && not (c == quote || c == backslash)) ≡ true) sub
  pub not_exp : str_eq sub (text "exp") ≡ false
  pub not_roles : str_eq sub (text "roles") ≡ false
  pub some_char : is_empty sub ≡ false
  pub short : length sub ≤ 63

-- The payload, from the roles' array on,
abbrev pub tail_text : ℕ → Bytes
tail_text exp = text ",\"exp\":" ++ (decimal exp ++ text "}")

-- and all of it.
abbrev pub payload_of : Bytes → ℕ → ℕ → Bytes
payload_of sub roles exp =
    text "{\"sub\":\"" ++ (sub ++ (text "\",\"roles\":" ++ array_then roles (tail_text exp)))

subject-IsUnquoted :
    (sub : Bytes)
    → All (λ c. (ltb 0 c && ltb c 256 && not (c == quote || c == backslash)) ≡ true) sub
    → IsUnquoted sub
subject-IsUnquoted [] h = tt
subject-IsUnquoted (c ∷ sub) h = (ground (arith, h.0), subject-IsUnquoted sub h.1)

subject-IsPlain :
    (sub : Bytes)
    → All (λ c. (ltb 0 c && ltb c 256 && not (c == quote || c == backslash)) ≡ true) sub
    → All (λ c. (c == quote || c == backslash) ≡ false) sub
subject-IsPlain [] h = tt
subject-IsPlain (c ∷ sub) h = (ground (arith, h.0), subject-IsPlain sub h.1)

copy_subject :
    (sub rest : Bytes) → IsSubject sub → copy_string 63 (sub ++ (quote ∷ rest)) ≡ (true, sub)
copy_subject sub rest good =
    copy_string-plain 63 sub rest (subject-IsPlain sub good.chars) good.short

exp-IsUnquoted : IsUnquoted (text "exp")
exp-IsUnquoted = (refl, (refl, (refl, tt)))

roles-IsUnquoted : IsUnquoted (text "roles")
roles-IsUnquoted = (refl, (refl, (refl, (refl, (refl, tt)))))

exp-IsKey : IsKey b'e' (text "xp")
exp-IsKey = record { unquoted = exp-IsUnquoted; no_comma = refl; no_bracket = refl }

skip_blanks_digit : (s : Bytes) → starts_digit s ≡ true → skip_blanks s ≡ s
unfolding skip_blanks is_digit
skip_blanks_digit [] h = refl
skip_blanks_digit (c ∷ s) h =
    let no_blank : (c == b' ' || c == 9) ≡ false = ground (arith, h) in rw no_blank refl

module _ (sub : Bytes) (roles exp : ℕ) (good : IsSubject sub) where
  sub_IsUnquoted : IsUnquoted sub
  sub_IsUnquoted = subject-IsUnquoted sub good.chars

  find_sub :
      strstr (quoted (text "sub")) (payload_of sub roles exp)
      ≡ some (drop 1 (payload_of sub roles exp))
  unfolding str_eq
  find_sub =
      pass_char (text "sub") b'{' _ refl
      ∙ find_string (text "sub") (text "sub") _ (refl, (refl, (refl, tt)))
          (refl, (refl, (refl, tt))) refl

  -- The string field is the subject,
  pub string_field-payload :
      string_field (payload_of sub roles exp) (text "sub") 64 ≡ (true, some sub)
  unfolding string_field string_after strchr bounded
  string_field-payload =
      ap (λ o. string_after 64 (past 5 o)) find_sub
      ∙ ap
          (λ (r : Bool × Bytes).
            (let (done, s) = r in let q : Bool × Option Bytes = (done, some s) in q))
          (copy_subject sub (drop 1 (text "\",\"roles\":") ++ array_then roles (tail_text exp))
            good)

  -- Where the search for a later key stands behind the subject.
  after_subject :
      (k0 : ℕ) (k : Bytes)
      → IsUnquoted (k0 ∷ k)
      → str_eq (text "sub") (k0 ∷ k) ≡ false
      → str_eq sub (k0 ∷ k) ≡ false
      → (b':' == k0) ≡ false
      → (b',' == k0) ≡ false
      → strstr (quoted (k0 ∷ k)) (payload_of sub roles exp)
        ≡ strstr (quoted (k0 ∷ k)) (text "\"roles\":" ++ array_then roles (tail_text exp))
  after_subject k0 k unquoted not_sub not_subject no_colon no_comma =
      pass_char (k0 ∷ k) b'{' _ refl
      ∙ pass_string k0 k (text "sub") b':' _ unquoted (refl, (refl, (refl, tt))) not_sub no_colon
      ∙ pass_char (k0 ∷ k) b':' _ refl
      ∙ pass_string k0 k sub b',' _ unquoted sub_IsUnquoted not_subject no_comma
      ∙ pass_char (k0 ∷ k) b',' _ refl

  find_roles :
      strstr (quoted (text "roles")) (payload_of sub roles exp)
      ≡ some (text "\"roles\":" ++ array_then roles (tail_text exp))
  unfolding str_eq
  find_roles =
      after_subject b'r' (text "oles") roles-IsUnquoted refl good.not_roles refl refl
      ∙ find_string (text "roles") (text "roles") _ roles-IsUnquoted roles-IsUnquoted refl

  -- the roles are those that the array lists,
  pub parse_roles_array-payload :
      length (array_then roles []) ≤ 127
      → HasSameRoles (parse_roles_array (payload_of sub roles exp)) roles
  unfolding parse_roles_array strchr
  parse_roles_array-payload fits =
      let small : ltb 128 (length (array_then roles [])) ≡ false = ground (arith, fits) in
      let e =
        ap (λ o. array_roles (close_after (bracket_after o))) find_roles
        ∙ ap array_roles (to_bracket-array roles (tail_text exp)) in
      subst (λ m. HasSameRoles m roles) (sym e) (rw small (roles_in-HasSameRoles roles))

  find_exp : strstr (quoted (text "exp")) (payload_of sub roles exp) ≡ some (drop 1 (tail_text exp))
  unfolding str_eq
  find_exp =
      after_subject b'e' (text "xp") exp-IsUnquoted refl good.not_exp refl refl
      ∙ pass_string b'e' (text "xp") (text "roles") b':' _ exp-IsUnquoted roles-IsUnquoted refl refl
      ∙ pass_char (text "exp") b':' _ refl
      ∙ pass_char (text "exp") b'[' _ refl
      ∙ pass_names b'e' (text "xp") exp-IsKey true (present roles role_names) (tail_text exp)
          (present-AreUnquoted roles) (listed_exp roles)
      ∙ pass_char (text "exp") b',' _ refl
      ∙ find_string (text "exp") (text "exp") _ exp-IsUnquoted exp-IsUnquoted refl

  -- and the number is the expiry.
  pub int64_field-payload :
      exp < 2 ^ 63 → int64_field (payload_of sub roles exp) (text "exp") ≡ some (pos exp)
  unfolding int64_field strchr bounded is_digit
  int64_field-payload small =
      let number_read =
        ap (λ t. elim (strtoll t) [ none ↦ none | some r ↦ some r.0 ])
          (skip_blanks_digit (decimal exp ++ text "}") (decimal_head exp (text "}")))
        ∙ ap (λ (o : Option (ℤ × Bytes)). elim o [ none ↦ none | some r ↦ some r.0 ])
            (strtoll-decimal exp (text "}") small refl) in
      ap (λ o. number_after (past 5 o)) find_exp ∙ number_read
