-- ===== src/Auth/Session/Mask.antt =====
-- The six roles of a mask that `parse_roles_array` of src/core/auth_rbac.c puts together.
use edgehost.Prelude.{ℕ, ◌≡◌, refl, arith, Bool, true, false, not, ◌&&◌, sym}
use edgehost.Auth.{role_has, employee, employee_admin, cpe, customer, service_openai, ingest}
use edgehost.Auth.Session.{add_if}

-- The mask with the given roles.
abbrev pub mask : Bool → Bool → Bool → Bool → Bool → Bool → ℕ
mask e a p c o i = add_if i ingest (
    add_if o service_openai
      (add_if c customer (add_if p cpe (add_if e employee (add_if a employee_admin 0)))))

-- The same of the six roles stand in both masks.
abbrev pub HasSameRoles : ℕ → ℕ → Type 0
HasSameRoles m n =
    (role_has m employee ≡ role_has n employee)
    × (role_has m employee_admin ≡ role_has n employee_admin)
    × (role_has m cpe ≡ role_has n cpe)
    × (role_has m customer ≡ role_has n customer)
    × (role_has m service_openai ≡ role_has n service_openai)
    × (role_has m ingest ≡ role_has n ingest)

every : (Bool → Bool) → Bool
every f = f true && f false

every_at : (f : Bool → Bool) (b : Bool) → every f ≡ true → f b ≡ true
unfolding every
every_at f true h = ground (arith, h)
every_at f false h = ground (arith, h)

same : Bool → Bool → Bool
same true b = b
same false b = not b

eq_of_same : (a b : Bool) → same a b ≡ true → a ≡ b
unfolding same
eq_of_same true b h = sym h
eq_of_same false true h = cc
eq_of_same false false h = refl

abbrev mask_read : Bool → Bool → Bool → Bool → Bool → Bool → Bool
mask_read e a p c o i =
    let m = mask e a p c o i in
    same (role_has m employee) e
    && (same (role_has m employee_admin) a
        && (same (role_has m cpe) p
            && (same (role_has m customer) c
                && (same (role_has m service_openai) o && same (role_has m ingest) i))))

mask_table :
    every (λ e. every (λ a. every (λ p. every (λ c. every (λ o. every (mask_read e a p c o))))))
    ≡ true
unfolding every same role_has
mask_table = refl

mask_read-true : (e a p c o i : Bool) → mask_read e a p c o i ≡ true
mask_read-true e a p c o i =
    every_at (λ i. mask_read e a p c o i) i
      (every_at (λ o. every (mask_read e a p c o)) o
        (every_at (λ c. every (λ o. every (mask_read e a p c o))) c
          (every_at (λ p. every (λ c. every (λ o. every (mask_read e a p c o)))) p
            (every_at (λ a. every (λ p. every (λ c. every (λ o. every (mask_read e a p c o))))) a
              (every_at
                (λ e.
                  every (λ a. every (λ p. every (λ c. every (λ o. every (mask_read e a p c o))))))
                e mask_table)))))

and_left : (a b : Bool) → (a && b) ≡ true → a ≡ true
and_left a b h = ground (arith, h)

and_right : (a b : Bool) → (a && b) ≡ true → b ≡ true
and_right a b h = ground (arith, h)

pub mask_roles :
    (e a p c o i : Bool)
    → (role_has (mask e a p c o i) employee ≡ e)
      × (role_has (mask e a p c o i) employee_admin ≡ a)
      × (role_has (mask e a p c o i) cpe ≡ p)
      × (role_has (mask e a p c o i) customer ≡ c)
      × (role_has (mask e a p c o i) service_openai ≡ o)
      × (role_has (mask e a p c o i) ingest ≡ i)
mask_roles e a p c o i =
    let h1 = mask_read-true e a p c o i in
    let h2 = and_right _ _ h1 in
    let h3 = and_right _ _ h2 in
    let h4 = and_right _ _ h3 in
    let h5 = and_right _ _ h4 in
    (
      eq_of_same _ _ (and_left _ _ h1),
      eq_of_same _ _ (and_left _ _ h2),
      eq_of_same _ _ (and_left _ _ h3),
      eq_of_same _ _ (and_left _ _ h4),
      eq_of_same _ _ (and_left _ _ h5),
      eq_of_same _ _ (and_right _ _ h5),
    )
