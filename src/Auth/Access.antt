-- ===== src/Auth/Access.antt =====
-- What the access decision allows, by role and by request.
use edgehost.Prelude.{◌≡◌, refl, ◌≢◌, ◌↔◌, ◌⊎◌, Bool, true, false, some, arith}
use edgehost.Prelude.Text.{Bytes, text, eq_of_str_eq}
use edgehost.Auth.{
  Principal, Resource, allow, deny, no_resource, state_get, state_put, state_delete, state_list,
  ws_stream, packages, openai, employee, employee_admin, service_openai, ingest, role_has,
  staff_check, rbac_check, classify, is_state, is_v1, is_openai, is_state_put,
}

abbrev pub IsStaff : Principal → Type 0
IsStaff p = (role_has p.roles employee ≡ true) ⊎ (role_has p.roles employee_admin ≡ true)

-- What a principal that is no employee may reach.
abbrev pub Confined : Principal → Bytes → Bytes → Type 0
Confined p method path =
    ((role_has p.roles service_openai ≡ true) × (is_v1 path ≡ true))
    ⊎ ((role_has p.roles ingest ≡ true) × (method ≡ text "PUT") × (is_state path ≡ true))

staff_check_iff : (res : Resource) → (staff_check res ≡ allow) ↔ (res ≢ no_resource)
unfolding staff_check
staff_check_iff no_resource = (λ h. cc, λ h. absurd (h refl))
staff_check_iff state_get = (λ h e. cc, λ h. refl)
staff_check_iff state_put = (λ h e. cc, λ h. refl)
staff_check_iff state_delete = (λ h e. cc, λ h. refl)
staff_check_iff state_list = (λ h e. cc, λ h. refl)
staff_check_iff ws_stream = (λ h e. cc, λ h. refl)
staff_check_iff packages = (λ h e. cc, λ h. refl)
staff_check_iff openai = (λ h e. cc, λ h. refl)

classify-openai :
    (method path : Bytes) (l : Bool)
    → is_openai (classify (some method) (some path) l) ≡ true
    → is_v1 path ≡ true
unfolding classify
classify-openai method path l h = ground arith

classify-state_put :
    (method path : Bytes) (l : Bool)
    → is_state_put (classify (some method) (some path) l) ≡ true
    → (method ≡ text "PUT") × (is_state path ≡ true)
unfolding classify
classify-state_put method path l h = ground (arith, eq_of_str_eq method (text "PUT"))

rbac_check-Confined :
    (p : Principal) (method path : Bytes) (l : Bool)
    → (IsStaff p → ⊥)
    → rbac_check (some p) (classify (some method) (some path) l) ≡ allow
    → (p.authenticated ≡ true) × Confined p method path
unfolding rbac_check
rbac_check-Confined p method path l outside h =
    ground (arith, classify-openai method path l, classify-state_put method path l)

pub record Gate (p : Principal) (method path : Bytes) (l : Bool) : Type 0 where
  pub anonymous :
      p.authenticated ≡ false → rbac_check (some p) (classify (some method) (some path) l) ≡ deny
  pub staff :
      p.authenticated ≡ true
      → IsStaff p
      → (rbac_check (some p) (classify (some method) (some path) l) ≡ allow)
        ↔ (classify (some method) (some path) l ≢ no_resource)
  pub others :
      (IsStaff p → ⊥)
      → rbac_check (some p) (classify (some method) (some path) l) ≡ allow
      → (p.authenticated ≡ true) × Confined p method path

-- The decision of `edge_auth_rbac_check` for the resource that `edge_auth_classify` gives a request: a
-- principal that is not authenticated is denied; an employee or employee_admin is allowed exactly the
-- classified requests; anyone else is allowed at most, with the role service_openai, a path that is
-- `/v1` or below it, or, with the role ingest, a PUT below `/api/v1/state/`.
pub rbac_check-Gate : (p : Principal) (method path : Bytes) (l : Bool) → Gate p method path l
unfolding rbac_check
rbac_check-Gate p method path l = record {
  anonymous = λ h. ground arith;
  staff = λ a h. (
    λ e. (staff_check_iff (classify (some method) (some path) l)).0 (ground arith),
    λ e. ground (arith, (staff_check_iff (classify (some method) (some path) l)).1 e),
  );
  others = rbac_check-Confined p method path l;
}
