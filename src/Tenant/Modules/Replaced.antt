-- ===== src/Tenant/Modules/Replaced.antt =====
-- After a replacement the tenant has the modules that were asked for.
use multi_tenant.Base.{
  ℕ, suc, String, Bool, true, false, not, ◌&&◌, ◌||◌, ◌≡◌, refl, ap, sym, ◌∙◌, subst, inl, inr,
  List, [], ◌∷◌, ◌==◌, ==→eq, any, select, update_where, str_eq, eq_iff, Bool-cases, arith,
  if◌then◌else◌,
}
use multi_tenant.Effects.Keeps.{keeps_rules, Keeps-modify, Keeps-bind}
use multi_tenant.Effects.Achieves.{
  Achieves-done, Achieves-then, Achieves-gets, Achieves-throw_if, Achieves-modify, Achieves-ok,
  Achieves-of, Achieves-given,
}
use multi_tenant.Tenant.Types.{TenantModule, TenantDb, TenantCaller, TenantEnv}
use multi_tenant.Tenant.Effects.{ok, pure, Keeps, Achieves}
use multi_tenant.Tenant.Store.{record_event}
use multi_tenant.Tenant.Domains.{ensure_tenant_exists}
use multi_tenant.Tenant.Modules.{
  contains_code, is_module, codes_of, with_enabled, upsert_rows, upsert_module, upsert_modules,
  disable_modules, record_all, without, replace_modules,
}

-- The tenant has the module.
abbrev pub has_enabled : ℕ → String → List TenantModule → Bool
has_enabled tenant_id code = any (λ m. is_module tenant_id code m && m.enabled)

str_eq_refl : (a : String) → str_eq a a ≡ true
str_eq_refl a = (eq_iff a a).1 refl

and_left : (a b : Bool) → (a && b) ≡ true → a ≡ true
and_left a b h = ground (arith, h)

and_right : (a b : Bool) → (a && b) ≡ true → b ≡ true
and_right a b h = ground (arith, h)

contains_code-select :
    (code : String) (p : String → Bool) (l : List String)
    → contains_code code (select p l) ≡ (contains_code code l && p code)
contains_code-select code p [] = refl
contains_code-select code p (c ∷ l) = elim (Bool-cases (str_eq c code)) [
  | inl e ↦
      subst (λ d. contains_code code (select p (d ∷ l)) ≡ (contains_code code (d ∷ l) && p code))
        (sym ((eq_iff c code).0 e)) (grind (arith, contains_code-select code p l, str_eq_refl code))
  | inr e ↦ grind (arith, contains_code-select code p l, e)
]

pub contains_code-enabled_codes :
    (tenant_id : ℕ) (code : String) (l : List TenantModule)
    → contains_code code (codes_of (select (λ m. m.tenant_id == tenant_id && m.enabled) l))
      ≡ has_enabled tenant_id code l
contains_code-enabled_codes tenant_id code [] = refl
contains_code-enabled_codes tenant_id code (m ∷ l) =
    grind (arith, contains_code-enabled_codes tenant_id code l)

-- The rows after the insertions, and after the rows of some codes are disabled.
upserts : ℕ → List String → List TenantModule → List TenantModule
upserts tenant_id [] l = l
upserts tenant_id (c ∷ cs) l = upserts tenant_id cs (upsert_rows tenant_id c l)

abbrev disabled_rows : ℕ → List String → List TenantModule → List TenantModule
disabled_rows tenant_id cs =
    update_where (λ m. m.tenant_id == tenant_id && contains_code m.module_code cs)
      (with_enabled false)

module _ (tenant_id : ℕ) (t : ℕ) (code : String) where
  has_enabled-update_where :
      (d : String) (l : List TenantModule)
      → has_enabled t code (update_where (is_module tenant_id d) (with_enabled true) l) ≡ (
          has_enabled t code l
          || (any (is_module tenant_id d) l && (t == tenant_id && str_eq d code)))
  has_enabled-update_where d [] = refl
  has_enabled-update_where d (m ∷ l) = elim (Bool-cases (is_module tenant_id d m)) [
    | inl e ↦ grind (
      arith,
      has_enabled-update_where d l,
      e,
      ==→eq m.tenant_id tenant_id (and_left _ _ e),
      ap (λ x. str_eq x code)
          ((eq_iff m.module_code d).0 (and_right (m.tenant_id == tenant_id) _ e)),
    )
    | inr e ↦ grind (arith, has_enabled-update_where d l, e)
  ]

  has_enabled-upsert_rows :
      (d : String) (l : List TenantModule)
      → has_enabled t code (upsert_rows tenant_id d l)
        ≡ (has_enabled t code l || (t == tenant_id && str_eq d code))
  has_enabled-upsert_rows d l = elim (Bool-cases (any (is_module tenant_id d) l)) [
    | inl e ↦ grind (arith, has_enabled-update_where d l, e)
    | inr e ↦ grind (arith, e)
  ]

  has_enabled-upserts :
      (cs : List String) (l : List TenantModule)
      → has_enabled t code (upserts tenant_id cs l)
        ≡ (has_enabled t code l || (t == tenant_id && contains_code code cs))
  unfolding upserts
  has_enabled-upserts [] l = grind arith
  has_enabled-upserts (c ∷ cs) l =
      grind (arith, has_enabled-upserts cs (upsert_rows tenant_id c l), has_enabled-upsert_rows c l)

  has_enabled-disabled_rows :
      (cs : List String) (l : List TenantModule)
      → has_enabled t code (disabled_rows tenant_id cs l)
        ≡ (has_enabled t code l && not (t == tenant_id && contains_code code cs))
  has_enabled-disabled_rows cs [] = refl
  has_enabled-disabled_rows cs (m ∷ l) = elim (Bool-cases (is_module t code m)) [
    | inl e ↦ grind (
      arith,
      has_enabled-disabled_rows cs l,
      e,
      ==→eq m.tenant_id t (and_left _ _ e),
      ap (λ x. contains_code x cs)
          ((eq_iff m.module_code code).0 (and_right (m.tenant_id == t) _ e)),
    )
    | inr e ↦ grind (arith, has_enabled-disabled_rows cs l, e)
  ]

abbrev replaced : ℕ → List String → List TenantModule → List TenantModule
replaced tenant_id requested l =
    let existing = codes_of (select (λ m. m.tenant_id == tenant_id && m.enabled) l) in
    disabled_rows tenant_id (without existing requested) (upserts tenant_id requested l)

has_enabled-replaced :
    (tenant_id t : ℕ) (code : String) (requested : List String) (l : List TenantModule)
    → has_enabled t code (replaced tenant_id requested l)
      ≡ (if t == tenant_id then contains_code code requested else has_enabled t code l)
has_enabled-replaced tenant_id t code requested l = grind (
  arith,
  has_enabled-disabled_rows tenant_id t code
      (without (codes_of (select (λ m. m.tenant_id == tenant_id && m.enabled) l)) requested)
      (upserts tenant_id requested l),
  has_enabled-upserts tenant_id t code requested l,
  contains_code-select code (λ c. not (contains_code c requested))
      (codes_of (select (λ m. m.tenant_id == tenant_id && m.enabled) l)),
  contains_code-enabled_codes tenant_id code l,
  same_tenant,
)
  where
    same_tenant : (t == tenant_id) ≡ true → has_enabled t code l ≡ has_enabled tenant_id code l
    same_tenant e = ap (λ x. has_enabled x code l) (==→eq t tenant_id e)

abbrev enabled_of : ℕ → List TenantModule → List String
enabled_of tenant_id l = codes_of (select (λ m. m.tenant_id == tenant_id && m.enabled) l)

module _ (tenant_id : ℕ) (l : List TenantModule) where
  upsert_modules-upserts :
      (cs : List String) (l' : List TenantModule)
      → Achieves
          (λ db. db.modules ≡ l')
          (λ db. db.modules ≡ upserts tenant_id cs l')
          (upsert_modules tenant_id cs)
  unfolding upsert_modules upsert_module upserts pure
  upsert_modules-upserts [] l' = record { at = λ db e. e }
  upsert_modules-upserts (c ∷ cs) l' =
      Achieves-then _ _ (Achieves-modify _ (λ db e. ap (upsert_rows tenant_id c) e))
        λ _. upsert_modules-upserts cs (upsert_rows tenant_id c l')

  record_all-modules :
      (env : TenantEnv) (caller : TenantCaller) (event_type : String) (n : ℕ) (cs : List String)
      → Keeps (λ db. db.modules ≡ l) (record_all env caller tenant_id event_type n cs)
  unfolding record_all record_event
  record_all-modules env caller event_type n [] = search keeps_rules
  record_all-modules env caller event_type n (c ∷ cs) =
      Keeps-bind _ _ (Keeps-modify _ (λ db e. e))
        (λ _. record_all-modules env caller event_type (suc n) cs)

replace_modules-replaced :
    (env : TenantEnv) (caller : TenantCaller) (seen : TenantDb) (tenant_id : ℕ)
    (requested : List String) (l : List TenantModule)
    → Achieves
        (λ db. db.modules ≡ l)
        (λ db. db.modules ≡ replaced tenant_id requested l)
        (replace_modules env caller seen tenant_id requested)
unfolding replace_modules ensure_tenant_exists disable_modules
replace_modules-replaced env caller seen tenant_id requested l = Achieves-throw_if _ _ _ λ there.
    Achieves-gets _ _ λ existing.
      Achieves-given (λ db h. sym h.1 ∙ ap (enabled_of tenant_id) h.0)
        λ known.
          Achieves-of (λ db h. h.0)
            (Achieves-then _ _ (upsert_modules-upserts tenant_id l requested l) λ _.
              Achieves-done _ _
                (Achieves-modify _ λ db h.
                  ap (disabled_rows tenant_id (without existing requested)) h
                  ∙ ap
                      (λ x.
                        disabled_rows tenant_id (without x requested)
                          (upserts tenant_id requested l))
                      known)
                λ _. search (keeps_rules, record_all-modules))

-- A replacement that returns leaves the tenant with the modules that were asked for and no others,
-- and every other tenant with the modules that it had.
pub replace_modules-has_enabled :
    (env : TenantEnv) (caller : TenantCaller) (seen db db' : TenantDb) (tenant_id t : ℕ)
    (requested enabled : List String) (code : String)
    → replace_modules env caller seen tenant_id requested db ≡ ok (enabled, db')
    → has_enabled t code db'.modules
      ≡ (if t == tenant_id then contains_code code requested else has_enabled t code db.modules)
replace_modules-has_enabled env caller seen db db' tenant_id t requested enabled code h =
    ap (has_enabled t code) (
      Achieves-ok db db' enabled
        (replace_modules-replaced env caller seen tenant_id requested db.modules) refl h)
    ∙ has_enabled-replaced tenant_id t code requested db.modules
