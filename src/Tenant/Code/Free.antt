-- ===== src/Tenant/Code/Free.antt =====
-- The search for a tenant code ends with the first free one, or with none free.
use multi_tenant.Base.{
  ℕ, zero, suc, ◌+◌, ◌<◌, String, Bool, true, false, ◌≡◌, ◌⊎◌, inl, inr, refl, ap, sym, ◌∙◌, Option,
  none, some, arith, if◌then◌else◌,
}
use multi_tenant.Tenant.Types.{TenantDb}
use multi_tenant.Tenant.Effects.{code_generation_failed, ok, err}
use multi_tenant.Tenant.Code.{
  is_taken, first_free, code_or_error, tenant_code_sequence_max, generate_unique_tenant_code,
}

module _ (taken : String → Bool) (candidate : ℕ → String) where
  -- The codes of `n` numbers from a first one are taken.
  abbrev pub AllTaken : ℕ → ℕ → Type 0
  AllTaken sequence zero = Unit
  AllTaken sequence (suc n) = (taken (candidate sequence) ≡ true) × AllTaken (suc sequence) n

  -- The number `d` places after the first is the first free one of `n`.
  pub record IsFirstFree (sequence n d : ℕ) : Type 0 where
    pub inside : d < n
    pub free : taken (candidate (sequence + d)) ≡ false
    pub before : AllTaken sequence d

  Search : ℕ → ℕ → Option String → Type 0
  Search sequence n o =
      ((d : ℕ) × IsFirstFree sequence n d × (o ≡ some (candidate (sequence + d))))
      ⊎ ((o ≡ none) × AllTaken sequence n)

  first_free-Search : (n sequence : ℕ) → Search sequence n (first_free taken candidate sequence n)
  unfolding first_free Search
  first_free-Search zero sequence = inr (refl, tt)
  first_free-Search (suc n) sequence =
      by_test (taken (candidate sequence)) refl (first_free-Search n (suc sequence))
    where
      by_test :
          (b : Bool)
          → taken (candidate sequence) ≡ b
          → Search (suc sequence) n (first_free taken candidate (suc sequence) n)
          → Search sequence
              (suc n)
              (if b then first_free taken candidate (suc sequence) n else some (candidate sequence))
      by_test true e (inl f) = inl (
        suc f.0,
        record {
          inside = omega (arith, f.1.inside);
          free = ap (λ k. taken (candidate k)) (shift f.0) ∙ f.1.free;
          before = (e, f.1.before);
        },
        f.2 ∙ ap (λ k. some (candidate k)) (sym (shift f.0)),
      )
        where
          shift : (d : ℕ) → sequence + suc d ≡ suc sequence + d
          shift d = omega arith
      by_test true e (inr f) = inr (f.0, (e, f.1))
      by_test false e f = inl (
        0,
        record {
          inside = omega arith;
          free = ap (λ k. taken (candidate k)) start ∙ e;
          before = tt;
        },
        ap (λ k. some (candidate k)) (sym start),
      )
        where
          start : sequence + 0 ≡ sequence
          start = omega arith

-- The search for a code always ends: with the code of the first number from 1 to 9999 whose code no
-- tenant has, or, if all of them are taken, with the error.
pub generate_unique_tenant_code-IsFirstFree :
    (seen : TenantDb) (candidate : ℕ → String)
    → ((d : ℕ) × IsFirstFree (is_taken seen) candidate 1 tenant_code_sequence_max d
        × (generate_unique_tenant_code seen candidate ≡ ok (candidate (1 + d))))
      ⊎ ((generate_unique_tenant_code seen candidate ≡ err code_generation_failed)
          × AllTaken (is_taken seen) candidate 1 tenant_code_sequence_max)
unfolding generate_unique_tenant_code Search
generate_unique_tenant_code-IsFirstFree seen candidate =
    elim (first_free-Search (is_taken seen) candidate tenant_code_sequence_max 1) [
      | inl f ↦ inl (f.0, f.1, ap code_or_error f.2)
      | inr f ↦ inr (ap code_or_error f.0, f.1)
    ]
