-- ===== src/Base/Lists.antt =====
-- Lists as tables: search, filter, update of the rows that a test selects.
use Prim.Native.Nat.{ℕ, suc}
use mathlib.Core.Bool.{Bool, true, false, ◌&&◌, ◌||◌}
use mathlib.Core.List.{List, [], ◌∷◌}
use mathlib.Core.Option.{Option, none, some}
use mathlib.Core.Path.{◌≡◌, refl, sym, ap, ◌∙◌, subst}
use mathlib.Core.Logic.{◌⊎◌, inl, inr, ◌↔◌}
use native.Mathlib.Omega.{arith}
use multi_tenant.Base.Tests.{if◌then◌else◌, ◌==◌, if_both, Bool-cases}

module _ {ℓ} {A : Type ℓ} where
  abbrev pub length : List A → ℕ
  length [] = 0
  length (x ∷ xs) = suc (length xs)

  -- The first row that a test selects.
  abbrev pub find : (A → Bool) → List A → Option A
  find p [] = none
  find p (x ∷ xs) = if p x then some x else find p xs

  abbrev pub select : (A → Bool) → List A → List A
  select p [] = []
  select p (x ∷ xs) = let rest = select p xs in if p x then x ∷ rest else rest

  abbrev pub any : (A → Bool) → List A → Bool
  any p [] = false
  any p (x ∷ xs) = p x || any p xs

  -- The rows that a test selects are changed, the others stay.
  abbrev pub update_where : (A → Bool) → (A → A) → List A → List A
  update_where p f [] = []
  update_where p f (x ∷ xs) = (if p x then f x else x) ∷ update_where p f xs

  abbrev pub All {κ} : (A → Type κ) → List A → Type κ
  All P [] = Unit
  All P (x ∷ xs) = P x × All P xs

abbrev pub contains : ℕ → List ℕ → Bool
contains a [] = false
contains a (x ∷ xs) = (a == x) || contains a xs

abbrev pub filter_map {ℓ κ} : {A : Type ℓ} {B : Type κ} → (A → Option B) → List A → List B
filter_map f [] = []
filter_map f (x ∷ xs) = let rest = filter_map f xs in elim (f x) [ none ↦ rest | some b ↦ b ∷ rest ]

pub All-map {ℓ κ μ} :
    {A : Type ℓ} {P : A → Type κ} {Q : A → Type μ} (l : List A)
    → ((x : A) → P x → Q x)
    → All P l
    → All Q l
All-map [] f h = tt
All-map (x ∷ l) f h = (f x h.0, All-map l f h.1)

pub All-trivial {ℓ} : {A : Type ℓ} (l : List A) → All {ℓ, 0} (λ _. Unit) l
All-trivial [] = tt
All-trivial (x ∷ l) = (tt, All-trivial l)

-- Some row has the property.
abbrev pub Any {ℓ} : {A : Type ℓ} → (A → Type 0) → List A → Type 0
Any P [] = ⊥
Any P (x ∷ xs) = P x ⊎ Any P xs

-- Tests of two and of one of two properties.
pub and_iff :
    {P Q : Type 0} (a b : Bool) → (a ≡ true) ↔ P → (b ≡ true) ↔ Q → ((a && b) ≡ true) ↔ (P × Q)
and_iff true b h k = (λ e. (h.0 refl, k.0 e), λ e. k.1 e.1)
and_iff false b h k = (λ e. absurd (cc e), λ e. cc (h.1 e.0))

pub or_iff :
    {P Q : Type 0} (a b : Bool) → (a ≡ true) ↔ P → (b ≡ true) ↔ Q → ((a || b) ≡ true) ↔ (P ⊎ Q)
or_iff true b h k = (λ e. inl (h.0 e), λ _. refl)
or_iff false b h k = (λ e. inr (k.0 e), elim [ inl x ↦ cc (h.1 x) | inr x ↦ k.1 x ])

-- A test that decides a property of the rows decides whether some row has it.
pub any_iff {ℓ} :
    {A : Type ℓ} {P : A → Type 0} (p : A → Bool) (l : List A)
    → ((x : A) → (p x ≡ true) ↔ P x)
    → (any p l ≡ true) ↔ Any P l
any_iff p [] h = (λ e. cc e, λ e. absurd e)
any_iff p (x ∷ l) h = or_iff (p x) (any p l) (h x) (any_iff p l h)

pub Any-map {ℓ} :
    {A : Type ℓ} {P Q : A → Type 0} (l : List A) → ((x : A) → P x → Q x) → Any P l → Any Q l
Any-map [] f h = h
Any-map (x ∷ l) f (inl h) = inl (f x h)
Any-map (x ∷ l) f (inr h) = inr (Any-map l f h)

module _ {ℓ} {A : Type ℓ} (P : A → Type 0) where
  pub Any-update_where :
      (test : A → Bool) (f : A → A) (l : List A)
      → ((x : A) → P x → P (f x))
      → Any P l
      → Any P (update_where test f l)
  Any-update_where test f [] g h = h
  Any-update_where test f (x ∷ l) g (inl h) = inl (if_both P (test x) (g x h) h)
  Any-update_where test f (x ∷ l) g (inr h) = inr (Any-update_where test f l g h)

  -- A row that a search returns is in the list, and passes the test.
  pub Any-find :
      (test : A → Bool) (l : List A) (x : A)
      → find test l ≡ some x
      → (test x ≡ true → P x)
      → Any P l
  Any-find test [] x e h = cc e
  Any-find test (y ∷ l) x e h = elim (Bool-cases (test y)) [
    | inl t ↦ inl (first (sym (ap (λ b. if b then some y else find test l) t) ∙ e) t)
    | inr t ↦ inr (Any-find test l x (sym (ap (λ b. if b then some y else find test l) t) ∙ e) h)
  ]
    where
      first : some y ≡ some x → test y ≡ true → P y
      first same t = subst P (cc same) (h (ap test (cc same) ∙ t))

pub All-select {ℓ κ} :
    {A : Type ℓ} (P : A → Type κ) (test : A → Bool) (l : List A) → All P l → All P (select test l)
All-select P test [] h = tt
All-select P test (x ∷ l) h =
    if_both (All P) (test x) (h.0, All-select P test l h.1) (All-select P test l h.1)

-- What a search returns passes its test.
pub find-test {ℓ} :
    {A : Type ℓ} (test : A → Bool) (l : List A) (x : A) → find test l ≡ some x → test x ≡ true
find-test test [] x e = cc e
find-test test (y ∷ l) x e = grind (arith, find-test test l x)
