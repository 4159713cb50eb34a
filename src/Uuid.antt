-- ===== src/Uuid.antt =====
-- The texts of identifiers. The services check the form of an identifier in a header, a path or a
-- body and keep the text as it came; a `uuid` column reads either case and gives back lower case.
use multi_tenant.Base.{ℕ, Bool, true, ◌&&◌, ◌==◌}

-- A text of the form of a UUID: the number that it denotes, and whether it is spelled in lower
-- case, as the database spells it.
pub record UuidText : Type 0 where
  pub value : ℕ
  pub is_lower : Bool

-- The text that the database gives for a column.
abbrev pub of_column : ℕ → UuidText
of_column n = record { value = n; is_lower = true }

-- `===` between a text and what the database gives for a column.
abbrev pub is_column : UuidText → ℕ → Bool
is_column t n = t.is_lower && t.value == n
