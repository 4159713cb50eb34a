-- ===== src/Json.antt =====
-- JSON values, as the event payloads hold them. The texts that the services make from an
-- identifier, a quantity (with `toFixed(3)` or `toString()`), an instant or a business date have a
-- constructor each: `uuid_text` for an identifier as it came with a request, `uuid` for one that the
-- database gave, or whose spelling nothing reads.
use multi_tenant.Base.{ℕ, ℤ, String, Bool, Option, none, some, if◌then◌else◌, str_eq}
use multi_tenant.Base.{List, [], ◌∷◌}
use multi_tenant.Uuid.{UuidText}

mutual
  pub data Json : Type 0 where
    null : Json
    bool : Bool → Json
    num : ℕ → Json
    str : String → Json
    uuid : ℕ → Json
    uuid_text : UuidText → Json
    fixed : ℤ → Json
    decimal : ℤ → Json
    instant : ℕ → Json
    date : ℕ → Json
    arr : Items → Json
    obj : Fields → Json

  pub data Items : Type 0 where
    nil : Items
    cons : Json → Items → Items

  pub data Fields : Type 0 where
    end : Fields
    field : String → Json → Fields → Fields

-- `value[name]`; `none` stands for `undefined`.
abbrev pub get_field : String → Fields → Option Json
get_field k end = none
get_field k (field j v fs) = if str_eq j k then some v else get_field k fs

-- `id ?? null`
abbrev pub uuid_or_null : Option ℕ → Json
uuid_or_null none = null
uuid_or_null (some i) = uuid i

-- `text ?? null`
abbrev pub str_or_null : Option String → Json
str_or_null none = null
str_or_null (some s) = str s

abbrev pub uuids : List ℕ → Items
uuids [] = nil
uuids (i ∷ is) = cons (uuid i) (uuids is)
