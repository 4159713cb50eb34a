-- ===== src/Wms/Calendar.antt =====
-- Business dates: `businessDateFromDate`, `readRequiredBusinessDate` and `parseBusinessDate` of
-- apps/wms-service/src/wms/wms.service.ts, on instants in milliseconds and dates in days.
pub mod Laws
use multi_tenant.Base.{ℕ, ◌+◌, ◌*◌, ◌/◌}

abbrev pub day_ms : ℕ
day_ms = 86400000

abbrev pub seoul_utc_offset_ms : ℕ
seoul_utc_offset_ms = 32400000

-- The date in Seoul of an instant.
unfoldable pub business_date : ℕ → ℕ
business_date now = (now + seoul_utc_offset_ms) / day_ms

-- `${text}T14:59:59.999Z` of a date.
unfoldable pub snapshot_at : ℕ → ℕ
snapshot_at date = date * day_ms + 53999999
