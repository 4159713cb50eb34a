-- ===== src/Wms/Calendar/Laws.antt =====
-- The instant of a snapshot is the end of its business date.
use multi_tenant.Base.{ℕ, ◌≤◌, ◌↔◌, arith}
use multi_tenant.Wms.Calendar.{business_date, snapshot_at}

-- An instant is no later than the `snapshotAt` of a date exactly when its date in Seoul is no
-- later than that date.
pub snapshot_at-le_iff : (now date : ℕ) → (now ≤ snapshot_at date) ↔ (business_date now ≤ date)
unfolding business_date snapshot_at
snapshot_at-le_iff now date = (λ h. omega arith, λ h. omega arith)
