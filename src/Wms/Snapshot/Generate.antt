-- ===== src/Wms/Snapshot/Generate.antt =====
-- The transaction of `generateInventorySnapshots` in apps/wms-service/src/wms/wms.service.ts.
use multi_tenant.Base.{ℕ, ◌==◌, Option, none, some, List, ◌∷◌, select, update_where, length}
use multi_tenant.Json.{Json, obj, end, field, uuid, uuid_or_null, str, num, date, instant}
use multi_tenant.Wms.Types.{Snapshot, SnapshotRun, Db, Env, Context}
use multi_tenant.Wms.Effects.{
  snapshot_rebuild_conflict, Tx, ◌>>=◌, ◌>>◌, pure, throw_if, gets, modify,
}
use multi_tenant.Wms.Access.{Clients, authorize}
use multi_tenant.Wms.References.{ensure_warehouse}
use multi_tenant.Wms.Events.{record_event, event}
use multi_tenant.Wms.Calendar.{snapshot_at}
use multi_tenant.Wms.Snapshot.{
  SnapshotInput, find_snapshot_source_rows, is_existing, take_sources, has_running, run_row,
  complete_run, mode_name,
}

abbrev pub generated_data : Env → SnapshotInput → ℕ → ℕ → ℕ → Json
generated_data env input generated unchanged sources = obj (
    field "runId" (uuid env.row_id) (
      field "snapshotDate" (date input.snapshot_date) (
        field "snapshotAt" (instant (snapshot_at input.snapshot_date)) (
          field "warehouseId" (uuid_or_null input.warehouse_id) (
            field "mode" (str (mode_name input.mode)) (
              field "generatedCount" (num generated) (
                field "unchangedCount" (num unchanged)
                  (field "sourceLedgerCount" (num sources) end))))))))

-- What the loop makes of the snapshots of a database.
abbrev pub rebuild_snapshots : Env → ℕ → SnapshotInput → Db → List Snapshot × ℕ × ℕ
rebuild_snapshots env tenant_id input db =
    take_sources env.snapshot_id env.row_id tenant_id input
      (select (is_existing tenant_id input.snapshot_date input.warehouse_id) db.snapshots) 0
      (find_snapshot_source_rows tenant_id input.snapshot_date input.warehouse_id db.ledger)
      (db.snapshots, 0, 0)

unfoldable pub check_warehouse : ℕ → Option ℕ → Tx Unit
check_warehouse tenant_id none = pure tt
check_warehouse tenant_id (some warehouse_id) = ensure_warehouse tenant_id warehouse_id

module _ (clients : Clients) (env : Env) (context : Context) where
  unfoldable pub generate_inventory_snapshots : SnapshotInput → Tx SnapshotRun
  generate_inventory_snapshots input = do
    tenant_id ← authorize clients context "wms.inventory.snapshot.generate" input.warehouse_id
    check_warehouse tenant_id input.warehouse_id
    running ← gets (has_running tenant_id input)
    throw_if running snapshot_rebuild_conflict
    let created = run_row env context tenant_id input
    modify (λ db. record db { runs = created ∷ db.runs })
    sources ←
        gets (λ db.
          find_snapshot_source_rows tenant_id input.snapshot_date input.warehouse_id db.ledger)
    outcome ← gets (rebuild_snapshots env tenant_id input)
    modify (λ db. record db { snapshots = outcome.0 })
    modify (λ db. record db {
      runs = update_where (λ r. r.id == env.row_id) (complete_run env outcome.1 outcome.2) db.runs;
    })
    record_event env (
        event tenant_id context "wms.inventory.snapshot.generated" "inventory_snapshot_run"
          env.row_id (generated_data env input outcome.1 outcome.2 (length sources)))
    pure (complete_run env outcome.1 outcome.2 created)
