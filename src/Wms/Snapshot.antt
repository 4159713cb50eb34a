-- ===== src/Wms/Snapshot.antt =====
-- Daily snapshots: `generateInventorySnapshots` and `findSnapshotSourceRows` of
-- apps/wms-service/src/wms/wms.service.ts.
pub mod Generate
pub mod Sources
use multi_tenant.Base.{
  ℕ, zero, suc, ◌+◌, ℤ, ◌-ℤ◌, eq_ℤ, String, Bool, true, false, not, ◌&&◌, ◌||◌, Option, none, some,
  List, [], ◌∷◌, ◌==◌, ltb, leb, find, any, select, update_where, fits, get_or, length, is_some,
  if◌then◌else◌,
}
use multi_tenant.Json.{Json, obj, end, field, uuid, uuid_or_null, str, num, date, instant}
use multi_tenant.Wms.Types.{
  StockKey, same_key, LedgerRow, Snapshot, SnapshotRun, RunMode, RunStatus, Db, Env, Context,
}
use multi_tenant.Wms.Effects.{
  snapshot_rebuild_conflict, Result, ok, err, Tx, ◌>>=◌, ◌>>◌, pure, throw_if, gets, modify,
}
use multi_tenant.Wms.Access.{Clients, authorize}
use multi_tenant.Wms.References.{ensure_warehouse}
use multi_tenant.Wms.Events.{record_event, event}
use multi_tenant.Wms.Calendar.{snapshot_at}

-- `ORDER BY effective_date DESC, occurred_at DESC, id DESC`: `a` comes before `b`.
abbrev pub comes_before : LedgerRow → LedgerRow → Bool
comes_before a b =
    ltb b.effective_date a.effective_date
    || (b.effective_date == a.effective_date
        && (ltb b.occurred_at a.occurred_at || (b.occurred_at == a.occurred_at && ltb b.id a.id)))

-- `DISTINCT ON` the key: of the rows of one key, the one that comes first in that order.
unfoldable pub keep_first : LedgerRow → List LedgerRow → List LedgerRow
keep_first r [] = r ∷ []
keep_first r (s ∷ rows) =
    if same_key s.key r.key
    then (if comes_before r s then r ∷ rows else s ∷ rows)
    else s ∷ keep_first r rows

unfoldable pub distinct_on_key : List LedgerRow → List LedgerRow
distinct_on_key [] = []
distinct_on_key (r ∷ rows) = keep_first r (distinct_on_key rows)

-- The condition of the query.
abbrev pub is_source : ℕ → ℕ → Option ℕ → LedgerRow → Bool
is_source tenant_id snapshot_date warehouse_id r =
    r.tenant_id == tenant_id
    && (leb r.effective_date snapshot_date && fits warehouse_id r.warehouse_id)

unfoldable pub find_snapshot_source_rows : ℕ → ℕ → Option ℕ → List LedgerRow → List LedgerRow
find_snapshot_source_rows tenant_id snapshot_date warehouse_id ledger =
    distinct_on_key (select (is_source tenant_id snapshot_date warehouse_id) ledger)

abbrev pub is_existing : ℕ → ℕ → Option ℕ → Snapshot → Bool
is_existing tenant_id snapshot_date warehouse_id s =
    s.tenant_id == tenant_id
    && (s.snapshot_date == snapshot_date && (s.is_current && fits warehouse_id s.warehouse_id))

-- `snapshotKey(a) === snapshotKey(b)`
abbrev pub same_snapshot_key : StockKey → StockKey → Bool
same_snapshot_key j k =
    j.warehouse_id == k.warehouse_id && (j.location_id == k.location_id && j.item_id == k.item_id)

-- `existingByKey.get`: of equal keys a `Map` keeps the last entry.
unfoldable pub existing_by_key : StockKey → List Snapshot → Option Snapshot
existing_by_key k [] = none
existing_by_key k (s ∷ rest) =
    let later = existing_by_key k rest in
    if is_some later then later else if same_snapshot_key s.key k then some s else none

abbrev pub is_same_source : Option ℕ → ℕ → Bool
is_same_source none id = false
is_same_source (some i) id = i == id

abbrev pub is_unchanged : LedgerRow → Snapshot → Bool
is_unchanged source s =
    eq_ℤ s.quantity source.balance_quantity_after
    && (eq_ℤ s.allocated_quantity source.balance_allocated_quantity_after
        && is_same_source s.source_ledger_id source.id)

pub record SnapshotInput : Type 0 where
  pub snapshot_date : ℕ
  pub mode : RunMode
  pub warehouse_id : Option ℕ

abbrev pub snapshot_row : ℕ → ℕ → ℕ → SnapshotInput → LedgerRow → Option ℕ → Snapshot
snapshot_row id run_id tenant_id input source previous = record {
  id = id;
  key = record (source.key) { tenant_id = tenant_id };
  snapshot_date = input.snapshot_date;
  snapshot_at = snapshot_at input.snapshot_date;
  quantity = source.balance_quantity_after;
  allocated_quantity = source.balance_allocated_quantity_after;
  available_quantity = source.balance_quantity_after -ℤ source.balance_allocated_quantity_after;
  source_ledger_id = some source.id;
  run_id = run_id;
  previous_snapshot_id = previous;
  is_current = true;
}

abbrev pub retire : ℕ → List Snapshot → List Snapshot
retire id = update_where (λ s. s.id == id) (λ s. record s { is_current = false })

-- One round of the loop, on what the map holds for the row: the snapshots, and the two counts.
unfoldable pub take_source :
    ℕ
    → ℕ
    → ℕ
    → SnapshotInput
    → LedgerRow
    → Option Snapshot
    → List Snapshot × ℕ × ℕ
    → List Snapshot × ℕ × ℕ
take_source id run_id tenant_id input source none (table, generated, unchanged) =
    (snapshot_row id run_id tenant_id input source none ∷ table, generated + 1, unchanged)
take_source id run_id tenant_id input source (some s) (table, generated, unchanged) =
    if is_unchanged source s then (table, generated, unchanged + 1) else (
      snapshot_row id run_id tenant_id input source (some s.id) ∷ retire s.id table,
      generated + 1,
      unchanged,
    )

-- The loop. `n` numbers the rounds.
unfoldable pub take_sources :
    (ℕ → ℕ)
    → ℕ
    → ℕ
    → SnapshotInput
    → List Snapshot
    → ℕ
    → List LedgerRow
    → List Snapshot × ℕ × ℕ
    → List Snapshot × ℕ × ℕ
take_sources ids run_id tenant_id input existing n [] acc = acc
take_sources ids run_id tenant_id input existing n (source ∷ rest) acc =
    take_sources ids run_id tenant_id input existing (suc n) rest
      (take_source (ids n) run_id tenant_id input source (existing_by_key source.key existing) acc)

abbrev pub is_running : RunStatus → Bool
is_running RunStatus.running = true
is_running RunStatus.completed = false
is_running RunStatus.failed = false

-- The same warehouse, or none on both sides (`warehouseId: input.warehouseId ?? null`).
abbrev pub same_scope : Option ℕ → Option ℕ → Bool
same_scope none none = true
same_scope none (some j) = false
same_scope (some i) none = false
same_scope (some i) (some j) = i == j

abbrev pub has_running : ℕ → SnapshotInput → Db → Bool
has_running tenant_id input db =
    any
      (λ r.
        r.tenant_id == tenant_id
        && (r.snapshot_date == input.snapshot_date
            && (same_scope r.warehouse_id input.warehouse_id && is_running r.status)))
      db.runs

abbrev pub run_row : Env → Context → ℕ → SnapshotInput → SnapshotRun
run_row env context tenant_id input = record {
  id = env.row_id;
  tenant_id = tenant_id;
  snapshot_date = input.snapshot_date;
  snapshot_at = snapshot_at input.snapshot_date;
  warehouse_id = input.warehouse_id;
  mode = input.mode;
  status = RunStatus.running;
  generated_count = 0;
  unchanged_count = 0;
  created_by = context.user_id;
  request_id = get_or context.request_id "unknown";
  finished_at = none;
}

abbrev pub complete_run : Env → ℕ → ℕ → SnapshotRun → SnapshotRun
complete_run env generated unchanged r = record r {
  status = RunStatus.completed;
  generated_count = generated;
  unchanged_count = unchanged;
  finished_at = some env.now;
}

abbrev pub mode_name : RunMode → String
mode_name RunMode.generate = "generate"
mode_name RunMode.rebuild = "rebuild"
