-- ===== src/Wms/Service/History.antt =====
-- The ledger is a history: calls add to it and change nothing in it.
use multi_tenant.Base.{List, ◌≡◌, refl, ◌++◌, []}
use multi_tenant.Wms.Types.{LedgerRow, Db}
use multi_tenant.Wms.Inventory.Audit.{IsAudited}
use multi_tenant.Wms.Inventory.Running.{IsRunning, IsAccounted, move_balance-IsAccounted}
use multi_tenant.Wms.Service.{Call, serve}
use multi_tenant.Wms.Service.Writes.{serve_induction}
use multi_tenant.Wms.Service.Audit.{All-Unit, Writes-stock}

-- From a database whose balances agree with its ledger and whose ledger carries running totals,
-- any history of calls only puts new rows before the old ones, and every row of the new ledger
-- again carries the sums over itself and the older rows of its key.
pub serve-ledger_extends :
    (calls : List Call) (db : Db)
    → IsAudited db
    → IsRunning db.ledger
    → (recent : List LedgerRow) × ((serve calls db).ledger ≡ recent ++ db.ledger)
      × IsRunning (serve calls db).ledger
serve-ledger_extends calls db sound running =
    let h : IsAccounted db.ledger (serve calls db).balances (serve calls db).ledger =
      serve_induction {P = λ d. IsAccounted db.ledger d.balances d.ledger}
        (λ c _.
          Writes-stock (IsAccounted db.ledger) (move_balance-IsAccounted db.ledger) c.env c.context)
        calls db (All-Unit calls)
        (record { sound = sound; running = running; recent = []; extends = refl }) in
    (h.recent, h.extends, h.running)
