-- ===== src/Wms/Inventory/Running.antt =====
-- The columns `balanceQuantityAfter` and `balanceAllocatedQuantityAfter` of the ledger are running
-- totals, and the ledger is only ever extended.
use multi_tenant.Base.{ℕ, pos, ◌+ℤ◌, ltb_ℤ, false, ◌≡◌, refl, ap, ◌∙◌, List, [], ◌∷◌, ◌++◌}
use multi_tenant.Base.Int.{+ℤ_comm}
use multi_tenant.Wms.Effects.{Keeps}
use multi_tenant.Wms.Types.{StockKey, Balance, LedgerRow, Db}
use multi_tenant.Wms.Inventory.{Movement, move_balance, write_movement, ledger_row}
use multi_tenant.Wms.Inventory.Balances.{same_key_refl}
use multi_tenant.Wms.Inventory.Audit.{
  sum_quantity, sum_allocated, AreSound, write_movement-IsAudited, next_quantity, next_allocated,
  move_balance_rule,
}

-- Newest row first: each row's totals are the sums over itself and the older rows of its key.
abbrev pub IsRunning : List LedgerRow → Type 0
IsRunning [] = Unit
IsRunning (r ∷ rs) =
    (r.balance_quantity_after ≡ sum_quantity r.key (r ∷ rs))
    × (r.balance_allocated_quantity_after ≡ sum_allocated r.key (r ∷ rs))
    × IsRunning rs

abbrev pub IsAccounted : List LedgerRow → List Balance → List LedgerRow → Type 0
IsAccounted past balances ledger = record {
  sound : AreSound balances ledger;
  running : IsRunning ledger;
  recent : List LedgerRow;
  extends : ledger ≡ recent ++ past;
}

module _ (past : List LedgerRow) (id now : ℕ) (k : StockKey) (command : Movement) (db : Db) where
  write_movement-IsAccounted :
      IsAccounted past db.balances db.ledger
      → ltb_ℤ (next_quantity k command db) (pos 0) ≡ false
      → ltb_ℤ (next_allocated k command db) (pos 0) ≡ false
      → (let db' =
            write_movement id now k command
              (next_quantity k command db)
              (next_allocated k command db)
              db in
          IsAccounted past db'.balances db'.ledger)
  unfolding write_movement sum_quantity sum_allocated
  write_movement-IsAccounted h enough held = record {
    sound = write_movement-IsAudited id now k command _ _ db h.sound refl refl enough held;
    running = (
      rw (same_key_refl k)
          (ap (λ x. x +ℤ command.quantity_change) (h.sound.at_key k).quantity_audit ∙ +ℤ_comm _ _),
      rw (same_key_refl k) (
          ap (λ x. x +ℤ command.allocated_quantity_change) (h.sound.at_key k).allocated_audit
          ∙ +ℤ_comm _ _),
      h.running,
    );
    recent =
        ledger_row id now k command (next_quantity k command db) (next_allocated k command db)
        ∷ h.recent;
    extends =
        ap
          (λ l.
            ledger_row id now k command (next_quantity k command db) (next_allocated k command db)
            ∷ l)
          h.extends;
  }

pub move_balance-IsAccounted :
    (past : List LedgerRow) (id now : ℕ) (k : StockKey) (command : Movement)
    → Keeps (λ db. IsAccounted past db.balances db.ledger) (move_balance id now k command)
move_balance-IsAccounted past id now k command = record {
  at = λ db h.
      move_balance_rule (λ db. IsAccounted past db.balances db.ledger) id now k command db
        (write_movement-IsAccounted past id now k command db h);
}
