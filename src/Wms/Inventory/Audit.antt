-- ===== src/Wms/Inventory/Audit.antt =====
-- The ledger accounts for the balances: what a key holds is the sum of its ledger rows.
use multi_tenant.Base.{
  ℕ, ℤ, pos, ◌+ℤ◌, ◌≤ℤ◌, ltb_ℤ, false, ◌≡◌, refl, subst, ap, ◌∙◌, List, [], ◌∷◌, arith, Bool-cases,
  if◌then◌else◌, inl, inr,
}
use multi_tenant.Base.Int.{+ℤ_comm}
use multi_tenant.Wms.Effects.{Keeps}
use multi_tenant.Wms.Types.{StockKey, same_key, Balance, LedgerRow, Db}
use multi_tenant.Effects.Keeps.{Ensures}
use multi_tenant.Wms.Inventory.{
  Movement, find_balance, quantity_of, allocated_of, move_balance, write_movement,
}
use multi_tenant.Wms.Inventory.Balances.{find_balance-upsert_balance, same_key→eq, same_key_refl}

unfoldable pub sum_quantity : StockKey → List LedgerRow → ℤ
sum_quantity k [] = pos 0
sum_quantity k (r ∷ rs) =
    if same_key r.key k then r.quantity_change +ℤ sum_quantity k rs else sum_quantity k rs

unfoldable pub sum_allocated : StockKey → List LedgerRow → ℤ
sum_allocated k [] = pos 0
sum_allocated k (r ∷ rs) =
    if same_key r.key k
    then r.allocated_quantity_change +ℤ sum_allocated k rs
    else sum_allocated k rs

-- What holds of the stock of one key.
pub record IsSound (balances : List Balance) (ledger : List LedgerRow) (k : StockKey) : Type 0 where
  pub quantity_audit : quantity_of (find_balance k balances) ≡ sum_quantity k ledger
  pub allocated_audit : allocated_of (find_balance k balances) ≡ sum_allocated k ledger
  pub quantity_nonneg : pos 0 ≤ℤ quantity_of (find_balance k balances)
  pub allocated_nonneg : pos 0 ≤ℤ allocated_of (find_balance k balances)

pub record AreSound (balances : List Balance) (ledger : List LedgerRow) : Type 0 where
  pub at_key : (k : StockKey) → IsSound balances ledger k

-- For every key the balance is the sum of the ledger, and is not negative.
abbrev pub IsAudited : Db → Type 0
IsAudited db = AreSound db.balances db.ledger

module _ (id now : ℕ) (j : StockKey) (command : Movement) (q a : ℤ) (db : Db) where
  write_movement-IsSound_self :
      IsSound db.balances db.ledger j
      → q ≡ quantity_of (find_balance j db.balances) +ℤ command.quantity_change
      → a ≡ allocated_of (find_balance j db.balances) +ℤ command.allocated_quantity_change
      → ltb_ℤ q (pos 0) ≡ false
      → ltb_ℤ a (pos 0) ≡ false
      → (let db' = write_movement id now j command q a db in IsSound db'.balances db'.ledger j)
  unfolding write_movement sum_quantity sum_allocated
  write_movement-IsSound_self h eq ea hq ha = record {
    quantity_audit =
        rw (find_balance-upsert_balance, same_key_refl j)
          (eq ∙ ap (λ x. x +ℤ command.quantity_change) h.quantity_audit ∙ +ℤ_comm _ _);
    allocated_audit =
        rw (find_balance-upsert_balance, same_key_refl j)
          (ea ∙ ap (λ x. x +ℤ command.allocated_quantity_change) h.allocated_audit ∙ +ℤ_comm _ _);
    quantity_nonneg = rw (find_balance-upsert_balance, same_key_refl j) (ground arith);
    allocated_nonneg = rw (find_balance-upsert_balance, same_key_refl j) (ground arith);
  }

  write_movement-IsSound_other :
      (k : StockKey)
      → IsSound db.balances db.ledger k
      → same_key j k ≡ false
      → (let db' = write_movement id now j command q a db in IsSound db'.balances db'.ledger k)
  unfolding write_movement sum_quantity sum_allocated
  write_movement-IsSound_other k h e = record {
    quantity_audit = rw (find_balance-upsert_balance, e) h.quantity_audit;
    allocated_audit = rw (find_balance-upsert_balance, e) h.allocated_audit;
    quantity_nonneg = rw (find_balance-upsert_balance, e) h.quantity_nonneg;
    allocated_nonneg = rw (find_balance-upsert_balance, e) h.allocated_nonneg;
  }

  pub write_movement-IsAudited :
      IsAudited db
      → q ≡ quantity_of (find_balance j db.balances) +ℤ command.quantity_change
      → a ≡ allocated_of (find_balance j db.balances) +ℤ command.allocated_quantity_change
      → ltb_ℤ q (pos 0) ≡ false
      → ltb_ℤ a (pos 0) ≡ false
      → IsAudited (write_movement id now j command q a db)
  write_movement-IsAudited h eq ea hq ha = record {
    at_key = λ k. elim (Bool-cases (same_key j k)) [
      | inl e ↦
          subst
            (λ x.
              let db' = write_movement id now j command q a db in IsSound db'.balances db'.ledger x)
            (same_key→eq j k e) (write_movement-IsSound_self (h.at_key j) eq ea hq ha)
      | inr e ↦ write_movement-IsSound_other k (h.at_key k) e
    ];
  }

abbrev pub next_quantity : StockKey → Movement → Db → ℤ
next_quantity k command db = quantity_of (find_balance k db.balances) +ℤ command.quantity_change

abbrev pub next_allocated : StockKey → Movement → Db → ℤ
next_allocated k command db =
    allocated_of (find_balance k db.balances) +ℤ command.allocated_quantity_change

-- What a movement does when it returns: it has written the two next quantities, none negative.
pub move_balance_rule :
    (Q : Db → Type 0) (id now : ℕ) (k : StockKey) (command : Movement) (db : Db)
    → (ltb_ℤ (next_quantity k command db) (pos 0) ≡ false
        → ltb_ℤ (next_allocated k command db) (pos 0) ≡ false
        → Q (
            write_movement id now k command
              (next_quantity k command db)
              (next_allocated k command db)
              db))
    → Ensures (λ _ db'. Q db') (move_balance id now k command db)
unfolding move_balance
move_balance_rule Q id now k command db h =
    elim (Bool-cases (ltb_ℤ (next_quantity k command db) (pos 0))) [
      | inl short ↦ rw short tt
      | inr enough ↦ elim (Bool-cases (ltb_ℤ (next_allocated k command db) (pos 0))) [
        | inl short ↦ rw (enough, short) tt
        | inr held ↦ rw (enough, held) (h enough held)
      ]
    ]

pub move_balance-IsAudited :
    (id now : ℕ) (k : StockKey) (command : Movement)
    → Keeps IsAudited (move_balance id now k command)
move_balance-IsAudited id now k command = record {
  at = λ db h.
      move_balance_rule IsAudited id now k command db
        (write_movement-IsAudited id now k command _ _ db h refl refl);
}
