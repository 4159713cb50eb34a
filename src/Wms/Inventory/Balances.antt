-- ===== src/Wms/Inventory/Balances.antt =====
-- Laws of the balance table: reading a key after an upsert.
use multi_tenant.Base.{ℤ, true, ◌≡◌, refl, some, List, [], ◌∷◌, arith, if◌then◌else◌}
use multi_tenant.Wms.Types.{StockKey, same_key, Balance}
use multi_tenant.Wms.Inventory.{find_balance, upsert_balance}

pub same_key_refl : (k : StockKey) → same_key k k ≡ true
same_key_refl k = ground arith

pub same_key→eq : (j k : StockKey) → same_key j k ≡ true → j ≡ k
same_key→eq j k h = ground arith

pub eq→same_key : (j k : StockKey) → j ≡ k → same_key j k ≡ true
eq→same_key j k h = ground arith

-- The upsert is read back under its key, and no other key is touched.
pub find_balance-upsert_balance :
    (j k : StockKey) (q a : ℤ) (bs : List Balance)
    → find_balance j (upsert_balance k q a bs) ≡ (
        if same_key k j
        then some (record { key = k; quantity = q; allocated_quantity = a })
        else find_balance j bs)
unfolding upsert_balance
find_balance-upsert_balance j k q a [] = refl
find_balance-upsert_balance j k q a (b ∷ bs) = ground (
  arith,
  find_balance-upsert_balance j k q a bs,
  same_key→eq b.key k,
  same_key→eq b.key j,
  same_key→eq k j,
  eq→same_key k j,
  eq→same_key b.key j,
)
