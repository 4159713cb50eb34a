-- ===== src/Wms/Outbound/Reserve.antt =====
-- An allocation reserves stock that was free.
use multi_tenant.Base.{
  ℕ, ℤ, pos, pos_part, neg_part, ◌+ℤ◌, ◌≤ℤ◌, ltb_ℤ, Bool, true, false, String, ◌≡◌, refl, ap, sym,
  ◌∙◌, Option, none, some, List, arith, ◌≤◌, inl, inr, Bool-cases,
}
use multi_tenant.Base.Int.{int_laws}
use multi_tenant.Wms.Effects.{Keeps, Achieves}
use multi_tenant.Wms.Types.{StockKey, same_key, Balance, Order, Allocation, Db, Env, Context}
use multi_tenant.Wms.Effects.{ok}
use multi_tenant.Effects.Keeps.{Keeps-modify, keeps_rules}
use multi_tenant.Effects.Achieves.{
  Achieves-keeps, Achieves-done, Achieves-gets, Achieves-or_throw, Achieves-throw_if, Achieves-to,
  Achieves-ok,
}
use multi_tenant.Wms.Access.{Clients}
use multi_tenant.Wms.Access.Granted.{Achieves-authorize}
use multi_tenant.Wms.Inventory.{
  Movement, find_balance, quantity_of, allocated_of, write_movement, apply_inventory_movement,
  apply_allocation, double_limit,
}
use multi_tenant.Wms.Inventory.Balances.{find_balance-upsert_balance, same_key_refl}
use multi_tenant.Wms.Inventory.Audit.{move_balance_rule}
use multi_tenant.Wms.References.{stock_key}
use multi_tenant.Wms.Events.{record_event}
use multi_tenant.Wms.Service.Guards.{guard_rules}
use multi_tenant.Wms.Outbound.{
  AllocationInput, allocate_outbound, use_order, find_or_create_outbound_order,
}

abbrev pub IsSmall : ℤ → Type 0
IsSmall a = (pos_part a ≤ double_limit) × (neg_part a ≤ double_limit)

-- What doubles promise of the test `quantity - allocated < requested`, below the limit: it is
-- right whenever the two sides differ. On equal sides it may go either way.
pub record IsRounded (is_short : ℤ → ℤ → ℤ → Bool) : Type 0 where
  pub short_if_less :
      (q a r : ℤ)
      → IsSmall q
      → IsSmall a
      → IsSmall r
      → ltb_ℤ q (a +ℤ r) ≡ true
      → is_short q a r ≡ true
  pub fits_if_more :
      (q a r : ℤ)
      → IsSmall q
      → IsSmall a
      → IsSmall r
      → ltb_ℤ (a +ℤ r) q ≡ true
      → is_short q a r ≡ false

-- The balance of the key had room for the quantity, and now counts it as allocated. No other
-- balance has changed.
pub record IsReserved (before after : List Balance) (k : StockKey) (quantity : ℤ) : Type 0 where
  pub balance : Balance
  pub found : find_balance k before ≡ some balance
  pub room : balance.allocated_quantity +ℤ quantity ≤ℤ balance.quantity
  pub quantity_same : quantity_of (find_balance k after) ≡ balance.quantity
  pub allocated_more : allocated_of (find_balance k after) ≡ balance.allocated_quantity +ℤ quantity
  pub others : (j : StockKey) → same_key k j ≡ false → find_balance j after ≡ find_balance j before

module _ (is_short : ℤ → ℤ → ℤ → Bool) (rounded : IsRounded is_short) (before : List Balance)
    (k : StockKey) (quantity : ℤ) where
  reserve_room :
      (q a : ℤ)
      → IsSmall q
      → IsSmall a
      → IsSmall quantity
      → is_short q a quantity ≡ false
      → a +ℤ quantity ≤ℤ q
  reserve_room q a sq sa sr h = elim (Bool-cases (ltb_ℤ q (a +ℤ quantity))) [
    | inl less ↦ absurd (cc (rounded.short_if_less q a quantity sq sa sr less, h))
    | inr more ↦ ground arith
  ]

  module _
      (small : (b : Balance)
        → find_balance k before ≡ some b
        → IsSmall b.quantity × IsSmall b.allocated_quantity)
      (small_quantity : IsSmall quantity) where
    write-IsReserved :
        (id now : ℕ) (command : Movement) (db : Db) (b : Balance)
        → db.balances ≡ before
        → find_balance k db.balances ≡ some b
        → is_short b.quantity b.allocated_quantity quantity ≡ false
        → command.quantity_change ≡ pos 0
        → command.allocated_quantity_change ≡ quantity
        → IsReserved before
            (write_movement id now k command
              (quantity_of (find_balance k db.balances) +ℤ command.quantity_change)
              (allocated_of (find_balance k db.balances) +ℤ command.allocated_quantity_change)
              db).balances
            k
            quantity
    unfolding write_movement
    write-IsReserved id now command db b e f h zq zr = record {
      balance = b;
      found = ap (find_balance k) (sym e) ∙ f;
      room =
          reserve_room b.quantity b.allocated_quantity (small b (ap (find_balance k) (sym e) ∙ f)).0
            (small b (ap (find_balance k) (sym e) ∙ f)).1 small_quantity h;
      quantity_same = rw (find_balance-upsert_balance, same_key_refl k, f, zq) (omega int_laws);
      allocated_more = rw (find_balance-upsert_balance, same_key_refl k, f, zr);
      others = λ j ne. rw (find_balance-upsert_balance, ne) (ap (find_balance j) e);
    }

    apply_allocation-Achieves :
        (id now : ℕ) (command : Movement)
        → Achieves
            (λ db. db.balances ≡ before)
            (λ db. IsReserved before db.balances k quantity)
            (apply_allocation is_short id now k quantity command)
    unfolding apply_allocation apply_inventory_movement
    apply_allocation-Achieves id now command = Achieves-gets _ _ λ found.
        Achieves-or_throw found _ _ λ b e. Achieves-throw_if _ _ _ λ h.
          Achieves-keeps _ _ (search guard_rules) λ _. record {
            at = λ db p.
                move_balance_rule _ id now k _ db
                  (λ _ _. write-IsReserved id now _ db b p.0 (p.1 ∙ e) h refl refl);
          }

-- What a call that returns has reserved, for the tenant of the headers.
pub record Reserves (context : Context) (input : AllocationInput) (before after : List Balance)
    : Type 0 where
  pub tenant : ℕ
  pub header : context.tenant_id ≡ some tenant
  pub reserved :
      IsReserved before after
        (stock_key tenant input.warehouse_id input.location_id input.item_id)
        input.quantity

module _ (P : List Balance → Type 0) where
  use_order-Keeps :
      (id t w : ℕ) (order_no : String) (o : Option Order)
      → Keeps (λ db. P db.balances) (use_order id t w order_no o)
  unfolding use_order
  use_order-Keeps id t w order_no none = search (keeps_rules, Keeps-modify)
  use_order-Keeps id t w order_no (some o) = search keeps_rules

  find_or_create_outbound_order-Keeps :
      (id t w : ℕ) (order_no : String)
      → Keeps (λ db. P db.balances) (find_or_create_outbound_order id t w order_no)
  unfolding find_or_create_outbound_order
  find_or_create_outbound_order-Keeps id t w order_no = search (keeps_rules, use_order-Keeps)

module _ (clients : Clients) (is_short : ℤ → ℤ → ℤ → Bool) (env : Env) (context : Context)
    (input : AllocationInput) (before : List Balance) where
  allocate_outbound-Achieves :
      IsRounded is_short
      → ((k : StockKey) (b : Balance)
          → find_balance k before ≡ some b
          → IsSmall b.quantity × IsSmall b.allocated_quantity)
      → IsSmall input.quantity
      → Achieves
          (λ db. db.balances ≡ before)
          (λ db. Reserves context input before db.balances)
          (allocate_outbound clients is_short env context input)
  unfolding allocate_outbound record_event
  allocate_outbound-Achieves rounded small small_quantity =
      Achieves-authorize clients context _ _ _ λ t ht.
        let k = stock_key t input.warehouse_id input.location_id input.item_id in
        Achieves-keeps _ _ (search guard_rules) λ _.
          Achieves-keeps _ _ (find_or_create_outbound_order-Keeps (λ bs. bs ≡ before) _ _ _ _)
            λ order. Achieves-keeps _ _ (Keeps-modify _ (λ db h. h)) λ _.
              Achieves-done _ _
                (Achieves-to (λ db r. record { tenant = t; header = ht; reserved = r })
                  (apply_allocation-Achieves is_short rounded before k input.quantity (small k)
                    small_quantity _ _ _))
                λ _. search (keeps_rules, Keeps-modify)

-- With the test in doubles right up to ties, and all quantities below the limit: an allocation
-- that returns had a balance of its key with room for the quantity beside what was already
-- allocated; it leaves that balance's quantity, adds the quantity to what is allocated, and
-- changes no other balance.
pub allocate_outbound-Reserves :
    (clients : Clients) (is_short : ℤ → ℤ → ℤ → Bool) (env : Env) (context : Context)
    (input : AllocationInput) (db db' : Db) (a : Allocation)
    → IsRounded is_short
    → ((k : StockKey) (b : Balance)
        → find_balance k db.balances ≡ some b
        → IsSmall b.quantity × IsSmall b.allocated_quantity)
    → IsSmall input.quantity
    → allocate_outbound clients is_short env context input db ≡ ok (a, db')
    → Reserves context input db.balances db'.balances
allocate_outbound-Reserves clients is_short env context input db db' a rounded small small_quantity
      e =
    Achieves-ok db db' a
      (allocate_outbound-Achieves clients is_short env context input db.balances rounded small
        small_quantity)
      refl e
