-- ===== src/Wms/Snapshot/Sources.antt =====
-- `findSnapshotSourceRows` picks, for each key, the row whose running total is the stock of the
-- date, provided that the ledger was written in the order of its effective dates.
use multi_tenant.Base.{
  ℕ, ℤ, pos, ◌+ℤ◌, ◌≤◌, ◌<◌, leb, Bool, true, false, ◌&&◌, ◌≡◌, refl, sym, ap, ◌∙◌, Option, none,
  some, List, [], ◌∷◌, find, select, fits, All, All-map, leb→le, arith, if◌then◌else◌, if_both,
  Bool-cases, inl, inr,
}
use multi_tenant.Base.Int.{int_laws}
use multi_tenant.Wms.Types.{StockKey, same_key, LedgerRow}
use multi_tenant.Wms.Inventory.Balances.{same_key→eq, eq→same_key}
use multi_tenant.Wms.Inventory.Audit.{sum_quantity}
use multi_tenant.Wms.Inventory.Running.{IsRunning}
use multi_tenant.Wms.Snapshot.{
  comes_before, keep_first, distinct_on_key, is_source, find_snapshot_source_rows,
}

-- The stock of a key on a date: the changes that take effect by then.
unfoldable pub sum_until : StockKey → ℕ → List LedgerRow → ℤ
sum_until k date [] = pos 0
sum_until k date (r ∷ rs) =
    if same_key r.key k && leb r.effective_date date
    then r.quantity_change +ℤ sum_until k date rs
    else sum_until k date rs

-- Newest row first: every row comes before the older rows of its key.
abbrev pub IsInOrder : List LedgerRow → Type 0
IsInOrder [] = Unit
IsInOrder (r ∷ rs) =
    All (λ s. same_key s.key r.key ≡ true → comes_before r s ≡ true) rs × IsInOrder rs

abbrev pub row_of : StockKey → List LedgerRow → Option LedgerRow
row_of k = find (λ r. same_key r.key k)

abbrev pub quantity_after : Option LedgerRow → ℤ
quantity_after none = pos 0
quantity_after (some r) = r.balance_quantity_after

All-select :
    (Q : LedgerRow → Type 0) (p : LedgerRow → Bool) (l : List LedgerRow)
    → All Q l
    → All Q (select p l)
All-select Q p [] h = tt
All-select Q p (x ∷ l) h = if_both (All Q) (p x) (h.0, All-select Q p l h.1) (All-select Q p l h.1)

All-keep_first :
    (Q : LedgerRow → Type 0) (r : LedgerRow) (l : List LedgerRow)
    → Q r
    → All Q l
    → All Q (keep_first r l)
unfolding keep_first
All-keep_first Q r [] q h = (q, tt)
All-keep_first Q r (s ∷ l) q h =
    if_both (All Q) (same_key s.key r.key) (if_both (All Q) (comes_before r s) (q, h.1) h)
      (h.0, All-keep_first Q r l q h.1)

All-distinct_on_key :
    (Q : LedgerRow → Type 0) (l : List LedgerRow) → All Q l → All Q (distinct_on_key l)
unfolding distinct_on_key
All-distinct_on_key Q [] h = tt
All-distinct_on_key Q (r ∷ l) h =
    All-keep_first Q r (distinct_on_key l) h.0 (All-distinct_on_key Q l h.1)

same_key_right : (i j k : StockKey) → same_key j k ≡ true → same_key i j ≡ same_key i k
same_key_right i j k h = ap (same_key i) (same_key→eq j k h)

same_key_left : (i j k : StockKey) → same_key i j ≡ true → same_key i k ≡ same_key j k
same_key_left i j k h = ap (λ x. same_key x k) (same_key→eq i j h)

-- A row of the same key that comes first replaces what was kept.
row_of-keep_first_self :
    (k : StockKey) (r : LedgerRow) (l : List LedgerRow)
    → same_key r.key k ≡ true
    → All (λ s. same_key s.key r.key ≡ true → comes_before r s ≡ true) l
    → row_of k (keep_first r l) ≡ some r
unfolding keep_first
row_of-keep_first_self k r [] e h = rw e
row_of-keep_first_self k r (s ∷ l) e h = elim (Bool-cases (same_key s.key r.key)) [
  | inl same ↦ rw (same, h.0 same, e)
  | inr other ↦
      rw (other, sym (same_key_right s.key r.key k e) ∙ other) (row_of-keep_first_self k r l e h.1)
]

row_of-keep_first_ne :
    (k : StockKey) (r : LedgerRow) (l : List LedgerRow)
    → same_key r.key k ≡ false
    → row_of k (keep_first r l) ≡ row_of k l
unfolding keep_first
row_of-keep_first_ne k r [] e = rw e
row_of-keep_first_ne k r (s ∷ l) e = elim (Bool-cases (same_key s.key r.key)) [
  | inl same ↦
      rw (same, same_key_left s.key r.key k same ∙ e)
        (if_both (λ x. row_of k x ≡ row_of k l) (comes_before r s) (rw e)
          (rw (same_key_left s.key r.key k same ∙ e)))
  | inr other ↦
      rw other (ap (λ o. if same_key s.key k then some s else o) (row_of-keep_first_ne k r l e))
]

-- A key whose rows all take effect by the date: nothing is left out of the sum.
sum_until-eq-sum_quantity :
    (k : StockKey) (date : ℕ) (l : List LedgerRow)
    → All (λ s. same_key s.key k ≡ true → s.effective_date ≤ date) l
    → sum_until k date l ≡ sum_quantity k l
unfolding sum_until sum_quantity
sum_until-eq-sum_quantity k date [] h = refl
sum_until-eq-sum_quantity k date (s ∷ l) h =
    ground (arith, h.0, sum_until-eq-sum_quantity k date l h.1)

comes_before→le : (r s : LedgerRow) → comes_before r s ≡ true → s.effective_date ≤ r.effective_date
comes_before→le r s h = ground arith

module _ (tenant_id date : ℕ) (w : Option ℕ) (k : StockKey) (mine : k.tenant_id ≡ tenant_id)
    (inside : fits w k.warehouse_id ≡ true) where
  -- Of a row of the key the query asks only the date.
  is_source-of_key :
      (r : LedgerRow)
      → same_key r.key k ≡ true
      → is_source tenant_id date w r ≡ leb r.effective_date date
  is_source-of_key r e = ground (arith, same_key→eq r.key k e, mine, inside)

  -- The older rows of the key take effect by the date, if the row does.
  older_by_date :
      (r : LedgerRow) (rs : List LedgerRow)
      → same_key r.key k ≡ true
      → leb r.effective_date date ≡ true
      → All (λ s. same_key s.key r.key ≡ true → comes_before r s ≡ true) rs
      → All (λ s. same_key s.key k ≡ true → s.effective_date ≤ date) rs
  older_by_date r rs same now h =
      All-map rs
        (λ s c e. omega (
          arith,
          comes_before→le r s (c (same_key_right s.key r.key k same ∙ e)),
          leb→le r.effective_date date now,
        ))
        h

  total_of_row :
      (r : LedgerRow) (rs : List LedgerRow)
      → same_key r.key k ≡ true
      → leb r.effective_date date ≡ true
      → IsRunning (r ∷ rs)
      → IsInOrder (r ∷ rs)
      → r.balance_quantity_after ≡ r.quantity_change +ℤ sum_until k date rs
  total_of_row r rs same now run ord =
      run.0
      ∙ ap (λ x. sum_quantity x (r ∷ rs)) (same_key→eq r.key k same)
      ∙ (unfold sum_quantity in
          rw same (
            ap (λ x. r.quantity_change +ℤ x)
              (sym (sum_until-eq-sum_quantity k date rs (older_by_date r rs same now ord.0)))))

  -- For a key of the tenant in the query's warehouse: if the ledger carries running totals and each
  -- row comes strictly before the older rows of its key in the query's order of date, time and id, then the row that the query
  -- returns for the key has as its total the sum of the changes that take effect by the date; and
  -- that sum is zero if the query returns none.
  pub find_snapshot_source_rows-eq-sum_until :
      (ledger : List LedgerRow)
      → IsRunning ledger
      → IsInOrder ledger
      → quantity_after (row_of k (find_snapshot_source_rows tenant_id date w ledger))
        ≡ sum_until k date ledger
  unfolding find_snapshot_source_rows distinct_on_key sum_until
  find_snapshot_source_rows-eq-sum_until [] run ord = refl
  find_snapshot_source_rows-eq-sum_until (r ∷ rs) run ord = elim (Bool-cases (same_key r.key k)) [
    | inr other ↦ rw other (
        if_both (λ l. quantity_after (row_of k (distinct_on_key l)) ≡ sum_until k date rs)
          (is_source tenant_id date w r)
          (rw (row_of-keep_first_ne k r _ other)
            (find_snapshot_source_rows-eq-sum_until rs run.2 ord.1))
          (find_snapshot_source_rows-eq-sum_until rs run.2 ord.1))
    | inl same ↦ elim (Bool-cases (leb r.effective_date date)) [
      | inl now ↦
          rw
            (
              is_source-of_key r same,
              same,
              now,
              row_of-keep_first_self k r (distinct_on_key (select (is_source tenant_id date w) rs))
                  same
                  (All-distinct_on_key _ _ (All-select _ (is_source tenant_id date w) rs ord.0)),
            )
            (total_of_row r rs same now run ord)
      | inr later ↦
          rw (is_source-of_key r same, same, later)
            (find_snapshot_source_rows-eq-sum_until rs run.2 ord.1)
    ]
  ]

-- A backdated row breaks this. The total of a row is the stock when it was written, so the row
-- that a correction of an earlier date adds counts the rows of later dates too.
module _ (k : StockKey) (date : ℕ) (w : Option ℕ) (inside : fits w k.warehouse_id ≡ true) where
  -- In a ledger of exactly two rows of the key, if the older one takes effect after the date and the
  -- newer one by the date, then the query returns the newer row with a total that exceeds the stock of
  -- the date by the older row's change.
  pub backdated_source :
      (correction later : LedgerRow)
      → correction.key ≡ k
      → later.key ≡ k
      → correction.effective_date ≤ date
      → date < later.effective_date
      → IsRunning (correction ∷ later ∷ [])
      → quantity_after
          (row_of k (find_snapshot_source_rows k.tenant_id date w (correction ∷ later ∷ [])))
        ≡ sum_until k date (correction ∷ later ∷ []) +ℤ later.quantity_change
  unfolding find_snapshot_source_rows distinct_on_key keep_first sum_until sum_quantity
  backdated_source correction later ec el hc hl run =
      let sc : same_key correction.key k ≡ true = eq→same_key correction.key k ec in
      let sl : same_key later.key k ≡ true = eq→same_key later.key k el in
      let lc : leb correction.effective_date date ≡ true = ground arith in
      let ll : leb later.effective_date date ≡ false = ground arith in
      rw
        (
          is_source-of_key k.tenant_id date w k refl inside correction sc,
          is_source-of_key k.tenant_id date w k refl inside later sl,
          lc,
          ll,
          sc,
          sl,
        )
        (run.0
          ∙ ap (λ x. sum_quantity x (correction ∷ later ∷ [])) ec
          ∙ rw (sc, sl) (omega int_laws))
