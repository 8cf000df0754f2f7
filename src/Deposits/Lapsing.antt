-- ===== src/Deposits/Lapsing.antt =====
-- apps/api/src/deposits/deposits.service.ts, `verify`, against the sweep of
-- apps/api/src/fleet/fleet-maintenance.service.ts: a merchant does not see whether the sweep has run.
use Prim.Native.String.{String}
use mathlib.Core.Option
use pay.Shared.{
  ℕ, ◌≤◌, ◌≡◌, refl, sym, ap, subst, ◌∙◌, ◌⊎◌, true, inl, inr, Bool-cases, Option, none, some,
  some_injective, [], ◌∷◌, ◌==◌, leb→le, if◌then◌else◌, or_throw, not_found, All, Table, find,
  modify, &&-both, arith,
}
use pay.Shared.Keys.{
  HasDistinctIds, find-HasDistinctIds, modify-HasDistinctIds, modify-keeps, find-modify-keeps,
  All-imp,
}
use pay.Shared.Sorting.{filter, All-filter, filter-keeps, take-keeps}
use pay.Domain.{FinancialContext}
use pay.Store.{Db, DepositIntent, DepositStatus}
use pay.Withdrawals.{find_by}
use pay.Fleet.Maintenance.{
  Lapse, late_grace, expired, status_of, may_lapse, is_due_to, with_status, lapse, lapse_found,
  lapse_each, transition_deposits, mark_silent, mark_stale, update_health,
}
use pay.Deposits.Verification.{seen_as, status_at, is_named, seen_at, verify_deposit}

-- the grace ends after the countdown
abbrev pub IsInOrder : DepositIntent → Type 0
IsInOrder d = d.expires_at ≤ d.late_grace_ends_at

-- the time of a transition has come
abbrev HasLapsed : (now : ℕ) → Lapse → DepositIntent → Type 0
HasLapsed now late_grace d = d.expires_at ≤ now
HasLapsed now expired d = d.late_grace_ends_at ≤ now

HasLapsed-kept :
    (now : ℕ) (l : Lapse) (s : DepositStatus) (d : DepositIntent)
    → HasLapsed now l d
    → HasLapsed now l (with_status s d)
HasLapsed-kept now late_grace s d h = h
HasLapsed-kept now expired s d h = h

is_due_to-HasLapsed :
    (now : ℕ) (l : Lapse) (d : DepositIntent) → is_due_to now l d ≡ true → HasLapsed now l d
unfolding is_due_to
is_due_to-HasLapsed now late_grace d due = leb→le _ _ (&&-both _ _ due).0
is_due_to-HasLapsed now expired d due = leb→le _ _ (&&-both _ _ due).0

-- The rows of the deposits: different ids, and times in their order.
abbrev IsTable : Table DepositIntent → Type 0
IsTable t = HasDistinctIds t × All (λ x. IsInOrder x.1) t

-- what the transaction of one deposit does to the deposits
lapse_found-cases :
    (id : ℕ) (l : Lapse) (d : DepositIntent) (db : Db)
    → ((lapse_found id l (some d) db).deposits ≡ db.deposits)
      ⊎ ((may_lapse l d.status ≡ true)
          × ((lapse_found id l (some d) db).deposits
              ≡ modify id (with_status (status_of l)) db.deposits))
unfolding lapse_found
lapse_found-cases id l d db = elim (Bool-cases (may_lapse l d.status)) [
  | inl may ↦ inr (may, ap (λ b. (if b then lapse id l db else db).deposits) may)
  | inr may ↦ inl (ap (λ b. (if b then lapse id l db else db).deposits) may)
]

lapse_found-IsTable :
    (id : ℕ) (l : Lapse) (o : Option DepositIntent) (db : Db)
    → IsTable db.deposits
    → IsTable (lapse_found id l o db).deposits
unfolding lapse_found
lapse_found-IsTable id l none db t = t
lapse_found-IsTable id l (some d) db t = elim (lapse_found-cases id l d db) [
  | inl same ↦ subst IsTable (sym same) t
  | inr (may, moved) ↦ subst IsTable (sym moved) (
    modify-HasDistinctIds id (with_status (status_of l)) db.deposits t.0,
    modify-keeps id (with_status (status_of l)) IsInOrder (λ d o. o) db.deposits t.1,
  )
]

lapse_each-IsTable :
    (l : Lapse) (rows : Table DepositIntent) (db : Db)
    → IsTable db.deposits
    → IsTable (lapse_each l rows db).deposits
unfolding lapse_each
lapse_each-IsTable l [] db t = t
lapse_each-IsTable l ((id, e) ∷ rest) db t =
    lapse_each-IsTable l rest (lapse_found id l (find id db.deposits) db)
      (lapse_found-IsTable id l (find id db.deposits) db t)

module _ (t1 t2 : ℕ) (later : t1 ≤ t2) where
  -- a transition whose time has come does not change what is seen later
  seen_as-lapsed :
      (l : Lapse) (d : DepositIntent) (s : DepositStatus)
      → IsInOrder d
      → HasLapsed t1 l d
      → may_lapse l s ≡ true
      → seen_as t2 d.expires_at d.late_grace_ends_at (status_of l)
        ≡ seen_as t2 d.expires_at d.late_grace_ends_at s
  unfolding seen_as
  seen_as-lapsed late_grace d DepositStatus.awaiting_payment o h m = ground arith
  seen_as-lapsed expired d DepositStatus.awaiting_payment o h m = ground arith
  seen_as-lapsed expired d DepositStatus.late_grace o h m = ground arith
  seen_as-lapsed l d s o h m = cc

  module _ (auth : FinancialContext) (tx_ref : String) where
    seen : Table DepositIntent → Option (ℕ × DepositStatus)
    seen t = Option.map (seen_at t2) (find_by (is_named auth tx_ref) t)

    -- an update of a row that is seen as before leaves all as before
    seen-modify :
        (id : ℕ) (s : DepositStatus) (t : Table DepositIntent) (d : DepositIntent)
        → find id t ≡ some d
        → status_at t2 (with_status s d) ≡ status_at t2 d
        → seen (modify id (with_status s) t) ≡ seen t
    unfolding seen find modify find_by
    seen-modify id s [] d row same = refl
    seen-modify id s ((j, e) ∷ t) d row same = elim (Bool-cases (id == j)) [
      | inl here ↦ elim (Bool-cases (is_named auth tx_ref e)) [
        | inl named ↦
            rw (here, named)
              (ap (λ x. some (j, x))
                (subst (λ x. status_at t2 (with_status s x) ≡ status_at t2 x)
                  (sym (some_injective (rw here at row))) same))
        | inr other ↦ rw (here, other) refl
      ]
      | inr there ↦ rw there (elim (Bool-cases (is_named auth tx_ref e)) [
        | inl named ↦ rw named refl
        | inr other ↦ rw other (seen-modify id s t d (rw there at row) same)
      ])
    ]

    module _ (l : Lapse) where
      -- a row whose time has come, of the deposits `t`
      IsReady : Table DepositIntent → ℕ × DepositIntent → Type 0
      IsReady t x = (d : DepositIntent) × (find x.0 t ≡ some d) × IsInOrder d × HasLapsed t1 l d

      IsReady-modify :
          (id : ℕ) (t rows : Table DepositIntent)
          → All (IsReady t) rows
          → All (IsReady (modify id (with_status (status_of l)) t)) rows
      unfolding IsReady
      IsReady-modify id t rows ready =
          All-imp rows
            (λ x r _.
              let kept =
                find-modify-keeps id (with_status (status_of l))
                  (λ d. IsInOrder d × HasLapsed t1 l d)
                  (λ d p. (p.0, HasLapsed-kept t1 l (status_of l) d p.1)) x.0 t r.0 r.1
                  (r.2, r.3) in
              (kept.0, kept.1, kept.2.0, kept.2.1))
            ready ready

      seen-lapse_found :
          (id : ℕ) (d : DepositIntent) (db : Db)
          → find id db.deposits ≡ some d
          → IsInOrder d
          → HasLapsed t1 l d
          → seen (lapse_found id l (some d) db).deposits ≡ seen db.deposits
      seen-lapse_found id d db row order lapsed = elim (lapse_found-cases id l d db) [
        | inl same ↦ ap seen same
        | inr (may, moved) ↦
            ap seen moved
            ∙ seen-modify id (status_of l) db.deposits d row
                (seen_as-lapsed l d d.status order lapsed may)
      ]

      IsReady-lapse_found :
          (id : ℕ) (d : DepositIntent) (db : Db) (rows : Table DepositIntent)
          → All (IsReady db.deposits) rows
          → All (IsReady (lapse_found id l (some d) db).deposits) rows
      IsReady-lapse_found id d db rows ready = elim (lapse_found-cases id l d db) [
        | inl same ↦ subst (λ t. All (IsReady t) rows) (sym same) ready
        | inr (may, moved) ↦
            subst (λ t. All (IsReady t) rows) (sym moved) (IsReady-modify id db.deposits rows ready)
      ]

      -- the deposits whose time has come, one after the other
      seen-lapse_each :
          (rows : Table DepositIntent) (db : Db)
          → All (IsReady db.deposits) rows
          → seen (lapse_each l rows db).deposits ≡ seen db.deposits
      unfolding lapse_each IsReady
      seen-lapse_each [] db ready = refl
      seen-lapse_each ((id, e) ∷ rest) db ((d, row, order, lapsed), ready) =
          ap (λ o. seen (lapse_each l rest (lapse_found id l o db)).deposits) row
          ∙ seen-lapse_each rest (lapse_found id l (some d) db)
              (IsReady-lapse_found id d db rest ready)
          ∙ seen-lapse_found id d db row order lapsed

      -- one call of the sweep
      seen-transition_deposits :
          (db : Db)
          → IsTable db.deposits
          → seen (transition_deposits t1 l db).deposits ≡ seen db.deposits
      unfolding transition_deposits IsReady
      seen-transition_deposits db t = seen-lapse_each _ db (
          take-keeps (IsReady db.deposits) 500 _ (
            All-imp (filter (λ x. is_due_to t1 l x.1) db.deposits)
              (λ x due row. (x.1, row.0, row.1, is_due_to-HasLapsed t1 l x.1 due))
              (All-filter (λ x. is_due_to t1 l x.1) db.deposits)
              (filter-keeps (λ x. (find x.0 db.deposits ≡ some x.1) × IsInOrder x.1)
                (λ x. is_due_to t1 l x.1) db.deposits
                (All-imp db.deposits (λ x row order. (row, order))
                  (find-HasDistinctIds db.deposits t.0) t.1))))

-- Whatever the sweep has done at an earlier time, `verify` answers with the deposit and the status
-- that it would answer without the sweep, for every reference: the stored status may lag behind,
-- up to the batch of 500, and nobody sees it. The deposits have different ids, and none of them
-- ends its grace before its countdown.
pub verify_deposit-ignores_sweep :
    (t1 t2 stale : ℕ) (auth : FinancialContext) (tx_ref : String) (db : Db)
    → t1 ≤ t2
    → HasDistinctIds db.deposits
    → All (λ x. IsInOrder x.1) db.deposits
    → verify_deposit t2 auth tx_ref (update_health t1 stale db) ≡ verify_deposit t2 auth tx_ref db
unfolding verify_deposit update_health seen transition_deposits
verify_deposit-ignores_sweep t1 t2 stale auth tx_ref db later distinct order =
    let marked = mark_stale t1 stale (mark_silent t1 db) in
    let t : IsTable db.deposits = (distinct, order) in
    ap (λ o. or_throw o not_found)
      (seen-transition_deposits t1 t2 later auth tx_ref expired
          (transition_deposits t1 late_grace marked) (lapse_each-IsTable late_grace _ marked t)
        ∙ seen-transition_deposits t1 t2 later auth tx_ref late_grace marked t)
