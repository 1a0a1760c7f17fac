-- ===== src/Txn/Manager/Keeps.antt =====
-- Every call on the manager of crates/txn/src/manager.rs keeps it orderly.
use simple_rdbms.Common.{Result-cases}
use simple_rdbms.Common.{◌+◌, ◌≡◌, refl, sym, subst, ◌∙◌}
use simple_rdbms.Common.{Option, some, arith, ◌⊎◌, inl, inr, Bool-cases}
use simple_rdbms.Common.{Option-cases, ◌==◌, ==_iff}
use simple_rdbms.Common.Map.{nat_eq, get, insert, remove, get-insert}
use simple_rdbms.Ids.{TxnId, Lsn, Rid}
use simple_rdbms.Storage.Wal.Record.{LogRecordKind}
use simple_rdbms.Txn.VersionStore.{record_insert, abort_versions}
use simple_rdbms.Txn.VersionStore.Pending.{pending_at-record_insert}
use simple_rdbms.Txn.VersionStore.Pending.{pending_at-abort_versions}
use simple_rdbms.Txn.Transaction.{Transaction, IsolationLevel, growing, aborted, new_transaction}
use simple_rdbms.Txn.Manager.{TransactionManager, new_manager, let_go, PoolOps, PendingAbort}
use simple_rdbms.Txn.Manager.{is_aborted, begin, commit, commit_flushed}
use simple_rdbms.Txn.Manager.{begin_abort, undo, finish_abort, cancel_abort, abort_pending, abort}
use simple_rdbms.Txn.Manager.{
  Call, begins, commits, aborts, starts_abort, ends_abort, cancels_abort,
}
use simple_rdbms.Txn.Manager.{writes, locks, Run, opened, called}
use simple_rdbms.Txn.Manager.Invariant.{IsOpen, IsOrderly, Narrows, IsOrderly-narrowed}
use simple_rdbms.Txn.Manager.Invariant.{IsOrderly-let_go, get-remove_active, stamped}
use simple_rdbms.Txn.Manager.Invariant.{stamped-IsOrderly}

-- One transaction's entry takes another state.
Narrows-insert :
    (m : TransactionManager) (t : TxnId) (x y : Transaction)
    → get t m.active ≡ some x
    → y.read_ts ≡ x.read_ts
    → Narrows m (record m { active = insert t y m.active })
Narrows-insert m t x y active same u z e = elim (Bool-cases (t == u)) [
  | inl q ↦ (
    x,
    ground (arith, active, q, ==_iff t u),
    ground (arith, e, same, q, get-insert t u y m.active),
  )
  | inr q ↦ (z, ground (arith, e, q, get-insert t u y m.active), refl)
]

IsOrderly-insert :
    (m : TransactionManager) (t : TxnId) (x y : Transaction)
    → get t m.active ≡ some x
    → y.read_ts ≡ x.read_ts
    → IsOrderly m
    → IsOrderly (record m { active = insert t y m.active })
IsOrderly-insert m t x y active same inv =
    IsOrderly-narrowed m (record m { active = insert t y m.active }) inv
      (Narrows-insert m t x y active same) (omega arith) (omega arith) (λ u q o h. h)

cancel_abort-IsOrderly :
    (m : TransactionManager) (pending : PendingAbort)
    → IsOrderly m
    → IsOrderly (cancel_abort m pending)
unfolding cancel_abort
cancel_abort-IsOrderly m pending inv = elim (Option-cases (get pending.txn_id m.active)) [
  | inl n ↦ rw (n, cancel_abort) inv
  | inr (x, e) ↦
      rw (e, cancel_abort)
        (IsOrderly-insert m pending.txn_id x (record x { state = growing }) e refl inv)
]

write-IsOrderly :
    (m : TransactionManager) (t : TxnId) (r : Rid)
    → IsOrderly m
    → IsOrderly (record m { version_store = record_insert m.version_store t r })
write-IsOrderly m t r inv =
    IsOrderly-narrowed m (record m { version_store = record_insert m.version_store t r }) inv
      (λ u x e. (x, e, refl)) (omega arith) (omega arith)
      (λ u q o h. pending_at-record_insert u t r q m.version_store ∙ h)

-- The manager after an abort.
abbrev rolled_back : TransactionManager → TxnId → TransactionManager
rolled_back m t = record m {
  active = remove t m.active;
  version_store = abort_versions m.version_store t m.next_ts;
}

rolled_back-IsOrderly :
    (m : TransactionManager) (t : TxnId) → IsOrderly m → IsOrderly (rolled_back m t)
rolled_back-IsOrderly m t inv =
    IsOrderly-narrowed m (rolled_back m t) inv
      (λ u x e. (x, (get-remove_active t u m.active x e).0, refl)) (omega arith) (omega arith)
      (λ u q o h. pending_at-abort_versions u t m.next_ts q m.version_store h)

module _ {Pool : Type 0} {StorageError : Type 0} (ops : PoolOps Pool StorageError) where
  -- A commit that ends without an error, and one that changes nothing.
  pub commit-cases :
      (m : TransactionManager) (pool : Pool) (t : TxnId)
      → ((commit ops m pool t).0 ≡ m)
        ⊎ ((x : Transaction) × (get t m.active ≡ some x)
            × ((commit ops m pool t).0 ≡ let_go (stamped m t) t))
  unfolding commit commit_flushed
  commit-cases m pool t = elim (Option-cases (get t m.active)) [
    | inl n ↦ inl (ground (arith, n))
    | inr (x, e) ↦ elim (Bool-cases (is_aborted x.state)) [
      | inl a ↦ inl (ground (arith, e, a))
      | inr a ↦
          let (lsn, p) = ops.append_log_total pool t LogRecordKind.commit in
          let pool₁ = (ops.append_log pool t LogRecordKind.commit).1 in
          elim (Result-cases (ops.flush_log pool₁ lsn).0) [
            | inl (x, f) ↦ inl (ground (arith, e, a, p, f))
            | inr (u, f) ↦
                let pool₂ = (ops.flush_log pool₁ lsn).1 in
                let (lsn', q) = ops.append_log_total pool₂ t LogRecordKind.end in
                inr (x, e, ground (arith, e, a, p, f, q))
          ]
    ]
  ]

  finish_abort-IsOrderly :
      (m : TransactionManager) (pool : Pool) (pending : PendingAbort)
      → IsOrderly m
      → IsOrderly (finish_abort ops m pool pending).0
  unfolding finish_abort
  finish_abort-IsOrderly m pool pending inv = elim (Option-cases (get pending.txn_id m.active)) [
    | inl n ↦ rw (n, finish_abort) inv
    | inr (x, e) ↦
        rw (e, finish_abort)
          (IsOrderly-let_go (rolled_back m pending.txn_id) pending.txn_id
            (rolled_back-IsOrderly m pending.txn_id inv))
  ]

  begin_abort-IsOrderly :
      (m : TransactionManager) (pool : Pool) (t : TxnId)
      → IsOrderly m
      → IsOrderly (begin_abort ops m pool t).0
  unfolding begin_abort
  begin_abort-IsOrderly m pool t inv = elim (Option-cases (get t m.active)) [
    | inl n ↦ rw (n, begin_abort) inv
    | inr (x, e) ↦ elim (Bool-cases (is_aborted x.state)) [
      | inl a ↦ rw (e, a, begin_abort) inv
      | inr a ↦
          rw (e, a, begin_abort) (IsOrderly-insert m t x (record x { state = aborted }) e refl inv)
    ]
  ]

  abort_pending-IsOrderly :
      (m : TransactionManager) (pool : Pool) (pending : PendingAbort)
      → IsOrderly m
      → IsOrderly (abort_pending ops m pool pending).0
  unfolding abort_pending
  abort_pending-IsOrderly m pool pending inv = elim (Result-cases (undo ops pool pending).0) [
    | inl (x, e) ↦ rw (e, abort_pending) (cancel_abort-IsOrderly m pending inv)
    | inr (x, e) ↦
        rw (e, abort_pending) (finish_abort-IsOrderly m (undo ops pool pending).1 pending inv)
  ]

  abort-IsOrderly :
      (m : TransactionManager) (pool : Pool) (t : TxnId)
      → IsOrderly m
      → IsOrderly (abort ops m pool t).0
  unfolding abort
  abort-IsOrderly m pool t inv =
      let begun = begin_abort ops m pool t in
      let inv' = begin_abort-IsOrderly m pool t inv in
      elim (Result-cases begun.2) [
        | inl (x, e) ↦ rw (e, abort) inv'
        | inr (pending, e) ↦ rw (e, abort) (abort_pending-IsOrderly begun.0 begun.1 pending inv')
      ]

  commit-IsOrderly :
      (m : TransactionManager) (pool : Pool) (t : TxnId)
      → IsOrderly m
      → IsOrderly (commit ops m pool t).0
  commit-IsOrderly m pool t inv = elim (commit-cases m pool t) [
    | inl e ↦ subst IsOrderly (sym e) inv
    | inr (x, active, e) ↦
        subst IsOrderly (sym e)
          (IsOrderly-let_go (stamped m t) t (stamped-IsOrderly m t x active inv))
  ]

  -- The manager after `begin`.
  abbrev begun : TransactionManager → IsolationLevel → Lsn → TransactionManager
  begun m level lsn = record m {
    next_txn_id = m.next_txn_id + 1;
    next_ts = m.next_ts + 1;
    active = insert m.next_txn_id (new_transaction m.next_txn_id level lsn m.next_ts) m.active;
  }

  begin_lem :
      (m : TransactionManager) (pool : Pool) (level : IsolationLevel)
      → (lsn : Lsn) × ((begin ops m pool level).0 ≡ begun m level lsn)
  unfolding begin
  begin_lem m pool level =
      let (lsn, p) = ops.append_log_total pool m.next_txn_id LogRecordKind.begin in
      (lsn, ground (arith, p))

  begun-IsOrderly :
      (m : TransactionManager) (level : IsolationLevel) (lsn : Lsn)
      → IsOrderly m
      → IsOrderly (begun m level lsn)
  begun-IsOrderly m level lsn inv = record {
    in_the_past = λ t x e. elim (Bool-cases (m.next_txn_id == t)) [
      | inl q ↦ (
        ground (arith, e, q, get-insert m.next_txn_id t (opened_txn m) m.active),
        ground (arith, q),
      )
      | inr q ↦
          let (a, b) =
            inv.in_the_past t x
              (ground (arith, e, q, get-insert m.next_txn_id t (opened_txn m) m.active)) in
          (omega (arith, a), omega (arith, b))
    ];
    none_begun = λ t q o. inv.none_begun t q (was_open t o);
  }
    where
      opened_txn : TransactionManager → Transaction
      opened_txn n = new_transaction n.next_txn_id level lsn n.next_ts

      was_open : (t : TxnId) → IsOpen (begun m level lsn) t → IsOpen m t
      was_open t (inr h) = inr (omega (arith, h))
      was_open t (inl (x, e)) = elim (Bool-cases (m.next_txn_id == t)) [
        | inl q ↦ inr (ground (arith, q))
        | inr q ↦ inl (x, ground (arith, e, q, get-insert m.next_txn_id t (opened_txn m) m.active))
      ]

  Call-IsOrderly : {m n : TransactionManager} → Call ops m n → IsOrderly m → IsOrderly n
  Call-IsOrderly {m = m} (begins pool level) inv =
      let (lsn, e) = begin_lem m pool level in
      subst IsOrderly (sym e) (begun-IsOrderly m level lsn inv)
  Call-IsOrderly {m = m} (commits pool t) inv = commit-IsOrderly m pool t inv
  Call-IsOrderly {m = m} (aborts pool t) inv = abort-IsOrderly m pool t inv
  Call-IsOrderly {m = m} (starts_abort pool t) inv = begin_abort-IsOrderly m pool t inv
  Call-IsOrderly {m = m} (ends_abort pool pending) inv = finish_abort-IsOrderly m pool pending inv
  Call-IsOrderly {m = m} (cancels_abort pending) inv = cancel_abort-IsOrderly m pending inv
  Call-IsOrderly {m = m} (writes t x rid e) inv = write-IsOrderly m t rid inv
  Call-IsOrderly {m = m} (locks s step) inv =
      IsOrderly-narrowed m (record m { lock_manager = s }) inv (λ u x e. (x, e, refl)) (omega arith)
        (omega arith) (λ u q o h. h)

  new_manager-IsOrderly : (highest_seen : Option TxnId) → IsOrderly (new_manager highest_seen)
  unfolding get
  new_manager-IsOrderly highest_seen = record {
    in_the_past = λ t x e. absurd (ground (arith, e));
    none_begun = λ t q o. refl;
  }

  -- In every state that calls of the manager, of the store and of the locks reach, with a log that
  -- can always be appended to, the snapshots of the active transactions are of times before the
  -- clock, their ids are below the next one, and of the versions of a transaction that is active or
  -- has not begun none has begun.
  pub Run-IsOrderly :
      {highest_seen : Option TxnId} {m : TransactionManager} → Run ops highest_seen m → IsOrderly m
  Run-IsOrderly {highest_seen = h} opened = new_manager-IsOrderly h
  Run-IsOrderly (called run call) = Call-IsOrderly call (Run-IsOrderly run)
