-- ===== src/Txn/Manager/Invariant.antt =====
-- What holds of every manager of crates/txn/src/manager.rs: snapshots are of the past, ids are
-- below the next one, and the versions of a transaction that has not ended have not begun.
use simple_rdbms.Common.{◌+◌, ◌≤◌, ◌<◌, ◌≡◌, ◌≢◌, refl, ◌∙◌, true}
use simple_rdbms.Common.{some, arith, ◌⊎◌, inl, inr}
use simple_rdbms.Common.{==_iff}
use simple_rdbms.Common.Map.{Map, nat_eq, get, remove, get-remove}
use simple_rdbms.Ids.{TxnId, Rid}
use simple_rdbms.Txn.VersionStore.{commit_versions}
use simple_rdbms.Txn.VersionStore.Pending.{pending_at}
use simple_rdbms.Txn.VersionStore.Pending.{pending_at-commit_versions}
use simple_rdbms.Txn.VersionStore.Pending.{pending_at-prune}
use simple_rdbms.Txn.Transaction.{Transaction}
use simple_rdbms.Txn.Manager.{TransactionManager, let_go}
use simple_rdbms.Txn.Manager.{oldest_active_read_ts}

-- Active, or not begun yet.
abbrev pub IsOpen : TransactionManager → TxnId → Type 0
IsOpen m t = ((x : Transaction) × (get t m.active ≡ some x)) ⊎ (m.next_txn_id ≤ t)

pub record IsOrderly (m : TransactionManager) : Type 0 where
  pub in_the_past :
      (t : TxnId) (x : Transaction)
      → get t m.active ≡ some x
      → (x.read_ts < m.next_ts) × (t < m.next_txn_id)
  pub none_begun : (t : TxnId) (q : Rid) → IsOpen m t → pending_at t q m.version_store ≡ true

-- No transaction is active that was not, or with another snapshot.
abbrev pub Narrows : TransactionManager → TransactionManager → Type 0
Narrows m n =
    (t : TxnId) (x : Transaction)
    → get t n.active ≡ some x
    → (y : Transaction) × (get t m.active ≡ some y) × (x.read_ts ≡ y.read_ts)

IsOpen-narrowed :
    (m n : TransactionManager) (t : TxnId)
    → Narrows m n
    → m.next_txn_id ≤ n.next_txn_id
    → IsOpen n t
    → IsOpen m t
IsOpen-narrowed m n t narrow le (inl (x, e)) = inl ((narrow t x e).0, (narrow t x e).1)
IsOpen-narrowed m n t narrow le (inr h) = inr (omega (arith, le, h))

pub IsOrderly-narrowed :
    (m n : TransactionManager)
    → IsOrderly m
    → Narrows m n
    → m.next_ts ≤ n.next_ts
    → m.next_txn_id ≤ n.next_txn_id
    → ((t : TxnId) (q : Rid)
        → IsOpen n t
        → pending_at t q m.version_store ≡ true
        → pending_at t q n.version_store ≡ true)
    → IsOrderly n
IsOrderly-narrowed m n inv narrow le_ts le_id store = record {
  in_the_past = λ t x e.
      let (y, f, same) = narrow t x e in
      let (a, b) = inv.in_the_past t y f in
      (omega (arith, a, le_ts, same), omega (arith, b, le_id));
  none_begun = λ t q o. store t q o (inv.none_begun t q (IsOpen-narrowed m n t narrow le_id o));
}

-- With a transaction out of the way, `let_go` prunes and unlocks.
pub IsOrderly-let_go : (m : TransactionManager) (t : TxnId) → IsOrderly m → IsOrderly (let_go m t)
IsOrderly-let_go m t inv =
    IsOrderly-narrowed m (let_go m t) inv (λ u x e. (x, unfold let_go in e, refl))
      (unfold let_go in omega arith) (unfold let_go in omega arith)
      (λ u q o h. unfold let_go in pending_at-prune u (oldest_active_read_ts m) q m.version_store h)

pub get-remove_active :
    (t u : TxnId) (active : Map TxnId Transaction) (x : Transaction)
    → get u (remove t active) ≡ some x
    → (get u active ≡ some x) × (t ≢ u)
get-remove_active t u active x e = (
  ground (arith, e, get-remove t u active),
  λ q. ground (arith, e, q, ==_iff t u, get-remove t u active),
)

-- The manager after a commit.
abbrev pub stamped : TransactionManager → TxnId → TransactionManager
stamped m t = record m {
  version_store = commit_versions m.version_store t m.next_ts;
  next_ts = m.next_ts + 1;
  active = remove t m.active;
}

pub stamped-IsOrderly :
    (m : TransactionManager) (t : TxnId) (y : Transaction)
    → get t m.active ≡ some y
    → IsOrderly m
    → IsOrderly (stamped m t)
stamped-IsOrderly m t y active inv =
    IsOrderly-narrowed m (stamped m t) inv
      (λ u x e. (x, (get-remove_active t u m.active x e).0, refl)) (omega arith) (omega arith)
      (λ u q o h. pending_at-commit_versions u t m.next_ts q m.version_store (other u o) ∙ h)
  where
    other : (u : TxnId) → IsOpen (stamped m t) u → t ≢ u
    other u (inl (x, e)) = (get-remove_active t u m.active x e).1
    other u (inr h) = λ q. omega (arith, h, q, (inv.in_the_past t y active).1)
