-- ===== src/Txn/Manager/Snapshot.antt =====
-- The snapshot of a transaction of crates/txn/src/manager.rs does not change while others commit.
use simple_rdbms.Common.{ℕ, ◌≤◌, ◌≡◌, ◌≢◌, refl, ap, ◌∙◌, Option, some, []}
use simple_rdbms.Common.{◌∷◌, arith, inl, inr, Bool-cases, ◌==◌, ==_iff}
use Prim.Native.Nat.{min}
use simple_rdbms.Common.Map.{Map, nat_eq, get, remove, get-remove}
use simple_rdbms.Ids.{TxnId, Rid, rid_eq}
use simple_rdbms.Txn.VersionStore.{commit_versions, prune, is_visible_to}
use simple_rdbms.Txn.VersionStore.Visibility.{is_visible_to-commit_versions_early}
use simple_rdbms.Txn.VersionStore.Removal.{is_visible_to-prune}
use simple_rdbms.Txn.VersionStore.Pending.{commit_versions-nonempty}
use simple_rdbms.Txn.Transaction.{Transaction}
use simple_rdbms.Txn.Manager.{
  TransactionManager, min_read_ts, oldest_active_read_ts, let_go, PoolOps,
}
use simple_rdbms.Txn.Manager.{commit, Run}
use simple_rdbms.Txn.Manager.Invariant.{stamped}
use simple_rdbms.Txn.Manager.Keeps.{commit-cases, Run-IsOrderly}

min_read_ts-le :
    (active : Map TxnId Transaction) (otherwise : ℕ) (u : TxnId) (x : Transaction)
    → get u active ≡ some x
    → min_read_ts active otherwise ≤ x.read_ts
unfolding get
min_read_ts-le [] otherwise u x e = absurd (ground (arith, e))
min_read_ts-le ((t, y) ∷ []) otherwise u x e = ground (arith, e)
min_read_ts-le ((t, y) ∷ p ∷ rest) otherwise u x e = elim (Bool-cases (t == u)) [
  | inl q ↦ first y x (ground (arith, e, q))
  | inr q ↦ omega (arith, min_read_ts-le (p ∷ rest) otherwise u x (ground (arith, e, q)))
]
  where
    first :
        (y x : Transaction) → y ≡ x → min y.read_ts (min_read_ts (p ∷ rest) otherwise) ≤ x.read_ts
    first y x q = omega (arith, ap (λ z. z.read_ts) q)

let_go_store :
    (m : TransactionManager) (t : TxnId)
    → (let_go m t).version_store ≡ prune m.version_store (oldest_active_read_ts m)
unfolding let_go
let_go_store m t = refl

oldest-le :
    (m : TransactionManager) (u : TxnId) (x : Transaction)
    → get u m.active ≡ some x
    → oldest_active_read_ts m ≤ x.read_ts
unfolding oldest_active_read_ts
oldest-le m u x e = min_read_ts-le m.active m.next_ts u x e

module _ {Pool : Type 0} {StorageError : Type 0} (ops : PoolOps Pool StorageError) where
  -- In every state that calls of the manager reach, with a log that can always be appended to, a
  -- commit of one transaction, also one that fails, changes nothing that another active
  -- transaction sees at its snapshot of a row, the chain of the row not being one that an abort
  -- has emptied.
  pub is_visible_to-commit :
      {highest_seen : Option TxnId} {m : TransactionManager}
      → Run ops highest_seen m
      → (pool : Pool) (t u : TxnId) (x : Transaction) (q : Rid) → get u m.active ≡ some x
      → t ≢ u
      → get q m.version_store.chains ≢ some []
      → is_visible_to (commit ops m pool t).0.version_store q u x.read_ts
        ≡ is_visible_to m.version_store q u x.read_ts
  is_visible_to-commit {m = m} run pool t u x q active n chain = elim (commit-cases ops m pool t) [
    | inl e ↦ ap (λ z. is_visible_to z.version_store q u x.read_ts) e
    | inr (y, ended, e) ↦
        let inv = Run-IsOrderly ops run in
        let still : get u (remove t m.active) ≡ some x =
          ground (arith, active, n, ==_iff t u, get-remove t u m.active) in
        ap (λ z. is_visible_to z.version_store q u x.read_ts) e
        ∙ ap (λ s. is_visible_to s q u x.read_ts) (let_go_store (stamped m t) t)
        ∙ is_visible_to-prune (commit_versions m.version_store t m.next_ts)
            (oldest_active_read_ts (stamped m t)) q u x.read_ts (oldest-le (stamped m t) u x still)
            (commit_versions-nonempty t m.next_ts q m.version_store chain)
        ∙ is_visible_to-commit_versions_early m.version_store t u m.next_ts x.read_ts q n
            (inv.in_the_past u x active).0 (inv.none_begun t q (inl (y, ended)))
  ]
