-- ===== src/Txn/LockManager/Finished.antt =====
-- Strict two-phase locking: after `release_all` of lock_manager.rs a transaction gets no lock any more.
use simple_rdbms.Common.{
  ◌≡◌, ◌∙◌, ap, Bool, true, ◌&&◌, List, [], ◌∷◌, ◌≤◌, leb, le→leb, arith, ==_iff,
}
use simple_rdbms.Common.{inl, inr, Bool-cases, retain, some}
use simple_rdbms.Common.Map.{nat_eq, get, contains}
use simple_rdbms.Ids.{TxnId}
use simple_rdbms.Txn.LockState.{LockMode, Resource, State}
use simple_rdbms.Txn.LockManager.{
  grant, stop_waiting, start_waiting, contend, round, acquire, release_all, prune_finished,
}
use simple_rdbms.Txn.LockManager.{denied, lock_after_unlock}

-- What the callers of the manager make of the state `s`, in any order, while none of them prunes
-- with a watermark behind `t`.
pub data Later (t : TxnId) (s : State) : State → Type 0 where
  at_once : Later t s s
  acquired :
      {u : State} (txn_id : TxnId) (resource : Resource) (mode : LockMode) (expired : Bool)
      → Later t s u
      → Later t s (acquire u txn_id resource mode expired).0
  woken :
      {u : State} (txn_id : TxnId) (resource : Resource) (mode : LockMode) (expired : Bool)
      → Later t s u
      → get txn_id u.waiting_for ≡ some (resource, mode)
      → Later t s (round u txn_id resource mode expired).0
  released : {u : State} (txn_id : TxnId) → Later t s u → Later t s (release_all u txn_id)
  pruned :
      {u : State} (watermark : TxnId)
      → Later t s u
      → watermark ≤ t
      → Later t s (prune_finished u watermark)

contend-finished :
    (s : State) (t : TxnId) (r : Resource) (mode : LockMode) (expired : Bool)
    → (contend s t r mode expired).0.finished ≡ s.finished
unfolding contend grant stop_waiting start_waiting
contend-finished s t r mode expired = ground arith

round-finished :
    (s : State) (t : TxnId) (r : Resource) (mode : LockMode) (expired : Bool)
    → (round s t r mode expired).0.finished ≡ s.finished
unfolding round stop_waiting
round-finished s t r mode expired =
    ground (arith, contend-finished (stop_waiting s t) t r mode expired)

acquire-finished :
    (s : State) (t : TxnId) (r : Resource) (mode : LockMode) (expired : Bool)
    → (acquire s t r mode expired).0.finished ≡ s.finished
unfolding acquire
acquire-finished s t r mode expired = ground (arith, round-finished s t r mode expired)

contains-retain :
    (t w : TxnId) (ts : List TxnId)
    → contains t (retain (λ id. leb w id) ts) ≡ (contains t ts && leb w t)
contains-retain t w [] = ground arith
contains-retain t w (x ∷ ts) = ground (arith, contains-retain t w ts, ==_iff x t)

contains-release_all :
    (s : State) (t u : TxnId)
    → contains t s.finished ≡ true
    → contains t (release_all s u).finished ≡ true
unfolding release_all
contains-release_all s t u h = ground (arith, h)

-- A finished transaction stays one.
Later-finished :
    (t : TxnId) (s u : State)
    → contains t s.finished ≡ true
    → Later t s u
    → contains t u.finished ≡ true
unfolding prune_finished
Later-finished t s _ h at_once = h
Later-finished t s _ h (acquired {u = u} x r mode expired later) =
    ap (contains t) (acquire-finished u x r mode expired) ∙ Later-finished t s u h later
Later-finished t s _ h (woken {u = u} x r mode expired later w) =
    ap (contains t) (round-finished u x r mode expired) ∙ Later-finished t s u h later
Later-finished t s _ h (released {u = u} x later) =
    contains-release_all u t x (Later-finished t s u h later)
Later-finished t s _ h (pruned {u = u} w later le) =
    ground (arith, contains-retain t w u.finished, Later-finished t s u h later, le→leb w t le)

release_all-contains : (s : State) (t : TxnId) → contains t (release_all s t).finished ≡ true
unfolding release_all
release_all-contains s t = elim (Bool-cases (contains t s.finished)) [
  | inl e ↦ ground (arith, e)
  | inr e ↦ ground (arith, e, ==_iff t t)
]

-- After `release_all` of a transaction, and whatever calls of the manager follow, by whichever
-- transactions, as long as `prune_finished` is not called with a watermark behind the transaction,
-- a call of `acquire` by the transaction is refused and changes nothing.
pub release_all-finishes :
    (s : State) (t : TxnId) (u : State) (r : Resource) (mode : LockMode) (expired : Bool)
    → Later t (release_all s t) u
    → acquire u t r mode expired ≡ (u, denied (lock_after_unlock t))
unfolding acquire
release_all-finishes s t u r mode expired later =
    ground (arith, Later-finished t (release_all s t) u (release_all-contains s t) later)
