-- ===== src/Tests/Locks.antt =====
-- The lock manager with two transactions on one table, and with three.
use simple_rdbms.Common.{◌≡◌, ◌≢◌, refl, arith, true, false, [], ◌∷◌, none, not, ◌&&◌}
use simple_rdbms.Common.{◌==◌, ◌↔◌, ◌+◌, ◌<◌}
use simple_rdbms.Common.Map.{nat_eq, get, contains}
use simple_rdbms.Ids.{TxnId}
use simple_rdbms.Txn.LockState.{shared, exclusive, Resource, table, State, default_state}
use simple_rdbms.Txn.LockState.{resource_eq, holders_of, conflicts_with, waits_for, would_deadlock}
use simple_rdbms.Txn.LockState.{search_cycle, pending}
use simple_rdbms.Txn.LockState.Search.{Edge, WaitPath, would_deadlock_iff, search_cycle-ne-none}
use simple_rdbms.Txn.LockManager.{acquire, release_all, prune_finished, held_mode, covers, granted}
use simple_rdbms.Txn.LockManager.{denied, lock_after_unlock, Reach, initial, next, acquires}
use simple_rdbms.Txn.LockManager.Acyclic.{Reach-IsAcyclic}
use simple_rdbms.Txn.LockManager.Exclusion.{Reach-IsExclusive, holds_in}
use simple_rdbms.Txn.LockManager.TwoPhase.{is_among, is_among-release_all, acquire-granted}
use simple_rdbms.Txn.LockManager.TwoPhase.{acquire-refused}
use simple_rdbms.Txn.LockManager.Finished.{
  at_once, acquired, released, pruned, release_all-finishes,
}

abbrev accounts : Resource
accounts = table 7

-- Transaction 1 holds the table.
abbrev held : State
unfolding acquire
held = (acquire default_state 1 accounts exclusive false).0

-- Transaction 2 waits for it.
abbrev blocked : State
unfolding held acquire
blocked = (acquire held 2 accounts exclusive false).0

abbrev both_read : State
unfolding acquire
both_read = (acquire (acquire default_state 1 accounts shared false).0 2 accounts shared false).0

held-Reach : Reach held
unfolding held acquire
held-Reach = next initial (acquires 1 accounts exclusive false)

blocked-Reach : Reach blocked
unfolding blocked acquire
blocked-Reach = next held-Reach (acquires 2 accounts exclusive false)

both_read-Reach : Reach both_read
unfolding both_read acquire
both_read-Reach =
    next (next initial (acquires 1 accounts shared false)) (acquires 2 accounts shared false)

blocked-Edge : Edge blocked 2 1
unfolding blocked waits_for acquire
blocked-Edge = refl

Reach-IsAcyclic_example : ¬ (WaitPath blocked 1 2)
Reach-IsAcyclic_example = Reach-IsAcyclic blocked-Reach 2 1 blocked-Edge

one_holds : holds_in 1 shared (holders_of both_read accounts) ≡ true
unfolding holds_in both_read acquire get
one_holds = refl

two_holds : holds_in 2 shared (holders_of both_read accounts) ≡ true
unfolding holds_in both_read acquire get
two_holds = refl

Reach-IsExclusive_example : conflicts_with shared shared ≡ false
Reach-IsExclusive_example =
    Reach-IsExclusive both_read-Reach accounts 1 2 shared shared (omega arith) one_holds two_holds

would_deadlock_iff_example :
    (would_deadlock blocked 1 (2 ∷ []) ≡ true)
    ↔ ((b : TxnId) × (contains b (2 ∷ []) ≡ true) × WaitPath blocked b 1)
would_deadlock_iff_example = would_deadlock_iff blocked 1 (2 ∷ [])

few_pending : 1 + pending blocked [] blocked.waiting_for < 3
unfolding pending blocked acquire
few_pending = omega arith

search_cycle-ne-none_example : search_cycle 3 blocked 1 [] (2 ∷ []) ≢ none
search_cycle-ne-none_example = search_cycle-ne-none 3 blocked 1 [] (2 ∷ []) few_pending

is_among-release_all_example :
    is_among 2 (holders_of (release_all both_read 1) accounts)
    ≡ (not (1 == 2) && is_among 2 (holders_of both_read accounts))
is_among-release_all_example = is_among-release_all both_read-Reach 1 2 accounts

was_granted : (acquire default_state 1 accounts shared false).1 ≡ granted
unfolding acquire
was_granted = refl

acquire-granted_example :
    (covers (held_mode (acquire default_state 1 accounts shared false).0 1 accounts) shared ≡ true)
    × (contains 1 default_state.finished ≡ false)
acquire-granted_example = acquire-granted default_state 1 accounts shared false was_granted

not_granted : (acquire held 2 accounts exclusive true).1 ≢ granted
unfolding acquire held
not_granted e = absurd (ground (arith, e))

acquire-refused_example :
    ((acquire held 2 accounts exclusive true).0.holders ≡ held.holders)
    × ((acquire held 2 accounts exclusive true).0.held_by ≡ held.held_by)
acquire-refused_example = acquire-refused held 2 accounts exclusive true not_granted

-- Transaction 1 commits, then transaction 2 takes the table and commits too, and the older ones are
-- pruned.
abbrev moved_on : State
moved_on =
    prune_finished (release_all (acquire (release_all held 1) 2 accounts exclusive false).0 2) 1

release_all-finishes_example :
    acquire moved_on 1 accounts shared false ≡ (moved_on, denied (lock_after_unlock 1))
release_all-finishes_example =
    release_all-finishes held 1 moved_on accounts shared false
      (pruned 1 (released 2 (acquired 2 accounts exclusive false at_once)) (omega arith))
