-- ===== src/Txn/LockManager.antt =====
-- crates/txn/src/lock_manager.rs. The state behind the mutex is a value. A call of `acquire` is
-- the check of `finished` and then rounds of its loop: a round returns, or leaves the caller
-- waiting on the condition variable, until a release wakes it for one more round or its deadline
-- passes. Any order of such steps of any transactions is a run of `Step`.
pub mod Waits
pub mod Induction
pub mod Acyclic
pub mod Exclusion
pub mod TwoPhase
pub mod Finished
use simple_rdbms.Common.{
  ℕ, zero, suc, ◌+◌, Bool, true, false, not, ◌&&◌, ◌||◌, Option, none, some, List,
}
use simple_rdbms.Common.{[], ◌∷◌, ◌++◌, map, length, retain, find, arith, ◌≡◌, refl, leb}
use simple_rdbms.Common.{if◌then◌else◌, ◌==◌, Result, ok, err}
use simple_rdbms.Common.Map.{Eq, Map, nat_eq, get, insert, remove, contains}
use simple_rdbms.Ids.{TxnId, TableId, Rid, rid_beq, rid_beq_sound, rid_beq_refl}
use mathlib.Core.List.{reverse}
use simple_rdbms.Txn.LockState.{
  LockMode, shared, exclusive, mode_beq, conflicts_with, Resource, row, table, resource_eq, Holders,
  State, default_state, or_empty, holders_of, conflicting_holders, would_deadlock,
}

pub data TxnError : Type 0 where
  deadlock_victim lock_timeout lock_after_unlock : TxnId → TxnError

-- How a round of the loop of `acquire` ends.
pub data Outcome : Type 0 where
  granted : Outcome
  denied : TxnError → Outcome
  waiting : Outcome

abbrev pub is_holder : TxnId → TxnId × LockMode → Bool
is_holder txn_id (id, held_mode) = id == txn_id

abbrev pub not_holder : TxnId → TxnId × LockMode → Bool
not_holder txn_id (id, held_mode) = not (id == txn_id)

unfoldable pub held_mode : State → TxnId → Resource → Option LockMode
unfolding get
held_mode state txn_id resource = elim (find (is_holder txn_id) (holders_of state resource)) [
  | some (id, mode) ↦ some mode
  | none ↦ none
]

-- `held_mode == Some(Exclusive) || held_mode == Some(mode)`
abbrev pub covers : Option LockMode → LockMode → Bool
covers none mode = false
covers (some held) mode = mode_beq held exclusive || mode_beq held mode

unfoldable pub grant : State → TxnId → Resource → LockMode → State
unfolding get insert
grant state txn_id resource mode =
    let old = retain (not_holder txn_id) (holders_of state resource) in
    let held = or_empty (get txn_id state.held_by) in
    record state {
      holders = insert resource (old ++ (txn_id, mode) ∷ []) state.holders;
      held_by =
          insert txn_id (if contains resource held then held else resource ∷ held) state.held_by;
    }

unfoldable pub stop_waiting : State → TxnId → State
unfolding remove
stop_waiting state txn_id = record state { waiting_for = remove txn_id state.waiting_for }

unfoldable pub start_waiting : State → TxnId → Resource → LockMode → State
unfolding insert
start_waiting state txn_id resource mode = record state {
  waiting_for = insert txn_id (resource, mode) state.waiting_for;
}

abbrev pub is_empty {ℓ} : {A : Type ℓ} → List A → Bool
is_empty [] = true
is_empty (x ∷ xs) = false

-- The round behind the test of the held mode, in the state without the caller's wait. `expired`
-- is whether the deadline, if the manager has a timeout, has passed.
unfoldable pub contend : State → TxnId → Resource → LockMode → Bool → State × Outcome
unfolding conflicting_holders grant would_deadlock start_waiting stop_waiting
contend state txn_id resource mode expired =
    let blockers = conflicting_holders state resource mode txn_id in
    if is_empty blockers
    then (grant state txn_id resource mode, granted)
    else if would_deadlock state txn_id blockers
    then (state, denied (deadlock_victim txn_id))
    else if expired
    then (
      stop_waiting (start_waiting state txn_id resource mode) txn_id,
      denied (lock_timeout txn_id),
    )
    else (start_waiting state txn_id resource mode, waiting)

unfoldable pub round : State → TxnId → Resource → LockMode → Bool → State × Outcome
unfolding contend stop_waiting held_mode
round state txn_id resource mode expired =
    let state' = stop_waiting state txn_id in
    if covers (held_mode state' txn_id resource) mode
    then (state', granted)
    else contend state' txn_id resource mode expired

-- `acquire` up to its first wait; a wake-up is another `round`.
unfoldable pub acquire : State → TxnId → Resource → LockMode → Bool → State × Outcome
unfolding round
acquire state txn_id resource mode expired =
    if contains txn_id state.finished
    then (state, denied (lock_after_unlock txn_id))
    else round state txn_id resource mode expired

unfoldable pub lock : State → TxnId → Rid → LockMode → Bool → State × Outcome
unfolding acquire
lock state txn_id rid mode expired = acquire state txn_id (row rid) mode expired

unfoldable pub lock_table : State → TxnId → TableId → LockMode → Bool → State × Outcome
unfolding acquire
lock_table state txn_id table_id mode expired = acquire state txn_id (table table_id) mode expired

-- The body of the loop of `release_all`.
unfoldable pub release_one : TxnId → Resource → Map Resource Holders → Map Resource Holders
unfolding get remove insert
release_one txn_id resource holders = elim (get resource holders) [
  | none ↦ holders
  | some old ↦
      let kept = retain (not_holder txn_id) old in
      if is_empty kept then remove resource holders else insert resource kept holders
]

unfoldable pub release_each : TxnId → List Resource → Map Resource Holders → Map Resource Holders
unfolding release_one
release_each txn_id [] holders = holders
release_each txn_id (resource ∷ resources) holders =
    release_each txn_id resources (release_one txn_id resource holders)

unfoldable pub release_all : State → TxnId → State
unfolding release_each get remove
release_all state txn_id = record {
  holders = release_each txn_id (or_empty (get txn_id state.held_by)) state.holders;
  held_by = remove txn_id state.held_by;
  waiting_for = remove txn_id state.waiting_for;
  finished = if contains txn_id state.finished then state.finished else txn_id ∷ state.finished;
}

unfoldable pub prune_finished : State → TxnId → State
prune_finished state watermark = record state {
  finished = retain (λ id. leb watermark id) state.finished;
}

-- What the callers of the manager can make of its state: `acquire`, the rounds of a transaction
-- that waits, `release_all` and `prune_finished`, in any order.
pub data Step (s : State) : State → Type 0 where
  acquires :
      (txn_id : TxnId) (resource : Resource) (mode : LockMode) (expired : Bool)
      → Step s (acquire s txn_id resource mode expired).0
  wakes :
      (txn_id : TxnId) (resource : Resource) (mode : LockMode) (expired : Bool)
      → get txn_id s.waiting_for ≡ some (resource, mode)
      → Step s (round s txn_id resource mode expired).0
  releases : (txn_id : TxnId) → Step s (release_all s txn_id)
  prunes : (watermark : TxnId) → Step s (prune_finished s watermark)

pub data Reach : State → Type 0 where
  initial : Reach default_state
  next : {s t : State} → Reach s → Step s t → Reach t
