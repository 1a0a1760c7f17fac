-- ===== src/Txn/VersionStore.antt =====
-- crates/txn/src/version_store.rs: the version chains of rows, the rows that each transaction has
-- written, and the rows whose chains may go once no snapshot is older than a time.
pub mod Visibility
pub mod Removal
pub mod Pending
use simple_rdbms.Common.{ℕ, Bool, true, false, not, Option, none, some, List, [], ◌∷◌, ◌++◌, map}
use simple_rdbms.Common.{retain, leb, if◌then◌else◌}
use simple_rdbms.Common.Map.{Map, nat_eq, get, insert, remove}
use simple_rdbms.Ids.{TxnId, Rid, rid_eq}
use simple_rdbms.Txn.LockState.{or_empty}
use simple_rdbms.Txn.VersionChain.{VersionEntry, VersionChain, push, visible_version}
use simple_rdbms.Txn.VersionChain.{visible_version_for, mark_committed, remove_creator, is_empty}
use simple_rdbms.Txn.VersionChain.{is_prunable}

pub record StoreState : Type 0 where
  pub chains : Map Rid VersionChain
  pub write_sets : Map TxnId (List Rid)
  pub prune_candidates : Map ℕ (List Rid)

abbrev pub default_store : StoreState
default_store = record { chains = []; write_sets = []; prune_candidates = [] }

abbrev pub new_entry : TxnId → VersionEntry
new_entry txn_id = record { creator_txn_id = txn_id; begin_ts = none; end_ts = none }

unfoldable pub record_insert : StoreState → TxnId → Rid → StoreState
unfolding get insert
record_insert state txn_id rid = record state {
  chains = insert rid (push (or_empty (get rid state.chains)) (new_entry txn_id)) state.chains;
  write_sets = insert txn_id (or_empty (get txn_id state.write_sets) ++ rid ∷ []) state.write_sets;
}

-- `entry(ts).or_default().extend(rids)`
abbrev pub add_candidates : ℕ → List Rid → Map ℕ (List Rid) → Map ℕ (List Rid)
add_candidates ts rids candidates = insert ts (or_empty (get ts candidates) ++ rids) candidates

-- The loop of `commit_versions`.
unfoldable pub commit_each : TxnId → ℕ → List Rid → Map Rid VersionChain → Map Rid VersionChain
unfolding get insert mark_committed
commit_each txn_id commit_ts [] chains = chains
commit_each txn_id commit_ts (rid ∷ rids) chains =
    commit_each txn_id commit_ts rids (elim (get rid chains) [
      | some chain ↦ insert rid (mark_committed chain txn_id commit_ts) chains
      | none ↦ chains
    ])

unfoldable pub commit_versions : StoreState → TxnId → ℕ → StoreState
unfolding commit_each get remove insert
commit_versions state txn_id commit_ts = elim (get txn_id state.write_sets) [
  | none ↦ state
  | some rids ↦ record {
    chains = commit_each txn_id commit_ts rids state.chains;
    write_sets = remove txn_id state.write_sets;
    prune_candidates = add_candidates commit_ts rids state.prune_candidates;
  }
]

-- The loop of `abort_versions`: the chains, and the rows whose chain is empty after their turn.
unfoldable pub abort_each :
    TxnId → List Rid → Map Rid VersionChain → Map Rid VersionChain × List Rid
unfolding get insert remove_creator
abort_each txn_id [] chains = (chains, [])
abort_each txn_id (rid ∷ rids) chains = elim (get rid chains) [
  | some chain ↦
      let kept = remove_creator chain txn_id in
      let rest = abort_each txn_id rids (insert rid kept chains) in
      (rest.0, if is_empty kept then rid ∷ rest.1 else rest.1)
  | none ↦ abort_each txn_id rids chains
]

abbrev pub add_emptied : ℕ → List Rid → Map ℕ (List Rid) → Map ℕ (List Rid)
add_emptied ts [] candidates = candidates
add_emptied ts (rid ∷ rids) candidates = add_candidates ts (rid ∷ rids) candidates

unfoldable pub abort_versions : StoreState → TxnId → ℕ → StoreState
unfolding abort_each get remove insert
abort_versions state txn_id next_ts = elim (get txn_id state.write_sets) [
  | none ↦ state
  | some rids ↦
      let done = abort_each txn_id rids state.chains in
      record {
        chains = done.0;
        write_sets = remove txn_id state.write_sets;
        prune_candidates = add_emptied next_ts done.1 state.prune_candidates;
      }
]

-- The inner loop of `prune`.
unfoldable pub prune_rows : ℕ → List Rid → Map Rid VersionChain → Map Rid VersionChain
unfolding get remove is_prunable
prune_rows watermark [] chains = chains
prune_rows watermark (rid ∷ rids) chains = prune_rows watermark rids (elim (get rid chains) [
  | some chain ↦ if is_prunable chain watermark then remove rid chains else chains
  | none ↦ chains
])

abbrev pub insert_sorted : ℕ → List ℕ → List ℕ
insert_sorted ts [] = ts ∷ []
insert_sorted ts (u ∷ us) = if leb ts u then ts ∷ u ∷ us else u ∷ insert_sorted ts us

-- `prune_candidates.range(..=watermark)`, the keys in their order.
abbrev pub due : ℕ → Map ℕ (List Rid) → List ℕ
due watermark [] = []
due watermark ((ts, rids) ∷ candidates) =
    let rest = due watermark candidates in if leb ts watermark then insert_sorted ts rest else rest

-- The body of the outer loop of `prune`.
unfoldable pub prune_at : ℕ → ℕ → StoreState → StoreState
unfolding prune_rows get remove
prune_at watermark ts state = elim (get ts state.prune_candidates) [
  | some rids ↦ record state {
    chains = prune_rows watermark rids state.chains;
    prune_candidates = remove ts state.prune_candidates;
  }
  | none ↦ state
]

unfoldable pub prune_each : ℕ → List ℕ → StoreState → StoreState
unfolding prune_at
prune_each watermark [] state = state
prune_each watermark (ts ∷ tss) state = prune_each watermark tss (prune_at watermark ts state)

unfoldable pub prune : StoreState → ℕ → StoreState
unfolding prune_each
prune state watermark = prune_each watermark (due watermark state.prune_candidates) state

abbrev pub is_some {ℓ} : {A : Type ℓ} → Option A → Bool
is_some (some a) = true
is_some none = false

unfoldable pub is_visible : StoreState → Rid → ℕ → Bool
unfolding get visible_version
is_visible state rid read_ts = elim (get rid state.chains) [
  | some chain ↦ is_some (visible_version chain read_ts)
  | none ↦ true
]

unfoldable pub is_visible_to : StoreState → Rid → TxnId → ℕ → Bool
unfolding get visible_version_for
is_visible_to state rid reader_txn_id read_ts = elim (get rid state.chains) [
  | some chain ↦ is_some (visible_version_for chain reader_txn_id read_ts)
  | none ↦ true
]
