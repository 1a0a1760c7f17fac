-- ===== src/Txn/VersionChain.antt =====
-- crates/txn/src/mvcc.rs: the versions of one row, the newest at the head, and which of them a
-- reader of a snapshot sees.
use simple_rdbms.Common.{ℕ, Bool, true, false, not, ◌||◌, Option, none, some, List, [], ◌∷◌, map}
use simple_rdbms.Common.{retain, find, leb, ltb, ◌==◌, if◌then◌else◌}
use simple_rdbms.Ids.{TxnId}

pub record VersionEntry : Type 0 where
  pub creator_txn_id : TxnId
  pub begin_ts : Option ℕ
  pub end_ts : Option ℕ

abbrev pub VersionChain : Type 0
VersionChain = List VersionEntry

abbrev pub push : VersionChain → VersionEntry → VersionChain
push versions entry = entry ∷ versions

-- `end_ts` of a version that has begun: it is not over at `read_ts`.
abbrev pub ends_after : Option ℕ → ℕ → Bool
ends_after (some end_ts) read_ts = ltb read_ts end_ts
ends_after none read_ts = true

abbrev pub visible_at : Option ℕ → Option ℕ → ℕ → Bool
visible_at none end_ts read_ts = false
visible_at (some begin_ts) end_ts read_ts =
    if leb begin_ts read_ts then ends_after end_ts read_ts else false

abbrev pub is_globally_visible : VersionEntry → ℕ → Bool
is_globally_visible entry read_ts = visible_at entry.begin_ts entry.end_ts read_ts

unfoldable pub visible_version : VersionChain → ℕ → Option VersionEntry
visible_version versions read_ts = find (λ entry. is_globally_visible entry read_ts) versions

unfoldable pub visible_version_for : VersionChain → TxnId → ℕ → Option VersionEntry
visible_version_for versions reader_txn_id read_ts =
    find (λ entry. entry.creator_txn_id == reader_txn_id || is_globally_visible entry read_ts)
      versions

-- The body of the loop of `mark_committed`.
abbrev pub mark_entry : TxnId → ℕ → VersionEntry → VersionEntry
mark_entry txn_id commit_ts entry =
    if entry.creator_txn_id == txn_id then record entry { begin_ts = some commit_ts } else entry

unfoldable pub mark_committed : VersionChain → TxnId → ℕ → VersionChain
mark_committed versions txn_id commit_ts = map (mark_entry txn_id commit_ts) versions

unfoldable pub remove_creator : VersionChain → TxnId → VersionChain
remove_creator versions txn_id = retain (λ entry. not (entry.creator_txn_id == txn_id)) versions

abbrev pub is_empty : VersionChain → Bool
is_empty [] = true
is_empty (entry ∷ versions) = false

abbrev pub settled_by : Option ℕ → Option ℕ → ℕ → Bool
settled_by (some begin_ts) none watermark = leb begin_ts watermark
settled_by _ _ watermark = false

unfoldable pub is_prunable : VersionChain → ℕ → Bool
is_prunable [] watermark = true
is_prunable (newest ∷ versions) watermark = settled_by newest.begin_ts newest.end_ts watermark
