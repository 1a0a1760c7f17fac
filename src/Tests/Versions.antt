-- ===== src/Tests/Versions.antt =====
-- One row written by transaction 1, read by transaction 2.
use simple_rdbms.Common.{◌≡◌, ◌≢◌, refl, arith, true, [], some}
use simple_rdbms.Common.{◌==◌, ◌||◌, if◌then◌else◌}
use simple_rdbms.Common.Map.{nat_eq, get, contains}
use simple_rdbms.Ids.{Rid, rid_eq, rid_beq}
use simple_rdbms.Txn.LockState.{or_empty}
use simple_rdbms.Txn.VersionStore.{StoreState, default_store, record_insert, commit_versions}
use simple_rdbms.Txn.VersionStore.{abort_versions, prune, is_visible_to}
use simple_rdbms.Txn.VersionStore.Visibility.{sees, is_pending, has_version}
use simple_rdbms.Txn.VersionStore.Visibility.{is_visible_to-record_insert}
use simple_rdbms.Txn.VersionStore.Visibility.{is_visible_to-commit_versions_early}
use simple_rdbms.Txn.VersionStore.Visibility.{is_visible_to-commit_versions_late}
use simple_rdbms.Txn.VersionStore.Removal.{is_visible_to-abort_versions, is_visible_to-prune}

abbrev row : Rid
row = record { page_id = 3; slot = 0 }

abbrev written : StoreState
unfolding record_insert
written = record_insert default_store 1 row

abbrev committed : StoreState
unfolding written commit_versions
committed = commit_versions written 1 5

is_visible_to-record_insert_example : is_visible_to (record_insert default_store 1 row) row 2 9 ≡ (
    if rid_beq row row
    then 1 == 2 || sees 2 9 (or_empty (get row default_store.chains))
    else is_visible_to default_store row 2 9)
is_visible_to-record_insert_example = is_visible_to-record_insert default_store 1 row row 2 9

pending_row : is_pending 1 (or_empty (get row written.chains)) ≡ true
unfolding written record_insert get
pending_row = refl

recorded_row : contains row (or_empty (get 1 written.write_sets)) ≡ true
unfolding written record_insert get
recorded_row = refl

version_there : has_version 1 (or_empty (get row written.chains)) ≡ true
unfolding written record_insert get
version_there = refl

is_visible_to-commit_versions_early_example :
    is_visible_to (commit_versions written 1 5) row 2 4 ≡ is_visible_to written row 2 4
is_visible_to-commit_versions_early_example =
    is_visible_to-commit_versions_early written 1 2 5 4 row (omega arith) (omega arith) pending_row

is_visible_to-commit_versions_late_example :
    is_visible_to (commit_versions written 1 5) row 2 5 ≡ true
is_visible_to-commit_versions_late_example =
    is_visible_to-commit_versions_late written 1 2 5 5 row recorded_row version_there (omega arith)

is_visible_to-abort_versions_example :
    is_visible_to (abort_versions written 1 6) row 2 9 ≡ is_visible_to written row 2 9
is_visible_to-abort_versions_example =
    is_visible_to-abort_versions written 1 2 6 9 row (omega arith) pending_row

chain_kept : get row committed.chains ≢ some []
unfolding committed written record_insert commit_versions get
chain_kept e = absurd (ground (arith, e))

is_visible_to-prune_example :
    is_visible_to (prune committed 6) row 2 7 ≡ is_visible_to committed row 2 7
is_visible_to-prune_example = is_visible_to-prune committed 6 row 2 7 (omega arith) chain_kept
