-- ===== src/Txn/LockState.antt =====
-- crates/txn/src/lock_manager.rs: lock modes, the state behind the mutex, and the search for a
-- cycle of waiting transactions.
pub mod Search
use simple_rdbms.Common.{
  ℕ, zero, suc, ◌+◌, Bool, true, false, not, ◌&&◌, ◌||◌, Option, none, some, List,
}
use simple_rdbms.Common.{[], ◌∷◌, ◌++◌, map, length, retain, find, arith, ◌≡◌, refl, leb}
use simple_rdbms.Common.{if◌then◌else◌, ◌==◌, Result, ok, err}
use simple_rdbms.Common.Map.{Eq, Map, nat_eq, get, insert, remove, contains}
use simple_rdbms.Ids.{TxnId, TableId, Rid, rid_beq, rid_beq_sound, rid_beq_refl}
use mathlib.Core.List.{reverse}

pub data LockMode : Type 0 where
  shared exclusive : LockMode

abbrev pub mode_beq : LockMode → LockMode → Bool
mode_beq shared shared = true
mode_beq exclusive exclusive = true
mode_beq _ _ = false

unfoldable pub conflicts_with : LockMode → LockMode → Bool
conflicts_with shared shared = false
conflicts_with _ _ = true

pub data Resource : Type 0 where
  row : Rid → Resource
  table : TableId → Resource

abbrev pub resource_beq : Resource → Resource → Bool
resource_beq (row a) (row b) = rid_beq a b
resource_beq (table a) (table b) = a == b
resource_beq _ _ = false

pub resource_beq_sound : (a b : Resource) → resource_beq a b ≡ true → a ≡ b
resource_beq_sound (row a) (row b) h = ground (arith, rid_beq_sound a b)
resource_beq_sound (table a) (table b) h = ground arith
resource_beq_sound a b h = cc

pub resource_beq_refl : (a : Resource) → resource_beq a a ≡ true
resource_beq_refl (row a) = rid_beq_refl a
resource_beq_refl (table a) = ground arith

instance abbrev pub resource_eq : Eq Resource
resource_eq = record {
  beq = resource_beq;
  beq_sound = resource_beq_sound;
  beq_refl = resource_beq_refl;
}

abbrev pub Holders : Type 0
Holders = List (TxnId × LockMode)

pub record State : Type 0 where
  pub holders : Map Resource Holders
  pub held_by : Map TxnId (List Resource)
  pub waiting_for : Map TxnId (Resource × LockMode)
  pub finished : List TxnId

abbrev pub default_state : State
default_state = record { holders = []; held_by = []; waiting_for = []; finished = [] }

-- `map.get(&k).into_iter().flatten()`, `entry(k).or_default()`
abbrev pub or_empty {ℓ} : {A : Type ℓ} → Option (List A) → List A
or_empty none = []
or_empty (some xs) = xs

abbrev pub holders_of : State → Resource → Holders
holders_of state resource = or_empty (get resource state.holders)

-- The test of the filter of `conflicting_holders`.
abbrev pub is_blocker : LockMode → TxnId → TxnId × LockMode → Bool
is_blocker mode exclude (id, held_mode) = not (id == exclude) && conflicts_with held_mode mode

abbrev pub holder_id : TxnId × LockMode → TxnId
holder_id (id, held_mode) = id

unfoldable pub conflicting_holders : State → Resource → LockMode → TxnId → List TxnId
unfolding get conflicts_with
conflicting_holders state resource mode exclude =
    map holder_id (retain (is_blocker mode exclude) (holders_of state resource))

-- Those that a transaction waits for, none if it does not wait.
unfoldable pub waits_for : State → TxnId → List TxnId
unfolding conflicting_holders get
waits_for state txn_id = elim (get txn_id state.waiting_for) [
  | some (resource, mode) ↦ conflicting_holders state resource mode txn_id
  | none ↦ []
]

-- The loop of `would_deadlock`, on fuel; the top of the stack is the head of the list.
unfoldable pub search_cycle : ℕ → State → TxnId → List TxnId → List TxnId → Option Bool
unfolding waits_for
search_cycle zero state start visited stack = none
search_cycle (suc fuel) state start visited [] = some false
search_cycle (suc fuel) state start visited (txn_id ∷ stack) =
    let skip = search_cycle fuel state start visited stack in
    let expand =
      search_cycle fuel state start (txn_id ∷ visited)
        (reverse (waits_for state txn_id) ++ stack) in
    if txn_id == start then some true else if contains txn_id visited then skip else expand

-- What the entries of `waiting_for` can still put on the stack.
unfoldable pub pending : State → List TxnId → Map TxnId (Resource × LockMode) → ℕ
unfolding conflicting_holders
pending state visited [] = 0
pending state visited ((txn_id, (resource, mode)) ∷ m) =
    (if contains txn_id visited then 0 else length (conflicting_holders state resource mode txn_id))
    + pending state visited m

-- Enough for the loop: `search_cycle-ne-none` of LockManager/Search.
abbrev pub cycle_fuel : State → List TxnId → ℕ
cycle_fuel state blockers = suc (length blockers + pending state [] state.waiting_for)

unfoldable pub would_deadlock : State → TxnId → List TxnId → Bool
unfolding search_cycle pending
would_deadlock state start blockers =
    elim (search_cycle (cycle_fuel state blockers) state start [] (reverse blockers)) [
      | some found ↦ found
      | none ↦ false
    ]
