-- ===== src/Txn/VersionStore/Visibility.antt =====
-- What a reader sees of a row after each operation of crates/txn/src/version_store.rs.
use simple_rdbms.Common.{ℕ, ◌≤◌, ◌<◌, ◌≡◌, ◌≢◌, refl, Bool, true, false, not, ◌&&◌, ◌||◌}
use simple_rdbms.Common.{Option, none, some, List, [], ◌∷◌, arith}
use simple_rdbms.Common.{◌==◌, ==_iff, if◌then◌else◌, inl, inr, Bool-cases, Option-cases}
use simple_rdbms.Common.Map.{Map, nat_eq, get, insert, contains, get-insert}
use simple_rdbms.Ids.{TxnId, Rid, rid_eq, rid_beq, rid_beq_sound}
use simple_rdbms.Txn.LockState.{or_empty}
use simple_rdbms.Txn.VersionChain.{VersionChain, push}
use simple_rdbms.Txn.VersionChain.{visible_version_for, mark_committed}
use simple_rdbms.Txn.VersionStore.{StoreState, record_insert, commit_each, commit_versions}
use simple_rdbms.Txn.VersionStore.{is_some, is_visible_to, new_entry}

-- Whether a chain shows a version to the reader.
abbrev pub sees : TxnId → ℕ → VersionChain → Bool
sees reader ts chain = is_some (visible_version_for chain reader ts)

-- No version of the transaction in the chain has begun.
abbrev pub is_pending : TxnId → VersionChain → Bool
is_pending t [] = true
is_pending t (e ∷ es) = (not (e.creator_txn_id == t) || not (is_some e.begin_ts)) && is_pending t es

-- The chain has a version of the transaction without an end.
abbrev pub has_version : TxnId → VersionChain → Bool
has_version t [] = false
has_version t (e ∷ es) = e.creator_txn_id == t && not (is_some e.end_ts) || has_version t es

-- A row without a chain is visible.
abbrev pub sees_row : TxnId → ℕ → Option VersionChain → Bool
sees_row reader ts none = true
sees_row reader ts (some chain) = sees reader ts chain

pub is_visible_to_lem :
    (s : StoreState) (q : Rid) (reader : TxnId) (ts : ℕ)
    → is_visible_to s q reader ts ≡ sees_row reader ts (get q s.chains)
unfolding is_visible_to
is_visible_to_lem s q reader ts = elim (Option-cases (get q s.chains)) [
  | inl n ↦ ground (arith, n)
  | inr (c, g) ↦ ground (arith, g)
]

-- After a transaction has written a row, it sees the row itself, another reader sees it if it saw
-- a version of it before, and what anybody sees of the other rows is as before.
pub is_visible_to-record_insert :
    (s : StoreState) (t : TxnId) (r q : Rid) (reader : TxnId) (ts : ℕ)
    → is_visible_to (record_insert s t r) q reader ts ≡ (
        if rid_beq r q
        then t == reader || sees reader ts (or_empty (get q s.chains))
        else is_visible_to s q reader ts)
unfolding record_insert visible_version_for is_visible_to
is_visible_to-record_insert s t r q reader ts = elim (Bool-cases (rid_beq r q)) [
  | inl e ↦ ground (
    arith,
    e,
    rid_beq_sound r q e,
    get-insert r q (push (or_empty (get r s.chains)) (new_entry t)) s.chains,
  )
  | inr e ↦
      ground (arith, e, get-insert r q (push (or_empty (get r s.chains)) (new_entry t)) s.chains)
]

sees-mark_committed_early :
    (t reader : TxnId) (commit_ts ts : ℕ) (chain : VersionChain)
    → (t == reader) ≡ false
    → ts < commit_ts
    → is_pending t chain ≡ true
    → sees reader ts (mark_committed chain t commit_ts) ≡ sees reader ts chain
unfolding mark_committed visible_version_for
sees-mark_committed_early t reader commit_ts ts [] n h p = refl
sees-mark_committed_early t reader commit_ts ts (e ∷ es) n h p =
    ground (arith, h, n, p, sees-mark_committed_early t reader commit_ts ts es n h)

sees-mark_committed_late :
    (t reader : TxnId) (commit_ts ts : ℕ) (chain : VersionChain)
    → commit_ts ≤ ts
    → has_version t chain ≡ true
    → sees reader ts (mark_committed chain t commit_ts) ≡ true
unfolding mark_committed visible_version_for
sees-mark_committed_late t reader commit_ts ts [] h p = cc
sees-mark_committed_late t reader commit_ts ts (e ∷ es) h p =
    ground (arith, h, p, sees-mark_committed_late t reader commit_ts ts es h)

mark_committed_idem :
    (t : TxnId) (ts : ℕ) (chain : VersionChain)
    → mark_committed (mark_committed chain t ts) t ts ≡ mark_committed chain t ts
unfolding mark_committed
mark_committed_idem t ts [] = refl
mark_committed_idem t ts (e ∷ es) = ground (arith, mark_committed_idem t ts es)

abbrev pub on_chain :
    Bool → (VersionChain → VersionChain) → Option VersionChain → Option VersionChain
on_chain b f none = none
on_chain b f (some c) = some (if b then f c else c)

pub get-commit_each :
    (t : TxnId) (ts : ℕ) (rids : List Rid) (q : Rid) (m : Map Rid VersionChain)
    → get q (commit_each t ts rids m)
      ≡ on_chain (contains q rids) (λ c. mark_committed c t ts) (get q m)
unfolding commit_each
get-commit_each t ts [] q m = elim (Option-cases (get q m)) [
  | inl n ↦ ground (arith, n)
  | inr (c, g) ↦ ground (arith, g)
]
get-commit_each t ts (r ∷ rids) q m = elim (Option-cases (get r m)) [
  | inl n ↦ elim (Bool-cases (rid_beq r q)) [
    | inl e ↦ ground (arith, n, e, rid_beq_sound r q e, get-commit_each t ts rids q m)
    | inr e ↦ ground (arith, n, e, get-commit_each t ts rids q m)
  ]
  | inr (c, g) ↦
      let m' = insert r (mark_committed c t ts) m in
      let found = get-insert r q (mark_committed c t ts) m in
      elim (Bool-cases (rid_beq r q)) [
        | inl e ↦ ground (
          arith,
          g,
          e,
          rid_beq_sound r q e,
          found,
          mark_committed_idem t ts c,
          get-commit_each t ts rids q m',
        )
        | inr e ↦ ground (arith, g, e, found, get-commit_each t ts rids q m')
      ]
]

-- Where no version of the transaction has begun, its commit changes nothing that another reader
-- of an earlier snapshot sees.
pub is_visible_to-commit_versions_early :
    (s : StoreState) (t reader : TxnId) (commit_ts ts : ℕ) (q : Rid)
    → t ≢ reader
    → ts < commit_ts
    → is_pending t (or_empty (get q s.chains)) ≡ true
    → is_visible_to (commit_versions s t commit_ts) q reader ts ≡ is_visible_to s q reader ts
unfolding commit_versions
is_visible_to-commit_versions_early s t reader commit_ts ts q n h p =
    elim (Option-cases (get t s.write_sets)) [
      | inl a ↦ ground (arith, a)
      | inr (rids, w) ↦
          let seen = is_visible_to_lem (commit_versions s t commit_ts) q reader ts in
          elim (Option-cases (get q s.chains)) [
            | inl a ↦ ground (
              arith,
              a,
              w,
              seen,
              is_visible_to_lem s q reader ts,
              get-commit_each t commit_ts rids q s.chains,
            )
            | inr (c, g) ↦ ground (
              arith,
              g,
              w,
              seen,
              p,
              is_visible_to_lem s q reader ts,
              get-commit_each t commit_ts rids q s.chains,
              sees-mark_committed_early t reader commit_ts ts c (ground (arith, n, ==_iff t reader))
                  h,
            )
          ]
    ]

-- A row that the transaction has written is visible to every reader of a snapshot at or after
-- the time of its commit.
pub is_visible_to-commit_versions_late :
    (s : StoreState) (t reader : TxnId) (commit_ts ts : ℕ) (q : Rid)
    → contains q (or_empty (get t s.write_sets)) ≡ true
    → has_version t (or_empty (get q s.chains)) ≡ true
    → commit_ts ≤ ts
    → is_visible_to (commit_versions s t commit_ts) q reader ts ≡ true
unfolding commit_versions
is_visible_to-commit_versions_late s t reader commit_ts ts q k p h =
    elim (Option-cases (get t s.write_sets)) [
      | inl a ↦ absurd (ground (arith, a, k))
      | inr (rids, w) ↦
          let seen = is_visible_to_lem (commit_versions s t commit_ts) q reader ts in
          elim (Option-cases (get q s.chains)) [
            | inl a ↦ absurd (ground (arith, a, p))
            | inr (c, g) ↦ ground (
              arith,
              g,
              w,
              k,
              p,
              seen,
              get-commit_each t commit_ts rids q s.chains,
              sees-mark_committed_late t reader commit_ts ts c h,
            )
          ]
    ]
