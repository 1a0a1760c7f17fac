-- ===== src/Txn/VersionStore/Pending.antt =====
-- The versions of crates/txn/src/version_store.rs that have not begun stay so until their own
-- transaction commits.
use simple_rdbms.Common.{ℕ, ◌≡◌, ◌≢◌, refl, sym, ap, ◌∙◌, Bool, true, false, Option}
use simple_rdbms.Common.{none, some, [], ◌∷◌, arith, ◌==◌, ==_iff}
use simple_rdbms.Common.{inl, inr, Bool-cases, Option-cases}
use simple_rdbms.Common.Map.{nat_eq, get, contains, get-insert}
use simple_rdbms.Ids.{TxnId, Rid, rid_eq, rid_beq, rid_beq_sound}
use simple_rdbms.Txn.LockState.{or_empty}
use simple_rdbms.Txn.VersionChain.{VersionChain, push, mark_committed, remove_creator}
use simple_rdbms.Txn.VersionStore.{
  StoreState, record_insert, commit_versions, abort_versions, prune,
}
use simple_rdbms.Txn.VersionStore.{due, new_entry}
use simple_rdbms.Txn.VersionStore.Visibility.{is_pending, on_chain, get-commit_each}
use simple_rdbms.Txn.VersionStore.Removal.{get-abort_each, prune_each-IsPruned}

-- No version of the transaction of the row has begun.
abbrev pub pending_at : TxnId → Rid → StoreState → Bool
pending_at t q s = is_pending t (or_empty (get q s.chains))

pub pending_at-record_insert :
    (t w : TxnId) (r q : Rid) (s : StoreState)
    → pending_at t q (record_insert s w r) ≡ pending_at t q s
unfolding record_insert
pending_at-record_insert t w r q s = elim (Bool-cases (rid_beq r q)) [
  | inl e ↦ ground (
    arith,
    e,
    rid_beq_sound r q e,
    get-insert r q (push (or_empty (get r s.chains)) (new_entry w)) s.chains,
  )
  | inr e ↦
      ground (arith, e, get-insert r q (push (or_empty (get r s.chains)) (new_entry w)) s.chains)
]

is_pending-mark_committed :
    (t w : TxnId) (ts : ℕ) (chain : VersionChain)
    → (w == t) ≡ false
    → is_pending t (mark_committed chain w ts) ≡ is_pending t chain
unfolding mark_committed
is_pending-mark_committed t w ts [] n = refl
is_pending-mark_committed t w ts (e ∷ es) n = ground (
  arith,
  n,
  ==_iff e.creator_txn_id w,
  ==_iff e.creator_txn_id t,
  ==_iff w t,
  is_pending-mark_committed t w ts es n,
)

pub pending_at-commit_versions :
    (t w : TxnId) (ts : ℕ) (q : Rid) (s : StoreState)
    → w ≢ t
    → pending_at t q (commit_versions s w ts) ≡ pending_at t q s
unfolding commit_versions
pending_at-commit_versions t w ts q s n = elim (Option-cases (get w s.write_sets)) [
  | inl a ↦ ground (arith, a)
  | inr (rids, a) ↦ elim (Option-cases (get q s.chains)) [
    | inl g ↦ ground (arith, a, g, get-commit_each w ts rids q s.chains)
    | inr (c, g) ↦ ground (
      arith,
      a,
      g,
      get-commit_each w ts rids q s.chains,
      is_pending-mark_committed t w ts c (ground (arith, n, ==_iff w t)),
    )
  ]
]

is_pending-remove_creator :
    (t w : TxnId) (chain : VersionChain)
    → is_pending t chain ≡ true
    → is_pending t (remove_creator chain w) ≡ true
unfolding remove_creator
is_pending-remove_creator t w [] h = refl
is_pending-remove_creator t w (e ∷ es) h = ground (arith, h, is_pending-remove_creator t w es)

pub pending_at-abort_versions :
    (t w : TxnId) (ts : ℕ) (q : Rid) (s : StoreState)
    → pending_at t q s ≡ true
    → pending_at t q (abort_versions s w ts) ≡ true
unfolding abort_versions
pending_at-abort_versions t w ts q s h = elim (Option-cases (get w s.write_sets)) [
  | inl a ↦ ground (arith, a, h)
  | inr (rids, a) ↦ elim (Option-cases (get q s.chains)) [
    | inl g ↦ ground (arith, a, g, get-abort_each w rids q s.chains)
    | inr (c, g) ↦
        ground (arith, a, g, h, get-abort_each w rids q s.chains, is_pending-remove_creator t w c)
  ]
]

pub pending_at-prune :
    (t : TxnId) (w : ℕ) (q : Rid) (s : StoreState)
    → pending_at t q s ≡ true
    → pending_at t q (prune s w) ≡ true
unfolding prune
pending_at-prune t w q s h = elim (prune_each-IsPruned w (due w s.prune_candidates) q s) [
  | inl p ↦ ap (λ c. is_pending t (or_empty c)) p ∙ h
  | inr (p, c, g, k) ↦ ap (λ c. is_pending t (or_empty c)) p
]

on_chain_nil :
    (b : Bool) (w : TxnId) (ts : ℕ) (c : Option VersionChain)
    → on_chain b (λ x. mark_committed x w ts) c ≡ some []
    → c ≡ some []
unfolding mark_committed
on_chain_nil b w ts none h = absurd (ground (arith, h))
on_chain_nil b w ts (some []) h = refl
on_chain_nil true w ts (some (e ∷ es)) h = absurd (ground (arith, h))
on_chain_nil false w ts (some (e ∷ es)) h = absurd (ground (arith, h))

-- A commit empties no chain.
pub commit_versions-nonempty :
    (w : TxnId) (ts : ℕ) (q : Rid) (s : StoreState)
    → get q s.chains ≢ some []
    → get q (commit_versions s w ts).chains ≢ some []
unfolding commit_versions
commit_versions-nonempty w ts q s n e = elim (Option-cases (get w s.write_sets)) [
  | inl a ↦ n (ground (arith, a, e))
  | inr (rids, a) ↦ n (
      on_chain_nil (contains q rids) w ts (get q s.chains)
        (sym (get-commit_each w ts rids q s.chains) ∙ ground (arith, a, e)))
]
