-- ===== src/Txn/LockManager/Induction.antt =====
-- One rule for the invariants of the lock manager: what the changes of its state keep, every run
-- of `acquire`, `release_all` and `prune_finished` keeps.
use simple_rdbms.Common.{◌≡◌, true, false, Bool, none, inl, inr, Bool-cases}
use simple_rdbms.Common.Map.{nat_eq, get, contains}
use simple_rdbms.Ids.{TxnId}
use simple_rdbms.Txn.LockState.{LockMode, Resource, State, default_state, conflicting_holders}
use simple_rdbms.Txn.LockState.{would_deadlock}
use simple_rdbms.Txn.LockManager.{
  grant, stop_waiting, start_waiting, contend, round, acquire, covers,
}
use simple_rdbms.Txn.LockManager.{release_all, prune_finished, held_mode, is_empty}
use simple_rdbms.Txn.LockManager.{Step, acquires, wakes, releases, prunes, Reach, initial, next}
use simple_rdbms.Txn.LockManager.Waits.{idle_stopped}

module _ (P : State → Type 0) (starts : P default_state)
    (stops : (s : State) (t : TxnId) → P s → P (stop_waiting s t))
    (waits : (s : State) (t : TxnId) (r : Resource) (mode : LockMode)
      → would_deadlock s t (conflicting_holders s r mode t) ≡ false
      → P s
      → P (start_waiting s t r mode))
    (grants : (s : State) (t : TxnId) (r : Resource) (mode : LockMode)
      → is_empty (conflicting_holders s r mode t) ≡ true
      → get t s.waiting_for ≡ none
      → P s
      → P (grant s t r mode))
    (frees : (s : State) (t : TxnId) → P s → P (release_all s t))
    (forgets : (s : State) (w : TxnId) → P s → P (prune_finished s w)) where
  contend_keeps :
      (s : State) (t : TxnId) (r : Resource) (mode : LockMode) (expired : Bool)
      → get t s.waiting_for ≡ none
      → P s
      → P (contend s t r mode expired).0
  unfolding contend
  contend_keeps s t r mode expired idle h =
      elim (Bool-cases (is_empty (conflicting_holders s r mode t))) [
        | inl e ↦ rw e (grants s t r mode e idle h)
        | inr e ↦ rw e (elim (Bool-cases (would_deadlock s t (conflicting_holders s r mode t))) [
          | inl d ↦ rw d h
          | inr d ↦
              let h' = waits s t r mode d h in
              elim (Bool-cases expired) [
                | inl x ↦ rw (d, x) (stops (start_waiting s t r mode) t h')
                | inr x ↦ rw (d, x) h'
              ]
        ])
      ]

  round_keeps :
      (s : State) (t : TxnId) (r : Resource) (mode : LockMode) (expired : Bool)
      → P s
      → P (round s t r mode expired).0
  unfolding round
  round_keeps s t r mode expired h =
      let h' = stops s t h in
      elim (Bool-cases (covers (held_mode (stop_waiting s t) t r) mode)) [
        | inl e ↦ rw e h'
        | inr e ↦ rw e (contend_keeps (stop_waiting s t) t r mode expired (idle_stopped s t) h')
      ]

  acquire_keeps :
      (s : State) (t : TxnId) (r : Resource) (mode : LockMode) (expired : Bool)
      → P s
      → P (acquire s t r mode expired).0
  unfolding acquire
  acquire_keeps s t r mode expired h = elim (Bool-cases (contains t s.finished)) [
    | inl e ↦ rw e h
    | inr e ↦ rw e (round_keeps s t r mode expired h)
  ]

  Step_keeps : {s u : State} → Step s u → P s → P u
  Step_keeps {s = s} (acquires t r mode expired) h = acquire_keeps s t r mode expired h
  Step_keeps {s = s} (wakes t r mode expired w) h = round_keeps s t r mode expired h
  Step_keeps {s = s} (releases t) h = frees s t h
  Step_keeps {s = s} (prunes w) h = forgets s w h

  pub Reach_induction : {s : State} → Reach s → P s
  Reach_induction initial = starts
  Reach_induction (next r st) = Step_keeps st (Reach_induction r)
