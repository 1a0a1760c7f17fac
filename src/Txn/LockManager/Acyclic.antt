-- ===== src/Txn/LockManager/Acyclic.antt =====
-- No deadlock: in no state that the lock manager reaches do transactions wait in a circle.
use simple_rdbms.Common.{◌≡◌, true, false, List}
use simple_rdbms.Common.{none, arith, ◌==◌, ==_iff, if◌then◌else◌, inl, inr, Bool-cases, ◌⊎◌}
use simple_rdbms.Common.Map.{nat_eq, get, contains}
use simple_rdbms.Ids.{TxnId}
use simple_rdbms.Txn.LockState.{LockMode, Resource, State, conflicting_holders}
use simple_rdbms.Txn.LockState.{would_deadlock, waits_for}
use simple_rdbms.Txn.LockState.Search.{Edge, WaitPath, here, step, would_deadlock_iff}
use simple_rdbms.Txn.LockManager.{grant, stop_waiting, start_waiting}
use simple_rdbms.Txn.LockManager.{release_all, prune_finished}
use simple_rdbms.Txn.LockManager.{Reach}
use simple_rdbms.Txn.LockManager.Induction.{Reach_induction}
use simple_rdbms.Txn.LockManager.Waits.{Edge-grant, Edge-stop_waiting, Edge-idle}
use simple_rdbms.Txn.LockManager.Waits.{Edge-start_waiting, Edge-release_all}

-- No transaction waits, over any chain, for itself.
abbrev pub IsAcyclic : State → Type 0
IsAcyclic s = (t u : TxnId) → Edge s t u → WaitPath s u t → ⊥

abbrev pub Sub : State → State → Type 0
Sub s t = (x y : TxnId) → Edge t x y → Edge s x y

WaitPath-shrinks : {s t : State} {x y : TxnId} → Sub s t → WaitPath t x y → WaitPath s x y
WaitPath-shrinks sub here = here
WaitPath-shrinks sub (step {t = a} {u = b} e p) = step (sub a b e) (WaitPath-shrinks sub p)

IsAcyclic-shrinks : {s t : State} → Sub s t → IsAcyclic s → IsAcyclic t
IsAcyclic-shrinks sub h x y e p = h x y (sub x y e) (WaitPath-shrinks sub p)

WaitPath-append : {s : State} {x y z : TxnId} → WaitPath s x y → WaitPath s y z → WaitPath s x z
WaitPath-append here q = q
WaitPath-append (step e p) q = step e (WaitPath-append p q)

-- Edges into `t` alone are added, and none leads out of `t`: a path that ends elsewhere is old.
module _ (s u : State) (t : TxnId)
    (old : (x y : TxnId) → (t == y) ≡ false → Edge u x y → Edge s x y)
    (sink : (y : TxnId) → Edge u t y → ⊥) where
  ne_sink : (x y : TxnId) → Edge u x y → (t == x) ≡ false
  ne_sink x y e = elim (Bool-cases (t == x)) [
    | inl h ↦ absurd (sink y (rw (← (==_iff t x).0 h) at e))
    | inr h ↦ h
  ]

  source : {x y : TxnId} → WaitPath u x y → (t == y) ≡ false → (t == x) ≡ false
  source here n = n
  source (step {t = x} {u = z} e p) n = ne_sink x z e

  path_old : {x y : TxnId} → WaitPath u x y → (t == y) ≡ false → WaitPath s x y
  path_old here n = here
  path_old (step {t = a} {u = b} e p) n = step (old a b (source p n) e) (path_old p n)

  IsAcyclic-sink : IsAcyclic s → IsAcyclic u
  IsAcyclic-sink h x y e p =
      h x y (old x y (source p (ne_sink x y e)) e) (path_old p (ne_sink x y e))

-- A transaction that waits on nobody starts to wait, and none of its blockers waits for it.
module _ (s u : State) (t : TxnId) (blockers : List TxnId)
    (new : (x y : TxnId) → Edge u x y → (if t == x then contains y blockers ≡ true else Edge s x y))
    (free : (b : TxnId) → contains b blockers ≡ true → WaitPath s b t → ⊥) where
  -- A new path is old, or it is old up to its first visit of `t` and from its last visit on.
  path_split :
      {x y : TxnId}
      → WaitPath u x y
      → WaitPath s x y
        ⊎ (WaitPath s x t × ((b : TxnId) × (contains b blockers ≡ true) × WaitPath s b y))
  path_split here = inl here
  path_split (step {t = x} {u = z} e p) = elim (Bool-cases (t == x)) [
    | inl h ↦
        let m : contains z blockers ≡ true = rw h at (new x z e) in
        inr (rw ((==_iff t x).0 h) here, elim (path_split p) [ inl q ↦ (z, m, q) | inr (q, r) ↦ r ])
    | inr h ↦
        let e' : Edge s x z = rw h at (new x z e) in
        elim (path_split p) [ inl q ↦ inl (step e' q) | inr (q, r) ↦ inr (step e' q, r) ]
  ]

  IsAcyclic-start : IsAcyclic s → IsAcyclic u
  IsAcyclic-start h x y e p = elim (Bool-cases (t == x)) [
    | inl g ↦
        let m : contains y blockers ≡ true = rw g at (new x y e) in
        elim (path_split p) [
          | inl q ↦ free y m (rw (← (==_iff t x).0 g) at q)
          | inr (q, r) ↦ free y m q
        ]
    | inr g ↦
        let e' : Edge s x y = rw g at (new x y e) in
        elim (path_split p) [
          | inl q ↦ h x y e' q
          | inr (q, (b, m, r)) ↦ free b m (WaitPath-append r (step e' q))
        ]
  ]

-- The changes that the manager makes.
Sub-stop_waiting : (s : State) (t : TxnId) → Sub s (stop_waiting s t)
Sub-stop_waiting s t x y = Edge-stop_waiting s t x y

grant-IsAcyclic :
    (s : State) (t : TxnId) (r : Resource) (mode : LockMode)
    → get t s.waiting_for ≡ none
    → IsAcyclic s
    → IsAcyclic (grant s t r mode)
grant-IsAcyclic s t r mode idle =
    IsAcyclic-sink s (grant s t r mode) t (λ x y n. Edge-grant s t r mode x y n)
      (λ y. Edge-idle (grant s t r mode) t y (unfold grant in idle))

start_waiting-IsAcyclic :
    (s : State) (t : TxnId) (r : Resource) (mode : LockMode)
    → would_deadlock s t (conflicting_holders s r mode t) ≡ false
    → IsAcyclic s
    → IsAcyclic (start_waiting s t r mode)
start_waiting-IsAcyclic s t r mode d =
    IsAcyclic-start s (start_waiting s t r mode) t (conflicting_holders s r mode t)
      (λ x y. Edge-start_waiting s t r mode x y)
      (λ b m p.
        ground (arith, d, (would_deadlock_iff s t (conflicting_holders s r mode t)).1 (b, m, p)))

all-IsAcyclic : {s : State} → Reach s → IsAcyclic s
all-IsAcyclic =
    Reach_induction IsAcyclic (λ t u e p. unfold waits_for in cc)
      (λ s t h. IsAcyclic-shrinks (Sub-stop_waiting s t) h) start_waiting-IsAcyclic
      (λ s t r mode free idle h. grant-IsAcyclic s t r mode idle h)
      (λ s t h. IsAcyclic-shrinks {s = s} {t = release_all s t} (λ x y. Edge-release_all s t x y) h)
      (λ s w h.
        IsAcyclic-shrinks {s = s} {t = prune_finished s w}
          (λ x y e. unfold waits_for prune_finished in e) h)

-- In every state that calls of the manager reach from the empty one, in any order and with any
-- deadlines, no transaction waits over a chain of waits for itself.
pub Reach-IsAcyclic : {s : State} → Reach s → (t u : TxnId) → Edge s t u → ¬ (WaitPath s u t)
Reach-IsAcyclic reach = all-IsAcyclic reach
