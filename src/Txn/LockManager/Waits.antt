-- ===== src/Txn/LockManager/Waits.antt =====
-- Who waits for whom after each change that lock_manager.rs makes of its state.
use simple_rdbms.Common.{◌≡◌, refl, Bool, true, false, ◌&&◌, ◌||◌, map}
use simple_rdbms.Common.{none, some, List, [], ◌∷◌, ◌++◌, arith, ◌==◌, ==_iff, retain}
use simple_rdbms.Common.{if◌then◌else◌, inl, inr, Bool-cases, Option-cases}
use simple_rdbms.Common.Map.{Map, nat_eq, get, remove, contains, get-insert, get-remove}
use simple_rdbms.Ids.{TxnId}
use simple_rdbms.Txn.LockState.{LockMode, Resource, resource_eq, resource_beq, resource_beq_sound}
use simple_rdbms.Txn.LockState.{Holders, State, or_empty, holders_of, is_blocker, holder_id}
use simple_rdbms.Txn.LockState.{conflicting_holders, waits_for}
use simple_rdbms.Txn.LockState.Search.{Edge}
use simple_rdbms.Txn.LockManager.{not_holder, grant, stop_waiting, start_waiting, release_one}
use simple_rdbms.Txn.LockManager.{release_each, release_all, is_empty}

-- Whether `y` holds a lock of the list that keeps `x` from the mode.
unfoldable pub blocker_in : LockMode → TxnId → TxnId → Holders → Bool
blocker_in mode x y [] = false
blocker_in mode x y ((id, held) ∷ hs) =
    id == y && is_blocker mode x (id, held) || blocker_in mode x y hs

pub contains-conflicting :
    (mode : LockMode) (x y : TxnId) (hs : Holders)
    → contains y (map holder_id (retain (is_blocker mode x) hs)) ≡ blocker_in mode x y hs
unfolding blocker_in
contains-conflicting mode x y [] = refl
contains-conflicting mode x y ((id, held) ∷ hs) = ground (arith, contains-conflicting mode x y hs)

pub contains-conflicting_holders :
    (s : State) (r : Resource) (mode : LockMode) (x y : TxnId)
    → contains y (conflicting_holders s r mode x) ≡ blocker_in mode x y (holders_of s r)
unfolding conflicting_holders
contains-conflicting_holders s r mode x y = contains-conflicting mode x y (holders_of s r)

-- A change that adds no wait of `x`, and no lock of `y` that `x` may wait for, adds no edge.
pub Edge-shrinks :
    (s t : State) (x y : TxnId)
    → ((w : Resource × LockMode) → get x t.waiting_for ≡ some w → get x s.waiting_for ≡ some w)
    → ((r : Resource) (mode : LockMode)
        → blocker_in mode x y (holders_of t r) ≡ true
        → blocker_in mode x y (holders_of s r) ≡ true)
    → Edge t x y
    → Edge s x y
unfolding waits_for
Edge-shrinks s t x y waits holds e = elim (Option-cases (get x t.waiting_for)) [
  | inl n ↦ absurd (ground (arith, n, e))
  | inr ((r, mode), w) ↦ ground (
    arith,
    e,
    w,
    waits (r, mode) w,
    contains-conflicting_holders t r mode x y,
    contains-conflicting_holders s r mode x y,
    holds r mode,
  )
]

pub blocker_in-append :
    (mode : LockMode) (x y t : TxnId) (m : LockMode) (hs : Holders)
    → (t == y) ≡ false
    → blocker_in mode x y (retain (not_holder t) hs ++ (t, m) ∷ []) ≡ blocker_in mode x y hs
unfolding blocker_in
blocker_in-append mode x y t m [] n = ground arith
blocker_in-append mode x y t m ((id, held) ∷ hs) n =
    ground (arith, ==_iff id t, ==_iff id y, blocker_in-append mode x y t m hs n)

pub blocker_in-retain :
    (mode : LockMode) (x y t : TxnId) (hs : Holders)
    → blocker_in mode x y (retain (not_holder t) hs) ≡ true
    → blocker_in mode x y hs ≡ true
unfolding blocker_in
blocker_in-retain mode x y t [] h = h
blocker_in-retain mode x y t ((id, held) ∷ hs) h = ground (arith, blocker_in-retain mode x y t hs)

-- The holders after a grant: the caller's old lock on the resource gives way to the new one.
pub holders_of-grant :
    (s : State) (t : TxnId) (r q : Resource) (m : LockMode)
    → holders_of (grant s t r m) q ≡ (
        if resource_beq r q
        then retain (not_holder t) (holders_of s r) ++ (t, m) ∷ []
        else holders_of s q)
unfolding grant
holders_of-grant s t r q m =
    ground (arith, get-insert r q (retain (not_holder t) (holders_of s r) ++ (t, m) ∷ []) s.holders)

pub Edge-grant :
    (s : State) (t : TxnId) (r : Resource) (m : LockMode) (x y : TxnId)
    → (t == y) ≡ false
    → Edge (grant s t r m) x y
    → Edge s x y
Edge-grant s t r m x y n =
    Edge-shrinks s (grant s t r m) x y (λ w h. unfold grant in h)
      (λ q mode h. elim (Bool-cases (resource_beq r q)) [
        | inl e ↦
            let p = resource_beq_sound r q e in
            ground (
              arith,
              h,
              e,
              p,
              holders_of-grant s t r q m,
              blocker_in-append mode x y t m (holders_of s r) n,
            )
        | inr e ↦ ground (arith, h, e, holders_of-grant s t r q m)
      ])

get-remove-some :
    {V : Type 0} (t x : TxnId) (w : V) (m : Map TxnId V)
    → get x (remove t m) ≡ some w
    → (get x m ≡ some w) × ((t == x) ≡ false)
get-remove-some t x w m h = ground (arith, h, get-remove t x m)

pub Edge-stop_waiting : (s : State) (t x y : TxnId) → Edge (stop_waiting s t) x y → Edge s x y
Edge-stop_waiting s t x y =
    Edge-shrinks s (stop_waiting s t) x y
      (λ w h. (get-remove-some t x w s.waiting_for (unfold stop_waiting in h)).0)
      (λ r mode h. unfold stop_waiting in h)

-- One that does not wait has no edges.
pub Edge-idle : (s : State) (t y : TxnId) → get t s.waiting_for ≡ none → Edge s t y → ⊥
unfolding waits_for
Edge-idle s t y n e = ground (arith, e, n)

pub idle_stopped : (s : State) (t : TxnId) → get t (stop_waiting s t).waiting_for ≡ none
unfolding stop_waiting
idle_stopped s t = ground (arith, get-remove t t s.waiting_for, (==_iff t t).1 refl)

pub Edge-start_waiting :
    (s : State) (t : TxnId) (r : Resource) (m : LockMode) (x y : TxnId)
    → Edge (start_waiting s t r m) x y
    → (if t == x then contains y (conflicting_holders s r m t) ≡ true else Edge s x y)
unfolding waits_for start_waiting conflicting_holders
Edge-start_waiting s t r m x y e = elim (Bool-cases (t == x)) [
  | inl h ↦ ground (arith, e, h, (==_iff t x).0 h, get-insert t x (r, m) s.waiting_for)
  | inr h ↦ ground (arith, e, h, get-insert t x (r, m) s.waiting_for)
]

is_empty→nil : (hs : Holders) → is_empty hs ≡ true → hs ≡ []
is_empty→nil [] h = refl
is_empty→nil (x ∷ hs) h = cc

-- `release_one` takes the locks of the transaction off the one resource, whether or not the list
-- of its holders is dropped with them.
pub get-release_one :
    (t : TxnId) (r q : Resource) (m : Map Resource Holders)
    → or_empty (get q (release_one t r m)) ≡ (
        if resource_beq r q then retain (not_holder t) (or_empty (get q m)) else or_empty (get q m))
unfolding release_one
get-release_one t r q m = elim (Bool-cases (resource_beq r q)) [
  | inl e ↦ same e (resource_beq_sound r q e)
  | inr e ↦ elim (Option-cases (get r m)) [
    | inl n ↦ ground (arith, n, e)
    | inr (hs, g) ↦
        ground (arith, g, e, get-remove r q m, get-insert r q (retain (not_holder t) hs) m)
  ]
]
  where
    same :
        resource_beq r q ≡ true
        → r ≡ q
        → or_empty (get q (release_one t r m)) ≡ (
            if resource_beq r q
            then retain (not_holder t) (or_empty (get q m))
            else or_empty (get q m))
    same e p = elim (Option-cases (get r m)) [
      | inl n ↦ ground (arith, n, e, p)
      | inr (hs, g) ↦ ground (
        arith,
        g,
        e,
        p,
        is_empty→nil (retain (not_holder t) hs),
        get-remove r q m,
        get-insert r q (retain (not_holder t) hs) m,
      )
    ]

release_one_shrinks :
    (mode : LockMode) (x y t : TxnId) (r q : Resource) (m : Map Resource Holders)
    → blocker_in mode x y (or_empty (get q (release_one t r m))) ≡ true
    → blocker_in mode x y (or_empty (get q m)) ≡ true
release_one_shrinks mode x y t r q m h = elim (Bool-cases (resource_beq r q)) [
  | inl e ↦
      blocker_in-retain mode x y t (or_empty (get q m))
        (ground (arith, h, e, get-release_one t r q m))
  | inr e ↦ ground (arith, h, e, get-release_one t r q m)
]

pub release_each_shrinks :
    (mode : LockMode) (x y t : TxnId) (rs : List Resource) (q : Resource) (m : Map Resource Holders)
    → blocker_in mode x y (or_empty (get q (release_each t rs m))) ≡ true
    → blocker_in mode x y (or_empty (get q m)) ≡ true
unfolding release_each
release_each_shrinks mode x y t [] q m h = h
release_each_shrinks mode x y t (r ∷ rs) q m h =
    release_one_shrinks mode x y t r q m
      (release_each_shrinks mode x y t rs q (release_one t r m) h)

pub Edge-release_all : (s : State) (t x y : TxnId) → Edge (release_all s t) x y → Edge s x y
Edge-release_all s t x y =
    Edge-shrinks s (release_all s t) x y
      (λ w h. (get-remove-some t x w s.waiting_for (unfold release_all in h)).0)
      (λ r mode h.
        release_each_shrinks mode x y t (or_empty (get t s.held_by)) r s.holders
          (unfold release_all in h))
