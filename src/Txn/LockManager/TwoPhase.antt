-- ===== src/Txn/LockManager/TwoPhase.antt =====
-- Strict two-phase locking: the locks of a transaction are recorded with it, and `release_all` frees
-- all of them and no other.
use simple_rdbms.Common.{◌≡◌, ◌≢◌, refl, Bool, true, false, not, ◌&&◌, ◌||◌, List, []}
use simple_rdbms.Common.{◌∷◌, ◌++◌, some, arith, ◌==◌, ==_iff, if◌then◌else◌, inl, inr}
use simple_rdbms.Common.{Bool-cases, retain, find, any}
use simple_rdbms.Common.Map.{Map, nat_eq, get, contains, get-insert, get-remove}
use simple_rdbms.Ids.{TxnId}
use simple_rdbms.Txn.LockState.{LockMode, shared, exclusive, mode_beq, Resource, resource_beq}
use simple_rdbms.Txn.LockState.{resource_beq_sound, resource_beq_refl, resource_eq, Holders, State}
use simple_rdbms.Txn.LockState.{or_empty, holders_of}
use simple_rdbms.Txn.LockManager.{
  grant, stop_waiting, start_waiting, contend, round, acquire, covers,
}
use simple_rdbms.Txn.LockManager.{release_one, release_each, release_all, prune_finished, held_mode}
use simple_rdbms.Txn.LockManager.{not_holder, is_holder, granted}
use simple_rdbms.Txn.LockManager.{Reach}
use simple_rdbms.Txn.LockManager.Induction.{Reach_induction}
use simple_rdbms.Txn.LockManager.Waits.{holders_of-grant, get-release_one}

-- Whether the transaction is among the holders, in any mode.
abbrev pub is_among : TxnId → Holders → Bool
is_among t hs = any (is_holder t) hs

is_among-retain :
    (x t : TxnId) (hs : Holders)
    → is_among x (retain (not_holder t) hs) ≡ (not (t == x) && is_among x hs)
is_among-retain x t [] = ground arith
is_among-retain x t ((id, held) ∷ hs) =
    ground (arith, is_among-retain x t hs, ==_iff id t, ==_iff id x, ==_iff t x)

is_among-append :
    (x t : TxnId) (m : LockMode) (hs : Holders)
    → is_among x (hs ++ (t, m) ∷ []) ≡ (is_among x hs || t == x)
is_among-append x t m [] = ground arith
is_among-append x t m ((id, held) ∷ hs) = ground (arith, is_among-append x t m hs)

-- Every lock is recorded with its holder, so that `release_all` finds it.
abbrev pub IsRecorded : State → Type 0
IsRecorded s =
    (r : Resource) (t : TxnId)
    → is_among t (holders_of s r) ≡ true
    → contains r (or_empty (get t s.held_by)) ≡ true

recorded_of :
    (s : State) (t u : TxnId) (r : Resource) (m : LockMode)
    → or_empty (get u (grant s t r m).held_by) ≡ (
        if t == u
        then (if contains r (or_empty (get t s.held_by))
            then or_empty (get t s.held_by)
            else r ∷ or_empty (get t s.held_by))
        else or_empty (get u s.held_by))
unfolding grant
recorded_of s t u r m = ground (
  arith,
  get-insert t u
      (if contains r (or_empty (get t s.held_by))
        then or_empty (get t s.held_by)
        else r ∷ or_empty (get t s.held_by))
      s.held_by,
)

grant-IsRecorded :
    (s : State) (t : TxnId) (r : Resource) (m : LockMode)
    → IsRecorded s
    → IsRecorded (grant s t r m)
grant-IsRecorded s t r m h q u k = elim (Bool-cases (resource_beq r q)) [
  | inl e ↦ ground (
    arith,
    k,
    e,
    resource_beq_sound r q e,
    resource_beq_refl r,
    h q u,
    holders_of-grant s t r q m,
    is_among-append u t m (retain (not_holder t) (holders_of s r)),
    is_among-retain u t (holders_of s r),
    recorded_of s t u r m,
    ==_iff t u,
  )
  | inr e ↦
      ground (arith, k, e, h q u, holders_of-grant s t r q m, recorded_of s t u r m, ==_iff t u)
]

-- What `release_each` leaves of the holders of a resource.
get-release_each :
    (x t : TxnId) (rs : List Resource) (q : Resource) (m : Map Resource Holders)
    → is_among x (or_empty (get q (release_each t rs m)))
      ≡ (not (contains q rs && t == x) && is_among x (or_empty (get q m)))
unfolding release_each
get-release_each x t [] q m = ground arith
get-release_each x t (r ∷ rs) q m = ground (
  arith,
  get-release_each x t rs q (release_one t r m),
  get-release_one t r q m,
  is_among-retain x t (or_empty (get q m)),
)

release_all-IsRecorded : (s : State) (t : TxnId) → IsRecorded s → IsRecorded (release_all s t)
unfolding release_all
release_all-IsRecorded s t h q u k = ground (
  arith,
  k,
  h q u,
  h q t,
  get-release_each u t (or_empty (get t s.held_by)) q s.holders,
  get-remove t u s.held_by,
  ==_iff t u,
)

all-IsRecorded : {s : State} → Reach s → IsRecorded s
unfolding get
all-IsRecorded =
    Reach_induction IsRecorded (λ r t k. cc) (λ s t h. unfold stop_waiting in h)
      (λ s t r mode d h. unfold start_waiting in h)
      (λ s t r mode free idle h. grant-IsRecorded s t r mode h) release_all-IsRecorded
      (λ s w h. unfold prune_finished in h)

-- In every state that calls of the manager reach, `release_all` takes the transaction from the
-- holders of every resource, and takes nobody else from the holders of any.
pub is_among-release_all :
    {s : State}
    → Reach s
    → (t x : TxnId) (r : Resource)
    → is_among x (holders_of (release_all s t) r) ≡ (not (t == x) && is_among x (holders_of s r))
unfolding release_all
is_among-release_all {s = s} reach t x r = ground (
  arith,
  all-IsRecorded reach r t,
  get-release_each x t (or_empty (get t s.held_by)) r s.holders,
  ==_iff t x,
)

find-append :
    (t : TxnId) (m : LockMode) (hs : Holders)
    → find (is_holder t) (retain (not_holder t) hs ++ (t, m) ∷ []) ≡ some (t, m)
find-append t m [] = ground (arith, ==_iff t t)
find-append t m ((id, held) ∷ hs) = ground (arith, find-append t m hs)

mode_beq_refl : (m : LockMode) → mode_beq m m ≡ true
mode_beq_refl shared = refl
mode_beq_refl exclusive = refl

held_mode-grant :
    (s : State) (t : TxnId) (r : Resource) (m : LockMode)
    → covers (held_mode (grant s t r m) t r) m ≡ true
unfolding held_mode
held_mode-grant s t r m = ground (
  arith,
  holders_of-grant s t r r m,
  resource_beq_refl r,
  find-append t m (holders_of s r),
  mode_beq_refl m,
)

contend-granted :
    (s : State) (t : TxnId) (r : Resource) (mode : LockMode) (expired : Bool)
    → (contend s t r mode expired).1 ≡ granted
    → covers (held_mode (contend s t r mode expired).0 t r) mode ≡ true
unfolding contend
contend-granted s t r mode expired g = ground (arith, g, held_mode-grant s t r mode)

round-granted :
    (s : State) (t : TxnId) (r : Resource) (mode : LockMode) (expired : Bool)
    → (round s t r mode expired).1 ≡ granted
    → covers (held_mode (round s t r mode expired).0 t r) mode ≡ true
unfolding round
round-granted s t r mode expired g =
    elim (Bool-cases (covers (held_mode (stop_waiting s t) t r) mode)) [
      | inl e ↦ ground (arith, e)
      | inr e ↦ ground (arith, e, g, contend-granted (stop_waiting s t) t r mode expired)
    ]

-- A call of `acquire` that grants the lock leaves the caller with the mode that it asked for, or
-- the exclusive one, on the resource, and with a transaction that has not unlocked yet.
pub acquire-granted :
    (s : State) (t : TxnId) (r : Resource) (mode : LockMode) (expired : Bool)
    → (acquire s t r mode expired).1 ≡ granted
    → (covers (held_mode (acquire s t r mode expired).0 t r) mode ≡ true)
      × (contains t s.finished ≡ false)
unfolding acquire
acquire-granted s t r mode expired g = elim (Bool-cases (contains t s.finished)) [
  | inl e ↦ absurd (ground (arith, e, g))
  | inr e ↦ ground (arith, e, g, round-granted s t r mode expired)
]

contend-refused :
    (s : State) (t : TxnId) (r : Resource) (mode : LockMode) (expired : Bool)
    → (contend s t r mode expired).1 ≢ granted
    → ((contend s t r mode expired).0.holders ≡ s.holders)
      × ((contend s t r mode expired).0.held_by ≡ s.held_by)
unfolding contend stop_waiting start_waiting
contend-refused s t r mode expired n = ground (arith, n)

stop_waiting_keeps :
    (s : State) (t : TxnId)
    → ((stop_waiting s t).holders ≡ s.holders) × ((stop_waiting s t).held_by ≡ s.held_by)
unfolding stop_waiting
stop_waiting_keeps s t = (refl, refl)

-- A call of `acquire` that does not grant the lock, because it fails or has to wait, changes
-- neither the holders of any resource nor the record of who holds what.
pub acquire-refused :
    (s : State) (t : TxnId) (r : Resource) (mode : LockMode) (expired : Bool)
    → (acquire s t r mode expired).1 ≢ granted
    → ((acquire s t r mode expired).0.holders ≡ s.holders)
      × ((acquire s t r mode expired).0.held_by ≡ s.held_by)
unfolding acquire round
acquire-refused s t r mode expired n = elim (Bool-cases (contains t s.finished)) [
  | inl e ↦ ground (arith, e)
  | inr e ↦
      let kept = contend-refused (stop_waiting s t) t r mode expired in
      ground (arith, e, n, kept, stop_waiting_keeps s t)
]
