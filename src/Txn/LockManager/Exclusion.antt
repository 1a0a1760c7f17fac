-- ===== src/Txn/LockManager/Exclusion.antt =====
-- The locks that are held at one time are compatible, and a granted lock is held.
use simple_rdbms.Common.{◌≡◌, ◌≢◌, refl, sym, subst, ◌∙◌, Bool, true, false, ◌&&◌, ◌||◌, List, []}
use simple_rdbms.Common.{◌∷◌, ◌++◌, arith, ◌==◌, ==_iff, inl, inr}
use simple_rdbms.Common.{Bool-cases, retain, ◌⊎◌}
use simple_rdbms.Common.Map.{Map, nat_eq, get, contains}
use simple_rdbms.Ids.{TxnId}
use simple_rdbms.Txn.LockState.{LockMode, shared, exclusive, mode_beq, Resource, resource_beq}
use simple_rdbms.Txn.LockState.{resource_eq, Holders, State}
use simple_rdbms.Txn.LockState.{conflicting_holders, conflicts_with, or_empty, holders_of}
use simple_rdbms.Txn.LockManager.{grant, stop_waiting, start_waiting}
use simple_rdbms.Txn.LockManager.{release_one, release_each, release_all, prune_finished}
use simple_rdbms.Txn.LockManager.{is_empty, not_holder}
use simple_rdbms.Txn.LockManager.{Reach}
use simple_rdbms.Txn.LockManager.Induction.{Reach_induction}
use simple_rdbms.Txn.LockManager.Waits.{blocker_in, blocker_in-retain}
use simple_rdbms.Txn.LockManager.Waits.{contains-conflicting_holders, holders_of-grant}
use simple_rdbms.Txn.LockManager.Waits.{get-release_one}

-- Whether `x` is a holder with the mode.
unfoldable pub holds_in : TxnId → LockMode → Holders → Bool
holds_in x mode [] = false
holds_in x mode ((id, held) ∷ hs) = id == x && mode_beq held mode || holds_in x mode hs

-- No holder is kept from its own mode by another transaction.
abbrev pub AreCompatible : Holders → Type 0
AreCompatible hs =
    (x y : TxnId) (mode : LockMode) → holds_in x mode hs ≡ true → blocker_in mode x y hs ≡ false

holds_in-retain :
    (x t : TxnId) (mode : LockMode) (hs : Holders)
    → holds_in x mode (retain (not_holder t) hs) ≡ true
    → (holds_in x mode hs ≡ true) × ((x == t) ≡ false)
unfolding holds_in
holds_in-retain x t mode [] h = cc
holds_in-retain x t mode ((id, held) ∷ hs) h =
    ground (arith, holds_in-retain x t mode hs, ==_iff id t, ==_iff id x, ==_iff x t)

retain-AreCompatible :
    (t : TxnId) (hs : Holders) → AreCompatible hs → AreCompatible (retain (not_holder t) hs)
retain-AreCompatible t hs c x y mode h =
    ground (arith, c x y mode (holds_in-retain x t mode hs h).0, blocker_in-retain mode x y t hs)

holds_in-append :
    (x t : TxnId) (mode m : LockMode) (hs : Holders)
    → holds_in x mode (hs ++ (t, m) ∷ []) ≡ (holds_in x mode hs || (t == x && mode_beq m mode))
unfolding holds_in
holds_in-append x t mode m [] = ground arith
holds_in-append x t mode m ((id, held) ∷ hs) = ground (arith, holds_in-append x t mode m hs)

blocker_in-last :
    (x y t : TxnId) (mode m : LockMode) (hs : Holders)
    → blocker_in mode x y (retain (not_holder t) hs ++ (t, m) ∷ []) ≡ true
    → (blocker_in mode x y hs ≡ true)
      ⊎ ((t ≡ y) × ((t == x) ≡ false) × (conflicts_with m mode ≡ true))
unfolding blocker_in
blocker_in-last x y t mode m [] h = ground (arith, ==_iff t y)
blocker_in-last x y t mode m ((id, held) ∷ hs) h = ground (arith, blocker_in-last x y t mode m hs)

-- A holder whose mode conflicts is a blocker.
holder_blocks :
    (x t : TxnId) (mode m : LockMode) (hs : Holders)
    → holds_in x mode hs ≡ true
    → (x == t) ≡ false
    → conflicts_with mode m ≡ true
    → blocker_in m t x hs ≡ true
unfolding holds_in blocker_in conflicts_with
holder_blocks x t mode m [] h n c = cc
holder_blocks x t mode m ((id, held) ∷ hs) h n c =
    ground (arith, ==_iff id x, ==_iff id t, ==_iff x t, holder_blocks x t mode m hs)

conflicts_with_symm : (a b : LockMode) → conflicts_with a b ≡ conflicts_with b a
unfolding conflicts_with
conflicts_with_symm shared shared = refl
conflicts_with_symm shared exclusive = refl
conflicts_with_symm exclusive shared = refl
conflicts_with_symm exclusive exclusive = refl

new_lock_clash :
    (t x y : TxnId) (mode m : LockMode) (hs : Holders)
    → ((z : TxnId) → blocker_in mode t z hs ≡ false)
    → AreCompatible hs
    → holds_in x m (retain (not_holder t) hs ++ (t, mode) ∷ []) ≡ true
    → (blocker_in m x y hs ≡ true) ⊎ ((t ≡ y) × ((t == x) ≡ false) × (conflicts_with mode m ≡ true))
    → ⊥
new_lock_clash t x y mode m hs free c h (inl b) =
    elim (Bool-cases (holds_in x m (retain (not_holder t) hs))) [
      | inl old ↦ ground (arith, b, c x y m (holds_in-retain x t m hs old).0)
      | inr new ↦ grind (
        arith,
        b,
        free y,
        h,
        new,
        holds_in-append x t m mode (retain (not_holder t) hs),
        ==_iff t x,
      )
    ]
new_lock_clash t x y mode m hs free c h (inr (p, n, k)) =
    elim (Bool-cases (holds_in x m (retain (not_holder t) hs))) [
      | inl old ↦
          let was = holds_in-retain x t m hs old in
          ground (
            arith,
            free x,
            was.1,
            holder_blocks x t m mode hs was.0 was.1 (conflicts_with_symm m mode ∙ k),
          )
      | inr new ↦ ground (arith, n, h, new, holds_in-append x t m mode (retain (not_holder t) hs))
    ]

-- A lock is added where nobody is in its way.
new_lock-AreCompatible :
    (t : TxnId) (mode : LockMode) (hs : Holders)
    → ((z : TxnId) → blocker_in mode t z hs ≡ false)
    → AreCompatible hs
    → AreCompatible (retain (not_holder t) hs ++ (t, mode) ∷ [])
new_lock-AreCompatible t mode hs free c x y m h =
    elim (Bool-cases (blocker_in m x y (retain (not_holder t) hs ++ (t, mode) ∷ []))) [
      | inl b ↦ absurd (new_lock_clash t x y mode m hs free c h (blocker_in-last x y t m mode hs b))
      | inr b ↦ b
    ]

-- At every resource the holders are compatible.
abbrev pub IsExclusive : State → Type 0
IsExclusive s = (r : Resource) → AreCompatible (holders_of s r)

nobody_in_the_way :
    (s : State) (r : Resource) (mode : LockMode) (t z : TxnId)
    → is_empty (conflicting_holders s r mode t) ≡ true
    → blocker_in mode t z (holders_of s r) ≡ false
nobody_in_the_way s r mode t z h = ground (
  arith,
  h,
  nil_of_empty (conflicting_holders s r mode t),
  contains-conflicting_holders s r mode t z,
)
  where
    nil_of_empty : (xs : List TxnId) → is_empty xs ≡ true → contains z xs ≡ false
    nil_of_empty [] h = refl
    nil_of_empty (x ∷ xs) h = cc

grant-IsExclusive :
    (s : State) (t : TxnId) (r : Resource) (mode : LockMode)
    → is_empty (conflicting_holders s r mode t) ≡ true
    → IsExclusive s
    → IsExclusive (grant s t r mode)
grant-IsExclusive s t r mode free c q = elim (Bool-cases (resource_beq r q)) [
  | inl e ↦ subst AreCompatible (sym (holders_of-grant s t r q mode ∙ rw e)) (
      new_lock-AreCompatible t mode (holders_of s r) (λ z. nobody_in_the_way s r mode t z free)
        (c r))
  | inr e ↦ subst AreCompatible (sym (holders_of-grant s t r q mode ∙ rw e)) (c q)
]

abbrev AllCompatible : Map Resource Holders → Type 0
AllCompatible m = (r : Resource) → AreCompatible (or_empty (get r m))

release_one-AllCompatible :
    (t : TxnId) (r : Resource) (m : Map Resource Holders)
    → AllCompatible m
    → AllCompatible (release_one t r m)
release_one-AllCompatible t r m c q = elim (Bool-cases (resource_beq r q)) [
  | inl e ↦
      subst AreCompatible (sym (get-release_one t r q m ∙ rw e))
        (retain-AreCompatible t (or_empty (get q m)) (c q))
  | inr e ↦ subst AreCompatible (sym (get-release_one t r q m ∙ rw e)) (c q)
]

release_each-AllCompatible :
    (t : TxnId) (rs : List Resource) (m : Map Resource Holders)
    → AllCompatible m
    → AllCompatible (release_each t rs m)
unfolding release_each
release_each-AllCompatible t [] m c = c
release_each-AllCompatible t (r ∷ rs) m c =
    release_each-AllCompatible t rs (release_one t r m) (release_one-AllCompatible t r m c)

all-IsExclusive : {s : State} → Reach s → IsExclusive s
unfolding blocker_in get
all-IsExclusive =
    Reach_induction IsExclusive (λ r x y m h. unfold holds_in in cc)
      (λ s t h. unfold stop_waiting in h) (λ s t r mode d h. unfold start_waiting in h)
      (λ s t r mode free idle h. grant-IsExclusive s t r mode free h)
      (λ s t h.
        unfold release_all in release_each-AllCompatible t (or_empty (get t s.held_by)) s.holders h)
      (λ s w h. unfold prune_finished in h)

-- In every state that calls of the manager reach from the empty one, in any order and with any
-- deadlines, two different transactions that hold one resource hold it in modes that do not
-- conflict.
pub Reach-IsExclusive :
    {s : State}
    → Reach s
    → (r : Resource) (x y : TxnId) (a b : LockMode) → x ≢ y
    → holds_in x a (holders_of s r) ≡ true
    → holds_in y b (holders_of s r) ≡ true
    → conflicts_with b a ≡ false
Reach-IsExclusive {s = s} reach r x y a b n h k = elim (Bool-cases (conflicts_with b a)) [
  | inl c ↦ ground (
    arith,
    all-IsExclusive reach r x y a h,
    holder_blocks y x b a (holders_of s r) k (ground (arith, n, ==_iff y x)) c,
  )
  | inr c ↦ c
]
