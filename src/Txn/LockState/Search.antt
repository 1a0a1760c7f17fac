-- ===== src/Txn/LockState/Search.antt =====
-- The search of `would_deadlock` ends, and finds a cycle exactly if there is one.
use simple_rdbms.Common.{ℕ, zero, suc, ◌+◌, ◌≤◌, ◌<◌, ◌≡◌, ◌≢◌, refl, ap, ◌∙◌, true, false}
use simple_rdbms.Common.{◌||◌, none, some, List, [], ◌∷◌, ◌++◌, arith, length, ◌==◌, ==_iff}
use simple_rdbms.Common.{length-append, inl, inr, Bool-cases, Option-cases, ◌↔◌}
use simple_rdbms.Common.Map.{Map, nat_eq, get, contains}
use simple_rdbms.Common.Member.{contains-append, contains-reverse}
use simple_rdbms.Ids.{TxnId}
use simple_rdbms.Txn.LockState.{LockMode, Resource, State, conflicting_holders, waits_for}
use simple_rdbms.Txn.LockState.{search_cycle, pending, cycle_fuel, would_deadlock}
use mathlib.Core.List.{reverse, reverse-append}

length-reverse : (xs : List ℕ) → length (reverse xs) ≡ length xs
length-reverse [] = refl
length-reverse (x ∷ xs) =
    ap length (reverse-append (x ∷ []) xs)
    ∙ omega (arith, length-append (reverse xs) (x ∷ []), length-reverse xs)

abbrev Waits : Type 0
Waits = Map TxnId (Resource × LockMode)

abbrev waits_in : State → TxnId → Waits → List TxnId
waits_in s t m = elim (get t m) [
  | some (resource, mode) ↦ conflicting_holders s resource mode t
  | none ↦ []
]

pending_mono :
    (s : State) (t : TxnId) (visited : List TxnId) (m : Waits)
    → pending s (t ∷ visited) m ≤ pending s visited m
unfolding pending
pending_mono s t visited [] = omega arith
pending_mono s t visited ((u, (r, mode)) ∷ m) = ground (arith, pending_mono s t visited m)

pending_drop :
    (s : State) (t : TxnId) (visited : List TxnId) (m : Waits)
    → contains t visited ≡ false
    → pending s (t ∷ visited) m + length (waits_in s t m) ≤ pending s visited m
unfolding pending get
pending_drop s t visited [] h = omega arith
pending_drop s t visited ((u, (r, mode)) ∷ m) h = elim (Bool-cases (u == t)) [
  | inl e ↦
      rw ((==_iff u t).0 e) (ground (arith, (==_iff t t).1 refl, h, pending_mono s t visited m))
  | inr e ↦ ground (arith, e, pending_drop s t visited m h)
]

-- The search never runs out of a fuel above the length of its stack and what is pending.
pub search_cycle-ne-none :
    (fuel : ℕ) (s : State) (start : TxnId) (visited stack : List TxnId)
    → length stack + pending s visited s.waiting_for < fuel
    → search_cycle fuel s start visited stack ≢ none
unfolding search_cycle waits_for
search_cycle-ne-none zero s start visited stack h = absurd (omega arith)
search_cycle-ne-none (suc fuel) s start visited [] h = λ e. cc
search_cycle-ne-none (suc fuel) s start visited (t ∷ stack) h = elim (Bool-cases (t == start)) [
  | inl found ↦ rw found (λ e. cc)
  | inr _ ↦ elim (Bool-cases (contains t visited)) [
    | inl old ↦ λ e. search_cycle-ne-none fuel s start visited stack (omega arith) (ground arith)
    | inr new ↦ λ e.
        search_cycle-ne-none fuel s start (t ∷ visited) (reverse (waits_for s t) ++ stack)
          (omega (
            arith,
            length-append (reverse (waits_for s t)) stack,
            length-reverse (waits_for s t),
            pending_drop s t visited s.waiting_for new,
          ))
          (ground arith)
  ]
]

-- One transaction waits for another, and chains of such waits.
abbrev pub Edge : State → TxnId → TxnId → Type 0
Edge s t u = contains u (waits_for s t) ≡ true

pub data WaitPath (s : State) : TxnId → TxnId → Type 0 where
  here : {t : TxnId} → WaitPath s t t
  step : {t u v : TxnId} → Edge s t u → WaitPath s u v → WaitPath s t v

abbrev Found : State → TxnId → List TxnId → Type 0
Found s start stack = (b : TxnId) × (contains b stack ≡ true) × WaitPath s b start

Found-behind :
    (s : State) (start t : TxnId) (stack : List TxnId)
    → Found s start stack
    → Found s start (t ∷ stack)
Found-behind s start t stack (b, m, p) = (b, ground (arith, m), p)

Found-expanded :
    (s : State) (start t : TxnId) (stack : List TxnId)
    → Found s start (reverse (waits_for s t) ++ stack)
    → Found s start (t ∷ stack)
Found-expanded s start t stack (b, m, p) = elim (Bool-cases (contains b (waits_for s t))) [
  | inl e ↦ (t, ground (arith, (==_iff t t).1 refl), step e p)
  | inr n ↦ (
    b,
    ground (
      arith,
      m,
      n,
      contains-append b (reverse (waits_for s t)) stack,
      contains-reverse b (waits_for s t),
    ),
    p,
  )
]

search_cycle_sound :
    (fuel : ℕ) (s : State) (start : TxnId) (visited stack : List TxnId)
    → search_cycle fuel s start visited stack ≡ some true
    → Found s start stack
unfolding search_cycle
search_cycle_sound zero s start visited stack h = cc
search_cycle_sound (suc fuel) s start visited [] h = cc
search_cycle_sound (suc fuel) s start visited (t ∷ stack) h = elim (Bool-cases (t == start)) [
  | inl found ↦ (t, ground (arith, (==_iff t t).1 refl), rw ((==_iff t start).0 found) here)
  | inr n ↦ elim (Bool-cases (contains t visited)) [
    | inl old ↦
        Found-behind s start t stack (search_cycle_sound fuel s start visited stack (ground arith))
    | inr new ↦ Found-expanded s start t stack (
        search_cycle_sound fuel s start (t ∷ visited) (reverse (waits_for s t) ++ stack)
          (ground arith))
  ]
]

-- A set that no wait leads out of and that the start is not in.
abbrev Closed : State → TxnId → List TxnId → List TxnId → Type 0
Closed s start visited stack =
    (v u : TxnId)
    → contains v visited ≡ true
    → ((v == start) ≡ false)
      × (contains u (waits_for s v) ≡ true → (contains u visited || contains u stack) ≡ true)

abbrev Covered : State → TxnId → List TxnId → List TxnId → Type 0
Covered s start visited stack =
    (all : List TxnId) × ((u : TxnId)
      → (contains u visited || contains u stack) ≡ true
      → contains u all ≡ true)
    × Closed s start all []

expanded :
    (s : State) (start t : TxnId) (visited stack : List TxnId)
    → (t == start) ≡ false
    → Closed s start visited (t ∷ stack)
    → Closed s start (t ∷ visited) (reverse (waits_for s t) ++ stack)
expanded s start t visited stack n c v u m = elim (Bool-cases (t == v)) [
  | inl e ↦ rw (← (==_iff t v).0 e) (
    n,
    λ w. ground (
      arith,
      w,
      contains-append u (reverse (waits_for s t)) stack,
      contains-reverse u (waits_for s t),
    ),
  )
  | inr e ↦
      let was = c v u (ground (arith, m, e)) in
      (
        was.0,
        λ w. ground (
          arith,
          was.1 w,
          contains-append u (reverse (waits_for s t)) stack,
          contains-reverse u (waits_for s t),
        ),
      )
]

search_cycle-Closed :
    (fuel : ℕ) (s : State) (start : TxnId) (visited stack : List TxnId)
    → Closed s start visited stack
    → search_cycle fuel s start visited stack ≡ some false
    → Covered s start visited stack
unfolding search_cycle
search_cycle-Closed zero s start visited stack c h = cc
search_cycle-Closed (suc fuel) s start visited [] c h = (visited, λ u m. ground arith, c)
search_cycle-Closed (suc fuel) s start visited (t ∷ stack) c h = elim (Bool-cases (t == start)) [
  | inl found ↦ absurd (ground arith)
  | inr n ↦ elim (Bool-cases (contains t visited)) [
    | inl old ↦
        let (all, cover, closed) =
          search_cycle-Closed fuel s start visited stack
            (λ v u m. ((c v u m).0, λ e. ground (arith, (c v u m).1 e, old, ==_iff t u)))
            (ground arith) in
        (all, λ u m. cover u (ground (arith, m, old, ==_iff t u)), closed)
    | inr new ↦
        let (all, cover, closed) =
          search_cycle-Closed fuel s start (t ∷ visited) (reverse (waits_for s t) ++ stack)
            (expanded s start t visited stack n c) (ground arith) in
        (
          all,
          λ u m. cover u (
              ground (
                arith,
                m,
                contains-append u (reverse (waits_for s t)) stack,
                contains-reverse u (waits_for s t),
              )),
          closed,
        )
  ]
]

-- From a set that is closed the start is not reached.
Closed-avoids :
    {s : State} {b start : TxnId} (all : List TxnId)
    → WaitPath s b start
    → contains b all ≡ true
    → Closed s start all []
    → ⊥
Closed-avoids {start = start} all here m c =
    ground (arith, (c start start m).0, (==_iff start start).1 refl)
Closed-avoids all (step {t = t} {u = u} e p) m c =
    Closed-avoids all p (ground (arith, (c t u m).1 e)) c

-- `would_deadlock` answers true exactly if a chain of waits leads from a blocker to the start.
pub would_deadlock_iff :
    (s : State) (start : TxnId) (blockers : List TxnId)
    → (would_deadlock s start blockers ≡ true)
      ↔ ((b : TxnId) × (contains b blockers ≡ true) × WaitPath s b start)
unfolding would_deadlock
would_deadlock_iff s start blockers = (
  λ h.
      let (b, m, p) =
        search_cycle_sound (cycle_fuel s blockers) s start [] (reverse blockers) (ground arith) in
      (b, rw contains-reverse at m, p),
  λ f. elim (Option-cases (search_cycle (cycle_fuel s blockers) s start [] (reverse blockers))) [
    | inl e ↦ absurd (
        search_cycle-ne-none (cycle_fuel s blockers) s start [] (reverse blockers)
          (omega (arith, length-reverse blockers)) e)
    | inr (true, e) ↦ ground (arith, e)
    | inr (false, e) ↦
        let (all, cover, closed) =
          search_cycle-Closed (cycle_fuel s blockers) s start [] (reverse blockers)
            (λ v u m. absurd (ground arith)) e in
        absurd (
          Closed-avoids all f.2 (cover f.0 (ground (arith, f.1, contains-reverse f.0 blockers)))
            closed)
  ],
)
