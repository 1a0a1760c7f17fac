-- ===== src/Storage/Replacer/Recent.antt =====
-- The histories of replacer.rs hold the last `k` times at which the frames were used.
use simple_rdbms.Common.{ℕ, ◌+◌, ◌≤◌, ◌≡◌, refl, sym, ap, ◌∙◌, Bool, false, none, some}
use simple_rdbms.Common.{[], ◌∷◌, ◌++◌, All, arith, ◌==◌, ==_iff, inl, inr}
use simple_rdbms.Common.{Bool-cases, Option-cases, subst}
use simple_rdbms.Common.Map.{Map, nat_eq, get, insert, remove, get-insert, get-remove}
use simple_rdbms.Storage.Replacer.{FrameId, FrameEntry, LruKReplacer, or_new, remember}
use simple_rdbms.Storage.Replacer.{record_access, set_evictable, remove_frame}
use simple_rdbms.Storage.Replacer.Victim.{evict_where-best}
use simple_rdbms.Storage.Replacer.Uses.{Times, with_use, without, Uses, starts, accesses, marks}
use simple_rdbms.Storage.Replacer.Uses.{gives_up, removes, IsRecent, IsRecent-later}
use simple_rdbms.Storage.Replacer.Uses.{IsRecent-remember}

abbrev Frames : Type 0
Frames = Map FrameId FrameEntry

-- Each frame has its last times, and a frame that is not there has none.
abbrev pub AreRecent : ℕ → ℕ → Times → Frames → Type 0
AreRecent k clock uses frames = All (λ p. IsRecent k clock (uses p.0) p.1.history) frames

abbrev NoneElse : Times → Frames → Type 0
NoneElse uses frames = (f : FrameId) → get f frames ≡ none → uses f ≡ []

module _ (k c d : ℕ) (uses uses' : Times) (f : FrameId) (le : c ≤ d)
    (same : (g : FrameId) → (f == g) ≡ false → uses' g ≡ uses g) where
  AreRecent-remove :
      (frames : Frames) → AreRecent k c uses frames → AreRecent k d uses' (remove f frames)
  unfolding remove
  AreRecent-remove [] h = tt
  AreRecent-remove ((g, e) ∷ frames) (h, hs) = elim (Bool-cases (g == f)) [
    | inl b ↦ rw b (AreRecent-remove frames hs)
    | inr b ↦
        let apart : (f == g) ≡ false = ground (arith, b, ==_iff g f, ==_iff f g) in
        rw b (
          subst (λ us. IsRecent k d us e.history) (sym (same g apart))
              (IsRecent-later k c d (uses g) e.history le h),
          AreRecent-remove frames hs,
        )
  ]

  AreRecent-insert :
      (frames : Frames) (e : FrameEntry)
      → AreRecent k c uses frames
      → IsRecent k d (uses' f) e.history
      → AreRecent k d uses' (insert f e frames)
  unfolding insert
  AreRecent-insert frames e h new = (new, AreRecent-remove frames h)

  NoneElse-insert :
      (frames : Frames) (e : FrameEntry) → NoneElse uses frames → NoneElse uses' (insert f e frames)
  NoneElse-insert frames e h g there = elim (Bool-cases (f == g)) [
    | inl b ↦ absurd (ground (arith, get-insert f g e frames, b, there))
    | inr b ↦ same g b ∙ h g (ground (arith, get-insert f g e frames, b, there))
  ]

  NoneElse-remove :
      (frames : Frames) → uses' f ≡ [] → NoneElse uses frames → NoneElse uses' (remove f frames)
  NoneElse-remove frames new h g there = elim (Bool-cases (f == g)) [
    | inl b ↦ ap uses' (sym ((==_iff f g).0 b)) ∙ new
    | inr b ↦ same g b ∙ h g (ground (arith, get-remove f g frames, b, there))
  ]

AreRecent-get :
    (k c : ℕ) (uses : Times) (frames : Frames) (f : FrameId) (e : FrameEntry)
    → AreRecent k c uses frames
    → get f frames ≡ some e
    → IsRecent k c (uses f) e.history
unfolding get
AreRecent-get k c uses [] f e h there = cc
AreRecent-get k c uses ((g, e') ∷ frames) f e (h, hs) there = elim (Bool-cases (g == f)) [
  | inl b ↦
      let here : e' ≡ e = ground (arith, b, there) in
      subst (λ x. IsRecent k c (uses x) e.history) ((==_iff g f).0 b)
        (subst (λ x. IsRecent k c (uses g) x.history) here h)
  | inr b ↦ AreRecent-get k c uses frames f e hs (ground (arith, b, there))
]

-- The history of a frame, or a new one.
IsRecent-or_new :
    (k c : ℕ) (uses : Times) (frames : Frames) (f : FrameId)
    → AreRecent k c uses frames
    → NoneElse uses frames
    → IsRecent k c (uses f) (or_new (get f frames)).history
IsRecent-or_new k c uses frames f h none_else = elim (Option-cases (get f frames)) [
  | inl n ↦
      rw (n, none_else f n)
        (record { older = []; parts = refl; full = inl refl; short = omega arith; past = tt })
  | inr (e, there) ↦ rw there (AreRecent-get k c uses frames f e h there)
]

abbrev IsKept : LruKReplacer → Times → Type 0
IsKept r uses = AreRecent r.k r.clock uses r.frames × NoneElse uses r.frames

with_use-other :
    (uses : Times) (f : FrameId) (time : ℕ) (g : FrameId)
    → (f == g) ≡ false
    → with_use uses f time g ≡ uses g
with_use-other uses f time g h = rw h refl

with_use-same :
    (uses : Times) (f : FrameId) (time : ℕ) → with_use uses f time f ≡ uses f ++ time ∷ []
with_use-same uses f time = rw ((==_iff f f).1 refl) refl

without-other : (uses : Times) (f g : FrameId) → (f == g) ≡ false → without uses f g ≡ uses g
without-other uses f g h = rw h refl

without-same : (uses : Times) (f : FrameId) → without uses f f ≡ []
without-same uses f = rw ((==_iff f f).1 refl) refl

removed-IsKept :
    (r : LruKReplacer) (uses : Times) (f : FrameId)
    → IsKept r uses
    → IsKept (record r { frames = remove f r.frames }) (without uses f)
removed-IsKept r uses f (h, none_else) = (
  AreRecent-remove r.k r.clock r.clock uses (without uses f) f (omega arith) (without-other uses f)
      r.frames h,
  NoneElse-remove r.k r.clock r.clock uses (without uses f) f (omega arith) (without-other uses f)
      r.frames (without-same uses f) none_else,
)

record_access-IsKept :
    (r : LruKReplacer) (uses : Times) (f : FrameId)
    → IsKept r uses
    → IsKept (record_access r f) (with_use uses f (r.clock + 1))
unfolding record_access
record_access-IsKept r uses f (h, none_else) =
    let old = or_new (get f r.frames) in
    let entry : FrameEntry = record old { history = remember r.k (r.clock + 1) old.history } in
    let next = with_use uses f (r.clock + 1) in
    let other = with_use-other uses f (r.clock + 1) in
    (
      AreRecent-insert r.k r.clock (r.clock + 1) uses next f (omega arith) other r.frames entry h (
          subst (λ us. IsRecent r.k (r.clock + 1) us entry.history)
            (sym (with_use-same uses f (r.clock + 1)))
            (IsRecent-remember r.k r.clock (uses f) old.history
              (IsRecent-or_new r.k r.clock uses r.frames f h none_else))),
      NoneElse-insert r.k r.clock (r.clock + 1) uses next f (omega arith) other r.frames entry
          none_else,
    )

set_evictable-IsKept :
    (r : LruKReplacer) (uses : Times) (f : FrameId) (evictable : Bool)
    → IsKept r uses
    → IsKept (set_evictable r f evictable) uses
unfolding set_evictable
set_evictable-IsKept r uses f evictable (h, none_else) = elim (Option-cases (get f r.frames)) [
  | inl n ↦ rw (n, set_evictable) (h, none_else)
  | inr (e, there) ↦
      rw (there, set_evictable)
        (
          AreRecent-insert r.k r.clock r.clock uses uses f (omega arith) (λ g _. refl) r.frames
              (record e { evictable = evictable }) h
              (AreRecent-get r.k r.clock uses r.frames f e h there),
          NoneElse-insert r.k r.clock r.clock uses uses f (omega arith) (λ g _. refl) r.frames
              (record e { evictable = evictable }) none_else,
        )
]

set_evictable-same :
    (r : LruKReplacer) (f : FrameId) (evictable : Bool)
    → ((set_evictable r f evictable).k ≡ r.k) × ((set_evictable r f evictable).clock ≡ r.clock)
unfolding set_evictable
set_evictable-same r f evictable = ground arith

-- The replacer has the `k` it was made for, and its clock counts the uses.
pub Uses-counted :
    {k count : ℕ} {r : LruKReplacer} {uses : Times}
    → Uses k r uses count
    → (r.k ≡ k) × (r.clock ≡ count)
unfolding record_access remove_frame
Uses-counted (starts capacity) = (refl, refl)
Uses-counted (accesses f run) =
    let (size, clock) = Uses-counted run in (size, ap (λ c. c + 1) clock)
Uses-counted (marks {r = r} f evictable run) =
    let (size, clock) = Uses-counted run in
    let (same_size, same_clock) = set_evictable-same r f evictable in
    (same_size ∙ size, same_clock ∙ clock)
Uses-counted (gives_up {r = r} accept f run gone) =
    let (size, clock) = Uses-counted run in
    let (_, _, _, left) = evict_where-best r accept f gone in
    (ap (λ s. s.k) left ∙ size, ap (λ s. s.clock) left ∙ clock)
Uses-counted (removes f run) = Uses-counted run

Uses-IsKept : {k count : ℕ} {r : LruKReplacer} {uses : Times} → Uses k r uses count → IsKept r uses
unfolding remove_frame
Uses-IsKept (starts capacity) = (tt, λ f _. refl)
Uses-IsKept (accesses {r = r} {uses = uses} f run) =
    let (_, clock) = Uses-counted run in
    subst (λ c. IsKept (record_access r f) (with_use uses f (c + 1))) clock
      (record_access-IsKept r uses f (Uses-IsKept run))
Uses-IsKept (marks {r = r} {uses = uses} f evictable run) =
    set_evictable-IsKept r uses f evictable (Uses-IsKept run)
Uses-IsKept (gives_up {r = r} {uses = uses} accept f run gone) =
    let (_, _, _, left) = evict_where-best r accept f gone in
    subst (λ s. IsKept s (without uses f)) (sym left) (removed-IsKept r uses f (Uses-IsKept run))
Uses-IsKept (removes {r = r} {uses = uses} f run) = removed-IsKept r uses f (Uses-IsKept run)

pub Uses-AreRecent :
    {k count : ℕ} {r : LruKReplacer} {uses : Times}
    → Uses k r uses count
    → AreRecent r.k r.clock uses r.frames
Uses-AreRecent run = (Uses-IsKept run).0
