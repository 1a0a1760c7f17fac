-- ===== src/Storage/Replacer/Lru.antt =====
-- The LRU-K rule of replacer.rs, by the times at which the frames were used.
use simple_rdbms.Common.{
  ℕ, ◌+◌, ◌-◌, ◌^◌, ◌≤◌, ◌<◌, ◌≡◌, sym, ap, ◌∙◌, Bool, true, false, ◌&&◌, some, List, [], ◌∷◌, ◌++◌,
}
use simple_rdbms.Common.{length, length-append, drop, drop-length-append, All, arith, ltb}
use simple_rdbms.Common.{if◌then◌else◌, inl, inr, get_elem?, zero, suc, subst}
use simple_rdbms.Common.Map.{nat_eq, remove}
use simple_rdbms.Storage.Replacer.{FrameId, FrameEntry, LruKReplacer, front_or_zero, back_or_zero}
use simple_rdbms.Storage.Replacer.{score, is_better, evict_where}
use simple_rdbms.Storage.Replacer.Victim.{is_candidate, Candidate, NoneBetter, evict_where-best}
use simple_rdbms.Storage.Replacer.Uses.{Times, Uses, IsRecent}
use simple_rdbms.Storage.Replacer.Recent.{AreRecent, Uses-AreRecent, Uses-counted}

-- The time of the use before which there are `k - 1` later ones.
abbrev pub kth_last : ℕ → List ℕ → ℕ
kth_last k times = front_or_zero (drop (length times - k) times)

-- Whether a frame with the first times is to go before one with the second: one with less than `k`
-- uses goes before one with more; of two with less, the one whose last use is longer ago; of two
-- with more, the one whose `k`th last use is longer ago.
abbrev pub goes_before : ℕ → List ℕ → List ℕ → Bool
goes_before k times others =
    if ltb (length times) k
    then (if ltb (length others) k then ltb (back_or_zero times) (back_or_zero others) else true)
    else if ltb (length others) k
    then false
    else ltb (kth_last k times) (kth_last k others)

-- No frame that may go is to go before one with the times.
abbrev pub NoneBefore : ℕ → (FrameId → Bool) → Times → List ℕ → List (FrameId × FrameEntry) → Type 0
NoneBefore k accept uses times entries =
    All (λ p. (is_candidate accept p && goes_before k (uses p.0) times) ≡ false) entries

back-past : (c : ℕ) (times : List ℕ) → All (λ time. time ≤ c) times → back_or_zero times ≤ c
back-past c [] h = omega arith
back-past c (t ∷ []) (h, _) = h
back-past c (t ∷ u ∷ times) (_, h) = back-past c (u ∷ times) h

front-past : (c : ℕ) (times : List ℕ) → All (λ time. time ≤ c) times → front_or_zero times ≤ c
front-past c [] h = omega arith
front-past c (t ∷ times) (h, _) = h

-- What the history tells of all times.
module _ (k c : ℕ) (times history : List ℕ) (h : IsRecent k c times history) where
  counted : length times ≡ length h.older + length history
  counted = ap length h.parts ∙ length-append h.older history

  few : ltb (length history) k ≡ ltb (length times) k
  few = elim h.full [
    | inl e ↦ ground (arith, counted, ap length e)
    | inr e ↦ ground (arith, counted, e)
  ]

  few-last : ltb (length history) k ≡ true → back_or_zero history ≡ back_or_zero times
  few-last b = elim h.full [
    | inl e ↦ ap back_or_zero (sym (h.parts ∙ ap (λ l. l ++ history) e))
    | inr e ↦ absurd (ground (arith, b, e))
  ]

  many-kth : ltb (length history) k ≡ false → front_or_zero history ≡ kth_last k times
  many-kth b =
      let before : length times - k ≡ length h.older = ground (arith, b, h.short, counted) in
      ap front_or_zero (
        sym (
          ap (λ n. drop n times) before
          ∙ ap (drop (length h.older)) h.parts
          ∙ drop-length-append h.older history))

module _ (r : LruKReplacer) (small : r.clock < 2 ^ 64) (times others : List ℕ) (a b : FrameEntry)
    (ha : IsRecent r.k r.clock times a.history) (hb : IsRecent r.k r.clock others b.history) where
  -- The scores compare as the rule says.
  is_better-score : is_better (score r a) (score r b) ≡ goes_before r.k times others
  unfolding score
  is_better-score = ground (
    arith,
    small,
    few r.k r.clock times a.history ha,
    few r.k r.clock others b.history hb,
    few-last r.k r.clock times a.history ha,
    few-last r.k r.clock others b.history hb,
    many-kth r.k r.clock times a.history ha,
    many-kth r.k r.clock others b.history hb,
    back-past r.clock a.history ha.past,
    back-past r.clock b.history hb.past,
    front-past r.clock a.history ha.past,
    front-past r.clock b.history hb.past,
  )

none_before :
    (r : LruKReplacer) (accept : FrameId → Bool) (uses : Times) (v : List ℕ) (e : FrameEntry)
    (entries : List (FrameId × FrameEntry))
    → r.clock < 2 ^ 64
    → IsRecent r.k r.clock v e.history
    → AreRecent r.k r.clock uses entries
    → NoneBetter r accept (score r e) entries
    → NoneBefore r.k accept uses v entries
none_before r accept uses v e [] small hv h best = tt
none_before r accept uses v e ((f, x) ∷ entries) small hv (h, hs) (best, others) = (
  ap (λ b. is_candidate accept (f, x) && b) (sym (is_better-score r small (uses f) v x e h hv))
      ∙ best,
  none_before r accept uses v e entries small hv hs others,
)

at_place :
    (k c : ℕ) (uses : Times) (entries : List (FrameId × FrameEntry)) (v : FrameId) (e : FrameEntry)
    (i : ℕ)
    → AreRecent k c uses entries
    → get_elem? entries i ≡ some (v, e)
    → IsRecent k c (uses v) e.history
at_place k c uses [] v e i h there = cc
at_place k c uses ((f, x) ∷ entries) v e zero (h, hs) there =
    let same : ◌≡◌ {A = FrameId × FrameEntry} (f, x) (v, e) = cc there in
    subst (λ p. IsRecent k c (uses p.0) p.1.history) same h
at_place k c uses ((f, x) ∷ entries) v e (suc i) (h, hs) there =
    at_place k c uses entries v e i hs there

-- However a replacer was used, less than 2 ^ 64 times: the frame that `evict_where` gives up is one
-- that may go, no other that may go is to go before it by the times of their uses (a frame with less
-- than `k` uses before one with more, then the one whose last use, or whose `k`th last use, is
-- longer ago), and it alone leaves the map.
pub evict_where-lru :
    (k count : ℕ) (r : LruKReplacer) (uses : Times) (accept : FrameId → Bool) (v : FrameId)
    → Uses k r uses count
    → count < 2 ^ 64
    → (evict_where r accept).1 ≡ some v
    → (s : Bool × ℕ) × Candidate r accept r.frames v s
      × NoneBefore k accept uses (uses v) r.frames
      × ((evict_where r accept).0 ≡ record r { frames = remove v r.frames })
evict_where-lru k count r uses accept v run few gone =
    let (s, (e, i, there, may_go, scored), best, left) = evict_where-best r accept v gone in
    let recent = Uses-AreRecent run in
    let (size, clock) = Uses-counted run in
    (
      s,
      (e, i, there, may_go, scored),
      subst (λ k. NoneBefore k accept uses (uses v) r.frames) size
          (none_before r accept uses (uses v) e r.frames (omega (arith, few, clock))
            (at_place r.k r.clock uses r.frames v e i recent there) recent
            (subst (λ s. NoneBetter r accept s r.frames) (sym scored) best)),
      left,
    )
