-- ===== src/Storage/Replacer/Victim.antt =====
-- The victim that `evict_where` of replacer.rs picks.
use simple_rdbms.Common.{ℕ, suc, ◌≡◌, ◌≢◌, refl, sym, ap, ◌∙◌, Bool, true, false, ◌&&◌}
use simple_rdbms.Common.{Option, none, some, List, [], ◌∷◌, get_elem?, All, arith, ◌⊎◌, inl, inr}
use simple_rdbms.Common.{Bool-cases, Option-cases}
use simple_rdbms.Common.Map.{nat_eq, remove}
use simple_rdbms.Storage.Replacer.{FrameId, FrameEntry, LruKReplacer, score, is_better, beats}
use simple_rdbms.Storage.Replacer.{best_frame, evict_where}

-- A frame that may go.
abbrev pub is_candidate : (FrameId → Bool) → FrameId × FrameEntry → Bool
is_candidate accept (frame_id, entry) = entry.evictable && accept frame_id

-- No candidate scores better.
abbrev pub NoneBetter :
    LruKReplacer → (FrameId → Bool) → Bool × ℕ → List (FrameId × FrameEntry) → Type 0
NoneBetter r accept s entries =
    All (λ p. (is_candidate accept p && is_better (score r p.1) s) ≡ false) entries

better_trans :
    (a b c : Bool × ℕ) → is_better a b ≡ true → is_better a c ≡ false → is_better b c ≡ false
better_trans (x, m) (y, n) (z, o) h k = ground (arith, h, k)

better_total :
    (a b c : Bool × ℕ) → is_better a b ≡ false → is_better b c ≡ false → is_better a c ≡ false
better_total (x, m) (y, n) (z, o) h k = ground (arith, h, k)

not_self : (a s : Bool × ℕ) → a ≡ s → is_better a s ≡ false
not_self (x, m) (y, n) q = ground (arith, q)

abbrev Best : Type 0
Best = Option (FrameId × Bool × ℕ)

-- The best so far does not beat the score.
abbrev NotAbove : Best → Bool × ℕ → Type 0
NotAbove none s = Unit
NotAbove (some (id, is_inf, metric)) s = is_better (is_inf, metric) s ≡ false

NotAbove-replaced :
    (best : Best) (a s : Bool × ℕ) → beats a best ≡ true → is_better a s ≡ false → NotAbove best s
NotAbove-replaced none a s h k = tt
NotAbove-replaced (some (id, is_inf, metric)) a s h k = better_trans a (is_inf, metric) s h k

NotAbove-kept :
    (best : Best) (a s : Bool × ℕ) → beats a best ≡ false → NotAbove best s → is_better a s ≡ false
NotAbove-kept none a s h k = absurd (ground (arith, h))
NotAbove-kept (some (id, is_inf, metric)) a s h k = better_total a (is_inf, metric) s h k

module _ (r : LruKReplacer) (accept : FrameId → Bool) where
  -- An entry of the list is a candidate with the id and the score.
  abbrev pub Candidate : List (FrameId × FrameEntry) → FrameId → Bool × ℕ → Type 0
  Candidate entries v s =
      (e : FrameEntry) × (i : ℕ) × (get_elem? entries i ≡ some (v, e))
      × (is_candidate accept (v, e) ≡ true)
      × (score r e ≡ s)

  abbrev Won : List (FrameId × FrameEntry) → Best → FrameId → Bool × ℕ → Type 0
  Won entries best v s =
      NoneBetter r accept s entries
      × NotAbove best s
      × ((best ≡ some (v, s.0, s.1)) ⊎ Candidate entries v s)

  later :
      (p : FrameId × FrameEntry) (entries : List (FrameId × FrameEntry)) (v : FrameId)
      (s : Bool × ℕ)
      → Candidate entries v s
      → Candidate (p ∷ entries) v s
  later p entries v s (e, i, there, may_go, scored) = (e, suc i, there, may_go, scored)

  first :
      (f : FrameId) (e : FrameEntry) (entries : List (FrameId × FrameEntry)) (v : FrameId)
      (s : Bool × ℕ)
      → is_candidate accept (f, e) ≡ true
      → ◌≡◌ {A = Best} (some (f, (score r e).0, (score r e).1)) (some (v, s.0, s.1))
      → Candidate ((f, e) ∷ entries) v s
  first f e entries v s may_go q =
      let same : f ≡ v = ground (arith, q) in
      (
        e,
        0,
        ap (λ x. some (x, e)) same,
        ap (λ x. e.evictable && accept x) (sym same) ∙ may_go,
        ground (arith, q),
      )

  best_frame-skipped :
      (f : FrameId) (e : FrameEntry) (entries : List (FrameId × FrameEntry)) (best : Best)
      → is_candidate accept (f, e) ≡ false
      → best_frame r accept ((f, e) ∷ entries) best ≡ best_frame r accept entries best
  unfolding best_frame
  best_frame-skipped f e entries best stays = ground (arith, stays)

  best_frame-replaced :
      (f : FrameId) (e : FrameEntry) (entries : List (FrameId × FrameEntry)) (best : Best)
      → is_candidate accept (f, e) ≡ true
      → beats (score r e) best ≡ true
      → best_frame r accept ((f, e) ∷ entries) best
        ≡ best_frame r accept entries (some (f, (score r e).0, (score r e).1))
  unfolding best_frame
  best_frame-replaced f e entries best may_go b = ground (arith, may_go, b)

  best_frame-kept :
      (f : FrameId) (e : FrameEntry) (entries : List (FrameId × FrameEntry)) (best : Best)
      → is_candidate accept (f, e) ≡ true
      → beats (score r e) best ≡ false
      → best_frame r accept ((f, e) ∷ entries) best ≡ best_frame r accept entries best
  unfolding best_frame
  best_frame-kept f e entries best may_go b = ground (arith, may_go, b)

  nothing_left : (best : Best) {b : Best} → best_frame r accept [] best ≡ b → best ≡ b
  unfolding best_frame
  nothing_left best h = h

  best_frame_lem :
      (entries : List (FrameId × FrameEntry)) (best : Best) (v : FrameId) (s : Bool × ℕ)
      → best_frame r accept entries best ≡ some (v, s.0, s.1)
      → Won entries best v s
  best_frame_lem [] best v s h =
      (tt, from_start best v s (nothing_left best h), inl (nothing_left best h))
    where
      from_start : (b : Best) (v : FrameId) (s : Bool × ℕ) → b ≡ some (v, s.0, s.1) → NotAbove b s
      from_start none v s q = tt
      from_start (some (id, is_inf, metric)) v s q = not_self (is_inf, metric) s (ground (arith, q))
  best_frame_lem ((f, e) ∷ entries) best v s h = elim (Bool-cases (is_candidate accept (f, e))) [
    | inr stays ↦
        let (others, above, found) =
          best_frame_lem entries best v s (sym (best_frame-skipped f e entries best stays) ∙ h) in
        (
          (ground (arith, stays), others),
          above,
          elim found [ inl q ↦ inl q | inr q ↦ inr (later (f, e) entries v s q) ],
        )
    | inl may_go ↦ elim (Bool-cases (beats (score r e) best)) [
      | inl b ↦
          let (others, above, found) =
            best_frame_lem entries (some (f, (score r e).0, (score r e).1)) v s
              (sym (best_frame-replaced f e entries best may_go b) ∙ h) in
          (
            (ground (arith, above), others),
            NotAbove-replaced best (score r e) s b above,
            elim found [
              | inl q ↦ inr (first f e entries v s may_go q)
              | inr q ↦ inr (later (f, e) entries v s q)
            ],
          )
      | inr b ↦
          let (others, above, found) =
            best_frame_lem entries best v s (sym (best_frame-kept f e entries best may_go b) ∙ h) in
          (
            (ground (arith, NotAbove-kept best (score r e) s b above), others),
            above,
            elim found [ inl q ↦ inl q | inr q ↦ inr (later (f, e) entries v s q) ],
          )
    ]
  ]

  none_left :
      (entries : List (FrameId × FrameEntry))
      → best_frame r accept entries none ≡ none
      → All (λ p. is_candidate accept p ≡ false) entries
  none_left [] h = tt
  none_left ((f, e) ∷ entries) h = elim (Bool-cases (is_candidate accept (f, e))) [
    | inr stays ↦ (stays, none_left entries (sym (best_frame-skipped f e entries none stays) ∙ h))
    | inl may_go ↦ absurd (
        some_stays entries (some (f, (score r e).0, (score r e).1)) (λ q. ground (arith, q))
          (sym (best_frame-replaced f e entries none may_go refl) ∙ h))
  ]
    where
      some_stays :
          (entries : List (FrameId × FrameEntry)) (best : Best)
          → best ≢ none
          → best_frame r accept entries best ≢ none
      some_stays [] best n h = n (nothing_left best h)
      some_stays ((f, e) ∷ entries) best n h = elim (Bool-cases (is_candidate accept (f, e))) [
        | inr stays ↦
            some_stays entries best n (sym (best_frame-skipped f e entries best stays) ∙ h)
        | inl may_go ↦ elim (Bool-cases (beats (score r e) best)) [
          | inl b ↦
              some_stays entries (some (f, (score r e).0, (score r e).1)) (λ q. ground (arith, q))
                (sym (best_frame-replaced f e entries best may_go b) ∙ h)
          | inr b ↦ some_stays entries best n (sym (best_frame-kept f e entries best may_go b) ∙ h)
        ]
      ]

  -- The frame that `evict_where` gives up is one that may go, no other that may go scores better
  -- by the LRU-K rule, and it alone leaves the map.
  pub evict_where-best :
      (v : FrameId)
      → (evict_where r accept).1 ≡ some v
      → (s : Bool × ℕ) × Candidate r.frames v s
        × NoneBetter r accept s r.frames
        × ((evict_where r accept).0 ≡ record r { frames = remove v r.frames })
  unfolding evict_where
  evict_where-best v h = elim (Option-cases (best_frame r accept r.frames none)) [
    | inl n ↦ absurd (ground (arith, h, n))
    | inr ((id, is_inf, metric), b) ↦
        let same : id ≡ v = ground (arith, h, b) in
        let (none_better, _, found) =
          best_frame_lem r.frames none v (is_inf, metric)
            (b ∙ ap (λ x. some (x, is_inf, metric)) same) in
        (
          (is_inf, metric),
          elim found [ inl q ↦ absurd (ground (arith, q)) | inr q ↦ q ],
          none_better,
          ground (arith, b, same),
        )
  ]

  -- `evict_where` gives up no frame only where none may go, and then changes nothing.
  pub evict_where-none :
      (evict_where r accept).1 ≡ none
      → All (λ p. is_candidate accept p ≡ false) r.frames × ((evict_where r accept).0 ≡ r)
  unfolding evict_where
  evict_where-none h = elim (Option-cases (best_frame r accept r.frames none)) [
    | inl n ↦ (none_left r.frames n, ground (arith, n))
    | inr (b, q) ↦ absurd (ground (arith, h, q))
  ]
