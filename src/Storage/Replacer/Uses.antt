-- ===== src/Storage/Replacer/Uses.antt =====
-- When the frames of replacer.rs were used: all times, of which the replacer keeps the last `k`.
use simple_rdbms.Common.{ℕ, ◌+◌, ◌≤◌, ◌≡◌, refl, sym, ap, ◌∙◌, Bool, some, List, [], ◌∷◌, ◌++◌}
use simple_rdbms.Common.{
  length, length-append, append_assoc, append-nil, All, arith, ltb, ltb→lt, ◌==◌, if◌then◌else◌,
  ◌⊎◌, inl, inr, Bool-cases,
}
use simple_rdbms.Common.Map.{nat_eq}
use simple_rdbms.Storage.Replacer.{FrameId, LruKReplacer, new_replacer}
use simple_rdbms.Storage.Replacer.{pop_front, remember, record_access, set_evictable}
use simple_rdbms.Storage.Replacer.{evict_where, remove_frame}

-- All times at which a frame was used since it came into the map, the oldest first.
abbrev pub Times : Type 0
Times = FrameId → List ℕ

abbrev pub with_use : Times → FrameId → ℕ → Times
with_use uses f time g = if f == g then uses f ++ time ∷ [] else uses g

abbrev pub without : Times → FrameId → Times
without uses f g = if f == g then [] else uses g

-- The operations of a replacer for `k` uses, in any order, with the times at which its frames were
-- used, and the number of uses of all frames, by which the times are counted.
pub data Uses (k : ℕ) : LruKReplacer → Times → (count : ℕ) → Type 0 where
  starts : (capacity : ℕ) → Uses k (new_replacer capacity k) (λ f. []) 0
  accesses :
      {r : LruKReplacer} {uses : Times} {count : ℕ} (f : FrameId)
      → Uses k r uses count
      → Uses k (record_access r f) (with_use uses f (count + 1)) (count + 1)
  marks :
      {r : LruKReplacer} {uses : Times} {count : ℕ} (f : FrameId) (evictable : Bool)
      → Uses k r uses count
      → Uses k (set_evictable r f evictable) uses count
  gives_up :
      {r : LruKReplacer} {uses : Times} {count : ℕ} (accept : FrameId → Bool) (f : FrameId)
      → Uses k r uses count
      → (evict_where r accept).1 ≡ some f
      → Uses k (evict_where r accept).0 (without uses f) count
  removes :
      {r : LruKReplacer} {uses : Times} {count : ℕ} (f : FrameId)
      → Uses k r uses count
      → Uses k (remove_frame r f) (without uses f) count

-- The history of a frame holds the last `k` of its times, or all where there are fewer.
pub record IsRecent (k clock : ℕ) (times history : List ℕ) : Type 0 where
  pub older : List ℕ
  pub parts : times ≡ older ++ history
  pub full : (older ≡ []) ⊎ (length history ≡ k)
  pub short : length history ≤ k
  pub past : All (λ time. time ≤ clock) history

past-later :
    (c d : ℕ) (times : List ℕ) → c ≤ d → All (λ time. time ≤ c) times → All (λ time. time ≤ d) times
past-later c d [] le h = tt
past-later c d (t ∷ times) le (h, hs) = (omega (arith, h, le), past-later c d times le hs)

past-append :
    (c : ℕ) (times : List ℕ)
    → All (λ time. time ≤ c) times
    → All (λ time. time ≤ c) (times ++ c ∷ [])
past-append c [] h = (omega arith, tt)
past-append c (t ∷ times) (h, hs) = (h, past-append c times hs)

pub IsRecent-later :
    (k c d : ℕ) (times history : List ℕ)
    → c ≤ d
    → IsRecent k c times history
    → IsRecent k d times history
IsRecent-later k c d times history le h = record {
  older = h.older;
  parts = h.parts;
  full = h.full;
  short = h.short;
  past = past-later c d history le h.past;
}

-- A use keeps it so.
pub IsRecent-remember :
    (k c : ℕ) (times history : List ℕ)
    → IsRecent k c times history
    → IsRecent k (c + 1) (times ++ (c + 1) ∷ []) (remember k (c + 1) history)
unfolding remember
IsRecent-remember k c times history h =
    let past = past-later c (c + 1) history (omega arith) h.past in
    let longer : length (history ++ (c + 1) ∷ []) ≡ length history + 1 =
      length-append history ((c + 1) ∷ []) ∙ omega arith in
    let joined = ap (λ l. l ++ (c + 1) ∷ []) h.parts in
    elim (Bool-cases (ltb k (length (history ++ (c + 1) ∷ [])))) [
      | inr b ↦ rw b (record {
        older = [];
        parts = elim h.full [
          | inl e ↦ joined ∙ ap (λ l. (l ++ history) ++ (c + 1) ∷ []) e
          | inr e ↦ absurd (ground (arith, b, e, longer))
        ];
        full = inl refl;
        short = ground (arith, b, longer);
        past = past-append (c + 1) history past;
      })
      | inl b ↦ rw b (
          dropped history h.parts past
            (omega (arith, ltb→lt k (length (history ++ (c + 1) ∷ [])) b, longer, h.short)))
    ]
  where
    dropped :
        (history : List ℕ)
        → times ≡ h.older ++ history
        → All (λ time. time ≤ c + 1) history
        → length history ≡ k
        → IsRecent k (c + 1) (times ++ (c + 1) ∷ []) (pop_front (history ++ (c + 1) ∷ []))
    dropped [] e past full = record {
      older = times ++ (c + 1) ∷ [];
      parts = sym (append-nil (times ++ (c + 1) ∷ []));
      full = inr full;
      short = omega (arith, full);
      past = tt;
    }
    dropped (t ∷ history) e (_, past) full = record {
      older = h.older ++ t ∷ [];
      parts =
          ap (λ l. l ++ (c + 1) ∷ []) e
          ∙ append_assoc h.older (t ∷ history) ((c + 1) ∷ [])
          ∙ sym (append_assoc h.older (t ∷ []) (history ++ (c + 1) ∷ []));
      full = inr (omega (arith, full, length-append history ((c + 1) ∷ [])));
      short = omega (arith, full, length-append history ((c + 1) ∷ []));
      past = past-append (c + 1) history past;
    }
