-- ===== src/Storage/Replacer.antt =====
-- crates/storage/src/replacer.rs: the frame that the buffer pool gives up, by the LRU-K rule. The
-- map of frames is its entries in the order in which it is iterated.
pub mod Victim
pub mod Uses
pub mod Recent
pub mod Lru
use simple_rdbms.Common.{
  ℕ, suc, ◌+◌, ◌-◌, ◌^◌, Bool, true, false, not, ◌&&◌, ◌||◌, Option, none, some,
}
use simple_rdbms.Common.{List, [], ◌∷◌, ◌++◌, length, retain, ltb, if◌then◌else◌}
use simple_rdbms.Common.Map.{Map, nat_eq, get, insert, remove}

abbrev pub FrameId : Type 0
FrameId = ℕ

pub record FrameEntry : Type 0 where
  pub history : List ℕ
  pub evictable : Bool

pub record LruKReplacer : Type 0 where
  pub k : ℕ
  pub capacity : ℕ
  pub frames : Map FrameId FrameEntry
  pub clock : ℕ

abbrev pub new_replacer : ℕ → ℕ → LruKReplacer
new_replacer capacity k = record { k = k; capacity = capacity; frames = []; clock = 0 }

-- `or_insert_with`
abbrev pub or_new : Option FrameEntry → FrameEntry
or_new none = record { history = []; evictable = false }
or_new (some entry) = entry

abbrev pub pop_front : List ℕ → List ℕ
pop_front [] = []
pop_front (t ∷ ts) = ts

-- `push_back`, and `pop_front` if the history is longer than `k`.
unfoldable pub remember : ℕ → ℕ → List ℕ → List ℕ
remember k timestamp history =
    let longer = history ++ timestamp ∷ [] in
    if ltb k (length longer) then pop_front longer else longer

unfoldable pub record_access : LruKReplacer → FrameId → LruKReplacer
unfolding get insert remember
record_access r frame_id =
    let entry = or_new (get frame_id r.frames) in
    record r {
      frames =
          insert frame_id (record entry { history = remember r.k (r.clock + 1) entry.history })
            r.frames;
      clock = r.clock + 1;
    }

unfoldable pub set_evictable : LruKReplacer → FrameId → Bool → LruKReplacer
unfolding get insert
set_evictable r frame_id evictable = elim (get frame_id r.frames) [
  | some entry ↦ record r {
    frames = insert frame_id (record entry { evictable = evictable }) r.frames;
  }
  | none ↦ r
]

-- `front().copied().unwrap_or(0)` and `back().copied().unwrap_or(0)`
abbrev pub front_or_zero : List ℕ → ℕ
front_or_zero [] = 0
front_or_zero (t ∷ ts) = t

abbrev pub back_or_zero : List ℕ → ℕ
back_or_zero [] = 0
back_or_zero (t ∷ []) = t
back_or_zero (t ∷ u ∷ ts) = back_or_zero (u ∷ ts)

-- `(is_inf, metric)`
unfoldable pub score : LruKReplacer → FrameEntry → Bool × ℕ
score r entry =
    if ltb (length entry.history) r.k
    then (true, 2 ^ 64 - 1 - back_or_zero entry.history)
    else (false, r.clock - front_or_zero entry.history)

-- `a > b` of the pairs
abbrev pub is_better : Bool × ℕ → Bool × ℕ → Bool
is_better (true, m) (true, n) = ltb n m
is_better (true, m) (false, n) = true
is_better (false, m) (true, n) = false
is_better (false, m) (false, n) = ltb n m

abbrev pub beats : Bool × ℕ → Option (FrameId × Bool × ℕ) → Bool
beats s none = true
beats s (some (id, is_inf, metric)) = is_better s (is_inf, metric)

-- The loop of `evict_where`.
unfoldable pub best_frame :
    LruKReplacer
    → (FrameId → Bool)
    → List (FrameId × FrameEntry)
    → Option (FrameId × Bool × ℕ)
    → Option (FrameId × Bool × ℕ)
unfolding score
best_frame r accept [] best = best
best_frame r accept ((frame_id, entry) ∷ entries) best =
    if not entry.evictable || not (accept frame_id)
    then best_frame r accept entries best
    else if beats (score r entry) best
    then best_frame r accept entries (some (frame_id, (score r entry).0, (score r entry).1))
    else best_frame r accept entries best

unfoldable pub evict_where : LruKReplacer → (FrameId → Bool) → LruKReplacer × Option FrameId
unfolding best_frame remove
evict_where r accept = elim (best_frame r accept r.frames none) [
  | none ↦ (r, none)
  | some (frame_id, is_inf, metric) ↦
      (record r { frames = remove frame_id r.frames }, some frame_id)
]

unfoldable pub evict : LruKReplacer → LruKReplacer × Option FrameId
unfolding evict_where
evict r = evict_where r (λ frame_id. true)

unfoldable pub remove_frame : LruKReplacer → FrameId → LruKReplacer
unfolding remove
remove_frame r frame_id = record r { frames = remove frame_id r.frames }

abbrev pub is_evictable : FrameId × FrameEntry → Bool
is_evictable (frame_id, entry) = entry.evictable

unfoldable pub size : LruKReplacer → ℕ
size r = length (retain is_evictable r.frames)
