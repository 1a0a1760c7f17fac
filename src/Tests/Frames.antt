-- ===== src/Tests/Frames.antt =====
-- A replacer with two frames that may go, one of them used twice.
use simple_rdbms.Common.{ℕ, ◌≡◌, refl, arith, Bool, true, false, none, some, All, []}
use simple_rdbms.Storage.Replacer.{
  LruKReplacer, new_replacer, record_access, set_evictable, evict_where,
}
use simple_rdbms.Storage.Replacer.{best_frame, score, remember}
use simple_rdbms.Common.Map.{nat_eq, get, insert, remove}
use simple_rdbms.Storage.Replacer.Victim.{Candidate, is_candidate}
use simple_rdbms.Storage.Replacer.Uses.{Times, with_use, Uses, starts, accesses, marks}
use simple_rdbms.Storage.Replacer.Lru.{NoneBefore, evict_where-lru}
use simple_rdbms.Storage.Replacer.Victim.{evict_where-none}

abbrev frames : LruKReplacer
unfolding record_access set_evictable
frames =
    set_evictable
      (set_evictable (record_access (record_access (record_access (new_replacer 4 2) 8) 9) 8) 8
        true)
      9 true

given_up : (evict_where frames (λ frame_id. true)).1 ≡ some 9
unfolding frames evict_where best_frame score record_access set_evictable remember get insert
given_up = refl

refused : (evict_where frames (λ frame_id. false)).1 ≡ none
unfolding frames evict_where best_frame record_access set_evictable remember get insert
refused = refl

-- Frame 8 is used first and third, frame 9 second.
abbrev used : Times
used = with_use (with_use (with_use (λ f. []) 8 1) 9 2) 8 3

frames_used : Uses 2 frames used 3
unfolding frames record_access set_evictable remember get insert
frames_used = marks 9 true (marks 8 true (accesses 8 (accesses 9 (accesses 8 (starts 4)))))

evict_where-lru_example :
    (s : Bool × ℕ) × Candidate frames (λ frame_id. true) frames.frames 9 s
    × NoneBefore 2 (λ frame_id. true) used (used 9) frames.frames
    × ((evict_where frames (λ frame_id. true)).0
        ≡ record frames { frames = remove 9 frames.frames })
evict_where-lru_example =
    evict_where-lru 2 3 frames used (λ frame_id. true) 9 frames_used (omega arith) given_up

evict_where-none_example :
    All (λ p. is_candidate (λ frame_id. false) p ≡ false) frames.frames
    × ((evict_where frames (λ frame_id. false)).0 ≡ frames)
evict_where-none_example = evict_where-none frames (λ frame_id. false) refused
