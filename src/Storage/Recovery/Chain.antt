-- ===== src/Storage/Recovery/Chain.antt =====
-- What the undo of crates/storage/src/recovery.rs will write from a cursor on, along the chain of the
-- records in the log.
use simple_rdbms.Common.{ℕ, ◌+◌, ◌≤◌, ◌<◌, ◌≡◌, refl, sym, ap, ◌∙◌, Bool, true, false, ◌&&◌, Option}
use simple_rdbms.Common.{
  none, some, List, [], ◌∷◌, ◌++◌, All, length, arith, inl, inr, ◌==◌, ==_iff,
}
use simple_rdbms.Common.{if◌then◌else◌, Bool-cases, subst}
use simple_rdbms.Common.Map.{nat_beq_refl}
use simple_rdbms.Ids.{PageId, Lsn}
use simple_rdbms.Storage.Wal.Record.{LogRecordKind, LoggedRecord, begin, commit, abort, end}
use simple_rdbms.Storage.Wal.Record.{update, clr, alloc_page, checkpoint_begin, checkpoint_end}
use simple_rdbms.Storage.PageWrite.{page_size}
use simple_rdbms.Storage.Log.{find_record}
use simple_rdbms.Storage.Recovery.{nonzero}
use simple_rdbms.Storage.Recovery.Bytes.{written_over, in_range}

-- Bytes that are to be written to a page at an offset.
abbrev pub Image : Type 0
Image = PageId × ℕ × List ℕ

-- The record that follows on the chain.
unfoldable pub next_cursor : LoggedRecord → Option Lsn
next_cursor r = elim r.kind [
  | clr page_id offset after undo_next_lsn ↦ nonzero undo_next_lsn
  | begin ↦ none
  | update page_id offset before after ↦ r.prev_lsn
  | alloc_page page_id ↦ r.prev_lsn
  | commit ↦ r.prev_lsn
  | abort ↦ r.prev_lsn
  | end ↦ r.prev_lsn
  | checkpoint_begin ↦ r.prev_lsn
  | checkpoint_end att dpt ↦ r.prev_lsn
]

-- The image before an update.
unfoldable pub image_of : LogRecordKind → List Image
image_of (update page_id offset before after) = (page_id, offset, before) ∷ []
image_of _ = []

abbrev pub IsCursorBelow : Option Lsn → Lsn → Type 0
IsCursorBelow none bound = Unit {0}
IsCursorBelow (some lsn) bound = lsn < bound

pub data Undoes (rs : List LoggedRecord) : Option Lsn → List Image → Type 0 where
  ends : Undoes rs none []
  follows :
      {lsn : Lsn} {r : LoggedRecord} {images : List Image}
      → 0 < lsn
      → find_record lsn rs ≡ some r
      → IsCursorBelow (next_cursor r) lsn
      → Undoes rs (next_cursor r) images
      → Undoes rs (some lsn) (image_of r.kind ++ images)

pub IsCursorBelow-weaken :
    (c : Option Lsn) (m n : Lsn) → IsCursorBelow c m → m ≤ n → IsCursorBelow c n
IsCursorBelow-weaken none m n h le = tt
IsCursorBelow-weaken (some lsn) m n h le = omega (arith, h, le)

find_record-skips :
    (r : LoggedRecord) (rs : List LoggedRecord) (lsn : Lsn)
    → lsn < r.lsn
    → find_record lsn (r ∷ rs) ≡ find_record lsn rs
unfolding find_record
find_record-skips r rs lsn h = elim (Bool-cases (r.lsn == lsn)) [
  | inl b ↦ absurd (omega (arith, h, (==_iff r.lsn lsn).0 b))
  | inr b ↦ ground (arith, b)
]

-- A later record leaves the chain as it is.
pub Undoes-later :
    (r : LoggedRecord) (rs : List LoggedRecord) (c : Option Lsn) (images : List Image)
    → IsCursorBelow c r.lsn
    → Undoes rs c images
    → Undoes (r ∷ rs) c images
Undoes-later r rs none images h ends = ends
Undoes-later r rs (some lsn) all h (follows {r = r'} {images = images} positive found below rest) =
    follows positive (find_record-skips r rs lsn h ∙ found) below (
      Undoes-later r rs (next_cursor r') images
        (IsCursorBelow-weaken (next_cursor r') lsn r.lsn below (omega (arith, h))) rest)

find_record-head : (r : LoggedRecord) (rs : List LoggedRecord) → find_record r.lsn (r ∷ rs) ≡ some r
unfolding find_record
find_record-head r rs = rw (nat_beq_refl r.lsn) refl

-- The chain from the latest record, where it leads to `c`.
pub Undoes-latest :
    (r : LoggedRecord) (rs : List LoggedRecord) (c : Option Lsn) (before images : List Image)
    → 0 < r.lsn
    → next_cursor r ≡ c
    → image_of r.kind ≡ before
    → IsCursorBelow c r.lsn
    → Undoes rs c images
    → Undoes (r ∷ rs) (some r.lsn) (before ++ images)
Undoes-latest r rs c before images positive next q below rest =
    subst (λ x. Undoes (r ∷ rs) (some r.lsn) (x ++ images)) q
      (follows positive (find_record-head r rs)
        (subst (λ c. IsCursorBelow c r.lsn) (sym next) below)
        (subst (λ c. Undoes (r ∷ rs) c images) (sym next) (Undoes-later r rs c images below rest)))

-- The byte at a place after the images are written, one after the other, where it is `b` before.
unfoldable pub restored : List Image → PageId → ℕ → ℕ → ℕ
restored [] q i b = b
restored ((p, offset, image) ∷ images) q i b =
    restored images q i (if p == q then written_over offset image i b else b)

-- The image can be written to a page that is there, behind the header.
abbrev pub IsWritable : PageId → Image → Type 0
IsWritable next_page_id (p, offset, image) =
    (p < next_page_id) × (12 ≤ offset) × (offset + length image ≤ page_size)

-- The ranges of bytes that a transaction has written.
abbrev pub Ranges : Type 0
Ranges = List (PageId × ℕ × ℕ)

unfoldable pub is_held : Ranges → PageId → ℕ → Bool
is_held [] q i = false
is_held ((p, offset, len) ∷ held) q i =
    let rest = is_held held q i in if p == q && in_range offset len i then true else rest

abbrev pub IsWithin : Ranges → Image → Type 0
IsWithin held (p, offset, image) =
    (i : ℕ) → in_range offset (length image) i ≡ true → is_held held p i ≡ true

-- Outside of the ranges nothing is restored.
pub restored-outside :
    (held : Ranges) (images : List Image) (q : PageId) (i b : ℕ)
    → All (IsWithin held) images
    → is_held held q i ≡ false
    → restored images q i b ≡ b
unfolding restored
restored-outside held [] q i b h out = refl
restored-outside held ((p, offset, image) ∷ images) q i b (h, hs) out =
    ap (λ c. restored images q i c) (apart (p == q) refl)
    ∙ restored-outside held images q i b hs out
  where
    apart : (e : Bool) → (p == q) ≡ e → (if e then written_over offset image i b else b) ≡ b
    apart false e = refl
    apart true e = elim (Bool-cases (in_range offset (length image) i)) [
      | inl r ↦ absurd (ground (arith, h i r, out, ap (λ p. is_held held p i) ((==_iff p q).0 e)))
      | inr r ↦ rw r refl
    ]
