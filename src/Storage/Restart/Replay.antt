-- ===== src/Storage/Restart/Replay.antt =====
-- One page in the redo of crates/storage/src/recovery.rs: what the log says of it, and what the redo
-- makes of it.
use simple_rdbms.Common.{ℕ, ◌+◌, ◌≤◌, ◌<◌, ◌≡◌, refl, sym, ap, ◌∙◌, Option}
use simple_rdbms.Common.{
  none, some, List, [], ◌∷◌, ◌++◌, All, length, take, drop, arith, ◌⊎◌, inl, inr, ◌^◌,
}
use simple_rdbms.Common.{ltb, ◌==◌, if◌then◌else◌, Bool-cases, take-length-append, lt→ltb, ltb→lt}
use simple_rdbms.Common.Bytes.{
  to_le_bytes, from_le_bytes, length-to_le_bytes, from_le_bytes-to_le_bytes,
}
use simple_rdbms.Ids.{PageId, Lsn}
use simple_rdbms.Storage.Wal.Record.{LogRecordKind, LoggedRecord, update, clr}
use simple_rdbms.Storage.PageWrite.{page_size, overwrite, set_page_lsn}
use simple_rdbms.Storage.PageWrite.Bytes.{logged_write, length-logged_write, length-overwrite}
use simple_rdbms.Storage.PageWrite.Bytes.{drop_at-overwrite}
use simple_rdbms.Storage.Page.{page_lsn}
use simple_rdbms.Storage.Recovery.Chain.{Image}

-- The bytes that a record says were written.
unfoldable pub image_after : LogRecordKind → Option Image
image_after (update page_id offset before after) = some (page_id, offset, after)
image_after (clr page_id offset after undo_next_lsn) = some (page_id, offset, after)
image_after _ = none

-- The page after the write of the image, if it is on the page.
unfoldable pub with_image : PageId → List ℕ → Lsn → Option Image → List ℕ
unfolding set_page_lsn overwrite
with_image q bytes lsn none = bytes
with_image q bytes lsn (some (p, offset, x)) =
    if p == q then logged_write lsn offset x bytes else bytes

-- The page after all that the records say was written to it, in their order.
unfoldable pub replayed : PageId → List ℕ → List LoggedRecord → List ℕ
unfolding image_after with_image
replayed q bytes [] = bytes
replayed q bytes (r ∷ rs) = replayed q (with_image q bytes r.lsn (image_after r.kind)) rs

-- The same of the records that are newer than the page.
unfoldable pub redone : PageId → List ℕ → List LoggedRecord → List ℕ
unfolding image_after with_image page_lsn
redone q bytes [] = bytes
redone q bytes (r ∷ rs) =
    redone q
      (if ltb (page_lsn bytes) r.lsn then with_image q bytes r.lsn (image_after r.kind) else bytes)
      rs

-- The image lies behind the header of a page.
abbrev pub IsInPage : Option Image → Type 0
IsInPage none = Unit {0}
IsInPage (some (p, offset, x)) = (12 ≤ offset) × (offset + length x ≤ page_size)

-- The lsns grow from `l` on, and the images fit.
abbrev pub IsLogFrom : Lsn → List LoggedRecord → Type 0
IsLogFrom l [] = Unit {0}
IsLogFrom l (r ∷ rs) =
    (l < r.lsn) × (r.lsn < 2 ^ 64) × IsInPage (image_after r.kind) × IsLogFrom r.lsn rs

page_lsn-logged_write :
    (lsn at : ℕ) (x bytes : List ℕ)
    → lsn < 2 ^ 64
    → 12 ≤ at
    → at + length x ≤ length bytes
    → page_lsn (logged_write lsn at x bytes) ≡ lsn
unfolding page_lsn set_page_lsn
page_lsn-logged_write lsn at x bytes small low fits =
    let room : 4 ≤ length (overwrite at x bytes) =
      omega (arith, low, fits, length-overwrite at x bytes fits) in
    let word = to_le_bytes 8 lsn in
    ap (λ l. from_le_bytes (take 8 l)) (drop_at-overwrite 4 word (overwrite at x bytes) room)
    ∙ ap (λ n. from_le_bytes (take n (word ++ drop (4 + length word) (overwrite at x bytes))))
        (sym (length-to_le_bytes 8 lsn))
    ∙ ap from_le_bytes (take-length-append word (drop (4 + length word) (overwrite at x bytes)))
    ∙ from_le_bytes-to_le_bytes 8 lsn (omega (arith, small))

length-with_image :
    (q : PageId) (bytes : List ℕ) (lsn : Lsn) (o : Option Image)
    → length bytes ≡ page_size
    → IsInPage o
    → length (with_image q bytes lsn o) ≡ page_size
unfolding with_image
length-with_image q bytes lsn none sized h = sized
length-with_image q bytes lsn (some (p, offset, x)) sized (low, fits) = elim (Bool-cases (p == q)) [
  | inl b ↦ rw b (length-logged_write lsn offset x bytes low (omega (arith, fits, sized)) ∙ sized)
  | inr b ↦ rw b sized
]

-- A record leaves every page as it is, or the page takes its lsn.
page_lsn-with_image :
    (q : PageId) (bytes : List ℕ) (lsn : Lsn) (o : Option Image)
    → length bytes ≡ page_size
    → lsn < 2 ^ 64
    → IsInPage o
    → ((b : List ℕ) → with_image q b lsn o ≡ b) ⊎ (page_lsn (with_image q bytes lsn o) ≡ lsn)
unfolding with_image
page_lsn-with_image q bytes lsn none sized small h = inl (λ b. refl)
page_lsn-with_image q bytes lsn (some (p, offset, x)) sized small (low, fits) =
    elim (Bool-cases (p == q)) [
      | inl b ↦
          inr
            (rw b (page_lsn-logged_write lsn offset x bytes small low (omega (arith, fits, sized))))
      | inr b ↦ inl (λ c. rw b refl)
    ]

pub replayed-append :
    (q : PageId) (bytes : List ℕ) (xs ys : List LoggedRecord)
    → replayed q bytes (xs ++ ys) ≡ replayed q (replayed q bytes xs) ys
unfolding replayed
replayed-append q bytes [] ys = refl
replayed-append q bytes (r ∷ xs) ys =
    replayed-append q (with_image q bytes r.lsn (image_after r.kind)) xs ys

redone-append :
    (q : PageId) (bytes : List ℕ) (xs ys : List LoggedRecord)
    → redone q bytes (xs ++ ys) ≡ redone q (redone q bytes xs) ys
unfolding redone
redone-append q bytes [] ys = refl
redone-append q bytes (r ∷ xs) ys =
    redone-append q
      (if ltb (page_lsn bytes) r.lsn then with_image q bytes r.lsn (image_after r.kind) else bytes)
      xs ys

module _ (q : PageId) where
  lsn_after :
      (bytes : List ℕ) (l lsn : Lsn) (o : Option Image)
      → length bytes ≡ page_size
      → page_lsn bytes ≤ l
      → l < lsn
      → lsn < 2 ^ 64
      → IsInPage o
      → page_lsn (with_image q bytes lsn o) ≤ lsn
  lsn_after bytes l lsn o sized old later small h =
      elim (page_lsn-with_image q bytes lsn o sized small h) [
        | inl same ↦ omega (arith, ap page_lsn (same bytes), old, later)
        | inr e ↦ omega (arith, e)
      ]

  -- The redo applies every record that is newer than the page.
  redone-new :
      (bytes : List ℕ) (l : Lsn) (rs : List LoggedRecord)
      → length bytes ≡ page_size
      → page_lsn bytes ≤ l
      → IsLogFrom l rs
      → redone q bytes rs ≡ replayed q bytes rs
  unfolding redone replayed
  redone-new bytes l [] sized old h = refl
  redone-new bytes l (r ∷ rs) sized old (later, small, fits, h) =
      rw (lt→ltb (page_lsn bytes) r.lsn (omega (arith, old, later))) (
        redone-new (with_image q bytes r.lsn (image_after r.kind)) r.lsn rs
          (length-with_image q bytes r.lsn (image_after r.kind) sized fits)
          (lsn_after bytes l r.lsn (image_after r.kind) sized old later small fits) h)

  -- Whether the redo has to leave the records alone on a page of the lsn.
  abbrev AreOld : Lsn → List LoggedRecord → Type 0
  AreOld n xs =
      All (λ r. ((b : List ℕ) → with_image q b r.lsn (image_after r.kind) ≡ b) ⊎ (r.lsn ≤ n)) xs

  redone-old :
      (bytes : List ℕ) (xs : List LoggedRecord)
      → AreOld (page_lsn bytes) xs
      → redone q bytes xs ≡ bytes
  unfolding redone
  redone-old bytes [] h = refl
  redone-old bytes (r ∷ xs) (h, hs) = ap (λ b. redone q b xs) (stays h) ∙ redone-old bytes xs hs
    where
      stays :
          ((b : List ℕ) → with_image q b r.lsn (image_after r.kind) ≡ b) ⊎ (r.lsn ≤ page_lsn bytes)
          → (if ltb (page_lsn bytes) r.lsn
              then with_image q bytes r.lsn (image_after r.kind)
              else bytes)
            ≡ bytes
      stays h = elim (Bool-cases (ltb (page_lsn bytes) r.lsn)) [
        | inr b ↦ rw b refl
        | inl b ↦ rw b (elim h [
          | inl same ↦ same bytes
          | inr le ↦ absurd (omega (arith, le, ltb→lt (page_lsn bytes) r.lsn b))
        ])
      ]

  -- What a page is after the first records of a log.
  replayed-IsLogFrom :
      (bytes : List ℕ) (l : Lsn) (xs ys : List LoggedRecord)
      → length bytes ≡ page_size
      → page_lsn bytes ≤ l
      → IsLogFrom l (xs ++ ys)
      → (l' : Lsn) × (page_lsn (replayed q bytes xs) ≤ l')
        × (length (replayed q bytes xs) ≡ page_size)
        × IsLogFrom l' ys
        × (page_lsn bytes ≤ page_lsn (replayed q bytes xs))
        × AreOld (page_lsn (replayed q bytes xs)) xs
  unfolding replayed
  replayed-IsLogFrom bytes l [] ys sized old h = (l, old, sized, h, omega arith, tt)
  replayed-IsLogFrom bytes l (r ∷ xs) ys sized old (later, small, fits, h) =
      let next = with_image q bytes r.lsn (image_after r.kind) in
      let (l', below, size, rest, grows, olds) =
        replayed-IsLogFrom next r.lsn xs ys
          (length-with_image q bytes r.lsn (image_after r.kind) sized fits)
          (lsn_after bytes l r.lsn (image_after r.kind) sized old later small fits) h in
      elim (page_lsn-with_image q bytes r.lsn (image_after r.kind) sized small fits) [
        | inl same ↦ (
          l',
          below,
          size,
          rest,
          omega (arith, grows, ap page_lsn (same bytes)),
          (inl same, olds),
        )
        | inr e ↦ (
          l',
          below,
          size,
          rest,
          omega (arith, grows, e, old, later),
          (inr (omega (arith, grows, e)), olds),
        )
      ]

  -- The redo of the whole log on a page that holds what its first records wrote.
  pub redone-replayed :
      (bytes : List ℕ) (l : Lsn) (xs ys : List LoggedRecord)
      → length bytes ≡ page_size
      → page_lsn bytes ≤ l
      → IsLogFrom l (xs ++ ys)
      → redone q (replayed q bytes xs) (xs ++ ys) ≡ replayed q bytes (xs ++ ys)
  redone-replayed bytes l xs ys sized old h =
      let (l', below, size, rest, _, olds) = replayed-IsLogFrom bytes l xs ys sized old h in
      redone-append q (replayed q bytes xs) xs ys
      ∙ ap (λ b. redone q b ys) (redone-old (replayed q bytes xs) xs olds)
      ∙ redone-new (replayed q bytes xs) l' ys size below rest
      ∙ sym (replayed-append q bytes xs ys)
