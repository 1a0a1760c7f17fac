-- ===== src/Storage/Recovery/Bytes.antt =====
-- The bytes of pages before and after the writes of crates/storage/src/recovery.rs.
use simple_rdbms.Common.{ℕ, ◌+◌, ◌-◌, ◌≤◌, ◌<◌, ◌≡◌, refl, sym, ap, ◌∙◌, Bool, true, false, ◌&&◌}
use simple_rdbms.Common.{List, length, take, drop, get_or, arith, inl, inr, ◌⊎◌}
use simple_rdbms.Common.{
  ltb, leb, ◌==◌, ==_iff, if◌then◌else◌, Bool-cases, length-take, length-drop,
}
use simple_rdbms.Common.{leb→le, ltb→lt}
use simple_rdbms.Common.Map.{Map, nat_eq, insert, get-insert}
use simple_rdbms.Ids.{PageId}
use simple_rdbms.Storage.PageWrite.{page_size}
use simple_rdbms.Storage.PageWrite.Bytes.{logged_write, get_or-logged_write_before}
use simple_rdbms.Storage.PageWrite.Bytes.{get_or-logged_write_behind, get_or-logged_write_in}
use simple_rdbms.Storage.PageWrite.Bytes.{length-logged_write, get_or-drop, get_or-take}
use simple_rdbms.Storage.Recovery.{page_bytes}

abbrev pub Pages : Type 0
Pages = Map PageId (List ℕ)

-- The byte at the place.
abbrev pub byte : Pages → PageId → ℕ → ℕ
byte pages p i = get_or (page_bytes pages p) i 0

-- Whether the place is among the `len` bytes from `offset` on.
abbrev pub in_range : (offset len i : ℕ) → Bool
in_range offset len i = leb offset i && ltb i (offset + len)

-- The byte at `i` after the bytes `x` are written at `offset` over `b`.
abbrev pub written_over : (offset : ℕ) → List ℕ → (i b : ℕ) → ℕ
written_over offset x i b = if in_range offset (length x) i then get_or x (i - offset) 0 else b

pub in_range-true :
    (offset len i : ℕ) → in_range offset len i ≡ true → (offset ≤ i) × (i < offset + len)
in_range-true offset len i h = elim (Bool-cases (leb offset i)) [
  | inl a ↦ (leb→le offset i a, ltb→lt i (offset + len) (ground (arith, a, h)))
  | inr a ↦ absurd (ground (arith, a, h))
]

pub in_range-false :
    (offset len i : ℕ) → in_range offset len i ≡ false → (i < offset) ⊎ (offset + len ≤ i)
in_range-false offset len i h = elim (Bool-cases (leb offset i)) [
  | inl a ↦ elim (Bool-cases (ltb i (offset + len))) [
    | inl b ↦ absurd (ground (arith, a, b, h))
    | inr b ↦ inr (ground (arith, b))
  ]
  | inr a ↦ inl (ground (arith, a))
]

pub get_or-logged_write :
    (lsn at : ℕ) (patch bytes : List ℕ) (i : ℕ)
    → 12 ≤ at
    → at + length patch ≤ length bytes
    → 12 ≤ i
    → get_or (logged_write lsn at patch bytes) i 0 ≡ written_over at patch i (get_or bytes i 0)
get_or-logged_write lsn at patch bytes i low fits h =
    elim (Bool-cases (in_range at (length patch) i)) [
      | inl b ↦
          let (l, u) = in_range-true at (length patch) i b in
          let same : at + (i - at) ≡ i = omega (arith, l) in
          rw b (
            ap (λ j. get_or (logged_write lsn at patch bytes) j 0) (sym same)
            ∙ get_or-logged_write_in lsn at patch bytes low fits (i - at) (omega (arith, l, u)))
      | inr b ↦ elim (in_range-false at (length patch) i b) [
        | inl l ↦ rw b (get_or-logged_write_before lsn at patch bytes low fits i h l)
        | inr u ↦ rw b (get_or-logged_write_behind lsn at patch bytes low fits i u)
      ]
    ]

-- The bytes that a write of the patch at `at` is about to cover.
abbrev pub covered : ℕ → List ℕ → List ℕ → List ℕ
covered at patch bytes = take (length patch) (drop at bytes)

pub length-covered :
    (at : ℕ) (patch bytes : List ℕ)
    → at + length patch ≤ length bytes
    → length (covered at patch bytes) ≡ length patch
length-covered at patch bytes h =
    omega (arith, h, length-take (length patch) (drop at bytes), length-drop at bytes)

-- Writing them back takes the write back.
pub written_over-covered :
    (at : ℕ) (patch bytes : List ℕ) (i : ℕ)
    → at + length patch ≤ length bytes
    → written_over at (covered at patch bytes) i (written_over at patch i (get_or bytes i 0))
      ≡ get_or bytes i 0
written_over-covered at patch bytes i h =
    let len = length-covered at patch bytes h in
    elim (Bool-cases (in_range at (length patch) i)) [
      | inl b ↦
          let (l, u) = in_range-true at (length patch) i b in
          let same : at + (i - at) ≡ i = omega (arith, l) in
          rw (len, b)
            (get_or-take (length patch) (i - at) (drop at bytes) (omega (arith, l, u))
              ∙ get_or-drop at (i - at) bytes
              ∙ ap (λ j. get_or bytes j 0) same)
      | inr b ↦ rw (len, b) refl
    ]

-- What is written to one page.
pub page_bytes-insert :
    (pages : Pages) (p q : PageId) (bytes : List ℕ)
    → page_bytes (insert p bytes pages) q ≡ (if p == q then bytes else page_bytes pages q)
unfolding page_bytes
page_bytes-insert pages p q bytes = elim (Bool-cases (p == q)) [
  | inl b ↦ ground (arith, b, get-insert p q bytes pages)
  | inr b ↦ ground (arith, b, get-insert p q bytes pages)
]

pub byte-logged_write :
    (pages : Pages) (p q : PageId) (lsn at : ℕ) (patch : List ℕ) (i : ℕ)
    → 12 ≤ at
    → at + length patch ≤ length (page_bytes pages p)
    → 12 ≤ i
    → byte (insert p (logged_write lsn at patch (page_bytes pages p)) pages) q i
      ≡ (if p == q then written_over at patch i (byte pages q i) else byte pages q i)
byte-logged_write pages p q lsn at patch i low fits h = elim (Bool-cases (p == q)) [
  | inl b ↦
      let same : p ≡ q = (==_iff p q).0 b in
      rw b (
        ap (λ l. get_or l i 0)
          (page_bytes-insert pages p q (logged_write lsn at patch (page_bytes pages p)) ∙ rw b refl)
        ∙ get_or-logged_write lsn at patch (page_bytes pages p) i low fits h
        ∙ ap (λ r. written_over at patch i (byte pages r i)) same)
  | inr b ↦ rw b (
      ap (λ l. get_or l i 0)
        (page_bytes-insert pages p q (logged_write lsn at patch (page_bytes pages p)) ∙ rw b refl))
]

-- Every page has its size.
abbrev pub IsSized : Pages → Type 0
IsSized pages = (p : PageId) → length (page_bytes pages p) ≡ page_size

pub IsSized-logged_write :
    (pages : Pages) (p : PageId) (lsn at : ℕ) (patch : List ℕ)
    → IsSized pages
    → 12 ≤ at
    → at + length patch ≤ page_size
    → IsSized (insert p (logged_write lsn at patch (page_bytes pages p)) pages)
IsSized-logged_write pages p lsn at patch sized low fits q =
    let room : at + length patch ≤ length (page_bytes pages p) = omega (arith, fits, sized p) in
    ap length (page_bytes-insert pages p q (logged_write lsn at patch (page_bytes pages p)))
    ∙ elim (Bool-cases (p == q)) [
      | inl b ↦ rw b (length-logged_write lsn at patch (page_bytes pages p) low room ∙ sized p)
      | inr b ↦ rw b (sized q)
    ]
