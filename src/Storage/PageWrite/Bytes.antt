-- ===== src/Storage/PageWrite/Bytes.antt =====
-- What a write leaves of the bytes of a page.
use simple_rdbms.Common.{
  ℕ, zero, suc, ◌+◌, ◌-◌, ◌≤◌, ◌<◌, ◌≡◌, refl, sym, ap, ◌∙◌, List, [], ◌∷◌, ◌++◌,
}
use simple_rdbms.Common.{length, take, drop, get_or, arith, length-append, length-drop}
use simple_rdbms.Common.{length-take}
use simple_rdbms.Common.{get_or-append}
use simple_rdbms.Common.Bytes.{to_le_bytes, length-to_le_bytes}
use simple_rdbms.Storage.PageWrite.{overwrite, set_page_lsn}

pub length-overwrite :
    (at : ℕ) (patch bytes : List ℕ)
    → at + length patch ≤ length bytes
    → length (overwrite at patch bytes) ≡ length bytes
unfolding overwrite
length-overwrite at patch bytes h = omega (
  arith,
  h,
  length-append (take at bytes) (patch ++ drop (at + length patch) bytes),
  length-append patch (drop (at + length patch) bytes),
  length-take at bytes,
  length-drop (at + length patch) bytes,
)

drop-past : (s : ℕ) (xs ys : List ℕ) → length xs ≤ s → drop s (xs ++ ys) ≡ drop (s - length xs) ys
drop-past s [] ys h = ap (λ n. drop n ys) (omega arith)
drop-past zero (x ∷ xs) ys h = absurd (omega (arith, h))
drop-past (suc s) (x ∷ xs) ys h =
    drop-past s xs ys (omega (arith, h)) ∙ ap (λ n. drop n ys) (omega arith)

drop_nil : (k : ℕ) → drop {A = ℕ} k [] ≡ []
drop_nil zero = refl
drop_nil (suc k) = refl

drop-drop : (m n : ℕ) (xs : List ℕ) → drop m (drop n xs) ≡ drop (n + m) xs
drop-drop m zero xs = ap (λ k. drop k xs) (omega arith)
drop-drop m (suc n) [] = drop_nil m ∙ sym (drop_nil (suc n + m))
drop-drop m (suc n) (x ∷ xs) =
    let q : suc (n + m) ≡ suc n + m = omega arith in drop-drop m n xs ∙ ap (λ k. drop k (x ∷ xs)) q

-- The bytes behind the written range stay.
pub drop-overwrite :
    (at : ℕ) (patch bytes : List ℕ) (s : ℕ)
    → at + length patch ≤ length bytes
    → at + length patch ≤ s
    → drop s (overwrite at patch bytes) ≡ drop s bytes
unfolding overwrite
drop-overwrite at patch bytes s h k =
    let front = length-take at bytes in
    drop-past s (take at bytes) (patch ++ drop (at + length patch) bytes)
      (omega (arith, h, k, front))
    ∙ drop-past (s - length (take at bytes)) patch (drop (at + length patch) bytes)
        (omega (arith, h, k, front))
    ∙ drop-drop (s - length (take at bytes) - length patch) (at + length patch) bytes
    ∙ ap (λ n. drop n bytes) (omega (arith, h, k, front))

pub get_or-drop : (n i : ℕ) (bytes : List ℕ) → get_or (drop n bytes) i 0 ≡ get_or bytes (n + i) 0
get_or-drop zero i bytes = ap (λ x. get_or bytes x 0) (omega arith)
get_or-drop (suc n) i [] = refl
get_or-drop (suc n) i (b ∷ bs) =
    let q : suc (n + i) ≡ suc n + i = omega arith in
    get_or-drop n i bs ∙ ap (λ x. get_or (b ∷ bs) x 0) q

pub get_or-overwrite_behind :
    (at : ℕ) (patch bytes : List ℕ) (i : ℕ)
    → at + length patch ≤ length bytes
    → at + length patch ≤ i
    → get_or (overwrite at patch bytes) i 0 ≡ get_or bytes i 0
get_or-overwrite_behind at patch bytes i h k =
    ap (λ n. get_or (overwrite at patch bytes) n 0) (omega arith)
    ∙ sym (get_or-drop i 0 (overwrite at patch bytes))
    ∙ ap (λ l. get_or l 0 0) (drop-overwrite at patch bytes i h k)
    ∙ get_or-drop i 0 bytes
    ∙ ap (λ n. get_or bytes n 0) (omega arith)

pub get_or-take : (n i : ℕ) (bytes : List ℕ) → i < n → get_or (take n bytes) i 0 ≡ get_or bytes i 0
get_or-take zero i bytes h = absurd (omega (arith, h))
get_or-take (suc n) i [] h = refl
get_or-take (suc n) zero (b ∷ bs) h = refl
get_or-take (suc n) (suc i) (b ∷ bs) h = get_or-take n i bs (omega (arith, h))

pub get_or-overwrite_before :
    (at : ℕ) (patch bytes : List ℕ) (i : ℕ)
    → at ≤ length bytes
    → i < at
    → get_or (overwrite at patch bytes) i 0 ≡ get_or bytes i 0
unfolding overwrite
get_or-overwrite_before at patch bytes i h k =
    get_or-append (take at bytes) (patch ++ drop (at + length patch) bytes) i 0
      (omega (arith, h, k, length-take at bytes))
    ∙ get_or-take at i bytes k

-- The written range holds the patch.
pub drop_at-overwrite :
    (at : ℕ) (patch bytes : List ℕ)
    → at ≤ length bytes
    → drop at (overwrite at patch bytes) ≡ patch ++ drop (at + length patch) bytes
unfolding overwrite
drop_at-overwrite at patch bytes h =
    let q : at - length (take at bytes) ≡ 0 = omega (arith, h, length-take at bytes) in
    drop-past at (take at bytes) (patch ++ drop (at + length patch) bytes)
      (omega (arith, h, length-take at bytes))
    ∙ ap (λ n. drop n (patch ++ drop (at + length patch) bytes)) q

pub get_or-overwrite_in :
    (at : ℕ) (patch bytes : List ℕ) (i : ℕ)
    → at ≤ length bytes
    → i < length patch
    → get_or (overwrite at patch bytes) (at + i) 0 ≡ get_or patch i 0
get_or-overwrite_in at patch bytes i h k =
    sym (get_or-drop at i (overwrite at patch bytes))
    ∙ ap (λ l. get_or l i 0) (drop_at-overwrite at patch bytes h)
    ∙ get_or-append patch (drop (at + length patch) bytes) i 0 k

-- The bytes after a write that was logged.
abbrev pub logged_write : ℕ → ℕ → List ℕ → List ℕ → List ℕ
logged_write lsn at patch bytes = set_page_lsn (overwrite at patch bytes) lsn

module _ (lsn at : ℕ) (patch bytes : List ℕ) (low : 12 ≤ at)
    (fits : at + length patch ≤ length bytes) where
  lsn_fits : 4 + length (to_le_bytes 8 lsn) ≤ length (overwrite at patch bytes)
  lsn_fits =
      omega (arith, length-to_le_bytes 8 lsn, length-overwrite at patch bytes fits, low, fits)

  pub length-logged_write : length (logged_write lsn at patch bytes) ≡ length bytes
  unfolding set_page_lsn
  length-logged_write =
      length-overwrite 4 (to_le_bytes 8 lsn) (overwrite at patch bytes) lsn_fits
      ∙ length-overwrite at patch bytes fits

  past_the_lsn :
      (i : ℕ)
      → 12 ≤ i
      → get_or (logged_write lsn at patch bytes) i 0 ≡ get_or (overwrite at patch bytes) i 0
  unfolding set_page_lsn
  past_the_lsn i h =
      get_or-overwrite_behind 4 (to_le_bytes 8 lsn) (overwrite at patch bytes) i lsn_fits
        (omega (arith, h, length-to_le_bytes 8 lsn))

  pub get_or-logged_write_before :
      (i : ℕ) → 12 ≤ i → i < at → get_or (logged_write lsn at patch bytes) i 0 ≡ get_or bytes i 0
  get_or-logged_write_before i h k =
      past_the_lsn i h ∙ get_or-overwrite_before at patch bytes i (omega (arith, fits)) k

  pub get_or-logged_write_behind :
      (i : ℕ)
      → at + length patch ≤ i
      → get_or (logged_write lsn at patch bytes) i 0 ≡ get_or bytes i 0
  get_or-logged_write_behind i h =
      past_the_lsn i (omega (arith, low, h)) ∙ get_or-overwrite_behind at patch bytes i fits h

  pub get_or-logged_write_in :
      (i : ℕ)
      → i < length patch
      → get_or (logged_write lsn at patch bytes) (at + i) 0 ≡ get_or patch i 0
  get_or-logged_write_in i h =
      past_the_lsn (at + i) (omega (arith, low))
      ∙ get_or-overwrite_in at patch bytes i (omega (arith, fits)) h

  pub drop-logged_write :
      (s : ℕ) → at + length patch ≤ s → drop s (logged_write lsn at patch bytes) ≡ drop s bytes
  unfolding set_page_lsn
  drop-logged_write s h =
      drop-overwrite 4 (to_le_bytes 8 lsn) (overwrite at patch bytes) s lsn_fits
        (omega (arith, low, h, length-to_le_bytes 8 lsn))
      ∙ drop-overwrite at patch bytes s fits h

  pub drop_at-logged_write :
      drop at (logged_write lsn at patch bytes) ≡ patch ++ drop (at + length patch) bytes
  unfolding set_page_lsn
  drop_at-logged_write =
      drop-overwrite 4 (to_le_bytes 8 lsn) (overwrite at patch bytes) at lsn_fits
        (omega (arith, low, length-to_le_bytes 8 lsn))
      ∙ drop_at-overwrite at patch bytes (omega (arith, fits))
