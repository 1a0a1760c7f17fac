-- ===== src/Common/Map.antt =====
-- Equality tests, and the finite maps and sets that stand for `HashMap`, `HashSet` and `BTreeMap`:
-- association lists read by their keys.
use simple_rdbms.Common.{ℕ, ◌≡◌, refl, ◌∙◌, Bool, true, false, Option, none}
use simple_rdbms.Common.{some, List, [], ◌∷◌, arith, if◌then◌else◌, Bool-cases, inl, inr, ◌⊎◌}
use simple_rdbms.Common.Options.{bytes_beq, bytes_beq_refl}
use simple_rdbms.Common.{◌==◌ as nat_beq, ==_iff, any}

pub record Eq {ℓ} (A : Type ℓ) : Type ℓ where
  pub beq : A → A → Bool
  pub beq_sound : (a b : A) → beq a b ≡ true → a ≡ b
  pub beq_refl : (a : A) → beq a a ≡ true

pub nat_beq_sound : (a b : ℕ) → nat_beq a b ≡ true → a ≡ b
nat_beq_sound a b h = (==_iff a b).0 h

pub nat_beq_refl : (a : ℕ) → nat_beq a a ≡ true
nat_beq_refl a = (==_iff a a).1 refl

instance abbrev pub nat_eq : Eq ℕ
nat_eq = record { beq = nat_beq; beq_sound = nat_beq_sound; beq_refl = nat_beq_refl }

pub bytes_beq_sound : (a b : List ℕ) → bytes_beq a b ≡ true → a ≡ b
bytes_beq_sound [] [] h = refl
bytes_beq_sound (x ∷ xs) (y ∷ ys) h = ground (arith, bytes_beq_sound xs ys, ==_iff x y)
bytes_beq_sound [] (y ∷ ys) h = cc
bytes_beq_sound (x ∷ xs) [] h = cc

instance abbrev pub bytes_eq : Eq (List ℕ)
bytes_eq = record { beq = bytes_beq; beq_sound = bytes_beq_sound; beq_refl = bytes_beq_refl }

module _ {ℓ} {A : Type ℓ} ⦃e : Eq A⦄ where
  -- Membership of a list that stands for a set.
  abbrev pub contains : A → List A → Bool
  contains a xs = any (λ x. e.beq x a) xs

  pub beq_cases : (a b : A) → ((a ≡ b) × (e.beq a b ≡ true)) ⊎ (e.beq a b ≡ false)
  beq_cases a b = elim (Bool-cases (e.beq a b)) [
    | inl h ↦ inl (e.beq_sound a b h, h)
    | inr h ↦ inr h
  ]

  other : (i k j : A) → k ≡ j → e.beq i k ≡ false → e.beq i j ≡ false
  other i k j q h = rw (← q) h

abbrev pub Map {ℓ κ} : Type ℓ → Type κ → Type (ℓ ⊔ κ)
Map K V = List (K × V)

module _ {ℓ κ} {K : Type ℓ} {V : Type κ} ⦃e : Eq K⦄ where
  unfoldable pub get : K → Map K V → Option V
  get k [] = none
  get k ((j, v) ∷ m) = let rest = get k m in if e.beq j k then some v else rest

  unfoldable pub remove : K → Map K V → Map K V
  remove k [] = []
  remove k ((j, v) ∷ m) = let rest = remove k m in if e.beq j k then rest else (j, v) ∷ rest

  unfoldable pub insert : K → V → Map K V → Map K V
  unfolding remove
  insert k v m = (k, v) ∷ remove k m

  pub get-remove :
      (k j : K) (m : Map K V) → get j (remove k m) ≡ (if e.beq k j then none else get j m)
  unfolding get remove
  get-remove k j [] = ground arith
  get-remove k j ((i, v) ∷ m) = elim (beq_cases i k) [
    | inl (p, h) ↦ rw (p, e.beq_refl k) (get-remove k j m ∙ ground arith)
    | inr h ↦ elim (beq_cases k j) [
      | inl (q, g) ↦ ground (arith, h, g, get-remove k j m, other i k j q h)
      | inr g ↦ ground (arith, h, g, get-remove k j m)
    ]
  ]

  pub get-insert :
      (k j : K) (v : V) (m : Map K V)
      → get j (insert k v m) ≡ (if e.beq k j then some v else get j m)
  unfolding get insert
  get-insert k j v m = ground (arith, get-remove k j m)

pub ruleset map_laws = (get-remove, get-insert)
