-- ===== src/Txn/VersionStore/Removal.antt =====
-- What `abort_versions` and `prune` of crates/txn/src/version_store.rs leave of what readers see.
use simple_rdbms.Common.{ℕ, ◌≤◌, ◌≡◌, ◌≢◌, refl, sym, ap, subst, ◌∙◌, true, false}
use simple_rdbms.Common.{Option, none, some, List, [], ◌∷◌, arith}
use simple_rdbms.Common.{◌==◌, ==_iff, inl, inr, ◌⊎◌, Bool-cases, Option-cases}
use simple_rdbms.Common.Map.{Map, nat_eq, get, insert, contains, get-insert, get-remove}
use simple_rdbms.Ids.{TxnId, Rid, rid_eq, rid_beq, rid_beq_sound}
use simple_rdbms.Txn.LockState.{or_empty}
use simple_rdbms.Txn.VersionChain.{VersionChain}
use simple_rdbms.Txn.VersionChain.{visible_version_for, remove_creator, is_empty}
use simple_rdbms.Txn.VersionChain.{is_prunable}
use simple_rdbms.Txn.VersionStore.{StoreState}
use simple_rdbms.Txn.VersionStore.{
  abort_each, abort_versions, prune_rows, prune_at, due, prune_each, prune,
}
use simple_rdbms.Txn.VersionStore.{is_visible_to}
use simple_rdbms.Txn.VersionStore.Visibility.{
  sees, is_pending, sees_row, is_visible_to_lem, on_chain,
}

remove_creator_idem :
    (t : TxnId) (chain : VersionChain)
    → remove_creator (remove_creator chain t) t ≡ remove_creator chain t
unfolding remove_creator
remove_creator_idem t [] = refl
remove_creator_idem t (e ∷ es) = ground (arith, remove_creator_idem t es)

sees-remove_creator :
    (t reader : TxnId) (ts : ℕ) (chain : VersionChain)
    → (t == reader) ≡ false
    → is_pending t chain ≡ true
    → sees reader ts (remove_creator chain t) ≡ sees reader ts chain
unfolding remove_creator visible_version_for
sees-remove_creator t reader ts [] n p = refl
sees-remove_creator t reader ts (e ∷ es) n p =
    ground (arith, n, p, ==_iff e.creator_txn_id t, sees-remove_creator t reader ts es n)

pub get-abort_each :
    (t : TxnId) (rids : List Rid) (q : Rid) (m : Map Rid VersionChain)
    → get q (abort_each t rids m).0 ≡ on_chain (contains q rids) (λ c. remove_creator c t) (get q m)
unfolding abort_each
get-abort_each t [] q m = elim (Option-cases (get q m)) [
  | inl n ↦ ground (arith, n)
  | inr (c, g) ↦ ground (arith, g)
]
get-abort_each t (r ∷ rids) q m = elim (Option-cases (get r m)) [
  | inl n ↦ elim (Bool-cases (rid_beq r q)) [
    | inl e ↦ ground (arith, n, e, rid_beq_sound r q e, get-abort_each t rids q m)
    | inr e ↦ ground (arith, n, e, get-abort_each t rids q m)
  ]
  | inr (c, g) ↦
      let m' = insert r (remove_creator c t) m in
      let found = get-insert r q (remove_creator c t) m in
      elim (Bool-cases (rid_beq r q)) [
        | inl e ↦ ground (
          arith,
          g,
          e,
          rid_beq_sound r q e,
          found,
          remove_creator_idem t c,
          get-abort_each t rids q m',
        )
        | inr e ↦ ground (arith, g, e, found, get-abort_each t rids q m')
      ]
]

-- Where no version of the transaction has begun, its abort changes nothing that another reader
-- sees.
pub is_visible_to-abort_versions :
    (s : StoreState) (t reader : TxnId) (next_ts ts : ℕ) (q : Rid)
    → t ≢ reader
    → is_pending t (or_empty (get q s.chains)) ≡ true
    → is_visible_to (abort_versions s t next_ts) q reader ts ≡ is_visible_to s q reader ts
unfolding abort_versions
is_visible_to-abort_versions s t reader next_ts ts q n p =
    elim (Option-cases (get t s.write_sets)) [
      | inl a ↦ ground (arith, a)
      | inr (rids, w) ↦
          let seen = is_visible_to_lem (abort_versions s t next_ts) q reader ts in
          elim (Option-cases (get q s.chains)) [
            | inl a ↦ ground (
              arith,
              a,
              w,
              seen,
              is_visible_to_lem s q reader ts,
              get-abort_each t rids q s.chains,
            )
            | inr (c, g) ↦ ground (
              arith,
              g,
              w,
              seen,
              p,
              is_visible_to_lem s q reader ts,
              get-abort_each t rids q s.chains,
              sees-remove_creator t reader ts c (ground (arith, n, ==_iff t reader)),
            )
          ]
    ]

-- A chain stays as it is, or it is one that may go and goes.
abbrev pub IsPruned : ℕ → Option VersionChain → Option VersionChain → Type 0
IsPruned watermark old new =
    (new ≡ old)
    ⊎ ((new ≡ none) × (c : VersionChain) × (old ≡ some c) × (is_prunable c watermark ≡ true))

IsPruned-trans :
    (w : ℕ) (a b c : Option VersionChain) → IsPruned w a b → IsPruned w b c → IsPruned w a c
IsPruned-trans w a b c (inl p) (inl q) = inl (q ∙ p)
IsPruned-trans w a b c (inl p) (inr (q, d, r, k)) = inr (q, d, sym p ∙ r, k)
IsPruned-trans w a b c (inr (p, d, r, k)) (inl q) = inr (q ∙ p, d, r, k)
IsPruned-trans w a b c (inr (p, d, r, k)) (inr (q, e, t, l)) = inr (q, d, r, k)

prune_row-IsPruned :
    (w : ℕ) (r q : Rid) (m : Map Rid VersionChain)
    → IsPruned w (get q m) (get q (prune_rows w (r ∷ []) m))
unfolding prune_rows
prune_row-IsPruned w r q m = elim (Option-cases (get r m)) [
  | inl n ↦ inl (ground (arith, n))
  | inr (c, g) ↦ elim (Bool-cases (is_prunable c w)) [
    | inl k ↦ elim (Bool-cases (rid_beq r q)) [
      | inl e ↦
          inr (
            ground (arith, g, k, e, get-remove r q m),
            c,
            ground (arith, g, rid_beq_sound r q e),
            k,
          )
      | inr e ↦ inl (ground (arith, g, k, e, get-remove r q m))
    ]
    | inr k ↦ inl (ground (arith, g, k))
  ]
]

prune_rows-IsPruned :
    (w : ℕ) (rids : List Rid) (q : Rid) (m : Map Rid VersionChain)
    → IsPruned w (get q m) (get q (prune_rows w rids m))
unfolding prune_rows
prune_rows-IsPruned w [] q m = inl refl
prune_rows-IsPruned w (r ∷ rids) q m =
    let m' = prune_rows w (r ∷ []) m in
    IsPruned-trans w (get q m) (get q m') (get q (prune_rows w rids m'))
      (prune_row-IsPruned w r q m) (prune_rows-IsPruned w rids q m')

prune_at-IsPruned :
    (w ts : ℕ) (q : Rid) (s : StoreState)
    → IsPruned w (get q s.chains) (get q (prune_at w ts s).chains)
unfolding prune_at
prune_at-IsPruned w ts q s = elim (Option-cases (get ts s.prune_candidates)) [
  | inl n ↦ inl (ground (arith, n))
  | inr (rids, g) ↦
      subst (IsPruned w (get q s.chains)) (ground (arith, g))
        (prune_rows-IsPruned w rids q s.chains)
]

pub prune_each-IsPruned :
    (w : ℕ) (tss : List ℕ) (q : Rid) (s : StoreState)
    → IsPruned w (get q s.chains) (get q (prune_each w tss s).chains)
unfolding prune_each
prune_each-IsPruned w [] q s = inl refl
prune_each-IsPruned w (ts ∷ tss) q s =
    let s' = prune_at w ts s in
    IsPruned-trans w (get q s.chains) (get q s'.chains) (get q (prune_each w tss s').chains)
      (prune_at-IsPruned w ts q s) (prune_each-IsPruned w tss q s')

sees-prunable :
    (reader : TxnId) (w ts : ℕ) (chain : VersionChain)
    → is_prunable chain w ≡ true
    → is_empty chain ≡ false
    → w ≤ ts
    → sees reader ts chain ≡ true
unfolding is_prunable visible_version_for
sees-prunable reader w ts [] k n h = cc
sees-prunable reader w ts (e ∷ es) k n h = sees_settled e.begin_ts e.end_ts refl refl
  where
    sees_settled : (b f : Option ℕ) → e.begin_ts ≡ b → e.end_ts ≡ f → sees reader ts (e ∷ es) ≡ true
    sees_settled (some b) none p q = ground (arith, p, q, k, h)
    sees_settled b f p q = ground (arith, p, q, k, h)

-- `prune` changes nothing that a reader of a snapshot at or after the watermark sees of a row,
-- except that a row whose last version was taken back by an abort, so that its chain is empty,
-- may lose the chain and is then as a row that was never written.
pub is_visible_to-prune :
    (s : StoreState) (w : ℕ) (q : Rid) (reader : TxnId) (ts : ℕ)
    → w ≤ ts
    → get q s.chains ≢ some []
    → is_visible_to (prune s w) q reader ts ≡ is_visible_to s q reader ts
unfolding prune
is_visible_to-prune s w q reader ts h n =
    elim (prune_each-IsPruned w (due w s.prune_candidates) q s) [
      | inl p ↦
          is_visible_to_lem (prune s w) q reader ts
          ∙ ap (sees_row reader ts) p
          ∙ sym (is_visible_to_lem s q reader ts)
      | inr (p, [], g, k) ↦ absurd (n g)
      | inr (p, c ∷ cs, g, k) ↦
          is_visible_to_lem (prune s w) q reader ts
          ∙ ap (sees_row reader ts) p
          ∙ sym (sees-prunable reader w ts (c ∷ cs) k refl h)
          ∙ sym (is_visible_to_lem s q reader ts ∙ ap (sees_row reader ts) g)
    ]
