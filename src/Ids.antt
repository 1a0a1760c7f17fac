-- ===== src/Ids.antt =====
-- crates/common/src/ids.rs. The newtypes over one number are the number itself.
use simple_rdbms.Common.{ℕ, ◌≡◌, Bool, true, ◌&&◌, arith, ◌==◌}
use simple_rdbms.Common.Map.{Eq}

abbrev pub PageId : Type 0
PageId = ℕ

abbrev pub TxnId : Type 0
TxnId = ℕ

abbrev pub TableId : Type 0
TableId = ℕ

abbrev pub IndexId : Type 0
IndexId = ℕ

abbrev pub Lsn : Type 0
Lsn = ℕ

pub record Rid : Type 0 where
  pub page_id : PageId
  pub slot : ℕ

abbrev pub rid_beq : Rid → Rid → Bool
rid_beq a b = a.page_id == b.page_id && a.slot == b.slot

pub rid_beq_sound : (a b : Rid) → rid_beq a b ≡ true → a ≡ b
rid_beq_sound a b h = ground arith

pub rid_beq_refl : (a : Rid) → rid_beq a a ≡ true
rid_beq_refl a = ground arith

instance abbrev pub rid_eq : Eq Rid
rid_eq = record { beq = rid_beq; beq_sound = rid_beq_sound; beq_refl = rid_beq_refl }
