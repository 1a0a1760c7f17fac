-- ===== src/Types.antt =====
-- crates/types: values, their comparison, the tuple format and the order-preserving key format.
pub mod Utf8
pub mod Float
pub mod Value
pub mod Memcomparable
pub mod Tuple
