-- ===== src/Error.antt =====
-- crates/common/src/error.rs: the errors of the database, with their SQL state, their severity and
-- whether a client may try again. A text is its bytes; the error of an I/O call is a parameter.
use simple_rdbms.Common.{ℕ, List, Bool, true, ◌||◌, ◌≡◌, refl, ◌⊎◌, inl, inr, arith}
use simple_rdbms.Common.Options.{bytes_beq}
use simple_rdbms.SqlState.{
  SqlState, ambiguous_column as ambiguous_column_code, connection_does_not_exist,
  connection_failure, data_corrupted as data_corrupted_code,
  datatype_mismatch as datatype_mismatch_code, deadlock_detected as deadlock_detected_code,
  duplicate_object, duplicate_table as duplicate_table_code, feature_not_supported,
  idle_in_transaction_session_timeout, in_failed_sql_transaction, internal_error, io_error,
  lock_not_available, no_active_sql_transaction,
  numeric_value_out_of_range as numeric_value_out_of_range_code, out_of_memory,
  program_limit_exceeded, protocol_violation, serialization_failure as serialization_failure_code,
  statement_completion_unknown, syntax_error, undefined_column as undefined_column_code,
  undefined_function as undefined_function_code, undefined_object,
  undefined_parameter as undefined_parameter_code, undefined_table as undefined_table_code,
}

pub data Severity : Type 0 where
  error fatal panic : Severity

pub data Error (IoError : Type 0) : Type 0 where
  io : (e : IoError) → Error IoError
  checksum_mismatch : (page_id : ℕ) → (expected : ℕ) → (actual : ℕ) → Error IoError
  corrupt_page : (page_id : ℕ) → (reason : List ℕ) → Error IoError
  corrupt_log : (reason : List ℕ) → Error IoError
  truncated_file : (actual : ℕ) → (expected : ℕ) → (page_size : ℕ) → Error IoError
  page_not_found : (page_id : ℕ) → Error IoError
  double_write_restore_failed : (page_id : ℕ) → Error IoError
  buffer_pool_exhausted : Error IoError
  buffer_pool_wait_timed_out : (waited_ms : ℕ) → Error IoError
  tuple_too_large : (size : ℕ) → (max : ℕ) → Error IoError
  key_too_large : (size : ℕ) → (max : ℕ) → Error IoError
  invalid_configuration : (detail : List ℕ) → Error IoError
  syntax : (message : List ℕ) → (offset : ℕ) → Error IoError
  column_count_mismatch : (expected : ℕ) → (found : ℕ) → Error IoError
  parameter_count_mismatch : (expected : ℕ) → (found : ℕ) → Error IoError
  undefined_table : (name : List ℕ) → Error IoError
  undefined_column : (name : List ℕ) → Error IoError
  undefined_function : (name : List ℕ) → Error IoError
  undefined_parameter : (index : ℕ) → Error IoError
  ambiguous_column : (name : List ℕ) → Error IoError
  duplicate_table : (name : List ℕ) → Error IoError
  undefined_index : (name : List ℕ) → Error IoError
  duplicate_index : (name : List ℕ) → Error IoError
  datatype_mismatch : (detail : List ℕ) → Error IoError
  numeric_value_out_of_range :
      (column : List ℕ) → (value : List ℕ) → (data_type : List ℕ) → Error IoError
  data_corrupted : (detail : List ℕ) → Error IoError
  serialization_failure : (detail : List ℕ) → Error IoError
  deadlock_detected : (detail : List ℕ) → Error IoError
  internal : (detail : List ℕ) → Error IoError
  nested_transaction : Error IoError
  no_active_transaction : (statement : List ℕ) → Error IoError
  transaction_aborted : Error IoError
  not_supported : (what : List ℕ) → Error IoError
  database_locked : (path : List ℕ) → Error IoError
  flush_poisoned : Error IoError
  engine_unavailable : (detail : List ℕ) → Error IoError
  lock_timeout : (detail : List ℕ) → Error IoError
  idle_in_transaction_timeout : Error IoError
  unknown_session : (detail : List ℕ) → Error IoError

module _ {IoError : Type 0} where
  unfoldable pub sql_state : Error IoError → SqlState
  sql_state (io e) = io_error
  sql_state (checksum_mismatch page_id expected actual) = data_corrupted_code
  sql_state (corrupt_page page_id reason) = data_corrupted_code
  sql_state (corrupt_log reason) = data_corrupted_code
  sql_state (truncated_file actual expected page_size) = data_corrupted_code
  sql_state (page_not_found page_id) = data_corrupted_code
  sql_state (double_write_restore_failed page_id) = io_error
  sql_state buffer_pool_exhausted = out_of_memory
  sql_state (buffer_pool_wait_timed_out waited_ms) = out_of_memory
  sql_state (tuple_too_large size max) = program_limit_exceeded
  sql_state (key_too_large size max) = program_limit_exceeded
  sql_state (invalid_configuration detail) = connection_failure
  sql_state (syntax message offset) = syntax_error
  sql_state (column_count_mismatch expected found) = syntax_error
  sql_state (parameter_count_mismatch expected found) = protocol_violation
  sql_state (undefined_table name) = undefined_table_code
  sql_state (undefined_column name) = undefined_column_code
  sql_state (undefined_function name) = undefined_function_code
  sql_state (undefined_parameter index) = undefined_parameter_code
  sql_state (ambiguous_column name) = ambiguous_column_code
  sql_state (duplicate_table name) = duplicate_table_code
  sql_state (undefined_index name) = undefined_object
  sql_state (duplicate_index name) = duplicate_object
  sql_state (datatype_mismatch detail) = datatype_mismatch_code
  sql_state (numeric_value_out_of_range column value data_type) = numeric_value_out_of_range_code
  sql_state (data_corrupted detail) = data_corrupted_code
  sql_state (serialization_failure detail) = serialization_failure_code
  sql_state (deadlock_detected detail) = deadlock_detected_code
  sql_state (internal detail) = internal_error
  sql_state nested_transaction = no_active_sql_transaction
  sql_state (no_active_transaction statement) = no_active_sql_transaction
  sql_state transaction_aborted = in_failed_sql_transaction
  sql_state (not_supported what) = feature_not_supported
  sql_state (database_locked path) = lock_not_available
  sql_state flush_poisoned = io_error
  sql_state (engine_unavailable detail) = connection_failure
  sql_state (lock_timeout detail) = lock_not_available
  sql_state idle_in_transaction_timeout = idle_in_transaction_session_timeout
  sql_state (unknown_session detail) = connection_does_not_exist

  unfoldable pub severity : Error IoError → Severity
  severity (io e) = fatal
  severity (checksum_mismatch page_id expected actual) = fatal
  severity (corrupt_page page_id reason) = fatal
  severity (corrupt_log reason) = fatal
  severity (truncated_file actual expected page_size) = fatal
  severity (page_not_found page_id) = fatal
  severity (double_write_restore_failed page_id) = fatal
  severity buffer_pool_exhausted = error
  severity (buffer_pool_wait_timed_out waited_ms) = error
  severity (tuple_too_large size max) = error
  severity (key_too_large size max) = error
  severity (invalid_configuration detail) = fatal
  severity (syntax message offset) = error
  severity (column_count_mismatch expected found) = error
  severity (parameter_count_mismatch expected found) = error
  severity (undefined_table name) = error
  severity (undefined_column name) = error
  severity (undefined_function name) = error
  severity (undefined_parameter index) = error
  severity (ambiguous_column name) = error
  severity (duplicate_table name) = error
  severity (undefined_index name) = error
  severity (duplicate_index name) = error
  severity (datatype_mismatch detail) = error
  severity (numeric_value_out_of_range column value data_type) = error
  severity (data_corrupted detail) = fatal
  severity (serialization_failure detail) = error
  severity (deadlock_detected detail) = error
  severity (internal detail) = fatal
  severity nested_transaction = error
  severity (no_active_transaction statement) = error
  severity transaction_aborted = error
  severity (not_supported what) = error
  severity (database_locked path) = fatal
  severity flush_poisoned = fatal
  severity (engine_unavailable detail) = fatal
  severity (lock_timeout detail) = error
  severity idle_in_transaction_timeout = error
  severity (unknown_session detail) = fatal

  unfoldable pub is_retryable : Error IoError → Bool
  unfolding sql_state
  is_retryable e =
      bytes_beq (sql_state e) serialization_failure_code
      || (bytes_beq (sql_state e) deadlock_detected_code
          || (bytes_beq (sql_state e) statement_completion_unknown
              || bytes_beq (sql_state e) lock_not_available))

  -- An error that a client may try again is not fatal, except that another process has the database
  -- open.
  pub severity-is_retryable :
      (e : Error IoError)
      → is_retryable e ≡ true
      → (severity e ≡ error) ⊎ ((path : List ℕ) × (e ≡ database_locked path))
  unfolding is_retryable severity sql_state
  severity-is_retryable (io e) h = absurd (ground (arith, h))
  severity-is_retryable (checksum_mismatch page_id expected actual) h = absurd (ground (arith, h))
  severity-is_retryable (corrupt_page page_id reason) h = absurd (ground (arith, h))
  severity-is_retryable (corrupt_log reason) h = absurd (ground (arith, h))
  severity-is_retryable (truncated_file actual expected page_size) h = absurd (ground (arith, h))
  severity-is_retryable (page_not_found page_id) h = absurd (ground (arith, h))
  severity-is_retryable (double_write_restore_failed page_id) h = absurd (ground (arith, h))
  severity-is_retryable buffer_pool_exhausted h = inl refl
  severity-is_retryable (buffer_pool_wait_timed_out waited_ms) h = inl refl
  severity-is_retryable (tuple_too_large size max) h = inl refl
  severity-is_retryable (key_too_large size max) h = inl refl
  severity-is_retryable (invalid_configuration detail) h = absurd (ground (arith, h))
  severity-is_retryable (syntax message offset) h = inl refl
  severity-is_retryable (column_count_mismatch expected found) h = inl refl
  severity-is_retryable (parameter_count_mismatch expected found) h = inl refl
  severity-is_retryable (undefined_table name) h = inl refl
  severity-is_retryable (undefined_column name) h = inl refl
  severity-is_retryable (undefined_function name) h = inl refl
  severity-is_retryable (undefined_parameter index) h = inl refl
  severity-is_retryable (ambiguous_column name) h = inl refl
  severity-is_retryable (duplicate_table name) h = inl refl
  severity-is_retryable (undefined_index name) h = inl refl
  severity-is_retryable (duplicate_index name) h = inl refl
  severity-is_retryable (datatype_mismatch detail) h = inl refl
  severity-is_retryable (numeric_value_out_of_range column value data_type) h = inl refl
  severity-is_retryable (data_corrupted detail) h = absurd (ground (arith, h))
  severity-is_retryable (serialization_failure detail) h = inl refl
  severity-is_retryable (deadlock_detected detail) h = inl refl
  severity-is_retryable (internal detail) h = absurd (ground (arith, h))
  severity-is_retryable nested_transaction h = inl refl
  severity-is_retryable (no_active_transaction statement) h = inl refl
  severity-is_retryable transaction_aborted h = inl refl
  severity-is_retryable (not_supported what) h = inl refl
  severity-is_retryable (database_locked path) h = inr (path, refl)
  severity-is_retryable flush_poisoned h = absurd (ground (arith, h))
  severity-is_retryable (engine_unavailable detail) h = absurd (ground (arith, h))
  severity-is_retryable (lock_timeout detail) h = inl refl
  severity-is_retryable idle_in_transaction_timeout h = inl refl
  severity-is_retryable (unknown_session detail) h = absurd (ground (arith, h))
