-- ===== src/SqlState.antt =====
-- crates/common/src/sql_state.rs: the codes that clients see, as their five characters.
use simple_rdbms.Common.{ℕ, List, [], ◌∷◌}

abbrev pub SqlState : Type 0
SqlState = List ℕ

abbrev pub successful_completion : SqlState
successful_completion = 48 ∷ 48 ∷ 48 ∷ 48 ∷ 48 ∷ []

abbrev pub connection_does_not_exist : SqlState
connection_does_not_exist = 48 ∷ 56 ∷ 48 ∷ 48 ∷ 51 ∷ []

abbrev pub connection_failure : SqlState
connection_failure = 48 ∷ 56 ∷ 48 ∷ 48 ∷ 54 ∷ []

abbrev pub protocol_violation : SqlState
protocol_violation = 48 ∷ 56 ∷ 80 ∷ 48 ∷ 49 ∷ []

abbrev pub numeric_value_out_of_range : SqlState
numeric_value_out_of_range = 50 ∷ 50 ∷ 48 ∷ 48 ∷ 51 ∷ []

abbrev pub null_value_not_allowed : SqlState
null_value_not_allowed = 50 ∷ 50 ∷ 48 ∷ 48 ∷ 52 ∷ []

abbrev pub invalid_text_representation : SqlState
invalid_text_representation = 50 ∷ 50 ∷ 80 ∷ 48 ∷ 50 ∷ []

abbrev pub not_null_violation : SqlState
not_null_violation = 50 ∷ 51 ∷ 53 ∷ 48 ∷ 50 ∷ []

abbrev pub unique_violation : SqlState
unique_violation = 50 ∷ 51 ∷ 53 ∷ 48 ∷ 53 ∷ []

abbrev pub no_active_sql_transaction : SqlState
no_active_sql_transaction = 50 ∷ 53 ∷ 80 ∷ 48 ∷ 49 ∷ []

abbrev pub in_failed_sql_transaction : SqlState
in_failed_sql_transaction = 50 ∷ 53 ∷ 80 ∷ 48 ∷ 50 ∷ []

abbrev pub idle_in_transaction_session_timeout : SqlState
idle_in_transaction_session_timeout = 50 ∷ 53 ∷ 80 ∷ 48 ∷ 51 ∷ []

abbrev pub lock_not_available : SqlState
lock_not_available = 53 ∷ 53 ∷ 80 ∷ 48 ∷ 51 ∷ []

abbrev pub serialization_failure : SqlState
serialization_failure = 52 ∷ 48 ∷ 48 ∷ 48 ∷ 49 ∷ []

abbrev pub deadlock_detected : SqlState
deadlock_detected = 52 ∷ 48 ∷ 80 ∷ 48 ∷ 49 ∷ []

abbrev pub statement_completion_unknown : SqlState
statement_completion_unknown = 52 ∷ 48 ∷ 48 ∷ 48 ∷ 51 ∷ []

abbrev pub syntax_error : SqlState
syntax_error = 52 ∷ 50 ∷ 54 ∷ 48 ∷ 49 ∷ []

abbrev pub ambiguous_column : SqlState
ambiguous_column = 52 ∷ 50 ∷ 55 ∷ 48 ∷ 50 ∷ []

abbrev pub undefined_column : SqlState
undefined_column = 52 ∷ 50 ∷ 55 ∷ 48 ∷ 51 ∷ []

abbrev pub undefined_parameter : SqlState
undefined_parameter = 52 ∷ 50 ∷ 80 ∷ 48 ∷ 50 ∷ []

abbrev pub undefined_table : SqlState
undefined_table = 52 ∷ 50 ∷ 80 ∷ 48 ∷ 49 ∷ []

abbrev pub duplicate_table : SqlState
duplicate_table = 52 ∷ 50 ∷ 80 ∷ 48 ∷ 55 ∷ []

abbrev pub datatype_mismatch : SqlState
datatype_mismatch = 52 ∷ 50 ∷ 56 ∷ 48 ∷ 52 ∷ []

abbrev pub undefined_object : SqlState
undefined_object = 52 ∷ 50 ∷ 55 ∷ 48 ∷ 52 ∷ []

abbrev pub undefined_function : SqlState
undefined_function = 52 ∷ 50 ∷ 56 ∷ 56 ∷ 51 ∷ []

abbrev pub duplicate_object : SqlState
duplicate_object = 52 ∷ 50 ∷ 55 ∷ 49 ∷ 48 ∷ []

abbrev pub feature_not_supported : SqlState
feature_not_supported = 48 ∷ 65 ∷ 48 ∷ 48 ∷ 48 ∷ []

abbrev pub disk_full : SqlState
disk_full = 53 ∷ 51 ∷ 49 ∷ 48 ∷ 48 ∷ []

abbrev pub out_of_memory : SqlState
out_of_memory = 53 ∷ 51 ∷ 50 ∷ 48 ∷ 48 ∷ []

abbrev pub program_limit_exceeded : SqlState
program_limit_exceeded = 53 ∷ 52 ∷ 48 ∷ 48 ∷ 48 ∷ []

abbrev pub query_canceled : SqlState
query_canceled = 53 ∷ 55 ∷ 48 ∷ 49 ∷ 52 ∷ []

abbrev pub admin_shutdown : SqlState
admin_shutdown = 53 ∷ 55 ∷ 80 ∷ 48 ∷ 49 ∷ []

abbrev pub io_error : SqlState
io_error = 53 ∷ 56 ∷ 48 ∷ 51 ∷ 48 ∷ []

abbrev pub internal_error : SqlState
internal_error = 88 ∷ 88 ∷ 48 ∷ 48 ∷ 48 ∷ []

abbrev pub data_corrupted : SqlState
data_corrupted = 88 ∷ 88 ∷ 48 ∷ 48 ∷ 49 ∷ []

abbrev pub index_corrupted : SqlState
index_corrupted = 88 ∷ 88 ∷ 48 ∷ 48 ∷ 50 ∷ []
