-- ===== src/Tests/Errors.antt =====
-- A deadlock is an error that a client may try again.
use simple_rdbms.Common.{ℕ, List, [], ◌∷◌, ◌≡◌, ◌⊎◌, refl, true}
use simple_rdbms.Error.{Error, error, deadlock_detected, database_locked, sql_state, severity}
use simple_rdbms.Error.{is_retryable, severity-is_retryable}

abbrev deadlock : Error ℕ
deadlock = deadlock_detected (116 ∷ 49 ∷ [])

deadlock_retryable : is_retryable deadlock ≡ true
unfolding is_retryable sql_state
deadlock_retryable = refl

severity-is_retryable_example :
    (severity deadlock ≡ error) ⊎ ((path : List ℕ) × (deadlock ≡ database_locked path))
severity-is_retryable_example = severity-is_retryable deadlock deadlock_retryable
