-- ===== src/Errors.antt =====
-- The sentinel errors of the three packages (record.Err*, segment.Err*, wal.Err*), the two of
-- package io that the scanner tells apart, and Go's (value, error) pair.
use go_wallib.Base.{◌≡◌, refl, ◌⊎◌, inl, inr}

-- `eof` and `unexpected_eof` are io's; `not_exist` and `already_exists` are what `os.IsNotExist` and
-- an exclusive create report; `io_failure` is any other failure of a file operation. `canceled` and
-- `deadline_exceeded` are package context's. `panicked` is no Go error: it stands where the source would panic.
pub data Error : Type 0 where
  eof unexpected_eof io_failure not_exist already_exists : Error
  payload_too_large torn record_corrupt too_large : Error
  bad_magic unknown_version segment_corrupt : Error
  closed wal_corrupt record_too_large truncated canceled deadline_exceeded : Error
  panicked : Error

pub data Result {ℓ} (A : Type ℓ) : Type ℓ where
  ok : A → Result A
  err : Error → Result A

pub Result-cases {ℓ} :
    {A : Type ℓ} (r : Result A) → ((a : A) × (r ≡ ok a)) ⊎ ((e : Error) × (r ≡ err e))
Result-cases (ok a) = inl (a, refl)
Result-cases (err e) = inr (e, refl)
