-- ===== src/Errors.antt =====
-- result.go: the result codes that the other packages tell apart, and the errors that carry them.
-- The numbers behind the codes are SQLite's; a code is one of the constants' names here, and
-- `extended` is any other number.
use go_sqlite.Base.{◌⊎◌, inl, inr, ℕ, ◌≡◌, refl, Bool, true, false, Option, none, some, arith}
use Prim.Native.String.{String}

pub data ResultCode : Type 0 where
  result_ok result_error result_internal result_perm result_abort result_busy : ResultCode
  result_locked result_no_mem result_read_only result_interrupt result_io_err : ResultCode
  result_corrupt result_not_found result_full result_cant_open result_protocol : ResultCode
  result_empty result_schema result_too_big result_constraint result_mismatch : ResultCode
  result_misuse result_no_lfs result_auth result_format result_range result_not_a_db : ResultCode
  result_notice result_warning result_row result_done : ResultCode
  result_constraint_primary_key result_locked_shared_cache : ResultCode
  extended : ℕ → ResultCode

-- A Go `error`: one that wraps an SQLite error, or any other, by its text.
pub data Error : Type 0 where
  sqlite : ResultCode → Error
  message : String → Error

-- (ResultCode).IsSuccess
unfoldable pub is_success : ResultCode → Bool
is_success result_ok = true
is_success result_row = true
is_success result_done = true
is_success _ = false

-- (ResultCode).ToError
unfoldable pub to_error : ResultCode → Option Error
unfolding is_success
to_error c = elim (is_success c) [ true ↦ none | false ↦ some (sqlite c) ]

-- ErrCode
unfoldable pub err_code : Option Error → ResultCode
err_code none = result_ok
err_code (some (sqlite c)) = c
err_code (some (message m)) = result_error

-- ErrCode of ToError is the code, unless the code is one of success: then it is ResultOK.
pub err_code-to_error :
    (c : ResultCode)
    → err_code (to_error c) ≡ (elim (is_success c) [ true ↦ result_ok | false ↦ c ])
unfolding err_code to_error
err_code-to_error c = ground arith

pub data Result {ℓ} (A : Type ℓ) : Type ℓ where
  ok : A → Result A
  err : Error → Result A

pub Result-cases {ℓ} :
    {A : Type ℓ} (r : Result A) → ((a : A) × (r ≡ ok a)) ⊎ ((e : Error) × (r ≡ err e))
Result-cases (ok a) = inl (a, refl)
Result-cases (err e) = inr (e, refl)
