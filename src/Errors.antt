-- ===== src/Errors.antt =====
-- koreader-plugin/internal/localsend/constants/errors.go and the limits of constants/security.go.
use pdf_to_epub.Prelude.{
  ℕ, ◌≡◌, refl, ◌⊎◌, inl, inr, Option, none, some, arith, ◌==◌, if◌then◌else◌,
}

pub data TransferError : Type 0 where
  finished invalid_body rejected invalid_pin blocked_by_others unknown : TransferError
  too_many_req too_many_files file_io checksum fingerprint not_found : TransferError
  too_many_sessions : TransferError

-- `none` is the error `nil`.
unfoldable pub parse_error : ℕ → Option TransferError
parse_error status =
    if status == 200
    then none
    else if status == 204
    then some finished
    else if status == 400
    then some invalid_body
    else if status == 401
    then some invalid_pin
    else if status == 404
    then some not_found
    else if status == 403
    then some rejected
    else if status == 409
    then some blocked_by_others
    else if status == 429
    then some too_many_req
    else if status == 422
    then some checksum
    else some unknown

unfoldable pub status : Option TransferError → ℕ
status none = 200
status (some finished) = 204
status (some invalid_body) = 400
status (some invalid_pin) = 401
status (some rejected) = 403
status (some not_found) = 404
status (some blocked_by_others) = 409
status (some too_many_req) = 429
status (some checksum) = 422
status (some _) = 500

abbrev pub max_files_per_session : ℕ
max_files_per_session = 10000

abbrev pub max_pin_attempts : ℕ
max_pin_attempts = 3

-- 30 seconds, in nanoseconds.
abbrev pub pin_block_duration : ℕ
pin_block_duration = 30_000_000_000

-- An error, or none, that is sent as a status is read back as it was, or it was sent as 500 and is
-- read back as unknown.
parse_error-status :
    (e : Option TransferError)
    → (parse_error (status e) ≡ e) ⊎ ((status e ≡ 500) × (parse_error (status e) ≡ some unknown))
unfolding parse_error status
parse_error-status none = inl refl
parse_error-status (some finished) = inl refl
parse_error-status (some invalid_body) = inl refl
parse_error-status (some invalid_pin) = inl refl
parse_error-status (some rejected) = inl refl
parse_error-status (some not_found) = inl refl
parse_error-status (some blocked_by_others) = inl refl
parse_error-status (some too_many_req) = inl refl
parse_error-status (some checksum) = inl refl
parse_error-status (some _) = inr (refl, refl)

-- A status that is read as an error, or as none, and sent again is the same, or it is read as unknown
-- and sent again as 500.
status-parse_error :
    (n : ℕ)
    → (status (parse_error n) ≡ n)
      ⊎ ((status (parse_error n) ≡ 500) × (parse_error n ≡ some unknown))
unfolding parse_error status
status-parse_error n = ground arith
