-- ===== src/Apperror.antt =====
-- internal/platform/apperror/errors.go, with the sentinel errors and the errors of libraries that
-- the services tell apart, and Go's `errors.Is` on them.
use gsb_salak_backend.Prelude.{ℕ, String, Bool, true, false}

-- apperror.Kind
pub data Kind : Type 0 where
  validation not_found unauthorized forbidden conflict internal : Kind

-- A non-nil Go error. `app` is an *apperror.Error with a nil Err, `wrapped` one with an Err.
pub data Error : Type 0 where
  app : Kind → String → String → Error
  wrapped : Kind → String → String → Error → Error
  -- fmt.Errorf("text: %w", err), and errors.New
  annotated : String → Error → Error
  text : String → Error
  -- gorm.ErrRecordNotFound, and what the driver reports of a statement that failed
  record_not_found : Error
  statement_failed : Error
  check_violation : Error
  unique_violation : Error
  foreign_key_violation : Error
  data_too_long : Error
  -- context.Canceled
  canceled : Error
  -- salak.ErrDrawDay, salak.ErrUnitsExceedLetterCapacity
  draw_day : Error
  units_exceed_letter_capacity : Error

-- `New` and the constructors built on it. The second argument of `app` is the code.
unfoldable pub new : Kind → String → Error
new k message = app k "" message

unfoldable pub wrap : Kind → String → Error → Error
wrap k message e = wrapped k "" message e

unfoldable pub with_code : Error → String → Error
with_code (app k _ m) code = app k code m
with_code (wrapped k _ m e) code = wrapped k code m e
with_code e code = e

abbrev pub validation_error : String → Error
validation_error = new validation

abbrev pub not_found_error : String → Error
not_found_error = new not_found

abbrev pub unauthorized_error : String → Error
unauthorized_error = new unauthorized

abbrev pub forbidden_error : String → Error
forbidden_error = new forbidden

abbrev pub conflict_error : String → Error
conflict_error = new conflict

abbrev pub internal_error : String → Error → Error
internal_error = wrap internal

abbrev status_of : Kind → ℕ
status_of validation = 400
status_of not_found = 404
status_of unauthorized = 401
status_of forbidden = 403
status_of conflict = 409
status_of internal = 500

-- `HTTPStatus`: the type assertion sees only the outermost error.
unfoldable pub http_status : Error → ℕ
http_status (app k _ _) = status_of k
http_status (wrapped k _ _ _) = status_of k
http_status _ = 500

-- errors.Is(err, gorm.ErrRecordNotFound)
abbrev pub is_record_not_found : Error → Bool
is_record_not_found record_not_found = true
is_record_not_found (wrapped _ _ _ e) = is_record_not_found e
is_record_not_found (annotated _ e) = is_record_not_found e
is_record_not_found _ = false

-- errors.Is(err, salak.ErrDrawDay)
abbrev pub is_draw_day_error : Error → Bool
is_draw_day_error draw_day = true
is_draw_day_error (wrapped _ _ _ e) = is_draw_day_error e
is_draw_day_error (annotated _ e) = is_draw_day_error e
is_draw_day_error _ = false

-- errors.Is(err, salak.ErrUnitsExceedLetterCapacity)
abbrev pub is_capacity_error : Error → Bool
is_capacity_error units_exceed_letter_capacity = true
is_capacity_error (wrapped _ _ _ e) = is_capacity_error e
is_capacity_error (annotated _ e) = is_capacity_error e
is_capacity_error _ = false

-- errors.As(err, &pgErr) && pgErr.Code == "23505"
abbrev pub is_unique_violation : Error → Bool
is_unique_violation unique_violation = true
is_unique_violation (wrapped _ _ _ e) = is_unique_violation e
is_unique_violation (annotated _ e) = is_unique_violation e
is_unique_violation _ = false
