-- ===== src/Prelude/Failure.antt =====
-- Go's `error` values, as far as the service tells them apart, and results that may hold one.
use im_providers_service.Prelude.{String, Bool, true, false, List}

-- The gRPC status codes that the service makes or tests.
pub data Code : Type 0 where
  invalid_argument not_found already_exists unimplemented internal unauthenticated : Code
  permission_denied resource_exhausted aborted : Code
  other_code : Code

pub data Failure : Type 0 where
  -- the sentinels of internal/core/store/store.go
  err_not_found err_conflict : Failure
  -- facebook.ErrTokenInvalid
  err_token_invalid : Failure
  -- pgx.ErrNoRows
  err_no_rows : Failure
  -- resolver.ErrNoCorespondingWhatsAppBusinessAccount and webhook.WebhookErrDisablled
  err_no_account err_disabled : Failure
  -- fbmodel.ValidationError
  validation : List String → Failure
  -- a status error, with its message
  status : Code → String → Failure
  -- any other error
  plain : String → Failure
  -- fmt.Errorf("…: %w", cause)
  wrapped : String → Failure → Failure

-- The panic of a field of a nil pointer.
abbrev pub nil_pointer : Failure
nil_pointer = plain "runtime error: invalid memory address or nil pointer dereference"

-- status.Code(err)
unfoldable pub code_of : Failure → Code
code_of (status code m) = code
code_of (wrapped m cause) = code_of cause
code_of _ = other_code

abbrev pub is_already_exists : Code → Bool
is_already_exists already_exists = true
is_already_exists _ = false

-- errors.Is(err, ErrNotFound)
unfoldable pub is_not_found : Failure → Bool
is_not_found err_not_found = true
is_not_found (wrapped m cause) = is_not_found cause
is_not_found _ = false

-- errors.Is(err, ErrConflict)
unfoldable pub is_conflict : Failure → Bool
is_conflict err_conflict = true
is_conflict (wrapped m cause) = is_conflict cause
is_conflict _ = false

-- errors.Is(err, ErrTokenInvalid)
unfoldable pub is_token_invalid : Failure → Bool
is_token_invalid err_token_invalid = true
is_token_invalid (wrapped m cause) = is_token_invalid cause
is_token_invalid _ = false

-- errors.Is(err, pgx.ErrNoRows)
unfoldable pub is_no_rows : Failure → Bool
is_no_rows err_no_rows = true
is_no_rows (wrapped m cause) = is_no_rows cause
is_no_rows _ = false

-- errors.Is(err, ErrNoCorespondingWhatsAppBusinessAccount)
unfoldable pub is_no_account : Failure → Bool
is_no_account err_no_account = true
is_no_account (wrapped m cause) = is_no_account cause
is_no_account _ = false

-- errors.Is(err, WebhookErrDisablled)
unfoldable pub is_disabled : Failure → Bool
is_disabled err_disabled = true
is_disabled (wrapped m cause) = is_disabled cause
is_disabled _ = false

-- errors.As(err, *ValidationError)
unfoldable pub is_validation : Failure → Bool
is_validation (validation fields) = true
is_validation (wrapped m cause) = is_validation cause
is_validation _ = false

pub data Result {ℓ} (A : Type ℓ) : Type ℓ where
  ok : A → Result A
  err : Failure → Result A

-- fmt.Errorf("…: %w", err) round a call
abbrev pub wrap {ℓ} : {A : Type ℓ} → String → Result A → Result A
wrap m (ok a) = ok a
wrap m (err e) = err (wrapped m e)

-- The next step of a function that returns at the first error.
infixl 5 ◌>>=◌
abbrev pub ◌>>=◌ {ℓ κ} : {A : Type ℓ} {B : Type κ} → Result A → (A → Result B) → Result B
err failure >>= next = err failure
ok value >>= next = next value

-- A test that has to pass, or else an InvalidArgument error.
abbrev pub require : Bool → String → Result (Unit {0})
require true message = ok tt
require false message = err (status invalid_argument message)

-- What follows a check that has passed.
infixr 5 ◌and_then◌
abbrev pub ◌and_then◌ {ℓ} : {A : Type ℓ} → Result (Unit {0}) → Result A → Result A
err failure and_then rest = err failure
ok _ and_then rest = rest
