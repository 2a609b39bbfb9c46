-- ===== src/Whatsapp/Account.antt =====
-- The business account of internal/whatsapp/common/common.model.go and its resolver in
-- internal/whatsapp/resolver. The decryption, the clock and the query are parameters; an instant is a
-- number.
use im_providers_service.Prelude.{
  String, ℕ, Bool, false, Option, none, some, List, [], ◌∷◌, ltb, ◌==◌, string_eq, if◌then◌else◌,
}
use im_providers_service.Prelude.Int.{ℤ}
use im_providers_service.Prelude.Io.{Io}
use im_providers_service.Prelude.Failure.{
  Failure, Result, ok, err, status, invalid_argument, internal, wrapped, wrap, err_no_rows,
  err_no_account, is_no_rows, is_no_account,
}
use im_providers_service.Whatsapp.Client.{RequestClient, with_access_token, new_request_client}

pub record Contact : Type 0 where
  pub id : String
  pub iss : String
  pub sub : String

pub record WhatsappBusinessAccount : Type 0 where
  pub id : String
  pub dc : ℤ
  pub phone_number : String
  pub phone_number_id : String
  pub access_token_encrypted : String
  pub access_token_decrypted : String
  pub access_token_expires_at : Option ℕ
  pub business_id : String
  pub bot : Contact

abbrev internal_error : {A : Type 0} → String → Result A → Result A
internal_error message (ok a) = ok a
internal_error message (err e) = err (status internal message)

-- The account with the token that was decrypted.
abbrev pub with_token : WhatsappBusinessAccount → Result String → Result WhatsappBusinessAccount
with_token account (ok token) = ok (record account { access_token_decrypted = token })
with_token account (err e) = err (status internal "decrypting business account access token")

-- PostFetch; the clone is the record.
unfoldable pub post_fetch :
    (String → Result String) → Option WhatsappBusinessAccount → Result WhatsappBusinessAccount
post_fetch decrypt none =
    err (status invalid_argument "received nil pointer whatsapp business account caller")
post_fetch decrypt (some account) =
    if account.access_token_decrypted == ""
    then with_token account (decrypt account.access_token_encrypted)
    else ok account

-- time.Now().UTC().After(expiry)
abbrev pub has_passed : ℕ → Option ℕ → Bool
has_passed now none = false
has_passed now (some expiry) = ltb expiry now

-- IsTokenExpires
unfoldable pub is_token_expires : ℕ → WhatsappBusinessAccount → Bool
is_token_expires now account = has_passed now account.access_token_expires_at

-- CreateRequestClient, of an account that is not nil
unfoldable pub create_request_client : ℕ → WhatsappBusinessAccount → Result RequestClient
unfolding is_token_expires
create_request_client now account =
    if account.access_token_decrypted == ""
    then err (status invalid_argument "received business account with empty decrypted access token")
    else if is_token_expires now account
    then err (status invalid_argument "received business account with expired access token")
    else internal_error "creating whatsapp business account request client"
        (new_request_client (with_access_token account.access_token_decrypted ∷ []))

-- CreateMediaClient; the media manager is the client that it holds.
unfoldable pub create_media_client : ℕ → WhatsappBusinessAccount → Result RequestClient
create_media_client now account =
    wrap "whatsapp.common.model.create_media_client" (create_request_client now account)

-- pgx.CollectOneRow, of rows that may fail to be read
abbrev pub one_row {ℓ} : {A : Type ℓ} → Result (List A) → Result A
one_row (err e) = err e
one_row (ok []) = err err_no_rows
one_row (ok (row ∷ rows)) = ok row

abbrev pub collected : Result WhatsappBusinessAccount → Result WhatsappBusinessAccount
collected = internal_error "collecting resolved whatsapp business account"

abbrev pub not_queried : Failure → Failure
not_queried e =
    if is_no_rows e
    then err_no_account
    else status internal "executing resolve whatsapp business account sql query"

module _ {W : Type 0} where
  abbrev pub found :
      Result (Result (List WhatsappBusinessAccount)) × W → Result WhatsappBusinessAccount × W
  found (err e, w) = (err (not_queried e), w)
  found (ok rows, w) = (collected (one_row rows), w)

  abbrev pub resolved :
      Result WhatsappBusinessAccount × W → Result (Option WhatsappBusinessAccount) × W
  resolved (ok account, w) = (ok (some account), w)
  resolved (err e, w) = (
    (if is_no_account e then ok none else err (wrapped "whatsapp.resolver.usecase.resolve" e)),
    w,
  )

module _ {W : Type 0} (query : String → Io W (Result (List WhatsappBusinessAccount))) where
  -- resolverRepository.Resolve
  unfoldable pub find_account : String → Io W WhatsappBusinessAccount
  find_account phone_number_id w = found (query phone_number_id w)

  -- resolver.Resolve; `none` is the nil pointer
  unfoldable pub resolve : String → Io W (Option WhatsappBusinessAccount)
  resolve phone_number_id w = resolved (find_account phone_number_id w)
