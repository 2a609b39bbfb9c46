-- ===== src/Whatsapp/Inbound/Origin.antt =====
-- Where the business account that a handler of internal/whatsapp/webhook/webhook.usecase.go works with
-- comes from.
use im_providers_service.Prelude.{
  String, ◌≡◌, refl, ap, Bool, true, false, Option, none, some, List, [], ◌∷◌, ◌==◌, string_eq,
  if◌then◌else◌,
}
use im_providers_service.Prelude.Failure.{Result, ok, err, is_disabled, is_no_account, wrapped}
use im_providers_service.Whatsapp.Account.{
  WhatsappBusinessAccount, with_token, post_fetch, resolved, find_account, resolve,
  found as found_row,
}
use im_providers_service.Whatsapp.Inbound.{
  Services, fetched, found, resolve_account, peer_of_account,
}

-- The peer and the domain of an account are those of the row.
abbrev pub IsSame : WhatsappBusinessAccount → WhatsappBusinessAccount → Type 0
IsSame account row = (peer_of_account account ≡ peer_of_account row) × (account.dc ≡ row.dc)

pub ok-injective : {A : Type 0} {a b : A} → ok a ≡ ok b → a ≡ b
ok-injective {A} {a} = ap value_of
  where
    value_of : Result A → A
    value_of (ok x) = x
    value_of (err e) = a

with_token-IsSame :
    (row : WhatsappBusinessAccount) (token : Result String) (a : WhatsappBusinessAccount)
    → with_token row token ≡ ok a
    → IsSame a row
with_token-IsSame row (ok token) a h = rw⁻¹ (ok-injective h) (refl, refl)
with_token-IsSame row (err e) a h = absurd (cc h)

post_fetch-IsSame :
    (decrypt : String → Result String) (row a : WhatsappBusinessAccount)
    → post_fetch decrypt (some row) ≡ ok a
    → IsSame a row
unfolding post_fetch
post_fetch-IsSame decrypt row a = go (row.access_token_decrypted == "")
  where
    go :
        (b : Bool)
        → (if b then with_token row (decrypt row.access_token_encrypted) else ok row) ≡ ok a
        → IsSame a row
    go true h = with_token-IsSame row (decrypt row.access_token_encrypted) a h
    go false h = rw⁻¹ (ok-injective h) (refl, refl)

module _ {W : Type 0} (api : Services W) where
  fetched-some :
      (r : Result WhatsappBusinessAccount) (a : WhatsappBusinessAccount)
      → fetched api r ≡ ok (some a)
      → r ≡ ok a
  unfolding fetched
  fetched-some (ok b) a h = cc h
  fetched-some (err e) a h = absurd (cc h)

  found-some :
      (r : Result (Option WhatsappBusinessAccount)) (a : WhatsappBusinessAccount)
      → found api r ≡ ok (some a)
      → (row : WhatsappBusinessAccount) × (r ≡ ok (some row)) × IsSame a row
  unfolding found post_fetch
  found-some (ok none) a h = absurd (cc (fetched-some _ a h))
  found-some (ok (some row)) a h =
      (row, refl, post_fetch-IsSame api.decrypt row a (fetched-some _ a h))
  found-some (err e) a h = absurd (go (is_disabled e) h)
    where
      go :
          (b : Bool)
          → (if b
              then ok none
              else err (wrapped "webhook.usecase.resolve_whatsapp_business_account" e))
            ≡ ok (some a)
          → ⊥
      go true q = cc q
      go false q = cc q

resolved-some :
    {W : Type 0} (r : Result WhatsappBusinessAccount × W) (row : WhatsappBusinessAccount)
    → (resolved r).0 ≡ ok (some row)
    → r.0 ≡ ok row
resolved-some (ok a, w) row h = cc h
resolved-some (err e, w) row h = absurd (go (is_no_account e) h)
  where
    go :
        (b : Bool)
        → (if b then ok none else err (wrapped "whatsapp.resolver.usecase.resolve" e))
          ≡ ok (some row)
        → ⊥
    go true q = cc q
    go false q = cc q

-- The row is the first of an answer of the query.
found_row-first :
    {W : Type 0} (q : Result (Result (List WhatsappBusinessAccount)) × W)
    (row : WhatsappBusinessAccount)
    → (found_row q).0 ≡ ok row
    → (rows : List WhatsappBusinessAccount) × (q.0 ≡ ok (ok (row ∷ rows)))
found_row-first (err e, w) row h = absurd (cc h)
found_row-first (ok (err e), w) row h = absurd (cc h)
found_row-first (ok (ok []), w) row h = absurd (cc h)
found_row-first (ok (ok (a ∷ rows)), w) row h = (rows, cc h)

-- An account that a handler works with is, but for the token, the first row that the query answered.
pub resolve_account-first :
    {W : Type 0} (api : Services W) (id : String) (w : W) (a : WhatsappBusinessAccount)
    → (resolve_account api id w).0 ≡ ok (some a)
    → (row : WhatsappBusinessAccount) × (rows : List WhatsappBusinessAccount) × ((api.query id w).0
        ≡ ok (ok (row ∷ rows)))
      × IsSame a row
unfolding resolve_account resolve find_account
resolve_account-first api id w a h =
    let (row, from_resolver, same) = found-some api _ a h in
    let (rows, answered) =
      found_row-first (api.query id w) row (resolved-some _ row from_resolver) in
    (row, rows, answered, same)
