-- ===== src/Messenger/Stamp.antt =====
-- The outgoing metadata of a call of the gateway, as the interceptor of infra/client/grpc/client.go makes
-- them of the context.
use im_providers_service.Prelude.{
  String, ◌≡◌, refl, ◌≢◌, inl, inr, Option, none, some, sym, ◌∙◌, Bool-cases, ◌==◌, string_eq,
  eq_iff,
}
use im_providers_service.Prelude.Dict.{lookup, insert}
use im_providers_service.Whatsapp.Messanger.{Headers}
use im_providers_service.Messenger.{outgoing}

-- The name that a call gets from an identity and metadata.
abbrev pub name_of : Option String → Headers → Option String
name_of none headers = lookup "x-webitel-provider" headers
name_of (some identity) headers = some identity

-- The metadata of a call as a provider, with all else as the context has it.
pub record IsStamped (headers : Headers) (named_as : Option String) (sent : Headers) : Type 0 where
  pub provider : lookup "x-webitel-provider" sent ≡ named_as
  pub type : lookup "x-webitel-type" sent ≡ some "provider"
  pub others :
      (key : String)
      → key ≢ "x-webitel-provider"
      → key ≢ "x-webitel-type"
      → lookup key sent ≡ lookup key headers

lookup-insert_ne :
    (wanted key value : String) (headers : Headers)
    → wanted ≢ key
    → lookup wanted (insert key value headers) ≡ lookup wanted headers
unfolding lookup insert
lookup-insert_ne wanted key value headers differ = elim (Bool-cases (key == wanted)) [
  | inl same ↦ absurd (differ (sym ((eq_iff key wanted).0 same)))
  | inr other ↦ rw other refl
]

pub outgoing-IsStamped :
    (identity : Option String) (headers : Headers)
    → IsStamped headers
        (name_of identity headers)
        (outgoing (record { identity = identity; headers = headers }))
unfolding outgoing lookup insert
outgoing-IsStamped none headers = record {
  provider = refl;
  type = refl;
  others = λ key p t. lookup-insert_ne key "x-webitel-type" "provider" headers t;
}
outgoing-IsStamped (some identity) headers = record {
  provider = refl;
  type = refl;
  others = λ key p t.
      lookup-insert_ne key "x-webitel-provider" identity
        (insert "x-webitel-type" "provider" headers) p
      ∙ lookup-insert_ne key "x-webitel-type" "provider" headers t;
}
