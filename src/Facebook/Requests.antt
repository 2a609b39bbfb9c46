-- ===== src/Facebook/Requests.antt =====
-- The requests and answers of the management of Facebook gates and Meta apps: what the handlers of
-- internal/facebook/handler/{facebook,meta_app}.go make of them, model/validate.go, and `ApplyTo` of
-- model/{facebook,meta_app}.go. Times are left out.
pub mod Fields
use im_providers_service.Prelude.{
  String, ℕ, ◌≡◌, Bool, true, false, Option, none, some, List, [], ◌∷◌, ◌==◌, string_eq,
  if◌then◌else◌,
}
use im_providers_service.Prelude.Int.{ℤ, pos}
use im_providers_service.Prelude.Io.{Io, ◌>>=◌, follow, return}
use im_providers_service.Prelude.Failure.{
  Failure, Result, ok, err, validation, status, invalid_argument, not_found, already_exists,
  internal, unauthenticated, nil_pointer, is_validation, is_not_found, is_conflict,
}
use im_providers_service.Core.Message.{Peer}
use im_providers_service.Core.Gate.{GateStatus, status_unknown, ProviderStatus, to_proto_status}
use im_providers_service.Facebook.Model.{FacebookGate, MetaApp}

-- The names of the pairs whose value is empty.
pub missing_of : List (String × String) → List String
missing_of [] = []
missing_of ((name, value) ∷ pairs) =
    let rest = missing_of pairs in if value == "" then name ∷ rest else rest

abbrev none_missing : List String → Result (Unit {0})
none_missing [] = ok tt
none_missing (f ∷ fields) = err (validation (f ∷ fields))

-- `requireFields`
unfoldable pub require_fields : List (String × String) → Result (Unit {0})
require_fields pairs = none_missing (missing_of pairs)

pub record CreateFacebook : Type 0 where
  pub name : String
  pub dc : ℤ
  pub meta_app_id : String
  pub page_id : String
  pub page_token : String
  pub peer : Peer

pub record UpdateFacebook : Type 0 where
  pub id : String
  pub name : Option String
  pub page_token : Option String
  pub enabled : Option Bool
  pub peer : Option Peer

pub record CreateMetaApp : Type 0 where
  pub name : String
  pub uri : String
  pub app_id : String
  pub app_secret : String
  pub oauth_redirect_uri : String
  pub scopes : List String
  pub verify_token : String

-- `scopes` is there if the slice is not nil.
pub record UpdateMetaApp : Type 0 where
  pub id : String
  pub name : Option String
  pub app_secret : Option String
  pub oauth_redirect_uri : Option String
  pub scopes : Option (List String)
  pub verify_token : Option String

abbrev pub gate_fields : CreateFacebook → List (String × String)
gate_fields r =
    ("name", r.name)
    ∷ ("meta_app_id", r.meta_app_id)
    ∷ ("page_id", r.page_id)
    ∷ ("page_token", r.page_token)
    ∷ []

abbrev pub app_fields : CreateMetaApp → List (String × String)
app_fields r =
    ("name", r.name)
    ∷ ("uri", r.uri)
    ∷ ("app_id", r.app_id)
    ∷ ("app_secret", r.app_secret)
    ∷ ("oauth_redirect_uri", r.oauth_redirect_uri)
    ∷ ("verify_token", r.verify_token)
    ∷ []

abbrev pub given : {A : Type 0} → Option A → A → A
given none old = old
given (some new) old = new

-- `UpdateFacebook.ApplyTo`
unfoldable pub apply_to_gate : UpdateFacebook → FacebookGate → FacebookGate
apply_to_gate r gate = record gate {
  name = given r.name gate.name;
  enabled = given r.enabled gate.enabled;
  page_token = given r.page_token gate.page_token;
  peer = given r.peer gate.peer;
}

-- `UpdateMetaApp.ApplyTo`
unfoldable pub apply_to_app : UpdateMetaApp → MetaApp → MetaApp
apply_to_app r app = record app {
  name = given r.name app.name;
  app_secret = given r.app_secret app.app_secret;
  oauth_redirect_uri = given r.oauth_redirect_uri app.oauth_redirect_uri;
  scopes = given r.scopes app.scopes;
  verify_token = given r.verify_token app.verify_token;
}

-- The gate that `CreateGate` inserts: enabled, with no id yet.
abbrev pub new_gate : CreateFacebook → FacebookGate
new_gate r = record {
  id = "";
  domain_id = pos 0;
  peer = r.peer;
  name = r.name;
  meta_app_id = r.meta_app_id;
  page_id = r.page_id;
  page_name = "";
  page_token = r.page_token;
  enabled = true;
  status = status_unknown;
}

abbrev pub new_app : CreateMetaApp → MetaApp
new_app r = record {
  id = "";
  uri = r.uri;
  name = r.name;
  app_id = r.app_id;
  app_secret = r.app_secret;
  verify_token = r.verify_token;
  oauth_redirect_uri = r.oauth_redirect_uri;
  scopes = r.scopes;
}

-- `ProviderFacebookGate` and `ProviderMetaApp`, without their times.
pub record GateItem : Type 0 where
  pub id : String
  pub name : String
  pub meta_app_id : String
  pub page_id : String
  pub page_name : String
  pub status : ProviderStatus
  pub enabled : Bool

pub record AppItem : Type 0 where
  pub id : String
  pub name : String
  pub app_id : String
  pub oauth_redirect_uri : String
  pub scopes : List String
  pub verify_token : String

-- `gateToProto`
abbrev pub gate_to_proto : FacebookGate → GateItem
gate_to_proto g = record {
  id = g.id;
  name = g.name;
  meta_app_id = g.meta_app_id;
  page_id = g.page_id;
  page_name = g.page_name;
  status = to_proto_status g.status;
  enabled = g.enabled;
}

-- `metaAppToProto`
abbrev pub app_to_proto : MetaApp → AppItem
app_to_proto a = record {
  id = a.id;
  name = a.name;
  app_id = a.app_id;
  oauth_redirect_uri = a.oauth_redirect_uri;
  scopes = a.scopes;
  verify_token = a.verify_token;
}

-- The peer of a request, by its `Sub` and `Iss`.
abbrev pub peer_of : String → String → Peer
peer_of sub iss = record { sub = sub; iss = iss; via = none; name = ""; id = "" }

-- A request's peer, which is a pointer there.
pub record PeerInput : Type 0 where
  pub sub : String
  pub iss : String

-- `req.GetPeer().Sub` and `req.GetPeer().Iss`
abbrev pub given_peer : Option PeerInput → Result Peer
given_peer none = err nil_pointer
given_peer (some peer) = ok (peer_of peer.sub peer.iss)

pub record CreateGateRequest : Type 0 where
  pub name : String
  pub meta_app_id : String
  pub page_id : String
  pub page_token : String
  pub peer : Option PeerInput

pub record UpdateGateRequest : Type 0 where
  pub id : String
  pub name : String
  pub enabled : Bool
  pub peer : Option PeerInput

pub record UpdateAppRequest : Type 0 where
  pub id : String
  pub name : String
  pub app_secret : String
  pub oauth_redirect_uri : String
  pub scopes : Option (List String)
  pub verify_token : String

-- The requests of the services that the handlers make of theirs.
abbrev pub creation : ℤ → CreateGateRequest → Peer → CreateFacebook
creation dc r peer = record {
  name = r.name;
  dc = dc;
  meta_app_id = r.meta_app_id;
  page_id = r.page_id;
  page_token = r.page_token;
  peer = peer;
}

abbrev pub gate_change : UpdateGateRequest → Peer → UpdateFacebook
gate_change r peer = record {
  id = r.id;
  name = some r.name;
  page_token = none;
  enabled = some r.enabled;
  peer = some peer;
}

abbrev pub app_change : UpdateAppRequest → UpdateMetaApp
app_change r = record {
  id = r.id;
  name = some r.name;
  app_secret = some r.app_secret;
  oauth_redirect_uri = some r.oauth_redirect_uri;
  scopes = r.scopes;
  verify_token = some r.verify_token;
}
