-- ===== src/Facebook/Manage.antt =====
-- The management of Facebook gates and Meta apps: internal/facebook/handler/{facebook,errors,meta_app}.go
-- and service/{facebook,meta_app}.go. The stores are arguments. Logging is left out, and so is what a
-- status message says beyond its kind.
pub mod Updates
mod Tests
use im_providers_service.Prelude.{
  String, ℕ, ◌≡◌, Bool, true, false, Option, none, some, List, [], ◌∷◌, ◌==◌, string_eq,
  if◌then◌else◌,
}
use im_providers_service.Prelude.Int.{ℤ, pos}
use im_providers_service.Prelude.Io.{Io, ◌>>=◌, follow, return}
use im_providers_service.Prelude.Failure.{
  Failure, Result, ok, err, validation, status, invalid_argument, not_found, already_exists,
  internal, unauthenticated, is_validation, is_not_found, is_conflict,
}
use im_providers_service.Core.Message.{Peer}
use im_providers_service.Core.Gate.{GateStatus, status_unknown, ProviderStatus, to_proto_status}
use im_providers_service.Facebook.Model.{FacebookGate, MetaApp}
use im_providers_service.Facebook.Requests.{
  missing_of, require_fields, CreateFacebook, UpdateFacebook, CreateMetaApp, UpdateMetaApp,
  gate_fields, app_fields, given, apply_to_gate, apply_to_app, new_gate, new_app, GateItem, AppItem,
  gate_to_proto, app_to_proto, PeerInput, given_peer, CreateGateRequest, UpdateGateRequest,
  UpdateAppRequest, creation, gate_change, app_change,
}

-- Handlers answer a failure by a status of gRPC: `toStatus`.
unfoldable pub to_status : String → Failure → Failure
to_status message e =
    if is_validation e
    then status invalid_argument "required fields missing"
    else if is_not_found e
    then status not_found "not found"
    else if is_conflict e
    then status already_exists "already exists"
    else status internal message

abbrev pub answer : {A B : Type 0} → String → (A → B) → Result A → Result B
answer message f (ok a) = ok (f a)
answer message f (err e) = err (to_status message e)

-- A service's call, with its answer as the handler gives it.
abbrev pub respond : {A B W : Type 0} → String → (A → B) → Io W A → Io W B
respond message f m w = let (r, w') = m w in (answer message f r, w')

abbrev pub if_valid : {G W : Type 0} → Result (Unit {0}) → Io W G → Io W G
if_valid (ok t) m w = m w
if_valid (err e) m w = (err e, w)

-- The request's peer is read before the service is called, and a missing one panics there.
abbrev pub with_peer : {A W : Type 0} → Option PeerInput → (Peer → Io W A) → Io W A
with_peer peer f w = follow (given_peer peer, w) f

-- `FacebookStore`. An insertion takes the domain, and fills in what its query returns.
pub record GateStore (W : Type 0) : Type 0 where
  pub insert : ℤ → FacebookGate → Io W FacebookGate
  pub select : String → Io W FacebookGate
  pub update : FacebookGate → Io W (Unit {0})
  pub unbind : String → Io W (Unit {0})

-- `MetaAppStore`. Insertions and updates fill in what their queries return.
pub record AppStore (W : Type 0) : Type 0 where
  pub insert : MetaApp → Io W MetaApp
  pub select : String → Io W MetaApp
  pub update : MetaApp → Io W MetaApp
  pub delete : String → Io W (Unit {0})

module _ {W : Type 0} (gates : GateStore W) where
  -- `CreateGate`, `UpdateGate` and `DeleteGate` of the service.
  unfoldable pub create_gate : CreateFacebook → Io W FacebookGate
  create_gate r = if_valid (require_fields (gate_fields r)) (gates.insert r.dc (new_gate r))

  unfoldable pub update_gate : UpdateFacebook → Io W FacebookGate
  update_gate r = gates.select r.id >>= λ g.
      gates.update (apply_to_gate r g) >>= λ _. return (apply_to_gate r g)

  unfoldable pub delete_gate : String → Io W FacebookGate
  delete_gate id = gates.select id >>= λ g. gates.unbind id >>= λ _. return g

  -- The handler's methods. An identity is the caller's domain.
  unfoldable pub create_facebook_gate : Option ℤ → CreateGateRequest → Io W GateItem
  create_facebook_gate none r w = (err (status unauthenticated "missing identity in context"), w)
  create_facebook_gate (some dc) r w =
      with_peer r.peer
        (λ peer. respond "create gate" gate_to_proto (create_gate (creation dc r peer))) w

  unfoldable pub get_facebook_gate : String → Io W GateItem
  get_facebook_gate id = respond "get gate" gate_to_proto (gates.select id)

  unfoldable pub update_facebook_gate : UpdateGateRequest → Io W GateItem
  update_facebook_gate r =
      with_peer r.peer
        (λ peer. respond "update gate" gate_to_proto (update_gate (gate_change r peer)))

  unfoldable pub delete_facebook_gate : String → Io W GateItem
  delete_facebook_gate id = respond "delete gate" gate_to_proto (delete_gate id)

module _ {W : Type 0} (apps : AppStore W) where
  unfoldable pub create_app : CreateMetaApp → Io W MetaApp
  create_app r = if_valid (require_fields (app_fields r)) (apps.insert (new_app r))

  unfoldable pub update_app : UpdateMetaApp → Io W MetaApp
  update_app r = apps.select r.id >>= λ a. apps.update (apply_to_app r a)

  unfoldable pub delete_app : String → Io W MetaApp
  delete_app id = apps.select id >>= λ a. apps.delete id >>= λ _. return a

  unfoldable pub create_meta_app : CreateMetaApp → Io W AppItem
  create_meta_app r = respond "create meta app" app_to_proto (create_app r)

  unfoldable pub get_meta_app : String → Io W AppItem
  get_meta_app id = respond "get meta app" app_to_proto (apps.select id)

  unfoldable pub update_meta_app : UpdateAppRequest → Io W AppItem
  update_meta_app r = respond "update meta app" app_to_proto (update_app (app_change r))

  unfoldable pub delete_meta_app : String → Io W AppItem
  delete_meta_app id = respond "delete meta app" app_to_proto (delete_app id)
