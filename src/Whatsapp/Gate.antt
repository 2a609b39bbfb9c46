-- ===== src/Whatsapp/Gate.antt =====
-- The creation of WhatsApp gates: internal/whatsapp/gate/gate.model.go, gate.usecase.go,
-- gate.repository.go and gate.server.go. The contact search, HTTP, JSON, the cipher, the database and the
-- order in which goroutines end are parameters. Logging is left out; times are numbers.
pub mod Valid
pub mod Checks
pub mod Saving
pub mod Tests
use Prim.Native.String
use im_providers_service.Prelude.{
  String, ℕ, Bool, true, false, not, ◌||◌, Option, none, some, List, [], ◌∷◌, ◌==◌, string_eq,
  if◌then◌else◌,
}
use im_providers_service.Prelude.Int.{ℤ, pos, is_nonpos}
use im_providers_service.Prelude.Text.{is_blank}
use im_providers_service.Prelude.Io.{Io, fail, follow}
use im_providers_service.Prelude.Failure.{
  Failure, Result, ok, err, status, require, ◌and_then◌, invalid_argument, internal, not_found,
  already_exists, unauthenticated, unimplemented, wrapped, nil_pointer,
}
use im_providers_service.Whatsapp.Client.{
  Http, RequestClient, ApiRequest, new_request_client, with_access_token, new_api_request,
  add_field, add_query_param, execute,
}
use im_providers_service.Whatsapp.Account.{Contact}
use im_providers_service.Whatsapp.Messaging.{MessageSendError, StatusResponse, to_grpc_error}

pub record WhatsAppBusinessAccountGate : Type 0 where
  pub id : String
  pub meta_app_id : String
  pub phone_number : String
  pub phone_number_id : String
  pub access_token : String
  pub access_token_encrypted : String
  pub access_token_expires_at : Option ℕ
  pub business_id : String
  pub client : Option RequestClient

pub record Gate : Type 0 where
  pub id : String
  pub name : String
  pub type : String
  pub enabled : Bool
  -- in milliseconds
  pub created_at : ℤ
  pub updated_at : ℤ
  pub created_by : ℤ
  pub updated_by : ℤ
  pub contact : Option Contact
  pub dc : ℤ
  pub waba : WhatsAppBusinessAccountGate

-- WhatsAppBusinessAccountGate.Validate. The first test of the phone number is of its id.
unfoldable pub validate_waba : WhatsAppBusinessAccountGate → Result (Unit {0})
validate_waba gate =
    require (not (gate.phone_number_id == "" || is_blank gate.phone_number))
      "WhatsApp phone number is required"
    and_then require (not (is_blank gate.phone_number_id)) "WhatsApp phone number id is required"
    and_then require (not (is_blank gate.business_id)) "WhatsApp business id is required"
    and_then require (not (is_blank gate.access_token)) "WhatsApp access token is required"

abbrev pub validate_contact : Option Contact → Result (Unit {0})
validate_contact none = err (status invalid_argument "binded gate contact is required")
validate_contact (some contact) =
    require (not (is_blank contact.iss)) "binded gate contact issuer is required"
    and_then require (not (is_blank contact.sub)) "binded gate contact sub is required"

-- Gate.Validate
unfoldable pub validate : Gate → Result (Unit {0})
validate gate =
    require (not (is_blank gate.name)) "gate name is required"
    and_then require (gate.type == "whatsapp") "invalid gate type, expecting 'whatsapp'"
    and_then validate_contact gate.contact
    and_then require (not (is_nonpos gate.dc)) "DC is required and must be greater then zero"
    and_then validate_waba gate.waba

-- The three goroutines of performExternalWhatsAppAccountValidation.
pub data Check : Type 0 where
  bound_contact account token : Check

-- The orders in which the three can end.
pub data Schedule : Type 0 where
  contact_account_token contact_token_account account_contact_token : Schedule
  account_token_contact token_contact_account token_account_contact : Schedule

unfoldable pub in_order : Schedule → List Check
in_order contact_account_token = bound_contact ∷ account ∷ token ∷ []
in_order contact_token_account = bound_contact ∷ token ∷ account ∷ []
in_order account_contact_token = account ∷ bound_contact ∷ token ∷ []
in_order account_token_contact = account ∷ token ∷ bound_contact ∷ []
in_order token_contact_account = token ∷ bound_contact ∷ account ∷ []
in_order token_account_contact = token ∷ account ∷ bound_contact ∷ []

-- What the database makes of an insert: the record, or an error by its Postgres code.
pub data Inserted : Type 0 where
  inserted : Gate → Inserted
  not_queried check_violation unique_violation foreign_key_violation other_failure : Inserted

pub record Services (W : Type 0) : Type 0 where
  -- the internal contact, nil if there is none
  pub search : Option Contact → Io W (Option Contact)
  pub http : Http W
  pub status_response : String → Result StatusResponse
  pub encrypt : String → Io W String
  -- the order in which the three goroutines end
  pub schedule : W → Schedule
  pub insert : Gate → W → Inserted × W

abbrev pub built : Gate → Result RequestClient → Result Gate
built gate (err e) = err e
built gate (ok client) = ok (record gate { waba = record gate.waba { client = some client } })

-- SetUpClient
unfoldable pub set_up_client : Gate → Result Gate
set_up_client gate = built gate (new_request_client (with_access_token gate.waba.access_token ∷ []))

-- GetClient, once SetUpClient has set it
abbrev pub client_of : WhatsAppBusinessAccountGate → Option RequestClient
client_of gate = gate.client

abbrev pub account_request : RequestClient → String → ApiRequest
account_request client phone_number_id =
    add_field (record { name = "verified_name"; filters = [] })
      (add_field (record { name = "display_phone_number"; filters = [] })
        (add_field (record { name = "id"; filters = [] })
          (new_api_request client phone_number_id "GET")))

abbrev pub token_request : RequestClient → ApiRequest
token_request client =
    add_query_param "input_token" client.access_token (new_api_request client "debug_token" "GET")

abbrev pub status_of : Option MessageSendError → Result (Unit {0})
status_of none = ok tt
status_of (some e) = err (wrapped "gate.usecase.validate_whats_app_account" (to_grpc_error e))

-- UnmarshalStatusResponse, and the test of its error
abbrev pub read_status : Result StatusResponse → Result (Unit {0})
read_status (err e) = err (status internal "unmarshaling status response")
read_status (ok response) = status_of response.error

module _ {W : Type 0} (api : Services W) where
  abbrev pub answered : String → Result String × W → Result (Unit {0}) × W
  answered message (err e, w) = (err (status unauthenticated message), w)
  answered message (ok raw, w) = (read_status (api.status_response raw), w)

  abbrev pub contact_found : Result (Option Contact) × W → Result (Unit {0}) × W
  contact_found (err e, w) =
      (err (status internal "executing request to validate internal contact"), w)
  contact_found (ok none, w) =
      (err (status not_found "contact that wanted to be binded to gate not exists"), w)
  contact_found (ok (some contact), w) = (ok tt, w)

  -- validateWhatsAppAccount and validateWhatsAppAccountToken
  abbrev pub check_with :
      (RequestClient → ApiRequest) → String → Option RequestClient → Io W (Unit {0})
  check_with request message none w = (err nil_pointer, w)
  check_with request message (some client) w =
      answered message (execute api.http (request client) w)

  unfoldable pub check : Gate → Check → Io W (Unit {0})
  check gate bound_contact w = contact_found (api.search gate.contact w)
  check gate account w =
      check_with (λ client. account_request client gate.waba.phone_number_id)
        "validating WhatsApp phone" gate.waba.client w
  check gate token w = check_with token_request "token is invalid" gate.waba.client w

  -- the error of the group: the first of those that its goroutines end with
  abbrev pub first_error : Result (Unit {0}) → Result (Unit {0}) → Result (Unit {0})
  first_error (err e) rest = err e
  first_error (ok _) rest = rest

  unfoldable pub run_checks : Gate → List Check → Io W (Unit {0})
  run_checks gate [] w = (ok tt, w)
  run_checks gate (c ∷ checks) w =
      let (r, w1) = check gate c w in
      let (rest, w2) = run_checks gate checks w1 in (first_error r rest, w2)

  -- performExternalWhatsAppAccountValidation
  unfoldable pub perform_external_validation : Gate → Io W (Unit {0})
  perform_external_validation gate w = run_checks gate (in_order (api.schedule w)) w

  -- the record that PreSave prepares
  abbrev pub prepared : WhatsAppBusinessAccountGate → String → WhatsAppBusinessAccountGate
  prepared gate sealed = record gate { id = ""; access_token_encrypted = sealed; client = none }

  abbrev pub sealed_gate : Gate → Result String × W → Result Gate × W
  sealed_gate gate (err e, w) = (err (status internal "encrypting WABA access token"), w)
  sealed_gate gate (ok sealed, w) = (ok (record gate { waba = prepared gate.waba sealed }), w)

  -- PreSave
  unfoldable pub pre_save : Gate → Io W Gate
  pre_save gate w = sealed_gate gate (api.encrypt gate.waba.access_token w)

  abbrev pub saved : Inserted → Result Gate
  saved (inserted gate) = ok gate
  saved not_queried = err (status internal "performing database save")
  saved check_violation = err (status invalid_argument "check violation for new gate record")
  saved unique_violation =
      err (status already_exists "conflict: whatsapp gate for this settings already exists")
  saved foreign_key_violation = err (status invalid_argument "meta app for given id not exists")
  saved other_failure = err (status internal "collecting saved record")

  -- gateRepository.Save
  unfoldable pub insert_gate : Gate → Io W Gate
  insert_gate gate w = let (answer, w1) = api.insert gate w in (saved answer, w1)

  -- what follows SetUpClient, with the repository's Save
  abbrev pub save_client : (Gate → Io W Gate) → Result Gate → Io W Gate
  save_client store (err e) w = (err e, w)
  save_client store (ok gate) w =
      follow (perform_external_validation gate w) (λ _ w1. follow (pre_save gate w1) store)

  abbrev pub save_valid : (Gate → Io W Gate) → Gate → Result (Unit {0}) → Io W Gate
  save_valid store gate (err e) w = (err e, w)
  save_valid store gate (ok _) w = save_client store (set_up_client gate) w

  -- Save of gate.usecase.go; the session is its domain.
  unfoldable pub save_with : (Gate → Io W Gate) → Option ℤ → Gate → Io W Gate
  save_with store none gate w = (err (status unauthenticated "not found session in context"), w)
  save_with store (some domain) gate w =
      let own = record gate { dc = domain } in save_valid store own (validate own) w

  unfoldable pub save : Option ℤ → Gate → Io W Gate
  save = save_with insert_gate

-- `impb.CreateGateRequest`; `waba` is there if its gate is of that kind.
pub record WabaInput : Type 0 where
  pub meta_app_id : String
  pub phone_number : String
  pub phone_number_id : String
  pub access_token : String
  pub business_id : String

pub record CreateGateRequest : Type 0 where
  pub name : String
  pub enabled : Bool
  pub bot_iss : String
  pub bot_sub : String
  pub waba : Option WabaInput

-- `impb.GateResponse`
pub record GateResponse : Type 0 where
  pub id : String
  pub name : String
  pub type : String
  pub enabled : Bool
  pub created_at : ℤ
  pub created_by : ℤ
  pub updated_at : ℤ
  pub updated_by : ℤ
  pub waba : WabaInput
  pub bot_sub : String
  pub bot_iss : String

-- The gate of a request, with the Meta app's id as SafeConvertStringToUUID reads it.
abbrev pub gate_of : (String → String) → CreateGateRequest → WabaInput → Gate
gate_of parse_uuid req waba = record {
  id = "";
  name = req.name;
  type = "whatsapp";
  enabled = req.enabled;
  created_at = pos 0;
  updated_at = pos 0;
  created_by = pos 0;
  updated_by = pos 0;
  contact = some (record { id = ""; iss = req.bot_iss; sub = req.bot_sub });
  dc = pos 0;
  waba = record {
    id = "";
    meta_app_id = parse_uuid waba.meta_app_id;
    phone_number = waba.phone_number;
    phone_number_id = waba.phone_number_id;
    access_token = waba.access_token;
    access_token_encrypted = "";
    access_token_expires_at = none;
    business_id = waba.business_id;
    client = none;
  };
}

abbrev pub iss_of : Option Contact → String
iss_of none = ""
iss_of (some contact) = contact.iss

abbrev pub sub_of : Option Contact → String
sub_of none = ""
sub_of (some contact) = contact.sub

-- The answer for a saved gate, whose contact is there; its access token is the encrypted one.
abbrev pub response_of : Gate → GateResponse
response_of gate = record {
  id = gate.id;
  name = gate.name;
  type = gate.type;
  enabled = gate.enabled;
  created_at = gate.created_at;
  created_by = gate.created_by;
  updated_at = gate.updated_at;
  updated_by = gate.updated_by;
  waba = record {
    meta_app_id = gate.waba.meta_app_id;
    phone_number = gate.waba.phone_number;
    phone_number_id = gate.waba.phone_number_id;
    access_token = gate.waba.access_token_encrypted;
    business_id = gate.waba.business_id;
  };
  bot_sub = sub_of gate.contact;
  bot_iss = iss_of gate.contact;
}

module _ {W : Type 0} (api : Services W) (parse_uuid : String → String) where
  abbrev create_waba : Option ℤ → CreateGateRequest → Option WabaInput → Io W GateResponse
  create_waba identity req none w =
      fail (status invalid_argument "unexpected gate type in create WhatsApp gate request") w
  create_waba identity req (some waba) w =
      follow (save api identity (gate_of parse_uuid req waba) w)
        (λ gate w1. (ok (response_of gate), w1))

  -- CreateWhatsAppGate
  pub create_whatsapp_gate : Option ℤ → CreateGateRequest → Io W GateResponse
  create_whatsapp_gate identity req = create_waba identity req req.waba

-- GetWhatsAppGate, UpdateWhatsAppGate and DeleteWhatsAppGate
abbrev pub not_implemented : Failure
not_implemented = status unimplemented "not implemented"
