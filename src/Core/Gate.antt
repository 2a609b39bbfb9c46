-- ===== src/Core/Gate.antt =====
-- internal/core/model/gate.go, gatetype_string.go, and the enum maps of internal/core/handler/gate.go.
pub mod Parse
pub mod Listing
use im_providers_service.Prelude.{String, ℕ, Bool, Option, List, if◌then◌else◌}
use im_providers_service.Prelude.Text.{codes, to_lower, trim_space, text_beq}
use im_providers_service.Prelude.Failure.{Result, ok, err, plain, wrap, ◌>>=◌}

pub data GateType : Type 0 where
  type_unknown type_facebook type_instagram type_whatsapp type_telegram_bot type_telegram_app :
      GateType

pub data GateStatus : Type 0 where
  status_unknown status_active status_disabled status_error : GateStatus

pub record GateSummary : Type 0 where
  pub id : String
  pub name : String
  pub type : GateType
  pub status : GateStatus
  pub webhook_url : String
  pub contact : String
  pub provider_app_id : Option String
  -- milliseconds since the epoch
  pub created_at : ℕ
  pub updated_at : ℕ

-- The generated `String` methods.
unfoldable pub gate_type_string : GateType → String
gate_type_string type_unknown = "unknown"
gate_type_string type_facebook = "facebook"
gate_type_string type_instagram = "instagram"
gate_type_string type_whatsapp = "whatsapp"
gate_type_string type_telegram_bot = "telegram_bot"
gate_type_string type_telegram_app = "telegram_app"

unfoldable pub gate_status_string : GateStatus → String
gate_status_string status_unknown = "unknown"
gate_status_string status_active = "active"
gate_status_string status_disabled = "disabled"
gate_status_string status_error = "error"

-- The lookup of the two parsers' maps.
type_of_key : List ℕ → GateType
type_of_key val =
    if text_beq val (codes "facebook")
    then type_facebook
    else if text_beq val (codes "instagram")
    then type_instagram
    else if text_beq val (codes "whatsapp")
    then type_whatsapp
    else if text_beq val (codes "telegram_bot")
    then type_telegram_bot
    else if text_beq val (codes "telegram_app")
    then type_telegram_app
    else type_unknown

status_of_key : List ℕ → GateStatus
status_of_key val =
    if text_beq val (codes "active")
    then status_active
    else if text_beq val (codes "disabled")
    then status_disabled
    else if text_beq val (codes "error")
    then status_error
    else status_unknown

unfoldable pub parse_gate_type : List ℕ → GateType
unfolding type_of_key
parse_gate_type s = type_of_key (to_lower (trim_space s))

unfoldable pub parse_gate_status : List ℕ → GateStatus
unfolding status_of_key
parse_gate_status s = status_of_key (to_lower (trim_space s))

-- A column as the database driver hands it over.
pub data Column : Type 0 where
  null : Column
  text bytes : List ℕ → Column
  other : Column

unfoldable pub as_string : Column → Result (List ℕ)
as_string (text s) = ok s
as_string (bytes s) = ok s
as_string _ = err (plain "unexpected type")

-- `GateType.Scan`: the value that it leaves in the receiver.
pub scan_gate_type : Column → Result GateType
scan_gate_type null = ok type_unknown
scan_gate_type value = do s ← wrap "scan GateType" (as_string value); ok (parse_gate_type s)

pub scan_gate_status : Column → Result GateStatus
scan_gate_status null = ok status_unknown
scan_gate_status value = do s ← wrap "scan GateStatus" (as_string value); ok (parse_gate_status s)

pub data ProviderType : Type 0 where
  unspecified viber telegram_bot telegram_app meta_app facebook instagram whatsapp : ProviderType

pub data ProviderStatus : Type 0 where
  unspecified active inactive error : ProviderStatus

unfoldable pub to_proto_type : GateType → ProviderType
to_proto_type type_facebook = facebook
to_proto_type type_instagram = instagram
to_proto_type type_whatsapp = whatsapp
to_proto_type type_telegram_bot = telegram_bot
to_proto_type type_telegram_app = telegram_app
to_proto_type type_unknown = ProviderType.unspecified

unfoldable pub to_proto_status : GateStatus → ProviderStatus
to_proto_status status_active = active
to_proto_status status_disabled = inactive
to_proto_status status_error = error
to_proto_status status_unknown = ProviderStatus.unspecified
