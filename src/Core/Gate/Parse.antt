-- ===== src/Core/Gate/Parse.antt =====
-- The texts of gate types and statuses, as they go to the database and come back.
use im_providers_service.Prelude.{ℕ, ◌≡◌, refl, List, ◌++◌}
use im_providers_service.Prelude.Text.{codes, to_lower, trim_space}
use im_providers_service.Prelude.Text.Trim.{IsBlank, trim_space-blank_ends}
use im_providers_service.Prelude.Failure.{ok}
use im_providers_service.Core.Gate.{
  GateType, type_unknown, type_facebook, type_instagram, type_whatsapp, type_telegram_bot,
  type_telegram_app, GateStatus, status_unknown, status_active, status_disabled, status_error,
  gate_type_string, gate_status_string, parse_gate_type, parse_gate_status, text, bytes, as_string,
  scan_gate_type, scan_gate_status,
}

-- A gate type that is written to the database is read back, from a text or a byte column.
pub scan_gate_type-gate_type_string :
    (t : GateType)
    → (scan_gate_type (text (codes (gate_type_string t))) ≡ ok t)
      × (scan_gate_type (bytes (codes (gate_type_string t))) ≡ ok t)
unfolding scan_gate_type gate_type_string as_string parse_gate_type to_lower trim_space
scan_gate_type-gate_type_string type_unknown = (refl, refl)
scan_gate_type-gate_type_string type_facebook = (refl, refl)
scan_gate_type-gate_type_string type_instagram = (refl, refl)
scan_gate_type-gate_type_string type_whatsapp = (refl, refl)
scan_gate_type-gate_type_string type_telegram_bot = (refl, refl)
scan_gate_type-gate_type_string type_telegram_app = (refl, refl)

-- A gate status that is written to the database is read back, from a text or a byte column.
scan_gate_status-gate_status_string :
    (t : GateStatus)
    → (scan_gate_status (text (codes (gate_status_string t))) ≡ ok t)
      × (scan_gate_status (bytes (codes (gate_status_string t))) ≡ ok t)
unfolding scan_gate_status gate_status_string as_string parse_gate_status to_lower trim_space
scan_gate_status-gate_status_string status_unknown = (refl, refl)
scan_gate_status-gate_status_string status_active = (refl, refl)
scan_gate_status-gate_status_string status_disabled = (refl, refl)
scan_gate_status-gate_status_string status_error = (refl, refl)

-- White space round a stored gate type changes nothing in what is read.
pub parse_gate_type-blank_ends :
    (pad s pad' : List ℕ)
    → IsBlank pad
    → IsBlank pad'
    → parse_gate_type (pad ++ (s ++ pad')) ≡ parse_gate_type s
unfolding parse_gate_type
parse_gate_type-blank_ends pad s pad' h h' = rw (trim_space-blank_ends pad s pad' h h')
