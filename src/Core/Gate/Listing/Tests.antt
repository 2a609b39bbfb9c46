-- ===== src/Core/Gate/Listing/Tests.antt =====
-- A table of three gates, for the theorems on pages.
use im_providers_service.Prelude.{
  String, ℕ, ◌≡◌, refl, none, List, [], ◌∷◌, map, take, drop, ltb, arith,
}
use im_providers_service.Prelude.Int.{ℤ, pos}
use im_providers_service.Prelude.Failure.{Result, ok, err, plain}
use im_providers_service.Core.Gate.{
  GateSummary, GateType, type_facebook, type_whatsapp, status_active, scan_gate_type, text, bytes,
  gate_type_string, parse_gate_type,
}
use im_providers_service.Core.Gate.Parse.{
  scan_gate_type-gate_type_string, parse_gate_type-blank_ends,
}
use im_providers_service.Prelude.Text.{codes, is_space}
use im_providers_service.Core.Gate.Listing.{list_gates, summary_to_proto}
use im_providers_service.Core.Gate.Listing.Pages.{
  IsTable, IsStrict, empty, placed, at_head, list_gates-page, walk, walk-drop,
}

abbrev gate : String → GateType → ℕ → GateSummary
gate id type created = record {
  id = id;
  name = id;
  type = type;
  status = status_active;
  webhook_url = "";
  contact = "";
  provider_app_id = none;
  created_at = created;
  updated_at = 0;
}

abbrev rows : List GateSummary
rows = gate "a" type_facebook 9 ∷ gate "b" type_whatsapp 6 ∷ gate "c" type_facebook 2 ∷ []

abbrev select : ℤ → ℤ → Result (List GateSummary)
select (pos limit) (pos offset) = ok (take limit (drop offset rows))
select _ _ = err (plain "LIMIT must not be negative")

rows-IsTable : IsTable select rows
rows-IsTable limit offset = (
  rows,
  placed (placed (placed empty at_head) at_head) at_head,
  ((omega arith, (omega arith, tt)), ((omega arith, tt), (tt, tt))),
  refl,
)

rows-IsStrict : IsStrict rows
rows-IsStrict = ((omega arith, (omega arith, tt)), ((omega arith, tt), (tt, tt)))

walk-drop_example : walk select rows 2 2 0 ≡ ok (map summary_to_proto rows)
walk-drop_example =
    walk-drop select rows 2 2 0 (omega arith) (omega arith) rows-IsTable rows-IsStrict

list_gates-page_example :
    list_gates select (pos 1) (pos 2)
    ≡ ok (record {
      items = summary_to_proto (gate "c" type_facebook 2) ∷ [];
      page = pos 1;
      size = pos 1;
      next = ltb 4 3;
    })
list_gates-page_example = list_gates-page select rows 1 2 (omega arith) refl

scan_gate_type-gate_type_string_example :
    (scan_gate_type (text (codes (gate_type_string type_whatsapp))) ≡ ok type_whatsapp)
    × (scan_gate_type (bytes (codes (gate_type_string type_whatsapp))) ≡ ok type_whatsapp)
scan_gate_type-gate_type_string_example = scan_gate_type-gate_type_string type_whatsapp

parse_gate_type-blank_ends_example :
    parse_gate_type (32 ∷ codes "FaceBook\n") ≡ parse_gate_type (codes "FaceBook")
unfolding is_space
parse_gate_type-blank_ends_example =
    parse_gate_type-blank_ends (32 ∷ []) (codes "FaceBook") (10 ∷ []) (refl, tt) (refl, tt)
