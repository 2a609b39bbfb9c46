-- ===== src/Core/Outbound/Tests.antt =====
-- A gate of one adapter, for the theorems on the outbound handlers.
use im_providers_service.Prelude.{
  String, ◌≡◌, true, none, some, List, [], ◌∷◌, length, ◌==◌, string_eq, if◌then◌else◌,
}
use mathlib.Core.Option
use im_providers_service.Prelude.Int.{pos}
use im_providers_service.Prelude.Text.{codes}
use im_providers_service.Prelude.Lru.{unbounded, find}
use im_providers_service.Prelude.Failure.{ok}
use im_providers_service.Core.Message.{Message}
use im_providers_service.Core.Gate.{GateType, type_facebook}
use im_providers_service.Core.Outbound.{
  Sender, Row, row, no_rows, Handler, resolve_sender, send_text, send_image, send_document,
  send_interactive, send_system_message,
}
use im_providers_service.Core.Requests.{
  TextRequest, FilesRequest, InteractiveRequest, SystemRequest,
}
use im_providers_service.Core.Outbound.Resolve.{IsCoherent, Resolves, resolve_sender-uncached}
use im_providers_service.Core.Outbound.Deliver.{
  outcome, text_sent, images_sent, documents_sent, interactive_sent, keyboard_method,
  deliver_uncached, handlers-uncached, system_uncached, send_system_message-uncached,
}
use im_providers_service.Core.Outbound.Keyboard.{
  ProtoInteractive, read_interactive, map_interactive, read-map_interactive, markup, callback, url,
}

-- The adapter keeps what it sends in the world.
abbrev adapter : Sender (List Message)
adapter = record {
  type = "facebook";
  send_text = λ m w. (ok (record { id = "m" }), m ∷ w);
  send_image = λ m w. (ok (record { id = "i" }), m ∷ w);
  send_document = λ m w. (ok (record { id = "d" }), m ∷ w);
  send_interactive = none;
}

abbrev type_query : String → List Message → Row
type_query id w = if id == "g1" then row (codes "facebook") else no_rows

abbrev registry : List (String × Sender (List Message))
registry = ("facebook", adapter) ∷ []

abbrev empty : Handler (List (String × GateType)) (List Message)
empty = record { type_cache = []; world = [] }

abbrev warm : Handler (List (String × GateType)) (List Message)
warm = record { type_cache = ("g1", type_facebook) ∷ []; world = [] }

empty-IsCoherent : IsCoherent unbounded type_query length registry empty
unfolding find
empty-IsCoherent j t got = absurd (cc got)

resolve_sender-uncached_example :
    Resolves unbounded type_query length registry "g1" empty
      (resolve_sender unbounded type_query length registry "g1" empty)
resolve_sender-uncached_example =
    resolve_sender-uncached unbounded type_query length registry "g1" empty empty-IsCoherent

abbrev text_request : TextRequest
text_request = record { gate_id = "g1"; external_user_id = "u"; domain_id = pos 1; text = "hello" }

abbrev files_request : FilesRequest
files_request = record {
  gate_id = "g1";
  external_user_id = "u";
  domain_id = pos 1;
  caption = "";
  files = [];
}

abbrev interactive_request : InteractiveRequest
interactive_request = record {
  gate_id = "g2";
  external_user_id = "u";
  domain_id = pos 1;
  body = "choose";
  interactive = none;
}

handlers-uncached_example :
    (outcome (send_text unbounded type_query length registry text_request empty)
      ≡ deliver_uncached unbounded type_query length registry
          (λ p. ok p.send_text)
          "g1"
          (text_sent unbounded type_query length registry text_request)
          [])
    × (outcome (send_image unbounded type_query length registry files_request empty)
        ≡ deliver_uncached unbounded type_query length registry
            (λ p. ok p.send_image)
            "g1"
            (images_sent unbounded type_query length registry files_request)
            [])
    × (outcome (send_document unbounded type_query length registry files_request empty)
        ≡ deliver_uncached unbounded type_query length registry
            (λ p. ok p.send_document)
            "g1"
            (documents_sent unbounded type_query length registry files_request)
            [])
    × (outcome (send_interactive unbounded type_query length registry interactive_request empty)
        ≡ deliver_uncached unbounded type_query length registry
            (keyboard_method unbounded type_query length registry)
            "g2"
            (interactive_sent unbounded type_query length registry interactive_request)
            [])
handlers-uncached_example =
    handlers-uncached unbounded type_query length registry empty text_request files_request
      files_request interactive_request empty-IsCoherent

abbrev render : String → String → List (String × String) → List Message → String × List Message
render gate_id event vars w = (event, w)

abbrev system_request : SystemRequest
system_request = record {
  gate_id = "g1";
  external_user_id = "u";
  domain_id = pos 1;
  event_type = "joined";
  vars = [];
}

send_system_message-uncached_example :
    outcome (send_system_message unbounded type_query length registry render system_request empty)
    ≡ system_uncached unbounded type_query length registry render system_request []
send_system_message-uncached_example =
    send_system_message-uncached unbounded type_query length registry render empty system_request
      empty-IsCoherent

abbrev keyboard : ProtoInteractive
keyboard = record {
  single_use = true;
  kind = markup (
      (record { id = "1"; label = "yes"; kind = callback "y" }
        ∷ record { id = "2"; label = "site"; kind = url "https://example.org" }
        ∷ [])
      ∷ []);
}

read-map_interactive_example :
    Option.map read_interactive (map_interactive (some keyboard)) ≡ some keyboard
read-map_interactive_example = read-map_interactive (some keyboard)
