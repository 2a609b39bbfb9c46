-- ===== src/Core/Outbound/Keyboard.antt =====
-- `mapInteractive` and its helpers of internal/core/handler/outbound_message.go: keyboards from the
-- request to the domain.
use mathlib.Core.Path.{ap₂}
use mathlib.Core.Option
use im_providers_service.Prelude.{
  String, ◌≡◌, refl, ap, Bool, Option, none, some, List, [], ◌∷◌, map,
}
use im_providers_service.Core.Message.{
  KeyboardButton, KeyboardRow, KeyboardRowWithSection, KeyboardMarkup, KeyboardListReply,
  Interactive,
}

-- The oneof `kind` of `ProviderKeyboardButton`.
pub data ButtonKind : Type 0 where
  no_kind : ButtonKind
  url callback request : String → ButtonKind

pub record ProtoButton : Type 0 where
  pub id : String
  pub label : String
  pub kind : ButtonKind

pub record ProtoSection : Type 0 where
  pub section : String
  pub buttons : List ProtoButton

-- The oneof `kind` of `ProviderInteractive`.
pub data InteractiveKind : Type 0 where
  no_kind : InteractiveKind
  markup : List (List ProtoButton) → InteractiveKind
  list_reply : String → List ProtoSection → InteractiveKind

pub record ProtoInteractive : Type 0 where
  pub single_use : Bool
  pub kind : InteractiveKind

abbrev map_button : String → String → ButtonKind → KeyboardButton
map_button id label no_kind = record {
  id = id;
  label = label;
  url = none;
  callback = none;
  request = none;
}
map_button id label (url u) = record {
  id = id;
  label = label;
  url = some u;
  callback = none;
  request = none;
}
map_button id label (callback d) = record {
  id = id;
  label = label;
  url = none;
  callback = some d;
  request = none;
}
map_button id label (request a) = record {
  id = id;
  label = label;
  url = none;
  callback = none;
  request = some a;
}

-- The loop of `mapButtons`.
pub map_buttons : List ProtoButton → List KeyboardButton
map_buttons [] = []
map_buttons (b ∷ pbs) = map_button b.id b.label b.kind ∷ map_buttons pbs

pub map_markup : List (List ProtoButton) → KeyboardMarkup
map_markup rows = record { rows = map (λ r. record { buttons = map_buttons r }) rows }

pub map_list_reply : String → List ProtoSection → KeyboardListReply
map_list_reply title sections = record {
  main_button_title = title;
  sections =
      map (λ (s : ProtoSection). record { section = s.section; buttons = map_buttons s.buttons })
        sections;
}

map_kind : Bool → InteractiveKind → Interactive
map_kind single no_kind = record { single_use = single; markup = none; list_reply = none }
map_kind single (markup rows) = record {
  single_use = single;
  markup = some (map_markup rows);
  list_reply = none;
}
map_kind single (list_reply title sections) = record {
  single_use = single;
  markup = none;
  list_reply = some (map_list_reply title sections);
}

pub map_interactive : Option ProtoInteractive → Option Interactive
map_interactive none = none
map_interactive (some pb) = some (map_kind pb.single_use pb.kind)

-- Reading a domain keyboard back, the URL of a button before its callback and its request.
abbrev kind_of : Option String → Option String → Option String → ButtonKind
kind_of (some u) c r = url u
kind_of none (some d) r = callback d
kind_of none none (some a) = request a
kind_of none none none = ButtonKind.no_kind

abbrev read_button : KeyboardButton → ProtoButton
read_button b = record { id = b.id; label = b.label; kind = kind_of b.url b.callback b.request }

abbrev read_section : KeyboardRowWithSection → ProtoSection
read_section s = record { section = s.section; buttons = map read_button s.buttons }

abbrev read_kind : Option KeyboardMarkup → Option KeyboardListReply → InteractiveKind
read_kind (some m) l = markup (map (λ (r : KeyboardRow). map read_button r.buttons) m.rows)
read_kind none (some l) = list_reply l.main_button_title (map read_section l.sections)
read_kind none none = InteractiveKind.no_kind

abbrev pub read_interactive : Interactive → ProtoInteractive
read_interactive i = record { single_use = i.single_use; kind = read_kind i.markup i.list_reply }

read-map_button :
    (id label : String) (k : ButtonKind)
    → read_button (map_button id label k) ≡ record { id = id; label = label; kind = k }
read-map_button id label no_kind = refl
read-map_button id label (url u) = refl
read-map_button id label (callback d) = refl
read-map_button id label (request a) = refl

read-map_buttons : (bs : List ProtoButton) → map read_button (map_buttons bs) ≡ bs
unfolding map_buttons
read-map_buttons [] = refl
read-map_buttons (b ∷ bs) = ap₂ ◌∷◌ (read-map_button b.id b.label b.kind) (read-map_buttons bs)

read-map_rows :
    (rows : List (List ProtoButton))
    → map (λ (r : KeyboardRow). map read_button r.buttons) (map_markup rows).rows ≡ rows
unfolding map_markup
read-map_rows [] = refl
read-map_rows (r ∷ rows) = ap₂ ◌∷◌ (read-map_buttons r) (read-map_rows rows)

read-map_sections :
    (title : String) (ss : List ProtoSection)
    → map read_section (map_list_reply title ss).sections ≡ ss
unfolding map_list_reply
read-map_sections title [] = refl
read-map_sections title (s ∷ ss) =
    ap₂ ◌∷◌ (λ i. record { section = s.section; buttons = read-map_buttons s.buttons i })
      (read-map_sections title ss)

read-map_kind :
    (single : Bool) (k : InteractiveKind)
    → read_interactive (map_kind single k) ≡ record { single_use = single; kind = k }
unfolding map_kind map_list_reply
read-map_kind single no_kind = refl
read-map_kind single (markup rows) =
    λ i. record { single_use = single; kind = markup (read-map_rows rows i) }
read-map_kind single (list_reply title ss) =
    λ i. record { single_use = single; kind = list_reply title (read-map_sections title ss i) }

-- Nothing of a keyboard is lost or moved on its way into the domain: reading the mapped value back
-- gives the request's keyboard, with each button's id, label and kind, and a request without a
-- keyboard stays without one.
pub read-map_interactive :
    (pb : Option ProtoInteractive) → Option.map read_interactive (map_interactive pb) ≡ pb
unfolding map_interactive
read-map_interactive none = refl
read-map_interactive (some pb) = ap some (read-map_kind pb.single_use pb.kind)
