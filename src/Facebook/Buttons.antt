-- ===== src/Facebook/Buttons.antt =====
-- `buildInteractiveMessage` and its helpers of internal/facebook/client.go: keyboards as the Send API's
-- quick replies, button templates and generic templates.
pub mod Limits
pub mod Choice
mod Tests
use im_providers_service.Prelude.{
  String, ℕ, suc, ◌+◌, Bool, true, false, ◌||◌, Option, none, some, List, [], ◌∷◌, ◌++◌, map,
  length, concat, leb, ◌==◌, string_eq, nat_eq, if◌then◌else◌,
}
use im_providers_service.Prelude.Failure.{Result, ok, err, plain}
use im_providers_service.Core.Message.{
  KeyboardButton, KeyboardRow, KeyboardRowWithSection, KeyboardMarkup, KeyboardListReply,
  Interactive,
}

-- `fbQuickReply`
pub record QuickReply : Type 0 where
  pub content_type : String
  pub title : String
  pub payload : String

-- `fbButton`
pub record FbButton : Type 0 where
  pub type : String
  pub title : String
  pub url : String
  pub payload : String

-- `fbElement`
pub record FbElement : Type 0 where
  pub title : String
  pub buttons : List FbButton

-- The `Payload` of a `templateAttachment`.
pub data Template : Type 0 where
  button_template : String → List FbButton → Template
  generic_template : List FbElement → Template

-- `interactiveOutboundMessage`
pub record OutboundMessage : Type 0 where
  pub text : String
  pub attachment : Option Template
  pub quick_replies : List QuickReply

abbrev text_reply : String → String → QuickReply
text_reply title payload = record { content_type = "text"; title = title; payload = payload }

abbrev typed_reply : String → QuickReply
typed_reply content_type = record { content_type = content_type; title = ""; payload = "" }

unfoldable pub map_request_quick_reply : String → String → QuickReply
map_request_quick_reply label action =
    if action == "location"
    then typed_reply "location"
    else if action == "phone" || action == "user_phone_number" || action == "contact"
    then typed_reply "user_phone_number"
    else if action == "email" || action == "user_email"
    then typed_reply "user_email"
    else text_reply label action

unfoldable pub has_url_button : List KeyboardButton → Bool
has_url_button [] = false
has_url_button (b ∷ buttons) = elim b.url [ some u ↦ true | none ↦ has_url_button buttons ]

-- The switch of `buildQuickReplies`: what a button adds to the replies, if anything.
unfoldable pub quick_reply_of : KeyboardButton → List QuickReply
quick_reply_of b = elim b.callback [
  | some payload ↦ text_reply b.label payload ∷ []
  | none ↦ elim b.request [ some action ↦ map_request_quick_reply b.label action ∷ [] | none ↦ [] ]
]

abbrev pub max_quick_replies : ℕ
max_quick_replies = 13

-- The loop from index `i` on.
unfoldable pub quick_replies_from : ℕ → List KeyboardButton → List QuickReply
quick_replies_from i [] = []
quick_replies_from i (b ∷ buttons) =
    let rest = quick_replies_from (suc i) buttons in
    if leb max_quick_replies i then [] else quick_reply_of b ++ rest

abbrev no_replies : String → List QuickReply → Result OutboundMessage
no_replies body [] = err (plain "no valid quick reply buttons")
no_replies body (q ∷ qrs) = ok (record { text = body; attachment = none; quick_replies = q ∷ qrs })

unfoldable pub build_quick_replies : String → List KeyboardButton → Result OutboundMessage
unfolding quick_replies_from
build_quick_replies body buttons = no_replies body (quick_replies_from 0 buttons)

-- The switch that `buildButtonTemplate` and `buildListReplyMessage` share.
unfoldable pub template_button_of : KeyboardButton → List FbButton
template_button_of b = elim b.url [
  | some u ↦ record { type = "web_url"; title = b.label; url = u; payload = "" } ∷ []
  | none ↦ elim b.callback [
    | some payload ↦ record { type = "postback"; title = b.label; url = ""; payload = payload } ∷ []
    | none ↦ []
  ]
]

abbrev pub max_buttons : ℕ
max_buttons = 3

-- The loop, with the buttons built so far.
unfoldable pub template_buttons_from : List FbButton → List KeyboardButton → List FbButton
template_buttons_from built [] = built
template_buttons_from built (b ∷ buttons) =
    let rest = template_buttons_from (built ++ template_button_of b) buttons in
    if leb max_buttons (length built) then built else rest

abbrev or_default : String → String
or_default body = if body == "" then "Choose an option" else body

abbrev no_buttons : String → List FbButton → Result OutboundMessage
no_buttons body [] = err (plain "no valid template buttons")
no_buttons body (b ∷ bs) = ok (record {
  text = "";
  attachment = some (button_template (or_default body) (b ∷ bs));
  quick_replies = [];
})

unfoldable pub build_button_template : String → List KeyboardButton → Result OutboundMessage
unfolding template_buttons_from
build_button_template body buttons = no_buttons body (template_buttons_from [] buttons)

abbrev all_buttons : List KeyboardRow → List KeyboardButton
all_buttons rows = concat (map (λ (r : KeyboardRow). r.buttons) rows)

unfoldable pub build_markup_message : String → KeyboardMarkup → Result OutboundMessage
build_markup_message body markup =
    if has_url_button (all_buttons markup.rows)
    then build_button_template body (all_buttons markup.rows)
    else build_quick_replies body (all_buttons markup.rows)

abbrev pub max_elements : ℕ
max_elements = 10

abbrev element_of : KeyboardRowWithSection → FbElement
element_of s = record { title = s.section; buttons = template_buttons_from [] s.buttons }

unfoldable pub elements_from : ℕ → List KeyboardRowWithSection → List FbElement
elements_from i [] = []
elements_from i (s ∷ sections) =
    let rest = elements_from (suc i) sections in
    if leb max_elements i then [] else element_of s ∷ rest

abbrev no_elements : List FbElement → Result OutboundMessage
no_elements [] = err (plain "no sections in list reply")
no_elements (e ∷ es) =
    ok (record { text = ""; attachment = some (generic_template (e ∷ es)); quick_replies = [] })

unfoldable pub build_list_reply_message : KeyboardListReply → Result OutboundMessage
unfolding elements_from
build_list_reply_message list = no_elements (elements_from 0 list.sections)

abbrev by_kind : String → Option KeyboardMarkup → Option KeyboardListReply → Result OutboundMessage
by_kind body (some markup) list = build_markup_message body markup
by_kind body none (some list) = build_list_reply_message list
by_kind body none none = err (plain "interactive has no kind set")

unfoldable pub build_interactive_message : String → Option Interactive → Result OutboundMessage
build_interactive_message body none = err (plain "interactive payload is nil")
build_interactive_message body (some i) = by_kind body i.markup i.list_reply
