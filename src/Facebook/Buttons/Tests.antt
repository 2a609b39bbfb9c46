-- ===== src/Facebook/Buttons/Tests.antt =====
-- Keyboards, for the theorems on the Send API's messages.
use im_providers_service.Prelude.{String, ◌≡◌, refl, false, none, some, [], ◌∷◌, if◌then◌else◌}
use im_providers_service.Core.Message.{KeyboardButton, KeyboardMarkup, Interactive}
use im_providers_service.Facebook.Buttons.{
  OutboundMessage, FbButton, button_template, has_url_button, all_buttons, no_buttons, no_replies,
  build_markup_message, build_interactive_message, template_button_of, template_buttons_from,
  build_button_template,
}
use im_providers_service.Facebook.Buttons.Choice.{
  first_buttons, first_replies, build_markup_message-first,
}
use im_providers_service.Facebook.Buttons.Limits.{IsWithin, build_interactive_message-IsWithin}

abbrev callback : String → KeyboardButton
callback label = record {
  id = label;
  label = label;
  url = none;
  callback = some label;
  request = none;
}

abbrev link : KeyboardButton
link = record {
  id = "l";
  label = "site";
  url = some "https://example.org";
  callback = none;
  request = none;
}

abbrev markup : KeyboardMarkup
markup = record {
  rows =
      record { buttons = callback "a" ∷ callback "b" ∷ [] }
      ∷ record { buttons = callback "c" ∷ link ∷ [] }
      ∷ [];
}

abbrev keyboard : Interactive
keyboard = record { single_use = false; markup = some markup; list_reply = none }

build_markup_message-first_example : build_markup_message "body" markup ≡ (
    if has_url_button (all_buttons markup.rows)
    then no_buttons "body" (first_buttons (all_buttons markup.rows))
    else no_replies "body" (first_replies (all_buttons markup.rows)))
build_markup_message-first_example = build_markup_message-first "body" markup

abbrev postback : String → FbButton
postback label = record { type = "postback"; title = label; url = ""; payload = label }

-- What is built: three buttons, without the link.
abbrev built : OutboundMessage
built = record {
  text = "";
  attachment = some (button_template "body" (postback "a" ∷ postback "b" ∷ postback "c" ∷ []));
  quick_replies = [];
}

build_interactive_message-IsWithin_example : IsWithin built.attachment built.quick_replies
unfolding build_interactive_message build_markup_message has_url_button build_button_template
    template_buttons_from template_button_of
build_interactive_message-IsWithin_example =
    build_interactive_message-IsWithin "body" (some keyboard) built refl
