-- ===== src/Facebook/Buttons/Limits.antt =====
-- The Send API's limits on what the keyboard mapping builds.
use im_providers_service.Prelude.{
  String, suc, ◌≤◌, ◌<◌, ◌≡◌, ◌≢◌, refl, ap, subst, Bool-cases, inl, inr, Option, none, some, List,
  [], ◌∷◌, map, length, length-append, length-take, take, All, arith, eq_iff, string_eq,
}
use im_providers_service.Prelude.Failure.{Result, ok, err}
use im_providers_service.Core.Message.{
  KeyboardButton, KeyboardRowWithSection, KeyboardMarkup, KeyboardListReply, Interactive,
}
use im_providers_service.Facebook.Buttons.{
  QuickReply, FbButton, FbElement, Template, button_template, generic_template, OutboundMessage,
  has_url_button, quick_reply_of, template_button_of, no_replies, no_buttons, no_elements,
  or_default, all_buttons, element_of, max_quick_replies, max_buttons, build_markup_message,
  build_list_reply_message, by_kind, build_interactive_message,
}
use im_providers_service.Facebook.Buttons.Choice.{
  collect, first_replies, first_buttons, build_markup_message-first, elements_from-take,
  template_buttons-first_buttons,
}

abbrev pub IsWithin : Option Template → List QuickReply → Type 0
IsWithin none qrs = (0 < length qrs) × (length qrs ≤ 13)
IsWithin (some (button_template text bs)) qrs =
    (text ≢ "") × (0 < length bs) × (length bs ≤ 3) × (qrs ≡ [])
IsWithin (some (generic_template es)) qrs =
    (0 < length es) × (length es ≤ 10) × All (λ e. length (FbElement.buttons e) ≤ 3) es × (qrs ≡ [])

-- What is built, if anything, is within the limits.
abbrev Accepted : Result OutboundMessage → Type 0
Accepted (ok m) = IsWithin m.attachment m.quick_replies
Accepted (err e) = Unit

length-quick_reply_of : (b : KeyboardButton) → length (quick_reply_of b) ≤ 1
unfolding quick_reply_of
length-quick_reply_of b = ground arith

length-collect : (bs : List KeyboardButton) → length (collect quick_reply_of bs) ≤ length bs
length-collect [] = omega arith
length-collect (b ∷ bs) = omega (
  arith,
  length-append (quick_reply_of b) (collect quick_reply_of bs),
  length-quick_reply_of b,
  length-collect bs,
)

length-first_replies : (bs : List KeyboardButton) → length (first_replies bs) ≤ 13
length-first_replies bs =
    omega (arith, length-collect (take max_quick_replies bs), length-take max_quick_replies bs)

Accepted-no_replies :
    (body : String) (qrs : List QuickReply) → length qrs ≤ 13 → Accepted (no_replies body qrs)
Accepted-no_replies body [] l = tt
Accepted-no_replies body (q ∷ qrs) l = (omega arith, l)

or_default-ne : (body : String) → or_default body ≢ ""
or_default-ne body = ground (arith, eq_iff body "", eq_iff "Choose an option" "")

Accepted-no_buttons :
    (body : String) (bs : List FbButton) → length bs ≤ 3 → Accepted (no_buttons body bs)
Accepted-no_buttons body [] l = tt
Accepted-no_buttons body (b ∷ bs) l = (or_default-ne body, omega arith, l, refl)

length-first_buttons : (bs : List KeyboardButton) → length (first_buttons bs) ≤ 3
length-first_buttons bs = omega (arith, length-take max_buttons (collect template_button_of bs))

Accepted-markup : (body : String) (m : KeyboardMarkup) → Accepted (build_markup_message body m)
Accepted-markup body m =
    rw (build_markup_message-first body m)
      (elim (Bool-cases (has_url_button (all_buttons m.rows))) [
        | inl e ↦ rw e (Accepted-no_buttons body _ (length-first_buttons (all_buttons m.rows)))
        | inr e ↦ rw e (Accepted-no_replies body _ (length-first_replies (all_buttons m.rows)))
      ])

elements_small :
    (ss : List KeyboardRowWithSection)
    → All (λ e. length (FbElement.buttons e) ≤ 3) (map element_of ss)
elements_small [] = tt
elements_small (s ∷ ss) = (
  rw (template_buttons-first_buttons s.buttons) (length-first_buttons s.buttons),
  elements_small ss,
)

length-elements : (ss : List KeyboardRowWithSection) → length (map element_of ss) ≡ length ss
length-elements [] = refl
length-elements (s ∷ ss) = ap suc (length-elements ss)

Accepted-no_elements :
    (es : List FbElement)
    → length es ≤ 10
    → All (λ e. length (FbElement.buttons e) ≤ 3) es
    → Accepted (no_elements es)
Accepted-no_elements [] l h = tt
Accepted-no_elements (e ∷ es) l h = (omega arith, l, h, refl)

Accepted-list : (list : KeyboardListReply) → Accepted (build_list_reply_message list)
unfolding build_list_reply_message
Accepted-list list = rw (elements_from-take 0 10 list.sections refl) (
    Accepted-no_elements _
      (omega (arith, length-elements (take 10 list.sections), length-take 10 list.sections))
      (elements_small (take 10 list.sections)))

Accepted-by_kind :
    (body : String) (markup : Option KeyboardMarkup) (list : Option KeyboardListReply)
    → Accepted (by_kind body markup list)
Accepted-by_kind body (some markup) list = Accepted-markup body markup
Accepted-by_kind body none (some list) = Accepted-list list
Accepted-by_kind body none none = tt

Accepted-build :
    (body : String) (i : Option Interactive) → Accepted (build_interactive_message body i)
unfolding build_interactive_message
Accepted-build body none = tt
Accepted-build body (some i) = Accepted-by_kind body i.markup i.list_reply

-- Whatever the keyboard, a message that is built is within the limits of the Send API: 1 to 13 quick
-- replies, or a button template with a text and 1 to 3 buttons, or a generic template of 1 to 10
-- elements with at most 3 buttons each; quick replies and a template never come together.
pub build_interactive_message-IsWithin :
    (body : String) (i : Option Interactive) (m : OutboundMessage)
    → build_interactive_message body i ≡ ok m
    → IsWithin m.attachment m.quick_replies
build_interactive_message-IsWithin body i m h = subst Accepted h (Accepted-build body i)
