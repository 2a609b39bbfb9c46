-- ===== src/Facebook/Buttons/Choice.antt =====
-- The loops of the keyboard mapping against plain descriptions with `take`.
use mathlib.Core.List.{append_assoc, append-nil}
use im_providers_service.Prelude.{
  String, ℕ, zero, suc, ◌+◌, ◌≤◌, ◌≡◌, ◌≢◌, refl, sym, ap, true, Bool-cases, inl, inr, List, [],
  ◌∷◌, ◌++◌, map, length, length-append, take, concat, arith, leb, if◌then◌else◌,
}
use im_providers_service.Prelude.Failure.{ok}
use im_providers_service.Core.Message.{KeyboardButton, KeyboardRowWithSection, KeyboardMarkup}
use im_providers_service.Facebook.Buttons.{
  QuickReply, FbButton, OutboundMessage, has_url_button, quick_reply_of, max_quick_replies,
  quick_replies_from, no_replies, build_quick_replies, template_button_of, max_buttons,
  template_buttons_from, no_buttons, build_button_template, all_buttons, build_markup_message,
  max_elements, element_of, elements_from,
}

module _ {A B : Type 0} where
  abbrev pub collect : (A → List B) → List A → List B
  collect f xs = concat (map f xs)

-- The buttons of the first thirteen places that have a callback or a request.
abbrev pub first_replies : List KeyboardButton → List QuickReply
first_replies bs = collect quick_reply_of (take max_quick_replies bs)

-- The first three of the buttons that have a URL or a callback.
abbrev pub first_buttons : List KeyboardButton → List FbButton
first_buttons bs = take max_buttons (collect template_button_of bs)

quick_replies_from-take :
    (i k : ℕ) (bs : List KeyboardButton)
    → i + k ≡ max_quick_replies
    → quick_replies_from i bs ≡ collect quick_reply_of (take k bs)
unfolding quick_replies_from
quick_replies_from-take i zero [] h = refl
quick_replies_from-take i zero (b ∷ bs) h = let e : i ≡ 13 = omega arith in rw e
quick_replies_from-take i (suc k) [] h = refl
quick_replies_from-take i (suc k) (b ∷ bs) h = ground (arith, quick_replies_from-take (suc i) k bs)

pub quick_replies-first_replies :
    (bs : List KeyboardButton) → quick_replies_from 0 bs ≡ first_replies bs
quick_replies-first_replies bs = quick_replies_from-take 0 13 bs refl

pub elements_from-take :
    (i k : ℕ) (ss : List KeyboardRowWithSection)
    → i + k ≡ max_elements
    → elements_from i ss ≡ map element_of (take k ss)
unfolding elements_from
elements_from-take i zero [] h = refl
elements_from-take i zero (s ∷ ss) h = let e : i ≡ 10 = omega arith in rw e
elements_from-take i (suc k) [] h = refl
elements_from-take i (suc k) (s ∷ ss) h = ground (arith, elements_from-take (suc i) k ss)

length-template_button_of : (b : KeyboardButton) → length (template_button_of b) ≤ 1
unfolding template_button_of
length-template_button_of b = ground arith

module _ {A : Type 0} where
  take-append_exact : (xs ys : List A) (n : ℕ) → length xs ≡ n → take n (xs ++ ys) ≡ xs
  take-append_exact [] ys n h = rw (← h)
  take-append_exact (x ∷ xs) ys zero h = absurd (omega arith)
  take-append_exact (x ∷ xs) ys (suc n) h =
      ap (λ t. x ∷ t) (take-append_exact xs ys n (omega arith))

  take-all : (xs : List A) (n : ℕ) → length xs ≤ n → take n xs ≡ xs
  take-all [] zero h = refl
  take-all [] (suc n) h = refl
  take-all (x ∷ xs) zero h = absurd (omega arith)
  take-all (x ∷ xs) (suc n) h = ap (λ t. x ∷ t) (take-all xs n (omega arith))

template_buttons_from-take :
    (built : List FbButton) (bs : List KeyboardButton)
    → length built ≤ max_buttons
    → template_buttons_from built bs ≡ take max_buttons (built ++ collect template_button_of bs)
unfolding template_buttons_from
template_buttons_from-take built [] h = rw append-nil (sym (take-all built max_buttons h))
template_buttons_from-take built (b ∷ bs) h = elim (Bool-cases (leb max_buttons (length built))) [
  | inl full ↦ rw full (sym (take-append_exact built _ max_buttons (ground arith)))
  | inr room ↦
      rw (room, ← append_assoc)
        (template_buttons_from-take (built ++ template_button_of b) bs
          (ground (arith, length-append built (template_button_of b), length-template_button_of b)))
]

pub template_buttons-first_buttons :
    (bs : List KeyboardButton) → template_buttons_from [] bs ≡ first_buttons bs
template_buttons-first_buttons bs = template_buttons_from-take [] bs (omega arith)

-- A markup becomes a button template of the first three buttons with a URL or a callback if any of
-- its buttons has a URL, and otherwise quick replies for those of its first thirteen buttons that
-- have a callback or a request; rows are read in order. Either fails if it would be empty.
pub build_markup_message-first :
    (body : String) (m : KeyboardMarkup)
    → build_markup_message body m ≡ (
        if has_url_button (all_buttons m.rows)
        then no_buttons body (first_buttons (all_buttons m.rows))
        else no_replies body (first_replies (all_buttons m.rows)))
unfolding build_markup_message build_button_template build_quick_replies
build_markup_message-first body m = rw (
  template_buttons-first_buttons (all_buttons m.rows),
  quick_replies-first_replies (all_buttons m.rows),
)

collect_url :
    (bs : List KeyboardButton) → has_url_button bs ≡ true → collect template_button_of bs ≢ []
unfolding has_url_button template_button_of
collect_url [] h = cc
collect_url (b ∷ bs) h = ground (arith, collect_url bs)

-- A markup with a URL button is always accepted.
build_markup_message-url :
    (body : String) (m : KeyboardMarkup)
    → has_url_button (all_buttons m.rows) ≡ true
    → (msg : OutboundMessage) × (build_markup_message body m ≡ ok msg)
build_markup_message-url body m h =
    rw (build_markup_message-first body m, h)
      (some_buttons body (collect template_button_of (all_buttons m.rows)) (collect_url _ h))
  where
    some_buttons :
        (body : String) (bs : List FbButton)
        → bs ≢ []
        → (msg : OutboundMessage) × (no_buttons body (take max_buttons bs) ≡ ok msg)
    some_buttons body [] e = absurd (e refl)
    some_buttons body (b ∷ bs) e = (_, refl)
