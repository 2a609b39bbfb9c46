-- ===== src/Facebook/Menu/Leaves.antt =====
-- Menus and their leaves: `menuItemsToActions` of internal/facebook/service/facebook.go.
use im_providers_service.Prelude.{
  String, ◌≡◌, refl, sym, ap, ◌∙◌, List, [], ◌∷◌, ◌++◌, ◌==◌, string_eq, if◌then◌else◌,
}
use mathlib.Core.List.{append_assoc, append-nil}
use im_providers_service.Facebook.Menu.{
  Action, ProtoItems, MenuItems, no_items, item, menu_payload, menu_url, menu_nested, menu_nil,
  unset, action_to_model, items_to_model, MenuAction, postback, web_url, actions_of_item,
  menu_items_to_actions,
}

-- A leaf of the request's tree: its title, and its link or payload. A submenu with nothing in it is a
-- leaf with an empty payload, and so is an item whose link is empty or that has no action.
abbrev leaf_action : String → Action → MenuAction
leaf_action title (menu_url u) = if u == "" then postback title "" else web_url title u
leaf_action title (menu_payload p) = postback title p
leaf_action title _ = postback title ""

-- The leaves of a tree from left to right, whatever their depth, put before `rest`.
unfoldable mutual
  pub leaves_of_action : String → Action → List MenuAction → List MenuAction
  leaves_of_action title (menu_nested (item t a items)) rest =
      leaves_of_action t a (leaves items rest)
  leaves_of_action title a rest = leaf_action title a ∷ rest

  pub leaves : ProtoItems → List MenuAction → List MenuAction
  leaves no_items rest = rest
  leaves (item title a items) rest = leaves_of_action title a (leaves items rest)

-- A submenu with an item in it is not taken for a leaf.
actions_of_item-sub :
    (title t : String) (a : Action) (items : MenuItems) (inner : List MenuAction)
    → actions_of_item title "" "" (action_to_model t a items) inner ≡ inner
unfolding action_to_model
actions_of_item-sub title t (menu_payload p) items inner = refl
actions_of_item-sub title t (menu_url u) items inner = refl
actions_of_item-sub title t (menu_nested sub) items inner = refl
actions_of_item-sub title t menu_nil items inner = refl
actions_of_item-sub title t unset items inner = refl

mutual
  unfolding menu_items_to_actions action_to_model items_to_model leaves_of_action leaves

  action-leaves :
      (title : String) (a : Action) (items : MenuItems) (rest : List MenuAction)
      → menu_items_to_actions (action_to_model title a items) ++ rest
        ≡ leaves_of_action title a (menu_items_to_actions items ++ rest)
  action-leaves title (menu_payload p) items rest = refl
  action-leaves title (menu_url u) items rest = refl
  action-leaves title (menu_nested no_items) items rest = refl
  action-leaves title (menu_nested (item t a sub)) items rest =
      ap (λ l. (l ++ menu_items_to_actions items) ++ rest)
        (actions_of_item-sub title t a (items_to_model sub)
          (menu_items_to_actions (action_to_model t a (items_to_model sub))))
      ∙ append_assoc (menu_items_to_actions (action_to_model t a (items_to_model sub)))
          (menu_items_to_actions items) rest
      ∙ items-leaves (item t a sub) (menu_items_to_actions items ++ rest)
  action-leaves title menu_nil items rest = refl
  action-leaves title unset items rest = refl

  items-leaves :
      (items : ProtoItems) (rest : List MenuAction)
      → menu_items_to_actions (items_to_model items) ++ rest ≡ leaves items rest
  items-leaves no_items rest = refl
  items-leaves (item title a items) rest =
      action-leaves title a (items_to_model items) rest
      ∙ ap (leaves_of_action title a) (items-leaves items rest)

-- A menu of any depth is pushed as one flat list of its leaves, from left to right.
pub menu_items_to_actions-leaves :
    (items : ProtoItems) → menu_items_to_actions (items_to_model items) ≡ leaves items []
menu_items_to_actions-leaves items =
    sym (append-nil (menu_items_to_actions (items_to_model items))) ∙ items-leaves items []
