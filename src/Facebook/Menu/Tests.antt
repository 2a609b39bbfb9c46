-- ===== src/Facebook/Menu/Tests.antt =====
-- A menu with a submenu, for the theorem on its leaves.
use im_providers_service.Prelude.{◌≡◌, []}
use im_providers_service.Facebook.Menu.{
  ProtoItems, no_items, item, menu_payload, menu_url, menu_nested, items_to_model,
  menu_items_to_actions,
}
use im_providers_service.Facebook.Menu.Leaves.{leaves, menu_items_to_actions-leaves}

abbrev menu : ProtoItems
menu = item "help" (menu_payload "HELP") (
    item "more"
      (menu_nested
        (item "site" (menu_url "https://example.org") (item "end" (menu_payload "END") no_items)))
      no_items)

menu_items_to_actions-leaves_example : menu_items_to_actions (items_to_model menu) ≡ leaves menu []
menu_items_to_actions-leaves_example = menu_items_to_actions-leaves menu
