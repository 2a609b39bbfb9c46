-- ===== src/Facebook/Menu.antt =====
-- The persistent menu and the Get Started button: internal/facebook/handler/menu.go and the second half
-- of service/facebook.go. The gate's query and the Messenger Profile API are arguments.
pub mod Leaves
mod Tests
use im_providers_service.Prelude.{
  String, ◌≡◌, Bool, true, false, Option, none, some, List, [], ◌∷◌, ◌++◌, ◌==◌, string_eq,
  if◌then◌else◌,
}
use im_providers_service.Prelude.Io.{Io, ◌>>=◌, follow}
use im_providers_service.Prelude.Failure.{Failure, Result, ok, err, status, invalid_argument}
use im_providers_service.Facebook.Model.{FacebookGate}
use im_providers_service.Facebook.Manage.{to_status, respond}

-- `ProviderMenuItem` by its title and its action; `menu_nil` is a submenu that is nil.
mutual
  pub data Action : Type 0 where
    menu_payload menu_url : String → Action
    menu_nested : ProtoItems → Action
    menu_nil unset : Action

  pub data ProtoItems : Type 0 where
    no_items : ProtoItems
    item : String → Action → ProtoItems → ProtoItems

-- A list of `fbmodel.MenuItem`: the first one's Title, Payload, URL and Nested, and the rest.
pub data MenuItems : Type 0 where
  end : MenuItems
  entry : String → String → String → MenuItems → MenuItems → MenuItems

-- `protoMenuItemsToModel`, with the title at hand.
unfoldable mutual
  pub action_to_model : String → Action → MenuItems → MenuItems
  action_to_model title (menu_payload p) rest = entry title p "" end rest
  action_to_model title (menu_url u) rest = entry title "" u end rest
  action_to_model title (menu_nested items) rest = entry title "" "" (items_to_model items) rest
  action_to_model title menu_nil rest = entry title "" "" end rest
  action_to_model title unset rest = entry title "" "" end rest

  pub items_to_model : ProtoItems → MenuItems
  items_to_model no_items = end
  items_to_model (item title action items) = action_to_model title action (items_to_model items)

-- `menuAction`; its own `CallToActions` are never set.
pub record MenuAction : Type 0 where
  pub type : String
  pub title : String
  pub payload : String
  pub url : String
  pub webview_height_ratio : String

abbrev pub postback : String → String → MenuAction
postback title p = record {
  type = "postback";
  title = title;
  payload = p;
  url = "";
  webview_height_ratio = "";
}

abbrev pub web_url : String → String → MenuAction
web_url title u = record {
  type = "web_url";
  title = title;
  payload = "";
  url = u;
  webview_height_ratio = "full";
}

-- The switch of `menuItemsToActions`, with the submenu's own actions at hand.
abbrev pub actions_of_item :
    String → String → String → MenuItems → List MenuAction → List MenuAction
actions_of_item title p u (entry _ _ _ _ _) inner = inner
actions_of_item title p u end inner = (if u == "" then postback title p else web_url title u) ∷ []

-- `menuItemsToActions`
unfoldable pub menu_items_to_actions : MenuItems → List MenuAction
menu_items_to_actions end = []
menu_items_to_actions (entry title p u sub rest) =
    actions_of_item title p u sub (menu_items_to_actions sub) ++ menu_items_to_actions rest

-- `messengerProfilePayload`, with the one menu of the default locale.
pub record PersistentMenu : Type 0 where
  pub composer_input_disabled : Bool
  pub call_to_actions : List MenuAction

pub record MessengerProfile : Type 0 where
  pub persistent_menu : Option PersistentMenu
  pub get_started : Option String

pub record ProfileApi (W : Type 0) : Type 0 where
  pub select : String → Io W FacebookGate
  pub set_messenger_profile : String → MessengerProfile → Io W (Unit {0})
  pub delete_messenger_profile : String → List String → Io W (Unit {0})

module _ {W : Type 0} (api : ProfileApi W) where
  abbrev pub set_profile : String → MessengerProfile → Io W (Unit {0})
  set_profile gate_id profile =
      api.select gate_id >>= λ g. api.set_messenger_profile g.page_token profile

  abbrev pub delete_profile : String → String → Io W (Unit {0})
  delete_profile gate_id field =
      api.select gate_id >>= λ g. api.delete_messenger_profile g.page_token (field ∷ [])

  abbrev pub need : String → String → Io W (Unit {0}) → Io W (Unit {0})
  need value message m w = if value == "" then (err (status invalid_argument message), w) else m w

  -- The handler's methods, with the service's.
  unfoldable pub set_persistent_menu : String → ProtoItems → Bool → Io W (Unit {0})
  set_persistent_menu gate_id items composer_disabled = need gate_id "gate_id is required" (
      respond "set persistent menu" (λ t. t)
        (set_profile gate_id (record {
          persistent_menu = some (record {
            composer_input_disabled = composer_disabled;
            call_to_actions = menu_items_to_actions (items_to_model items);
          });
          get_started = none;
        })))

  unfoldable pub delete_persistent_menu : String → Io W (Unit {0})
  delete_persistent_menu gate_id =
      need gate_id "gate_id is required"
        (respond "delete persistent menu" (λ t. t) (delete_profile gate_id "persistent_menu"))

  unfoldable pub set_get_started : String → String → Io W (Unit {0})
  set_get_started gate_id p = need gate_id "gate_id is required" (
      need p "payload is required" (
        respond "set get started" (λ t. t)
          (set_profile gate_id (record { persistent_menu = none; get_started = some p }))))

  unfoldable pub delete_get_started : String → Io W (Unit {0})
  delete_get_started gate_id =
      need gate_id "gate_id is required"
        (respond "delete get started" (λ t. t) (delete_profile gate_id "get_started"))
