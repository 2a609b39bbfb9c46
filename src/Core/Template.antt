-- ===== src/Core/Template.antt =====
-- System event templates: the renderer of internal/core/service/template.go, the handlers of
-- internal/core/handler/template.go and the statements of internal/core/store/template_postgres.go, by
-- what they do to the rows of the table. Go's text/template, the LRU cache, the contact service and the
-- order of a listing are parameters. The renderer has a store and a contact service; logging and times
-- are left out.
pub mod Store
pub mod Names
pub mod Tests
use Prim.Native.String
use im_providers_service.Prelude.{
  String, ℕ, Bool, true, false, ◌&&◌, Option, none, some, List, [], ◌∷◌, map, ◌==◌, string_eq,
  if◌then◌else◌,
}
use im_providers_service.Prelude.Int.{ℤ}
use im_providers_service.Prelude.Lru.{Lru}
use im_providers_service.Prelude.Dict.{insert}
use im_providers_service.Prelude.Failure.{
  Failure, Result, ok, err, status, err_not_found, is_not_found, internal, not_found,
  unauthenticated,
}

pub record TemplateRow : Type 0 where
  pub gate_id : String
  pub event_type : String
  pub template : String
  pub domain_id : ℤ

abbrev pub is_row : String → String → TemplateRow → Bool
is_row gate_id event_type r = r.gate_id == gate_id && r.event_type == event_type

-- The templates of the rows for a gate and an event, up to the limit of one.
unfoldable pub select : String → String → List TemplateRow → Option String
select gate_id event_type [] = none
select gate_id event_type (r ∷ rows) =
    let rest = select gate_id event_type rows in
    if is_row gate_id event_type r then some r.template else rest

-- INSERT … ON CONFLICT (gate_id, event_type) DO UPDATE SET template
unfoldable pub upsert : TemplateRow → List TemplateRow → List TemplateRow
upsert new [] = new ∷ []
upsert new (r ∷ rows) =
    let rest = upsert new rows in
    if is_row new.gate_id new.event_type r
    then record r { template = new.template } ∷ rows
    else r ∷ rest

-- DELETE, and the rows affected
unfoldable pub remove : String → String → List TemplateRow → List TemplateRow
remove gate_id event_type [] = []
remove gate_id event_type (r ∷ rows) =
    let rest = remove gate_id event_type rows in
    if is_row gate_id event_type r then rest else r ∷ rest

abbrev pub scanned : Option String → Result String
scanned none = err err_not_found
scanned (some tpl) = ok tpl

-- A statement that the pool fails with an error, if it does; the table is left as it was then.
abbrev pub Fault : Type 0
Fault = Option Failure

abbrev pub Table : Type 0
Table = List TemplateRow

unfoldable pub get_template : Fault → String → String → Table → Result String
get_template (some e) gate_id event_type rows = err e
get_template none gate_id event_type rows = scanned (select gate_id event_type rows)

unfoldable pub set_template : Fault → TemplateRow → Table → Result (Unit {0}) × Table
set_template (some e) new rows = (err e, rows)
set_template none new rows = (ok tt, upsert new rows)

abbrev pub affected : String → String → Table → Option String → Result (Unit {0}) × Table
affected gate_id event_type rows none = (err err_not_found, rows)
affected gate_id event_type rows (some tpl) = (ok tt, remove gate_id event_type rows)

-- No row is affected exactly if none is selected.
unfoldable pub delete_template : Fault → String → String → Table → Result (Unit {0}) × Table
delete_template (some e) gate_id event_type rows = (err e, rows)
delete_template none gate_id event_type rows =
    affected gate_id event_type rows (select gate_id event_type rows)

abbrev pub of_gate : String → Table → List TemplateRow
of_gate gate_id [] = []
of_gate gate_id (r ∷ rows) =
    let rest = of_gate gate_id rows in if r.gate_id == gate_id then r ∷ rest else rest

unfoldable pub list_templates :
    (List TemplateRow → List TemplateRow) → Fault → String → Table → Result (List TemplateRow)
list_templates by_event_type (some e) gate_id rows = err e
list_templates by_event_type none gate_id rows = ok (by_event_type (of_gate gate_id rows))

-- `ProviderGateTemplate`
pub record Item : Type 0 where
  pub gate_id : String
  pub event_type : String
  pub template : String

abbrev pub item_of : TemplateRow → Item
item_of r = record { gate_id = r.gate_id; event_type = r.event_type; template = r.template }

abbrev pub set_answer : TemplateRow → Result (Unit {0}) × Table → Result Item × Table
set_answer new (ok _, rows) = (ok (item_of new), rows)
set_answer new (err e, rows) = (err (status internal "failed to set template"), rows)

-- SetGateTemplate; the identity is its domain.
unfoldable pub set_gate_template : Option ℤ → Fault → Item → Table → Result Item × Table
set_gate_template none fault req rows =
    (err (status unauthenticated "missing identity in context"), rows)
set_gate_template (some domain) fault req rows =
    let new : TemplateRow = record {
      gate_id = req.gate_id;
      event_type = req.event_type;
      template = req.template;
      domain_id = domain;
    } in
    set_answer new (set_template fault new rows)

abbrev pub delete_error : Failure → Failure
delete_error e =
    if is_not_found e
    then status not_found "template not found for event type"
    else status internal "failed to delete template"

abbrev pub delete_answer : Result (Unit {0}) × Table → Result (Unit {0}) × Table
delete_answer (ok _, rows) = (ok tt, rows)
delete_answer (err e, rows) = (err (delete_error e), rows)

unfoldable pub delete_gate_template : Fault → String → String → Table → Result (Unit {0}) × Table
delete_gate_template fault gate_id event_type rows =
    delete_answer (delete_template fault gate_id event_type rows)

abbrev pub list_answer : Result (List TemplateRow) → Result (List Item)
list_answer (ok rows) = ok (map item_of rows)
list_answer (err e) = err (status internal "failed to list templates")

pub list_gate_templates :
    (List TemplateRow → List TemplateRow) → Fault → String → Table → Result (List Item)
list_gate_templates by_event_type fault gate_id rows =
    list_answer (list_templates by_event_type fault gate_id rows)

-- What stands before the suffix `_contact_id`; `none` for a text without it.
abbrev pub cons_to : Option String → String → Option String
cons_to none s = none
cons_to (some rest) s = some (String.◌++◌ s rest)

pub cut_suffix : String → Option String
cut_suffix String.[] = none
cut_suffix (String.◌∷◌ c s) =
    let rest = cut_suffix s in
    if String.◌∷◌ c s == "_contact_id" then some "" else cons_to rest (String.◌∷◌ c String.[])

abbrev pub Vars : Type 0
Vars = List (String × String)

abbrev pub resolvable : Option String → String → List (String × String) → List (String × String)
resolvable none v rest = rest
resolvable (some prefix) v rest = if v == "" then rest else (prefix, v) ∷ rest

-- The pairs of a prefix and a contact id that the first loop collects.
unfoldable pub to_resolve : Vars → List (String × String)
to_resolve [] = []
to_resolve ((k, v) ∷ vars) = resolvable (cut_suffix k) v (to_resolve vars)

pub record Contact : Type 0 where
  pub name : String
  pub username : String

abbrev pub display_name : Contact → String
display_name c = if c.name == "" then c.username else c.name

-- The name that an answer of SearchContact gives.
abbrev pub found_name : Result (List Contact) → Option String
found_name (err e) = none
found_name (ok []) = none
found_name (ok (c ∷ contacts)) = some (display_name c)

-- What the renderer calls: its LRU cache, the contact service's search, and text/template.
module _ (lru : Lru String) (search : String → Result (List Contact))
    (execute : String → Vars → Result String) where
  abbrev pub keep_name : String → lru.Cache → Option String → String × lru.Cache
  keep_name id cache none = (id, cache)
  keep_name id cache (some name) = (name, lru.add cache id name)

  abbrev pub cached_name : String → Option String × lru.Cache → String × lru.Cache
  cached_name id (some name, cache) = (name, cache)
  cached_name id (none, cache) = keep_name id cache (found_name (search id))

  unfoldable pub resolve_name : String → lru.Cache → String × lru.Cache
  resolve_name id cache = cached_name id (lru.get cache id)

  -- the last loop of enrichWithNames
  unfoldable pub add_names : List (String × String) → Vars → lru.Cache → Vars × lru.Cache
  add_names [] vars cache = (vars, cache)
  add_names ((prefix, id) ∷ pairs) vars cache =
      let (name, cache1) = resolve_name id cache in
      add_names pairs (insert (String.◌++◌ prefix "_name") name vars) cache1

  -- enrichWithNames, of a renderer with a contact service; with nothing to resolve it adds nothing.
  unfoldable pub enrich_with_names : Vars → lru.Cache → Vars × lru.Cache
  enrich_with_names vars cache = add_names (to_resolve vars) vars cache

  abbrev pub template_or_none : Result String → String
  template_or_none (ok tpl) = tpl
  template_or_none (err e) = ""

  abbrev pub text_or_none : Result String → String
  text_or_none (ok text) = text
  text_or_none (err e) = ""

  -- Render
  unfoldable pub render : Fault → Table → String → String → Vars → lru.Cache → String × lru.Cache
  render fault rows gate_id event_type vars cache =
      let (enriched, cache1) = enrich_with_names vars cache in
      (
        text_or_none
            (execute (template_or_none (get_template fault gate_id event_type rows)) enriched),
        cache1,
      )
