-- ===== src/Core/Template/Tests.antt =====
-- A table of templates, and a template that says who was added.
use Prim.Native.String
use im_providers_service.Prelude.{
  String, ◌≡◌, refl, Option, none, some, List, [], ◌∷◌, ◌==◌, string_eq, if◌then◌else◌,
}
use im_providers_service.Prelude.Int.{pos}
use im_providers_service.Prelude.Dict.{lookup, insert}
use im_providers_service.Prelude.Lru.{unbounded, find}
use im_providers_service.Prelude.Failure.{Result, ok, err, plain}
use im_providers_service.Core.Template.{
  select, enrich_with_names, add_names, cut_suffix, resolve_name, Table, Fault, Item, Vars, Contact,
  get_template, template_or_none, text_or_none, to_resolve, render,
}
use im_providers_service.Core.Template.Store.{
  Call, sets, deletes, run, view, run_templates, run-refines,
}
use im_providers_service.Core.Template.Names.{IsCoherent, add_names_uncached, render-uncached}

abbrev welcome : Item
welcome = record { gate_id = "gate"; event_type = "member_added"; template = "hello" }

abbrev calls : List (Fault × Call)
calls =
    (none, sets (some (pos 1)) welcome)
    ∷ (some (plain "down"), deletes "gate" "member_added")
    ∷ (none, deletes "gate" "transferred")
    ∷ []

run-refines_example : ((run calls []).0, view (run calls []).1) ≡ run_templates calls (view [])
run-refines_example = run-refines calls []

abbrev search : String → Result (List Contact)
search id =
    if id == "7" then ok (record { name = ""; username = "ann" } ∷ []) else err (plain "no contact")

abbrev shown : Option String → String
shown none = ""
shown (some name) = name

abbrev execute : String → Vars → Result String
execute tpl vars = ok (String.◌++◌ tpl (shown (lookup "member_name" vars)))

abbrev row : Table
row =
    record { gate_id = "gate"; event_type = "member_added"; template = "added "; domain_id = pos 1 }
    ∷ []

abbrev vars : Vars
vars = ("member_contact_id", "7") ∷ []

render-uncached_example :
    ((render unbounded search execute none row "gate" "member_added" vars []).0
      ≡ text_or_none unbounded search execute (
          execute
            (template_or_none unbounded search execute
              (get_template none "gate" "member_added" row))
            (add_names_uncached unbounded search execute (to_resolve vars) vars)))
    × IsCoherent unbounded search execute
        (render unbounded search execute none row "gate" "member_added" vars []).1
unfolding find
render-uncached_example =
    render-uncached unbounded search execute none row "gate" "member_added" vars []
      (λ id name got. absurd (cc got))

render_test :
    (render unbounded search execute none row "gate" "member_added" vars []).0 ≡ "added ann"
unfolding render get_template select lookup enrich_with_names add_names to_resolve cut_suffix insert
    resolve_name find
render_test = refl
