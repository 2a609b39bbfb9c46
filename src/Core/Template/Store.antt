-- ===== src/Core/Template/Store.antt =====
-- What a template that was set does to the later calls of internal/core/handler/template.go and the
-- lookups of internal/core/store/template_postgres.go.
use im_providers_service.Prelude.{
  String, ◌≡◌, refl, ap, ◌∙◌, fun_ext, ◌&&◌, Option, none, some, List, [], ◌∷◌, ◌==◌, string_eq,
  if◌then◌else◌, arith, eq_iff,
}
use im_providers_service.Prelude.Int.{ℤ}
use im_providers_service.Prelude.Failure.{
  Result, ok, err, status, internal, unauthenticated, not_found, is_not_found,
}
use im_providers_service.Core.Template.{
  TemplateRow, Fault, delete_error, is_row, select, upsert, remove, Table, set_template,
  delete_template, Item, set_gate_template, delete_gate_template,
}

select-upsert :
    (new : TemplateRow) (rows : Table) (g e : String)
    → select g e (upsert new rows) ≡ (if is_row g e new then some new.template else select g e rows)
unfolding select upsert
select-upsert new [] g e = refl
select-upsert new (r ∷ rows) g e = ground (
  arith,
  select-upsert new rows g e,
  eq_iff new.gate_id g,
  eq_iff new.event_type e,
  eq_iff r.gate_id g,
  eq_iff r.event_type e,
  eq_iff r.gate_id new.gate_id,
  eq_iff r.event_type new.event_type,
)

select-remove :
    (rows : Table) (g e g' e' : String)
    → select g' e' (remove g e rows) ≡ (if g == g' && e == e' then none else select g' e' rows)
unfolding select remove
select-remove [] g e g' e' = ground arith
select-remove (r ∷ rows) g e g' e' = ground (
  arith,
  select-remove rows g e g' e',
  eq_iff g g',
  eq_iff e e',
  eq_iff r.gate_id g,
  eq_iff r.event_type e,
  eq_iff r.gate_id g',
  eq_iff r.event_type e',
)

-- The calls that change the table, and what they answer.
pub data Call : Type 0 where
  sets : Option ℤ → Item → Call
  deletes : String → String → Call

pub data Answer : Type 0 where
  item : Result Item → Answer
  nothing : Result (Unit {0}) → Answer

abbrev call : Fault → Call → Table → Answer × Table
call fault (sets identity req) rows =
    let (answer, rows1) = set_gate_template identity fault req rows in (item answer, rows1)
call fault (deletes g e) rows =
    let (answer, rows1) = delete_gate_template fault g e rows in (nothing answer, rows1)

unfoldable pub run : List (Fault × Call) → Table → List Answer × Table
run [] rows = ([], rows)
run ((fault, c) ∷ calls) rows =
    let (answer, rows1) = call fault c rows in
    let (answers, rows2) = run calls rows1 in (answer ∷ answers, rows2)

-- What the table is for: at most one template for a gate and an event.
abbrev pub Templates : Type 0
Templates = String → String → Option String

abbrev pub view : Table → Templates
view rows g e = select g e rows

abbrev set_at : String → String → String → Templates → Templates
set_at g e tpl templates g' e' = if g == g' && e == e' then some tpl else templates g' e'

abbrev drop_at : String → String → Templates → Templates
drop_at g e templates g' e' = if g == g' && e == e' then none else templates g' e'

abbrev call_templates : Fault → Call → Templates → Answer × Templates
call_templates fault (sets none req) templates =
    (item (err (status unauthenticated "missing identity in context")), templates)
call_templates (some f) (sets (some domain) req) templates =
    (item (err (status internal "failed to set template")), templates)
call_templates none (sets (some domain) req) templates =
    (item (ok req), set_at req.gate_id req.event_type req.template templates)
call_templates (some f) (deletes g e) templates = (nothing (err (delete_error f)), templates)
call_templates none (deletes g e) templates = deleted (templates g e)
  where
    deleted : Option String → Answer × Templates
    deleted none = (nothing (err (status not_found "template not found for event type")), templates)
    deleted (some tpl) = (nothing (ok tt), drop_at g e templates)

unfoldable pub run_templates : List (Fault × Call) → Templates → List Answer × Templates
run_templates [] templates = ([], templates)
run_templates ((fault, c) ∷ calls) templates =
    let (answer, templates1) = call_templates fault c templates in
    let (answers, templates2) = run_templates calls templates1 in (answer ∷ answers, templates2)

viewed : Answer × Table → Answer × Templates
viewed (answer, rows) = (answer, view rows)

upsert-view :
    (new : TemplateRow) (rows : Table)
    → view (upsert new rows) ≡ set_at new.gate_id new.event_type new.template (view rows)
upsert-view new rows = fun_ext λ g. fun_ext λ e. select-upsert new rows g e

remove-view : (g e : String) (rows : Table) → view (remove g e rows) ≡ drop_at g e (view rows)
remove-view g e rows = fun_ext λ g'. fun_ext λ e'. select-remove rows g e g' e'

viewed-call :
    (fault : Fault) (c : Call) (rows : Table)
    → viewed (call fault c rows) ≡ call_templates fault c (view rows)
unfolding viewed set_gate_template set_template delete_gate_template delete_template is_not_found
viewed-call fault (sets none req) rows = refl
viewed-call (some f) (sets (some domain) req) rows = refl
viewed-call none (sets (some domain) req) rows = ap (λ v. (item (ok req), v)) (upsert-view _ rows)
viewed-call (some f) (deletes g e) rows = refl
viewed-call none (deletes g e) rows = go (select g e rows) refl
  where
    go :
        (s : Option String)
        → select g e rows ≡ s
        → viewed (call none (deletes g e) rows) ≡ call_templates none (deletes g e) (view rows)
    go none h = rw h refl
    go (some tpl) h = rw h (ap (λ v. (nothing (ok tt), v)) (remove-view g e rows))

-- For any calls that set and delete templates, any identity or none, and any of the database's faults,
-- the answers are those of a map from gates and events to templates, and the lookups afterwards find
-- what the map has: a template that was set last, and nothing where it was deleted since.
pub run-refines :
    (calls : List (Fault × Call)) (rows : Table)
    → ((run calls rows).0, view (run calls rows).1) ≡ run_templates calls (view rows)
unfolding run run_templates viewed
run-refines [] rows = refl
run-refines ((fault, c) ∷ calls) rows =
    ap (λ r. ((call fault c rows).0 ∷ r.0, r.1)) (run-refines calls (call fault c rows).1)
    ∙ ap
        (λ (r : Answer × Templates).
          (r.0 ∷ (run_templates calls r.1).0, (run_templates calls r.1).1))
        (viewed-call fault c rows)
