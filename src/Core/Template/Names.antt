-- ===== src/Core/Template/Names.antt =====
-- The contact names that the renderer of internal/core/service/template.go adds, with its cache and
-- without.
use Prim.Native.String
use im_providers_service.Prelude.{
  String, ◌≡◌, refl, sym, ap, ◌∙◌, subst, Option, none, some, List, [], ◌∷◌, Bool-cases, inl, inr,
  eq_iff, ◌==◌, string_eq,
}
use im_providers_service.Prelude.Lru.{Lru}
use im_providers_service.Prelude.Dict.{insert}
use im_providers_service.Prelude.Failure.{Result}
use im_providers_service.Core.Template.{
  Table, Fault, Vars, Contact, found_name, to_resolve, get_template, template_or_none, text_or_none,
  keep_name, cached_name, resolve_name, add_names, enrich_with_names, render,
}

-- The name of a contact by the service alone: the id where it has none.
abbrev pub name_or : String → Option String → String
name_or id none = id
name_or id (some name) = name

module _ (lru : Lru String) (search : String → Result (List Contact))
    (execute : String → Vars → Result String) where
  abbrev pub add_names_uncached : List (String × String) → Vars → Vars
  add_names_uncached [] vars = vars
  add_names_uncached ((prefix, id) ∷ pairs) vars =
      add_names_uncached pairs
        (insert (String.◌++◌ prefix "_name") (name_or id (found_name (search id))) vars)

  -- The cache holds only names that the service answers.
  abbrev pub IsCoherent : lru.Cache → Type 0
  IsCoherent c =
      (id name : String) → (lru.get c id).0 ≡ some name → found_name (search id) ≡ some name

  IsCoherent-add :
      (c : lru.Cache) (id name : String)
      → IsCoherent c
      → found_name (search id) ≡ some name
      → IsCoherent (lru.add c id name)
  IsCoherent-add c id name h e j other got = elim (Bool-cases (id == j)) [
    | inl same ↦
        let same' : id ≡ j = (eq_iff id j).0 same in
        subst (λ k. found_name (search k) ≡ some other) same'
          (e
            ∙ sym (lru.get-add_self c id name)
            ∙ subst (λ k. (lru.get (lru.add c id name) k).0 ≡ some other) (sym same') got)
    | inr differ ↦
        h j other (lru.get-add_ne c id j name other (λ p. cc (differ, (eq_iff id j).1 p)) got)
  ]

  abbrev Names : String → String × lru.Cache → Type 0
  Names id r = (r.0 ≡ name_or id (found_name (search id))) × IsCoherent r.1

  kept-Names :
      (id : String) (c : lru.Cache) (o : Option String)
      → IsCoherent c
      → found_name (search id) ≡ o
      → Names id (keep_name lru search execute id c o)
  kept-Names id c none h e = (rw e refl, h)
  kept-Names id c (some name) h e = (rw e refl, IsCoherent-add c id name h e)

  cached-Names :
      (id : String) (c : lru.Cache) (hit : Option String × lru.Cache)
      → lru.get c id ≡ hit
      → IsCoherent c
      → Names id (cached_name lru search execute id hit)
  cached-Names id c (some name, c1) e h = (
    ap (name_or id) (sym (h id name (ap (λ r. r.0) e))),
    λ j other got.
        h j other
          (sym (lru.get-get c id j) ∙ subst (λ r. (lru.get r.1 j).0 ≡ some other) (sym e) got),
  )
  cached-Names id c (none, c1) e h =
      kept-Names id c1 (found_name (search id))
        (λ j other got.
          h j other
            (sym (lru.get-get c id j) ∙ subst (λ r. (lru.get r.1 j).0 ≡ some other) (sym e) got))
        refl

  resolve_name-Names :
      (id : String) (c : lru.Cache) → IsCoherent c → Names id (resolve_name lru search execute id c)
  unfolding resolve_name
  resolve_name-Names id c h = cached-Names id c (lru.get c id) refl h

  add_names-uncached :
      (pairs : List (String × String)) (vars : Vars) (c : lru.Cache)
      → IsCoherent c
      → ((add_names lru search execute pairs vars c).0 ≡ add_names_uncached pairs vars)
        × IsCoherent (add_names lru search execute pairs vars c).1
  unfolding add_names
  add_names-uncached [] vars c h = (refl, h)
  add_names-uncached ((prefix, id) ∷ pairs) vars c h =
      let (name, h1) = resolve_name-Names id c h in
      let (rest, h2) = add_names-uncached pairs _ _ h1 in
      (
        rest ∙ ap (λ n. add_names_uncached pairs (insert (String.◌++◌ prefix "_name") n vars)) name,
        h2,
      )

  -- From a cache that holds only names that the contact service answers, a render gives the text of the
  -- gate's template for the event, run on the variables with the name of each contact as the service
  -- answers it, its id where it does not, and the empty text where the run fails; no template that can
  -- be read counts as the empty one. The cache stays such a cache.
  pub render-uncached :
      (fault : Fault) (rows : Table) (gate_id event_type : String) (vars : Vars) (c : lru.Cache)
      → IsCoherent c
      → ((render lru search execute fault rows gate_id event_type vars c).0
          ≡ text_or_none lru search execute (
              execute
                (template_or_none lru search execute (get_template fault gate_id event_type rows))
                (add_names_uncached (to_resolve vars) vars)))
        × IsCoherent (render lru search execute fault rows gate_id event_type vars c).1
  unfolding render enrich_with_names
  render-uncached fault rows gate_id event_type vars c h =
      let (names, coherent) = add_names-uncached (to_resolve vars) vars c h in
      (
        ap
            (λ enriched. text_or_none lru search execute (
              execute
                (template_or_none lru search execute (get_template fault gate_id event_type rows))
                enriched))
            names,
        coherent,
      )
