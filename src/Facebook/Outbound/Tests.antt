-- ===== src/Facebook/Outbound/Tests.antt =====
-- A contact with a PSID, for the theorem on its resolution.
use im_providers_service.Prelude.{String, ◌≡◌, refl, true, none, List, [], ◌∷◌}
use im_providers_service.Prelude.Int.{pos}
use im_providers_service.Prelude.Lru.{unbounded, find}
use im_providers_service.Prelude.Failure.{ok, err, plain}
use im_providers_service.Core.Gate.{status_active}
use im_providers_service.Facebook.Model.{FacebookGate}
use im_providers_service.Facebook.Outbound.{Graph, Psids, has_dash, resolve_psid}
use im_providers_service.Facebook.Outbound.Psid.{resolve_psid-again}

abbrev gate : String → FacebookGate
gate id = record {
  id = id;
  domain_id = pos 7;
  peer = record { sub = "bot"; iss = "bots"; via = none; name = ""; id = "" };
  name = "page";
  meta_app_id = "a1";
  page_id = "p1";
  page_name = "page";
  page_token = "token";
  enabled = true;
  status = status_active;
}

-- The world is the ids that were searched.
abbrev graph : Graph (List String)
graph = record {
  select_gate = λ id w. (ok (gate id), w);
  search_contact = λ identity id w. (ok ("100" ∷ []), id ∷ w);
  send_text = λ t p x w. (err (plain "offline"), w);
  send_media = λ t p m u w. (err (plain "offline"), w);
  send_interactive = λ t p x i w. (err (plain "offline"), w);
}

abbrev empty : Psids (List (String × String)) (List String)
empty = record { cache = []; world = [] }

abbrev after : Psids (List (String × String)) (List String)
after = (resolve_psid unbounded graph (gate "g1") "a-1" empty).1

resolve_psid-again_example :
    ((resolve_psid unbounded graph (gate "g2") "a-1" after).0 ≡ ok "100")
    × ((resolve_psid unbounded graph (gate "g2") "a-1" after).1.world ≡ after.world)
unfolding resolve_psid has_dash find
resolve_psid-again_example =
    resolve_psid-again unbounded graph (gate "g1") (gate "g2") "a-1" "100" empty refl
