-- ===== src/Core/Gate/Listing.antt =====
-- The gate list: `gateStore.List` of internal/core/store/gate_postgres.go, `GateService.ListGates` and
-- `GateHandler.ListGates` of internal/core/handler/gate.go.
pub mod Pages
mod Tests
use im_providers_service.Prelude.{
  ℕ, String, Bool, Option, none, some, List, [], ◌∷◌, map, length, take, ltb, if◌then◌else◌,
}
use im_providers_service.Prelude.Int.{ℤ, pos, ◌*ℤ◌, is_nonpos, increment, to_ℕ}
use im_providers_service.Prelude.Failure.{Result, ok, err, wrap, ◌>>=◌}
use im_providers_service.Core.Gate.{
  GateSummary, ProviderType, ProviderStatus, to_proto_type, to_proto_status,
}

pub record ListFilter : Type 0 where
  pub page : ℤ
  pub size : ℤ

pub record ProviderSummary : Type 0 where
  pub id : String
  pub name : String
  pub type : ProviderType
  pub status : ProviderStatus
  pub webhook_url : String
  pub contact : String
  pub provider_app_id : String
  pub created_at : ℕ
  pub updated_at : ℕ

pub record ListGatesResponse : Type 0 where
  pub items : List ProviderSummary
  pub page : ℤ
  pub size : ℤ
  pub next : Bool

-- `limit <= 0` is replaced by 20.
unfoldable pub limit_of : ℤ → ℤ
limit_of size = if is_nonpos size then pos 20 else size

unfoldable pub summary_to_proto : GateSummary → ProviderSummary
summary_to_proto v = record {
  id = v.id;
  name = v.name;
  type = to_proto_type v.type;
  status = to_proto_status v.status;
  webhook_url = v.webhook_url;
  contact = v.contact;
  provider_app_id = elim v.provider_app_id [ none ↦ "" | some app ↦ app ];
  created_at = v.created_at;
  updated_at = v.updated_at;
}

-- `select` is the query `SELECT * FROM gate_summary ORDER BY created_at DESC LIMIT $1 OFFSET $2`.
module _ (select : ℤ → ℤ → Result (List GateSummary)) where
  pub list : ListFilter → Result (List GateSummary × Bool)
  list f = do
    let limit = limit_of f.size
    let offset = f.page *ℤ limit
    rows ← wrap "postgres: list gates" (select (increment limit) offset)
    let next = ltb (to_ℕ limit) (length rows)
    ok (if next then take (to_ℕ limit) rows else rows, next)

  -- `GateService.ListGates`
  pub list_gates_service : ListFilter → Result (List GateSummary × Bool)
  list_gates_service f = list f

  -- `GateHandler.ListGates`
  pub list_gates : ℤ → ℤ → Result ListGatesResponse
  list_gates page size =
      list_gates_service (record { page = page; size = limit_of size }) >>= λ found. ok (record {
        items = map summary_to_proto found.0;
        page = page;
        size = pos (length (map summary_to_proto found.0));
        next = found.1;
      })
