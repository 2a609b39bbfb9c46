-- ===== src/Whatsapp/Client/Calls.antt =====
-- What a request of internal/whatsapp/client/request.client.go sends.
use im_providers_service.Prelude.{String, ◌≡◌, refl}
use im_providers_service.Prelude.Keeps.{follow-keeps}
use im_providers_service.Prelude.Failure.{Result, ok, err}
use im_providers_service.Whatsapp.Client.{
  Http, HttpRequest, ApiRequest, bearer, read_all, perform, request_with_context, execute,
}

module _ {W : Type 0} (http : Http W) (P : W → Type 0) where
  read-keeps : (body : Result String) (w : W) → P w → P (read_all http body w).1
  read-keeps (ok body) w p = p
  read-keeps (err e) w p = p

  perform-keeps :
      (request : HttpRequest) (parsed : Result (Unit {0})) (w : W)
      → ((w' : W) → P w' → P (http.send request w').1)
      → P w
      → P (perform http request parsed w).1
  perform-keeps request (err e) w send p = p
  perform-keeps request (ok _) w send p =
      follow-keeps P (http.send request w) (λ response. read_all http response.body) (send w p)
        (λ response _ w1 p1. read-keeps response.body w1 p1)

  -- The one request that is sent has the method of the API request, and its client's token.
  pub execute-keeps :
      (request : ApiRequest) (w : W)
      → ((r : HttpRequest)
          → r.method ≡ request.method
          → r.authorization ≡ bearer request.requester
          → (w' : W) → P w'
          → P (http.send r w').1)
      → P w
      → P (execute http request w).1
  unfolding execute request_with_context
  execute-keeps request w send p = perform-keeps _ _ w (send _ refl refl) p
