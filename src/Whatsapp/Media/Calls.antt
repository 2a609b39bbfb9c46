-- ===== src/Whatsapp/Media/Calls.antt =====
-- What the media manager of internal/whatsapp/media/media.manager.go does to the world: it sends
-- requests, by the client of internal/whatsapp/client/request.client.go, and nothing else.
use im_providers_service.Prelude.{String, not, ◌&&◌, leb, ◌==◌, string_eq}
use im_providers_service.Prelude.Io.{return}
use im_providers_service.Prelude.Keeps.{follow-keeps, choose-keeps}
use im_providers_service.Prelude.Failure.{Failure, Result, ok, err}
use im_providers_service.Whatsapp.Client.Calls.{execute-keeps}
use im_providers_service.Whatsapp.Client.{
  Http, HttpRequest, RequestClient, get_media, downloaded, new_api_request, execute,
  request_media_download,
}
use im_providers_service.Whatsapp.Media.{
  Decoder, replaced, found_url, get_media_url_by_id, download_media_by_url,
}

module _ {W : Type 0} (http : Http W) (P : W → Type 0)
    (send-keeps : (r : HttpRequest) (w : W) → P w → P (http.send r w).1) where
  replaced-keeps :
      {A : Type 0} (decoder : Decoder) (e : Failure) (r : Result A × W)
      → P r.1
      → P (replaced http decoder e r).1
  replaced-keeps decoder e (ok a, w) p = p
  replaced-keeps decoder e (err cause, w) p = p

  found_url-keeps :
      (decoder : Decoder) (r : Result String) (w : W) → P w → P (found_url http decoder r w).1
  found_url-keeps decoder (err e) w p = p
  found_url-keeps decoder (ok url) w p = choose-keeps P (url == "") _ (return url) w p p

  pub get_media_url_by_id-keeps :
      (decoder : Decoder) (client : RequestClient) (id : String) (w : W)
      → P w
      → P (get_media_url_by_id http decoder client id w).1
  unfolding get_media_url_by_id
  get_media_url_by_id-keeps decoder client id w p =
      follow-keeps P (replaced http decoder _ (execute http (new_api_request client id "GET") w))
        (λ raw. found_url http decoder (decoder.media_url raw))
        (replaced-keeps decoder _ _ (execute-keeps http P _ w (λ r _ _. send-keeps r) p))
        (λ raw _ w1 p1. found_url-keeps decoder (decoder.media_url raw) w1 p1)

  get_media-keeps :
      (request : HttpRequest) (parsed : Result (Unit {0})) (w : W)
      → P w
      → P (get_media http request parsed w).1
  get_media-keeps request (err e) w p = p
  get_media-keeps request (ok _) w p =
      follow-keeps P (http.send request w) (downloaded http) (send-keeps request w p)
        (λ response _ w1 p1.
          choose-keeps P (leb 200 response.status_code && not (leb 300 response.status_code)) _ _ w1
            p1 p1)

  pub download_media_by_url-keeps :
      (decoder : Decoder) (client : RequestClient) (url : String) (w : W)
      → P w
      → P (download_media_by_url http decoder client url w).1
  unfolding download_media_by_url request_media_download
  download_media_by_url-keeps decoder client url w p =
      choose-keeps P (url == "") _ _ w p (get_media-keeps _ (http.new_request "GET" url) w p)
