-- ===== src/Whatsapp/Media.antt =====
-- The media of the WhatsApp Cloud API: internal/whatsapp/media/media.manager.go. The manager is the
-- client that it holds. What JSON gives for an answer, and the text that a multipart writer makes, are
-- parameters.
pub mod Calls
use Prim.Native.String
use im_providers_service.Prelude.{String, Bool, true, false, ◌==◌, string_eq, if◌then◌else◌}
use im_providers_service.Prelude.Io.{Io, return, fail, follow, ◌>>=◌}
use im_providers_service.Prelude.Failure.{
  Failure, Result, ok, err, status, internal, not_found, plain, wrap,
}
use im_providers_service.Whatsapp.Client.{
  Http, RequestClient, new_api_request, execute, request_multipart, request_media_download,
}

-- How the answers are read: `url` of a medium's metadata, `success` of a deletion, `id` of an upload.
pub record Decoder : Type 0 where
  pub media_url : String → Result String
  pub success : String → Result Bool
  pub id : String → Result String

-- A multipart form of the field `messaging_product` and the file: its content type and its text.
abbrev pub Multipart : Type 0
Multipart = String → String → String → String × String

module _ {W : Type 0} (http : Http W) (decoder : Decoder) where
  abbrev pub replaced : {A : Type 0} → Failure → Result A × W → Result A × W
  replaced e (ok a, w) = (ok a, w)
  replaced e (err cause, w) = (err e, w)

  abbrev pub found_url : Result String → Io W String
  found_url (err e) = fail (status internal "unmarshaling get media url by id response")
  found_url (ok url) =
      if url == "" then fail (status not_found "no media url found in response") else return url

  unfoldable pub get_media_url_by_id : RequestClient → String → Io W String
  get_media_url_by_id client id w =
      follow
        (replaced (plain "executing get media url by id request")
          (execute http (new_api_request client id "GET") w))
        (λ raw. found_url (decoder.media_url raw))

  abbrev deleted : Result Bool → Io W Bool
  deleted (err e) = fail (status internal "unmarshaling raw to delete success response")
  deleted (ok false) = fail (plain "media deletion")
  deleted (ok true) = return true

  pub delete_media : RequestClient → String → Io W Bool
  delete_media client id w =
      follow
        (replaced (plain "executing delete media request")
          (execute http (new_api_request client (String.◌++◌ "media/" id) "DELETE") w))
        (λ raw. deleted (decoder.success raw))

  abbrev uploaded : Result String → Io W String
  uploaded (err e) = fail (status internal "unmarshaling upload media result")
  uploaded (ok id) = if id == "" then fail (plain "no media id in response") else return id

  pub upload_media : Multipart → RequestClient → String → String → String → String → Io W String
  upload_media multipart client file phone_number_id filename mime_type =
      let form = multipart filename mime_type file in
      request_multipart http client "POST" (String.◌++◌ phone_number_id "/media") form.0 form.1
      >>= λ raw. uploaded (decoder.id raw)

  -- DownloadMediaByURL
  unfoldable pub download_media_by_url : RequestClient → String → Io W (Result String × String)
  download_media_by_url client url = request_media_download http client url

  abbrev rewrapped : {A : Type 0} → Result A × W → Result A × W
  rewrapped (r, w) = (wrap "whatsapp.media.manager.download_media" r, w)

  pub download_media : RequestClient → String → Io W (Result String × String)
  download_media client id w =
      follow (rewrapped (get_media_url_by_id client id w))
        (λ url w1. rewrapped (download_media_by_url client url w1))
