-- ===== src/Facebook/Media.antt =====
-- internal/facebook/media.go: the attachments of a message. Logging is left out.
use Prim.Native.String
use im_providers_service.Prelude.{String, ℕ, ◌||◌, List, [], ◌∷◌, ◌==◌, string_eq, if◌then◌else◌}
use im_providers_service.Prelude.Int.{ℤ, pos, is_nonpos}
use im_providers_service.Prelude.Text.{decimal}
use im_providers_service.Prelude.Io.{Io, return, ◌>>=◌}
use im_providers_service.Prelude.Failure.{Result, ok, err, plain}
use im_providers_service.Core.Message.{SendImageRequest, SendDocumentRequest}
use im_providers_service.Facebook.Model.{Attachment, FacebookGate}
use im_providers_service.Facebook.Services.{Download, Services, PeerPair, logged}

abbrev extension : String → String
extension type =
    if type == "image"
    then ".jpg"
    else if type == "video"
    then ".mp4"
    else if type == "audio"
    then ".mp3"
    else ".bin"

-- `attachmentFileName`, at a time in seconds.
unfoldable pub attachment_file_name : ℕ → Attachment → String
attachment_file_name now attach =
    if attach.payload.title == ""
    then (if attach.payload.name == ""
        then String.◌++◌ "fb_" (
            String.◌++◌ attach.type
              (String.◌++◌ "_" (String.◌++◌ (decimal now) (extension attach.type))))
        else attach.payload.name)
    else attach.payload.title

pub record SyncedMedia : Type 0 where
  pub id : String
  pub mime_type : String
  pub size : ℤ

abbrev pub check_status : {W : Type 0} → Download → Io W Download
check_status d w = if d.is_ok then (ok d, w) else (err (plain "fb download: status"), w)

abbrev at_least_one : ℤ → ℤ
at_least_one size = if is_nonpos size then pos 1 else size

abbrev pub image_request : FacebookGate → PeerPair → String → SyncedMedia → SendImageRequest
image_request gate peers name media = record {
  domain_id = gate.domain_id;
  from = peers.from;
  to = peers.to;
  body = "";
  images =
      record {
        id = media.id;
        file_name = name;
        mime_type = media.mime_type;
        url = "";
        size = pos 0;
      }
      ∷ [];
}

abbrev pub document_request : FacebookGate → PeerPair → String → SyncedMedia → SendDocumentRequest
document_request gate peers name media = record {
  domain_id = gate.domain_id;
  from = peers.from;
  to = peers.to;
  body = "";
  documents =
      record {
        id = media.id;
        file_name = name;
        mime_type = media.mime_type;
        url = "";
        size = at_least_one media.size;
      }
      ∷ [];
}

module _ {W : Type 0} (api : Services W) where
  unfoldable pub download_and_upload : FacebookGate → String → String → Io W SyncedMedia
  download_and_upload gate fb_url file_name =
      (api.download fb_url gate.page_token >>= check_status) >>= λ d.
      api.upload_file
        (record { domain_id = gate.domain_id; name = file_name; mime_type = d.content_type }) d.body
      >>= λ id. return (record { id = id; mime_type = d.content_type; size = d.content_length })

  -- The switch on the attachment's type, with the media uploaded.
  unfoldable pub send_media :
      FacebookGate → PeerPair → String → String → SyncedMedia → Io W (Unit {0})
  send_media gate peers type name media w =
      if type == "image"
      then logged (api.send_image (image_request gate peers name media) w)
      else if type == "video" || type == "audio" || type == "file"
      then logged (api.send_document (document_request gate peers name media) w)
      else (ok tt, w)

  abbrev pub synced :
      FacebookGate → PeerPair → String → String → Result SyncedMedia × W → Result (Unit {0}) × W
  synced gate peers type name (err e, w) = (ok tt, w)
  synced gate peers type name (ok media, w) = send_media gate peers type name media w

  -- One round of `handleAttachments`.
  unfoldable pub handle_attachment : FacebookGate → PeerPair → Attachment → Io W (Unit {0})
  handle_attachment gate peers attach w =
      let name = attachment_file_name (api.now w) attach in
      if attach.payload.url == ""
      then (ok tt, w)
      else synced gate peers attach.type name (download_and_upload gate attach.payload.url name w)

  unfoldable pub handle_attachments : FacebookGate → PeerPair → List Attachment → Io W (Unit {0})
  handle_attachments gate peers [] w = (ok tt, w)
  handle_attachments gate peers (a ∷ attachments) w =
      handle_attachments gate peers attachments (handle_attachment gate peers a w).1
