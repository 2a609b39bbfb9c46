-- ===== src/Core/Media.antt =====
-- internal/core/service/media.go: the upload of a file to the storage service, in chunks. The pool of
-- buffers is left out; a buffer bounds what one read gives.
pub mod Stream
mod Tests
use im_providers_service.Prelude.{
  String, ℕ, ◌≡◌, Bool, true, false, Option, none, some, List, [], ◌∷◌, if◌then◌else◌,
}
use im_providers_service.Prelude.Int.{ℤ}
use im_providers_service.Prelude.Io.{Io, ◌>>=◌, follow}
use im_providers_service.Prelude.Failure.{
  Failure, Result, ok, err, wrapped, wrap, status, invalid_argument, internal, aborted,
}

-- `sharedmodel.UploadRequest`, which the metadata carry on.
pub record Metadata : Type 0 where
  pub domain_id : ℤ
  pub name : String
  pub mime_type : String

-- `pbstorage.UploadFileResponse`
pub record UploadFileResponse : Type 0 where
  pub file_id : String
  pub file_url : String
  pub size : ℤ
  pub code : ℕ
  pub malware : Option Bool

pub record UploadResponse : Type 0 where
  pub id : String
  pub url : String
  pub size : ℤ
  pub response_status_code : ℕ
  pub malware : Bool

-- The storage client and its stream.
pub record Storage (W : Type 0) : Type 0 where
  pub open_stream : Io W (Unit {0})
  pub send_metadata : Metadata → Io W (Unit {0})
  pub send_chunk : List ℕ → Io W (Unit {0})
  pub close_and_recv : Io W UploadFileResponse

-- How a read ends: with no error, at the end of the file, with another error.
pub data Ending : Type 0 where
  more eof : Ending
  broken : Failure → Ending

-- One round of the loop: is the context done by then, and what the read gives. A reader that gives
-- no further rounds is at its end.
pub record Round : Type 0 where
  pub canceled : Option Failure
  pub bytes : List ℕ
  pub ending : Ending

module _ {W : Type 0} (storage : Storage W) where
  -- An empty chunk is not sent.
  abbrev pub send_bytes : List ℕ → Io W (Unit {0})
  send_bytes [] w = (ok tt, w)
  send_bytes (b ∷ bytes) w =
      let (r, w') = storage.send_chunk (b ∷ bytes) w in (wrap "media.service.stream_data" r, w')

  abbrev pub after_round : Ending → Io W (Unit {0}) → Io W (Unit {0})
  after_round more rest w = rest w
  after_round eof rest w = (ok tt, w)
  after_round (broken e) rest w = (err (wrapped "reader error" (status internal "reader error")), w)

  abbrev pub unless_canceled : Option Failure → Io W (Unit {0}) → Io W (Unit {0})
  unless_canceled (some e) m w = (err (status aborted "upload canceled"), w)
  unless_canceled none m w = m w

  -- `streamData`
  unfoldable pub stream_data : List Round → Io W (Unit {0})
  stream_data [] w = (ok tt, w)
  stream_data (r ∷ rounds) w =
      unless_canceled r.canceled
        (λ w1. follow (send_bytes r.bytes w1) (λ _. after_round r.ending (stream_data rounds))) w

  abbrev to_response : UploadFileResponse → UploadResponse
  to_response res = record {
    id = res.file_id;
    url = res.file_url;
    size = res.size;
    response_status_code = res.code;
    malware = elim res.malware [ none ↦ false | some is_found ↦ is_found ];
  }

  abbrev failing : {A : Type 0} → (Failure → Failure) → Io W A → Io W A
  failing f m w = let (r, w') = m w in (elim r [ ok a ↦ ok a | err e ↦ err (f e) ], w')

  -- `UploadFile`; the body is `nil` or a reader.
  unfoldable pub upload_file : Metadata → Option (List Round) → Io W UploadResponse
  upload_file req none w = (err (status invalid_argument "body reader is nil"), w)
  upload_file req (some rounds) w =
      (failing (λ e. status internal "failed to open storage stream") storage.open_stream >>= λ _.
      failing (wrapped "media.service.upload_file") (storage.send_metadata req) >>= λ _.
      stream_data rounds >>= λ _.
      failing (wrapped "media.service.upload_file") storage.close_and_recv >>= λ res w'.
      (ok (to_response res), w'))
        w
