-- ===== src/Core/Media/Tests.antt =====
-- An upload in two chunks, for the theorem on streams.
use im_providers_service.Prelude.{ℕ, ◌≡◌, refl, none, List, [], ◌∷◌, ◌++◌}
use im_providers_service.Prelude.Int.{pos}
use im_providers_service.Prelude.Failure.{ok}
use im_providers_service.Core.Media.{Storage, Round, more, eof, stream_data}
use im_providers_service.Core.Media.Stream.{Accepts, reading, stream_data-reading}

-- A storage that keeps all bytes it receives.
abbrev memory : Storage (List ℕ)
memory = record {
  open_stream = λ w. (ok tt, w);
  send_metadata = λ m w. (ok tt, w);
  send_chunk = λ c w. (ok tt, w ++ c);
  close_and_recv = λ w.
      (ok (record { file_id = "1"; file_url = ""; size = pos 0; code = 0; malware = none }), w);
}

memory-Accepts : Accepts memory (λ w. w)
memory-Accepts c w = (refl, refl)

abbrev rounds : List Round
rounds =
    record { canceled = none; bytes = 1 ∷ 2 ∷ []; ending = more }
    ∷ record { canceled = none; bytes = []; ending = more }
    ∷ record { canceled = none; bytes = 3 ∷ []; ending = eof }
    ∷ []

stream_data-reading_example :
    ((stream_data memory rounds []).0 ≡ ok tt) × ((stream_data memory rounds []).1 ≡ 1 ∷ 2 ∷ 3 ∷ [])
unfolding reading
stream_data-reading_example = stream_data-reading memory (λ w. w) memory-Accepts rounds []
