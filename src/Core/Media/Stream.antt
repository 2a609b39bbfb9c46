-- ===== src/Core/Media/Stream.antt =====
-- What reaches the storage.
use im_providers_service.Prelude.{
  ℕ, ◌≡◌, refl, sym, ap, ◌∙◌, Option, none, some, List, [], ◌∷◌, ◌++◌,
}
use mathlib.Core.List.{append_assoc, append-nil}
use im_providers_service.Prelude.Io.{Io, follow}
use im_providers_service.Prelude.Failure.{
  Failure, Result, ok, err, wrapped, wrap, status, internal, aborted,
}
use im_providers_service.Core.Media.{
  Storage, Ending, more, eof, broken, Round, send_bytes, after_round, unless_canceled, stream_data,
}

-- The reader's run by itself: how it ends, and all it gives until then.
abbrev ended : List ℕ → Ending → Result (Unit {0}) × List ℕ → Result (Unit {0}) × List ℕ
ended bytes more (r, rest) = (r, bytes ++ rest)
ended bytes eof rest = (ok tt, bytes)
ended bytes (broken e) rest = (err (wrapped "reader error" (status internal "reader error")), bytes)

abbrev started : Option Failure → Result (Unit {0}) × List ℕ → Result (Unit {0}) × List ℕ
started (some e) run = (err (status aborted "upload canceled"), [])
started none run = run

unfoldable pub reading : List Round → Result (Unit {0}) × List ℕ
reading [] = (ok tt, [])
reading (r ∷ rounds) = started r.canceled (ended r.bytes r.ending (reading rounds))

module _ {W : Type 0} (storage : Storage W) (received : W → List ℕ) where
  -- A storage that takes every chunk, and appends it to what it has received.
  abbrev pub Accepts : Type 0
  Accepts =
      (c : List ℕ) (w : W)
      → ((storage.send_chunk c w).0 ≡ ok tt)
        × (received (storage.send_chunk c w).1 ≡ received w ++ c)

  -- What a run has to have done from `w`, given the reader's own.
  abbrev Stores : W → Result (Unit {0}) × List ℕ → Result (Unit {0}) × W → Type 0
  Stores w run r = (r.0 ≡ run.0) × (received r.1 ≡ received w ++ run.1)

  Stores-send :
      Accepts → (bytes : List ℕ) (w : W) → Stores w (ok tt, bytes) (send_bytes storage bytes w)
  Stores-send accepts [] w = (refl, sym (append-nil (received w)))
  Stores-send accepts (b ∷ bytes) w =
      let (sent, got) = accepts (b ∷ bytes) w in (ap (wrap "media.service.stream_data") sent, got)

  Stores-round :
      Accepts
      → (r : Round) (run : Result (Unit {0}) × List ℕ) (rest : Io W (Unit {0})) (w : W)
      → ((w' : W) → Stores w' run (rest w'))
      → Stores w (started r.canceled (ended r.bytes r.ending run)) (
          unless_canceled storage r.canceled
            (λ w1. follow (send_bytes storage r.bytes w1) (λ _. after_round storage r.ending rest))
            w)
  Stores-round accepts r run rest w stores = begun r.canceled
    where
      continued :
          (e : Ending) (bytes : List ℕ) (w' : W)
          → received w' ≡ received w ++ bytes
          → Stores w (ended bytes e run) (after_round storage e rest w')
      continued more bytes w' q =
          let (same, got) = stores w' in
          (same, got ∙ ap (λ l. l ++ run.1) q ∙ append_assoc (received w) bytes run.1)
      continued eof bytes w' q = (refl, q)
      continued (broken e) bytes w' q = (refl, q)

      sent :
          (s : Result (Unit {0}) × W)
          → Stores w (ok tt, r.bytes) s
          → Stores w
              (ended r.bytes r.ending run)
              (follow s (λ _. after_round storage r.ending rest))
      sent (ok t, w') (q, got) = continued r.ending r.bytes w' got
      sent (err e, w') (q, got) = absurd (cc q)

      begun :
          (c : Option Failure)
          → Stores w (started c (ended r.bytes r.ending run)) (
              unless_canceled storage c
                (λ w1.
                  follow (send_bytes storage r.bytes w1) (λ _. after_round storage r.ending rest))
                w)
      begun none = sent (send_bytes storage r.bytes w) (Stores-send accepts r.bytes w)
      begun (some e) = (refl, sym (append-nil (received w)))

  -- With a storage that takes every chunk, an upload's loop ends as the reader's run does, and what was
  -- received is exactly what the reader gave until then, in order: all of the file if it ended well.
  pub stream_data-reading :
      Accepts
      → (rounds : List Round) (w : W) → Stores w (reading rounds) (stream_data storage rounds w)
  unfolding stream_data reading
  stream_data-reading accepts [] w = (refl, sym (append-nil (received w)))
  stream_data-reading accepts (r ∷ rounds) w =
      Stores-round accepts r (reading rounds) (stream_data storage rounds) w
        (stream_data-reading accepts rounds)
