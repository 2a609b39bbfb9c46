-- ===== src/Pubsub/Safety.antt =====
-- The states that the manager of internal/core/pubsub/pubsub.go can come to.
use im_providers_service.Prelude.{
  ℕ, ◌≡◌, refl, Bool, true, false, some, List, [], ◌∷◌, ◌⊎◌, inl, inr,
}
use im_providers_service.Prelude.Failure.{Result, ok, err}
use im_providers_service.Prelude.Io.{Io, follow}
use im_providers_service.Pubsub.{Amqp, Channel, connect, new_channel}
use im_providers_service.Pubsub.Loop.{
  still_open, close_signal, Manager, Phase, ended, starting, started, registering, watching,
  dialing, dialed, unblocking, panicked, register_channel, registered, looped, blocked, unblocked,
  opened, dialled, try_connect, One, System, first, again, Turn, first_dial, go_reconnect, register,
  channel_lost, connection_lost, closed_seen, redial, mark, unblock, Step, start_connected, start,
  turn, shut, elsewhere, Reach, here, next,
}

untrue : {b : Bool} {P : Type 0} → b ≡ false → b ≡ true → P
untrue e f = absurd (cc (e, f))

abbrev pub AllEnded : List Phase → Type 0
AllEnded [] = Unit
AllEnded (p ∷ ps) = (p ≡ ended) × AllEnded ps

module _ {W : Type 0} where
  -- The last tryConnect has left a connection, and a channel on it.
  abbrev pub IsUp : Manager W → Type 0
  IsUp m = registered m.conn m.channel ≡ watching true true

  -- A channel made by newChannel, when it is made at all.
  abbrev Opens : Result Channel × W → Type 0
  Opens (err e, w) = Unit
  Opens (ok r, w) = register_channel (some r) ≡ watching true true

  -- What each phase may rely on.
  abbrev pub At : Phase → Manager W → Type 0
  At ended m = Unit
  At starting m = m.connected ≡ false
  At started m = IsUp m
  At registering m = IsUp m
  At (watching conn ch) m =
      ((conn ≡ true) × (ch ≡ true)) ⊎ ((m.connected ≡ false) × (m.wait_connection ≡ still_open))
  At dialing m = (m.connected ≡ false) × (m.wait_connection ≡ still_open)
  At dialed m = IsUp m × (m.wait_connection ≡ still_open)
  At unblocking m = IsUp m × (m.wait_connection ≡ still_open)
  At panicked m = ⊥

  -- A manager and a goroutine that is safe with it.
  abbrev pub IsSafe : Phase × Manager W → Type 0
  IsSafe (p, m) = (m.connected ≡ true → IsUp m) × At p m

  -- At most one goroutine has not ended, and that one is safe.
  abbrev pub Sole : List Phase → Manager W → Type 0
  Sole [] m = Unit
  Sole (p ∷ ps) m = ((p ≡ ended) × Sole ps m) ⊎ (At p m × AllEnded ps)

  abbrev pub AllSafe : List Phase × Manager W → Type 0
  AllSafe (ps, m) = (m.connected ≡ true → IsUp m) × Sole ps m

  follow-Opens :
      {A : Type 0} (r : Result A × W) (f : A → Io W Channel)
      → ((a : A) (w : W) → Opens (f a w))
      → Opens (follow r f)
  follow-Opens (err e, w) f h = tt
  follow-Opens (ok a, w) f h = h a w

  module _ (amqp : Amqp W) where
    new_channel-Opens : (conn : ℕ) (w : W) → Opens (new_channel amqp conn 0 false true w)
    unfolding new_channel connect
    new_channel-Opens conn w = follow-Opens (amqp.new_random w) _ λ id w1.
        follow-Opens (amqp.open_channel conn w1) _ λ ch w2.
          follow-Opens (amqp.qos ch 0 false w2) _
            λ _ w3. follow-Opens (amqp.confirm ch (amqp.notify_publish ch w3).1) _ λ _ w4. refl

    opened-Up :
        (m : Manager W) (conn : ℕ) (r : Result Channel × W)
        → m.conn ≡ some conn
        → m.connected ≡ false
        → Opens r
        → IsSafe (first (opened amqp m r)).0
          × (m.wait_connection ≡ still_open → IsSafe (again (opened amqp m r)).0)
    opened-Up m conn (err e, w) c off up = ((untrue off, tt), λ waits. (untrue off, (off, waits)))
    opened-Up m conn (ok ch, w) c off up =
        ((λ _. is_up, is_up), λ waits. (λ _. is_up, (is_up, waits)))
      where
        is_up : registered m.conn (some ch) ≡ watching true true
        is_up = rw c up

    -- A dial, in `Start` and in the loop.
    dialled-IsSafe :
        (m : Manager W) (r : Result ℕ × W)
        → m.connected ≡ false
        → IsSafe (first (dialled amqp m r)).0
          × (m.wait_connection ≡ still_open → IsSafe (again (dialled amqp m r)).0)
    dialled-IsSafe m (err e, w) off = ((untrue off, tt), λ waits. (untrue off, (off, waits)))
    dialled-IsSafe m (ok conn, w) off =
        opened-Up (record m { conn = some conn }) conn (new_channel amqp conn 0 false true w) refl
          off (new_channel-Opens conn w)

    looped-At :
        (conn ch : Bool) (m : Manager W)
        → (m.connected ≡ false) × (m.wait_connection ≡ still_open)
        → At (looped conn ch) m
    looped-At false false m h = h
    looped-At false true m h = inr h
    looped-At true ch m h = inr h

    unblocked-IsSafe :
        (m : Manager W)
        → IsSafe (unblocking, m)
        → IsSafe (unblocked (close_signal m.wait_connection) m)
    unfolding close_signal
    unblocked-IsSafe m h = rw h.1.1 (λ _. h.1.0, h.1.0)

    -- Whatever a safe goroutine does next, it has not panicked, and the manager says that it is
    -- connected only while it has a connection and a channel.
    pub Turn-IsSafe : {s t : One W} → Turn amqp s t → IsSafe s.0 → IsSafe t.0
    unfolding try_connect
    Turn-IsSafe (first_dial {m} {w}) h = (dialled-IsSafe m (amqp.dial m.address w) h.1).0
    Turn-IsSafe go_reconnect h = (λ _. h.1, h.1)
    Turn-IsSafe (register {m} {w}) h = (h.0, rw h.1 (inl (refl, refl)))
    Turn-IsSafe (channel_lost {conn} {m} {w}) h =
        (untrue refl, looped-At conn false (blocked m) (refl, refl))
    Turn-IsSafe (connection_lost {ch} {m} {w}) h =
        (untrue refl, looped-At false ch (blocked m) (refl, refl))
    Turn-IsSafe (closed_seen e) h = (h.0, tt)
    Turn-IsSafe (redial {m} {w}) h = (dialled-IsSafe m (amqp.dial m.address w) h.1.0).1 h.1.1
    Turn-IsSafe mark h = (λ _. h.1.0, h.1)
    Turn-IsSafe (unblock {m} {w}) h = unblocked-IsSafe m h

    -- Start is called when it returns at once, or when what earlier calls of it left has ended.
    abbrev pub IsOrderly : {s t : System W} → Step amqp s t → Type 0
    IsOrderly (start_connected on) = Unit
    IsOrderly (start {ps} off) = AllEnded ps
    IsOrderly (turn st) = Unit
    IsOrderly shut = Unit
    IsOrderly elsewhere = Unit

    abbrev pub AllOrderly : {s t : System W} → Reach amqp s t → Type 0
    AllOrderly here = Unit
    AllOrderly (next r st) = AllOrderly r × IsOrderly st
