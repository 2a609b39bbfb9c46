-- ===== src/Pubsub/Loop.antt =====
-- The manager of internal/core/pubsub/pubsub.go. Its reconnect goroutines, the calls of `Start` and
-- `Shutdown` and the broker interleave: a step is what runs between two points at which another can.
use im_providers_service.Prelude.{
  String, ℕ, ◌≡◌, Bool, true, false, Option, none, some, List, [], ◌∷◌, ◌++◌,
}
use im_providers_service.Prelude.Failure.{Result, ok, err}
use im_providers_service.Prelude.Io.{Io}
use im_providers_service.Pubsub.{Amqp, Channel, new_channel}

-- A Go channel that nothing is sent on: it is open until `close`.
pub data Signal : Type 0 where
  still_open closed : Signal

-- close(ch), which panics on a closed channel
unfoldable pub close_signal : Signal → Option Signal
close_signal still_open = some closed
close_signal closed = none

pub record Manager (W : Type 0) : Type 0 where
  pub address : String
  pub conn : Option ℕ
  pub channel : Option Channel
  pub connected : Bool
  pub close : Signal
  pub wait_connection : Signal
  pub on_connect : List (Channel → Io W (Unit {0}))

-- Where a goroutine stands, in `Start` or in the `reconnect` that it leaves behind.
pub data Phase : Type 0 where
  -- returned
  ended : Phase
  -- Start: before its tryConnect, and after it
  starting started : Phase
  -- reconnect: before the calls of NotifyClose
  registering : Phase
  -- in the inner loop; whether notifyClose and chanNotifyClose are not nil
  watching : Bool → Bool → Phase
  -- reconnect: before tryConnect, after it, and before close(m.waitConnection)
  dialing dialed unblocking : Phase
  panicked : Phase

-- what Start does to m.close
abbrev pub renew : Signal → Signal
renew closed = still_open
renew still_open = still_open

-- m.Channel().channel.NotifyClose, after m.conn.NotifyClose: both are calls of a method of what a
-- pointer may not point at.
abbrev pub watched : Option ℕ → Phase
watched none = panicked
watched (some ch) = watching true true

abbrev pub register_channel : Option Channel → Phase
register_channel none = panicked
register_channel (some r) = watched r.channel

abbrev pub registered : Option ℕ → Option Channel → Phase
registered none ch = panicked
registered (some conn) ch = register_channel ch

-- The test of the inner loop.
abbrev pub looped : Bool → Bool → Phase
looped false false = dialing
looped conn ch = watching conn ch

-- One goroutine with the manager and the world, and all of them, the newest first.
abbrev pub One : Type 0 → Type 0
One W = (Phase × Manager W) × W

abbrev pub System : Type 0 → Type 0
System W = (List Phase × Manager W) × W

module _ {W : Type 0} where
  abbrev pub subscribe : List (Channel → Io W (Unit {0})) → Channel → W → W
  subscribe [] ch w = w
  subscribe (f ∷ fs) ch w = subscribe fs ch (f ch w).1

  -- Manager.AddOnConnect
  unfoldable pub add_on_connect : (Channel → Io W (Unit {0})) → Manager W → Manager W
  add_on_connect f m = record m { on_connect = m.on_connect ++ (f ∷ []) }

  abbrev pub reopened : Manager W → Manager W
  reopened m = record m { close = renew m.close }

  abbrev pub marked : Manager W → Manager W
  marked m = record m { connected = true }

  -- what either notification does
  abbrev pub blocked : Manager W → Manager W
  blocked m = record m { connected = false; wait_connection = still_open }

  abbrev pub close_once : Signal → Manager W → Manager W
  close_once closed m = m
  close_once still_open m = record m { close = closed; connected = false }

  -- Manager.closeConn
  unfoldable pub close_conn : Manager W → Manager W
  close_conn m = close_once m.close m

  abbrev pub unblocked : Option Signal → Manager W → Phase × Manager W
  unblocked none m = (panicked, m)
  unblocked (some signal) m = (registering, record m { wait_connection = signal })

  abbrev pub first : Result (Unit {0}) × (Manager W × W) → One W
  first (err e, (m, w)) = ((ended, m), w)
  first (ok _, (m, w)) = ((started, m), w)

  abbrev pub again : Result (Unit {0}) × (Manager W × W) → One W
  again (err e, (m, w)) = ((dialing, m), w)
  again (ok _, (m, w)) = ((dialed, m), w)

  module _ (amqp : Amqp W) where
    abbrev pub opened : Manager W → Result Channel × W → Result (Unit {0}) × (Manager W × W)
    opened m (err e, w) = (err e, (record m { channel = none }, w))
    opened m (ok ch, w) = (ok tt, (record m { channel = some ch }, subscribe m.on_connect ch w))

    abbrev pub dialled : Manager W → Result ℕ × W → Result (Unit {0}) × (Manager W × W)
    dialled m (err e, w) = (err e, (record m { conn = none }, w))
    dialled m (ok c, w) = opened (record m { conn = some c }) (new_channel amqp c 0 false true w)

    unfoldable pub try_connect : Io (Manager W × W) (Unit {0})
    try_connect (m, w) = dialled m (amqp.dial m.address w)

    abbrev pub created : Result (Unit {0}) × (Manager W × W) → Result (Manager W) × W
    created (err e, (m, w)) = (err e, w)
    created (ok _, (m, w)) = (ok (record m { wait_connection = closed }), w)

    unfoldable pub new : String → Io W (Manager W)
    new address w = created (
        try_connect (
          record {
            address = address;
            conn = none;
            channel = none;
            connected = false;
            close = still_open;
            wait_connection = still_open;
            on_connect = [];
          },
          w,
        ))

    -- A turn of one goroutine: of a call of Start, or of the loop that it leaves behind.
    pub data Turn : One W → One W → Type 0 where
      first_dial : {m : Manager W} {w : W} → Turn ((starting, m), w) (first (try_connect (m, w)))
      go_reconnect : {m : Manager W} {w : W} → Turn ((started, m), w) ((registering, marked m), w)
      register :
          {m : Manager W} {w : W} → Turn ((registering, m), w) ((registered m.conn m.channel, m), w)
      channel_lost :
          {conn : Bool} {m : Manager W} {w : W}
          → Turn ((watching conn true, m), w) ((looped conn false, blocked m), w)
      connection_lost :
          {ch : Bool} {m : Manager W} {w : W}
          → Turn ((watching true ch, m), w) ((looped false ch, blocked m), w)
      closed_seen :
          {conn ch : Bool} {m : Manager W} {w : W}
          → m.close ≡ closed
          → Turn ((watching conn ch, m), w) ((ended, m), w)
      redial : {m : Manager W} {w : W} → Turn ((dialing, m), w) (again (try_connect (m, w)))
      mark : {m : Manager W} {w : W} → Turn ((dialed, m), w) ((unblocking, marked m), w)
      unblock :
          {m : Manager W} {w : W}
          → Turn ((unblocking, m), w) (unblocked (close_signal m.wait_connection) m, w)

    -- A turn of any one of the goroutines.
    pub data Move : System W → System W → Type 0 where
      newest :
          {p : Phase} {ps : List Phase} {m : Manager W} {w : W} {t : One W}
          → Turn ((p, m), w) t
          → Move ((p ∷ ps, m), w) ((t.0.0 ∷ ps, t.0.1), t.1)
      older :
          {p : Phase} {ps : List Phase} {m : Manager W} {w : W} {t : System W}
          → Move ((ps, m), w) t
          → Move ((p ∷ ps, m), w) ((p ∷ t.0.0, t.0.1), t.1)

    -- The steps. `Start` looks at nothing but `connected`, so that it starts a second loop while the
    -- first one dials.
    pub data Step : System W → System W → Type 0 where
      start_connected :
          {ps : List Phase} {m : Manager W} {w : W}
          → m.connected ≡ true
          → Step ((ps, m), w) ((ps, m), w)
      start :
          {ps : List Phase} {m : Manager W} {w : W}
          → m.connected ≡ false
          → Step ((ps, m), w) ((starting ∷ ps, reopened m), w)
      turn : {s t : System W} → Move s t → Step s t
      -- closeConn, which Shutdown calls twice, from two goroutines
      shut : {ps : List Phase} {m : Manager W} {w : W} → Step ((ps, m), w) ((ps, close_conn m), w)
      -- what happens elsewhere
      elsewhere : {s : List Phase × Manager W} {w w' : W} → Step (s, w) (s, w')

    pub data Reach (s : System W) : System W → Type 0 where
      here : Reach s s
      next : {t u : System W} → Reach s t → Step t u → Reach s u
