-- ===== src/Pubsub.antt =====
-- The client of the message broker: internal/core/pubsub/pubsub.go and channel.go. The amqp library
-- and the uuid library are the parameter `amqp`; connections, channels and streams of confirmations
-- are numbers that it gives out, and `W` is its world, the broker's included.
pub mod Loop
pub mod Safety
pub mod Recovery
pub mod Tests
use im_providers_service.Prelude.{String, ℕ, Bool, true, false, Option, none, some, List, [], ◌∷◌}
use im_providers_service.Prelude.Failure.{Result, ok, err, plain}
use im_providers_service.Prelude.Io.{Io, return, fail, follow, ◌>>=◌, ◌>>◌}

-- amqp.Publishing, the fields that are set
pub record Publishing : Type 0 where
  pub content_type : String
  pub body : String

-- MQExchangeType
pub data ExchangeType : Type 0 where
  fanout topic direct : ExchangeType

pub record Exchange : Type 0 where
  pub name : String
  pub kind : ExchangeType
  pub durable : Bool

-- the flags of a declaration
pub record Flags : Type 0 where
  pub durable : Bool
  pub auto_delete : Bool
  pub exclusive : Bool
  pub internal : Bool
  pub no_wait : Bool

abbrev pub Headers : Type 0
Headers = List (String × String)

pub record Amqp (W : Type 0) : Type 0 where
  pub new_random : Io W String
  pub dial : String → Io W ℕ
  pub open_channel : ℕ → Io W ℕ
  pub qos : ℕ → ℕ → Bool → Io W (Unit {0})
  pub notify_publish : ℕ → W → ℕ × W
  pub confirm : ℕ → Io W (Unit {0})
  pub publish_with_context : ℕ → String → String → Publishing → Io W (Unit {0})
  -- a receive from a stream of confirmations: `none` once it is closed, else whether it is an ack
  pub receive : ℕ → W → Option Bool × W
  pub close_channel : ℕ → Io W (Unit {0})
  pub exchange_declare : ℕ → String → ExchangeType → Flags → Io W (Unit {0})
  pub queue_declare : ℕ → String → Flags → Headers → Io W (Unit {0})
  pub queue_bind : ℕ → String → String → String → Headers → Io W (Unit {0})

pub record Channel : Type 0 where
  pub uuid : String
  pub connection : ℕ
  pub channel : Option ℕ
  pub confirm_publish : Option ℕ

module _ {W : Type 0} (amqp : Amqp W) where
  abbrev with_confirmations : Channel → ℕ → ℕ × W → Result Channel × W
  with_confirmations r ch (stream, w) =
      (amqp.confirm ch >> return (record r { confirm_publish = some stream })) w

  abbrev confirming : Bool → Channel → ℕ → Io W Channel
  confirming true r ch w = with_confirmations r ch (amqp.notify_publish ch w)
  confirming false r ch w = return r w

  -- Channel.Connect
  unfoldable pub connect : Channel → ℕ → Bool → Bool → Io W Channel
  connect r prefetch_count prefetch_global confirm_publish =
      amqp.open_channel r.connection >>= λ ch.
      amqp.qos ch prefetch_count prefetch_global
      >> confirming confirm_publish (record r { channel = some ch }) ch

  unfoldable pub new_channel : ℕ → ℕ → Bool → Bool → Io W Channel
  new_channel conn prefetch_count prefetch_global confirm_publish = amqp.new_random >>= λ id.
      connect (record { uuid = id; connection = conn; channel = none; confirm_publish = none })
        prefetch_count prefetch_global confirm_publish

  close_if_open : Option ℕ → Io W (Unit {0})
  close_if_open none = fail (plain "channel is nil")
  close_if_open (some ch) = amqp.close_channel ch

  pub close : Channel → Io W (Unit {0})
  close r = close_if_open r.channel

  abbrev confirmed : Option Bool × W → Result (Unit {0}) × W
  confirmed (none, w) =
      (err (plain "channel closed before could receive confirmation of publish"), w)
  confirmed (some false, w) =
      (err (plain "could not publish message, received nack from broker on confirmation"), w)
  confirmed (some true, w) = (ok tt, w)

  abbrev await_confirmation : Option ℕ → Io W (Unit {0})
  await_confirmation none w = return tt w
  await_confirmation (some stream) w = confirmed (amqp.receive stream w)

  -- what Publish does once it has read its receiver
  abbrev publish_on : Option ℕ → Option ℕ → String → String → String → Io W (Unit {0})
  publish_on none confirmations exchange key body = fail (plain "channel is nil")
  publish_on (some ch) confirmations exchange key body =
      amqp.publish_with_context ch exchange key (record { content_type = "text/json"; body = body })
      >> await_confirmation confirmations

  unfoldable pub publish : Channel → String → String → String → Io W (Unit {0})
  publish r exchange key body = publish_on r.channel r.confirm_publish exchange key body

  abbrev declare_exchange : ℕ → Exchange → Io W (Unit {0})
  declare_exchange ch ex = amqp.exchange_declare ch ex.name ex.kind (record {
    durable = ex.durable;
    auto_delete = false;
    exclusive = false;
    internal = false;
    no_wait = false;
  })

  abbrev declare_durable_exchange : ℕ → Exchange → Io W (Unit {0})
  declare_durable_exchange ch ex = amqp.exchange_declare ch ex.name ex.kind (record {
    durable = true;
    auto_delete = false;
    exclusive = false;
    internal = false;
    no_wait = false;
  })

  abbrev declare_queue : ℕ → String → Headers → Io W (Unit {0})
  declare_queue ch queue args =
      amqp.queue_declare ch queue
        (record {
          durable = false;
          auto_delete = true;
          exclusive = false;
          internal = false;
          no_wait = false;
        })
        args

  abbrev declare_durable_queue : ℕ → String → Headers → Io W (Unit {0})
  declare_durable_queue ch queue args =
      amqp.queue_declare ch queue
        (record {
          durable = true;
          auto_delete = false;
          exclusive = false;
          internal = false;
          no_wait = false;
        })
        args

  abbrev declare_reply_queue : ℕ → String → Io W (Unit {0})
  declare_reply_queue ch queue =
      amqp.queue_declare ch queue
        (record {
          durable = false;
          auto_delete = true;
          exclusive = true;
          internal = false;
          no_wait = false;
        })
        []

  abbrev bind_queue : ℕ → String → String → String → Headers → Io W (Unit {0})
  bind_queue ch queue key exchange args = amqp.queue_bind ch queue key exchange args
