-- ===== src/Pubsub/Tests.antt =====
-- A broker that refuses as many dials as its world counts, and a manager that loses it.
use im_providers_service.Prelude.{ℕ, zero, suc, refl, true, some, [], ◌∷◌, ◌≡◌, ◌↔◌}
use im_providers_service.Prelude.Failure.{ok, err, plain}
use im_providers_service.Prelude.Io.{Io, return}
use im_providers_service.Pubsub.{Amqp, connect, new_channel}
use im_providers_service.Pubsub.Loop.{
  still_open, closed, close_signal, Manager, registering, watching, dialing, panicked, blocked,
  try_connect, One, System, Reach, here, next, start, turn, newest, older, first_dial, go_reconnect,
  register, channel_lost, connection_lost, redial, mark, unblock, elsewhere,
}
use im_providers_service.Pubsub.Recovery.{Turns, watching_again, attempted, lost-Recovers}

abbrev dial_test : Io ℕ ℕ
dial_test zero = (ok 5, 0)
dial_test (suc n) = (err (plain "refused"), n)

abbrev broker : Amqp ℕ
broker = record {
  new_random = return "id";
  dial = λ address. dial_test;
  open_channel = λ conn. return 7;
  qos = λ ch count all. return tt;
  notify_publish = λ ch w. (9, w);
  confirm = λ ch. return tt;
  publish_with_context = λ ch exchange key message. return tt;
  receive = λ stream w. (some true, w);
  close_channel = λ ch. return tt;
  exchange_declare = λ ch name kind flags. return tt;
  queue_declare = λ ch name flags args. return tt;
  queue_bind = λ ch queue key exchange args. return tt;
}

abbrev up : Manager ℕ
up = record {
  address = "amqp://";
  conn = some 5;
  channel =
      some (record { uuid = "id"; connection = 5; channel = some 7; confirm_publish = some 9 });
  connected = true;
  close = still_open;
  wait_connection = closed;
  on_connect = (λ ch. return tt) ∷ [];
}

-- A manager whose loop dials.
abbrev lost : Manager ℕ
lost = blocked (blocked up)

abbrev back : Manager ℕ
back = record lost { connected = true; wait_connection = closed }

lost-Recovers_example :
    Turns broker 6 ((dialing, lost), 2) ((watching true true, back), 0)
    ↔ ◌≡◌ {A = One ℕ}
        ((watching true true, back), 0)
        (watching_again broker (attempted broker 2 (lost, 2)))
unfolding try_connect new_channel connect
lost-Recovers_example =
    lost-Recovers broker 2 lost 2 ((watching true true, back), 0) refl refl (tt, (tt, refl))

-- Start is called while the loop dials: there are then two loops, and when the broker is lost once more,
-- both close what holds the subscribers back, and the second one panics.
second_start :
    (t : System ℕ) × Reach broker ((dialing ∷ [], lost), 0) t
    × (t.0.0 ≡ registering ∷ panicked ∷ [])
unfolding try_connect new_channel connect close_signal
second_start =
    let two : Reach broker ((dialing ∷ [], lost), 0)
        ((watching true true ∷ watching true true ∷ [], back), 0) =
      next
        (next
          (next
            (next
              (next
                (next
                  (next (next (next here (start refl)) (turn (newest first_dial)))
                    (turn (newest go_reconnect)))
                  (turn (newest register)))
                (turn (older (newest redial))))
              (turn (older (newest mark))))
            (turn (older (newest unblock))))
          (turn (older (newest register))))
        elsewhere in
    let gone : Reach broker ((dialing ∷ [], lost), 0) ((dialing ∷ dialing ∷ [], lost), 0) =
      next
        (next (next (next two (turn (newest channel_lost))) (turn (newest connection_lost)))
          (turn (older (newest channel_lost))))
        (turn (older (newest connection_lost))) in
    (
      _,
      next
          (next
            (next
              (next (next (next gone (turn (newest redial))) (turn (newest mark)))
                (turn (newest unblock)))
              (turn (older (newest redial))))
            (turn (older (newest mark))))
          (turn (older (newest unblock))),
      refl,
    )
