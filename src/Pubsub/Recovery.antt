-- ===== src/Pubsub/Recovery.antt =====
-- What the loop of `reconnect` in internal/core/pubsub/pubsub.go comes to after the broker was lost.
use im_providers_service.Prelude.{ℕ, zero, suc, ◌≡◌, refl, ap, subst, sym, ◌∙◌, ◌↔◌, true, false}
use im_providers_service.Prelude.Failure.{Result, ok, err}
use im_providers_service.Pubsub.{Amqp}
use im_providers_service.Pubsub.Loop.{
  still_open, closed, close_signal, Manager, registering, registered, unblocking, watching, dialing,
  dialed, marked, unblocked, try_connect, One, again, Turn, redial, mark, unblock, register,
}
use im_providers_service.Pubsub.Safety.{IsUp, IsSafe, Turn-IsSafe}

abbrev Refused : Result (Unit {0}) → Type 0
Refused (err e) = Unit
Refused (ok _) = ⊥

module _ {W : Type 0} (amqp : Amqp W) where
  -- So many turns of one goroutine, with nothing between them.
  pub data Turns : ℕ → One W → One W → Type 0 where
    done : {s : One W} → Turns zero s s
    also : {k : ℕ} {s t u : One W} → Turn amqp s t → Turns k t u → Turns (suc k) s u

  -- The broker refuses `n` attempts and takes the next one.
  abbrev pub Answers : ℕ → Manager W × W → Type 0
  Answers zero s = (try_connect amqp s).0 ≡ ok tt
  Answers (suc n) s = Refused (try_connect amqp s).0 × Answers n (try_connect amqp s).1

  -- What `n` attempts and one more leave.
  abbrev pub attempted : ℕ → Manager W × W → Manager W × W
  attempted zero s = (try_connect amqp s).1
  attempted (suc n) s = attempted n (try_connect amqp s).1

  -- The loop watches a connection, says so and has let its subscribers go on.
  abbrev pub watching_again : Manager W × W → One W
  watching_again s =
      ((watching true true, record s.0 { connected = true; wait_connection = closed }), s.1)

  -- The first turn of several, where there is only one that the loop can take.
  rest_of :
      {k : ℕ} {s u : One W} (t : One W)
      → ((v : One W) → Turn amqp s v → v ≡ t)
      → Turns (suc k) s u
      → Turns k t u
  rest_of {k} {s} {u} t only (also {t = v} st rest) = subst (λ v. Turns k v u) (only v st) rest

  no_more : {s u : One W} → Turns zero s u → u ≡ s
  no_more done = refl

  only_redial :
      (m : Manager W) (w : W) (v : One W)
      → Turn amqp ((dialing, m), w) v
      → v ≡ again (try_connect amqp (m, w))
  only_redial m w v redial = refl

  only_mark :
      (m : Manager W) (w : W) (v : One W)
      → Turn amqp ((dialed, m), w) v
      → v ≡ ((unblocking, marked m), w)
  only_mark m w v mark = refl

  unblocks :
      (m : Manager W) (w : W)
      → m.wait_connection ≡ still_open
      → ◌≡◌ {A = One W}
          (unblocked (close_signal m.wait_connection) m, w)
          ((registering, record m { wait_connection = closed }), w)
  unfolding close_signal
  unblocks m w free = ap (λ s. (unblocked (close_signal s) m, w)) free

  only_unblock :
      (m : Manager W) (w : W) (v : One W)
      → m.wait_connection ≡ still_open
      → Turn amqp ((unblocking, m), w) v
      → v ≡ ((registering, record m { wait_connection = closed }), w)
  only_unblock m w v free unblock = unblocks m w free

  registers :
      (m : Manager W) (w : W)
      → IsUp m
      → ◌≡◌ {A = One W} ((registered m.conn m.channel, m), w) ((watching true true, m), w)
  registers m w up = ap (λ p. ((p, m), w)) up

  only_register :
      (m : Manager W) (w : W) (v : One W)
      → IsUp m
      → Turn amqp ((registering, m), w) v
      → v ≡ ((watching true true, m), w)
  only_register m w v up register = registers m w up

  turned : {k : ℕ} {s t u v : One W} → Turn amqp s t → t ≡ v → Turns k v u → Turns (suc k) s u
  turned {k} {s} {t} {u} {v} st e rest = also st (subst (λ x. Turns k x u) (sym e) rest)

  -- The three turns after a dial that the broker takes.
  dialed-Turns :
      (m : Manager W) (w : W)
      → IsSafe (dialed, m)
      → Turns 3 ((dialed, m), w) (watching_again (m, w))
  dialed-Turns m w h = turned mark refl (
      turned unblock (unblocks (marked m) w h.1.1)
        (turned register (registers (record (marked m) { wait_connection = closed }) w h.1.0) done))

  only_dialed :
      (m : Manager W) (w : W) (u : One W)
      → IsSafe (dialed, m)
      → Turns 3 ((dialed, m), w) u
      → u ≡ watching_again (m, w)
  only_dialed m w u h turns =
      let up = record (marked m) { wait_connection = closed } in
      no_more (
        rest_of ((watching true true, up), w) (λ v. only_register up w v h.1.0)
          (rest_of ((registering, up), w) (λ v. only_unblock (marked m) w v h.1.1)
            (rest_of ((unblocking, marked m), w) (only_mark m w) turns)))

  -- An attempt that succeeds, and one that does not.
  taken :
      (r : Result (Unit {0}) × (Manager W × W)) → r.0 ≡ ok tt → again r ≡ ((dialed, r.1.0), r.1.1)
  taken (ok _, s) h = refl
  taken (err e, s) h = absurd (cc h)

  refused :
      (r : Result (Unit {0}) × (Manager W × W)) → Refused r.0 → again r ≡ ((dialing, r.1.0), r.1.1)
  refused (err e, s) h = refl
  refused (ok _, s) h = absurd h

  -- The loop dials, its subscribers are held back, and it does not say that it is connected.
  abbrev pub IsLost : Manager W → Type 0
  IsLost m = IsSafe (dialing, m)

  IsSafe-after : (m : Manager W) (w : W) → IsLost m → IsSafe (again (try_connect amqp (m, w))).0
  IsSafe-after m w h = Turn-IsSafe amqp {s = ((dialing, m), w)} redial h

  lost-Turns :
      (n : ℕ) (m : Manager W) (w : W)
      → IsLost m
      → Answers n (m, w)
      → Turns (suc (suc (suc (suc n)))) ((dialing, m), w) (watching_again (attempted n (m, w)))
  lost-Turns zero m w lost h =
      let s = (try_connect amqp (m, w)).1 in
      let e = taken (try_connect amqp (m, w)) h in
      turned redial e (dialed-Turns s.0 s.1 (subst (λ t. IsSafe t.0) e (IsSafe-after m w lost)))
  lost-Turns (suc n) m w lost h =
      let s = (try_connect amqp (m, w)).1 in
      let e = refused (try_connect amqp (m, w)) h.0 in
      turned redial e (lost-Turns n s.0 s.1 (subst (λ t. IsSafe t.0) e (IsSafe-after m w lost)) h.1)

  only_lost :
      (n : ℕ) (m : Manager W) (w : W) (u : One W)
      → IsLost m
      → Answers n (m, w)
      → Turns (suc (suc (suc (suc n)))) ((dialing, m), w) u
      → u ≡ watching_again (attempted n (m, w))
  only_lost zero m w u lost h turns =
      let s = (try_connect amqp (m, w)).1 in
      let e = taken (try_connect amqp (m, w)) h in
      only_dialed s.0 s.1 u (subst (λ t. IsSafe t.0) e (IsSafe-after m w lost))
        (rest_of ((dialed, s.0), s.1) (λ v st. only_redial m w v st ∙ e) turns)
  only_lost (suc n) m w u lost h turns =
      let s = (try_connect amqp (m, w)).1 in
      let e = refused (try_connect amqp (m, w)) h.0 in
      only_lost n s.0 s.1 u (subst (λ t. IsSafe t.0) e (IsSafe-after m w lost)) h.1
        (rest_of ((dialing, s.0), s.1) (λ v st. only_redial m w v st ∙ e) turns)

  -- When the loop dials, does not say that it is connected and holds its subscribers back, and the broker
  -- takes a connection after refusing `n` of them: `n + 4` turns of the loop with nothing between them
  -- lead to one place and to no other, where it watches both notices of what the last attempt has
  -- left, says that it is connected, and what held back the subscribers is closed.
  pub lost-Recovers :
      (n : ℕ) (m : Manager W) (w : W) (u : One W)
      → m.connected ≡ false
      → m.wait_connection ≡ still_open
      → Answers n (m, w)
      → Turns (suc (suc (suc (suc n)))) ((dialing, m), w) u
        ↔ (u ≡ watching_again (attempted n (m, w)))
  lost-Recovers n m w u off held h =
      let lost : IsLost m = (λ on. absurd (cc (on, off)), (off, held)) in
      (
        only_lost n m w u lost h,
        λ e.
            subst (Turns (suc (suc (suc (suc n)))) ((dialing, m), w)) (sym e)
              (lost-Turns n m w lost h),
      )
