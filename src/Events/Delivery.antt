-- ===== src/Events/Delivery.antt =====
-- What a subscriber of services/backend/src/events/stream-event-bus.ts is sent: its replay, then the
-- live events, each at most once and in order.
use nexus_os_ai_workspace.Base.{
  ℕ, ◌≤◌, ◌<◌, ◌≡◌, refl, ap, ◌∙◌, Bool, true, false, Option, none, some, List, [], ◌∷◌, ◌++◌,
  arith, Bool-cases, inl, inr, ◌⊎◌, if◌then◌else◌, All, All-mono, All-append,
}
use nexus_os_ai_workspace.Events.Envelope.{StreamEvent}
use nexus_os_ai_workspace.Events.Buffer.{last_sequence}
use nexus_os_ai_workspace.Events.Bus.{
  Subscriber, Delivery, replay, matches_workspace, listen, has_reached,
}
use nexus_os_ai_workspace.Events.Subscriptions.{
  SubscriptionOptions, deliver_replay, replay_horizon, run_replay,
}
use nexus_os_ai_workspace.Events.Suffix.{Rising, UpTo}

-- Past a sequence number that need not be there.
abbrev Past : Option ℕ → ℕ → Type 0
Past none n = Unit
Past (some m) n = m < n

module _ {ℓ} {P : Type ℓ} where
  abbrev pub sent : List (Delivery P) → List (StreamEvent P)
  sent [] = []
  sent (d ∷ ds) = d.1 ∷ sent ds

  -- What `dispatchToSubscribers` hands to one subscriber as events come in, whichever they are.
  unfoldable pub feed : Subscriber → List (StreamEvent P) → List (Delivery P)
  unfolding matches_workspace listen
  feed sub [] = []
  feed sub (e ∷ es) =
      let (sub', d) = listen true sub e in
      let heard = feed sub' es in
      let unheard = feed sub es in if matches_workspace sub e then d ++ heard else unheard

  abbrev New : Subscriber → StreamEvent P → Type 0
  New sub e =
      Past sub.last_delivered_seq e.sequence_number
      × Past sub.max_evaluated_replay_seq e.sequence_number

  sent-append : (xs ys : List (Delivery P)) → sent (xs ++ ys) ≡ sent xs ++ sent ys
  sent-append [] ys = refl
  sent-append (x ∷ xs) ys = ap (λ l. x.1 ∷ l) (sent-append xs ys)

  abbrev after : Subscriber → StreamEvent P → Subscriber
  after sub e = record sub { last_delivered_seq = some e.sequence_number }

  listen-cases :
      (sub : Subscriber) (e : StreamEvent P)
      → (listen true sub e ≡ (sub, []))
        ⊎ ((listen true sub e ≡ (after sub e, (sub.id, e) ∷ [])) × New sub e)
  unfolding listen
  listen-cases sub e =
      elim (Bool-cases (has_reached e.sequence_number sub.max_evaluated_replay_seq)) [
        | inl old ↦ inl (ground (arith, old))
        | inr far ↦ elim (Bool-cases (has_reached e.sequence_number sub.last_delivered_seq)) [
          | inl old ↦ inl (ground (arith, far, old))
          | inr new ↦ inr (
            ground (arith, far, new),
            (past sub.last_delivered_seq new, past sub.max_evaluated_replay_seq far),
          )
        ]
      ]
    where
      past : (m : Option ℕ) → has_reached e.sequence_number m ≡ false → Past m e.sequence_number
      past none f = tt
      past (some m) f = ground arith

  New-trans :
      (sub : Subscriber) (e : StreamEvent P) (xs : List (StreamEvent P))
      → New sub e
      → All (New (after sub e)) xs
      → All (New sub) xs
  New-trans sub e xs h =
      All-mono (New (after sub e)) (New sub) xs
        (λ f k. (further sub.last_delivered_seq f h.0 k.0, k.1))
    where
      further :
          (m : Option ℕ) (f : StreamEvent P)
          → Past m e.sequence_number
          → e.sequence_number < f.sequence_number
          → Past m f.sequence_number
      further none f p lt = tt
      further (some m) f p lt = omega arith

  feed-New :
      (sub : Subscriber) (es : List (StreamEvent P))
      → All (New sub) (sent (feed sub es)) × Rising (sent (feed sub es))
  unfolding feed
  feed-New sub [] = (tt, tt)
  feed-New sub (e ∷ es) = elim (Bool-cases (matches_workspace sub e)) [
    | inr other ↦ rw (other, feed) (feed-New sub es)
    | inl own ↦ elim (listen-cases sub e) [
      | inl old ↦ rw (own, feed, old) (feed-New sub es)
      | inr (heard, new) ↦
          let (past, rising) = feed-New (after sub e) es in
          rw (own, feed, heard)
            (
              (new, New-trans sub e (sent (feed (after sub e) es)) new past),
              (
                All-mono (New (after sub e)) (λ f. e.sequence_number < f.sequence_number)
                    (sent (feed (after sub e) es)) (λ f k. k.0) past,
                rising,
              ),
            )
    ]
  ]

  Rising-append :
      (h : ℕ) (xs ys : List (StreamEvent P))
      → Rising xs
      → UpTo h xs
      → Rising ys
      → All (λ e. h < e.sequence_number) ys
      → Rising (xs ++ ys)
  Rising-append h [] ys rx ux ry ay = ry
  Rising-append h (x ∷ xs) ys rx ux ry ay = (
    All-append (λ f. x.sequence_number < f.sequence_number) xs ys rx.0
        (All-mono (λ e. h < e.sequence_number) (λ f. x.sequence_number < f.sequence_number) ys
          (λ f k. omega arith) ay),
    Rising-append h xs ys rx.1 ux.1 ry ay,
  )

  deliver-All :
      (Q : StreamEvent P → Type 0) (throws_on : StreamEvent P → Bool) (sub : Subscriber)
      (es : List (StreamEvent P))
      → All Q es
      → All Q (sent (deliver_replay throws_on sub es).1)
  unfolding deliver_replay
  deliver-All Q throws_on sub [] a = tt
  deliver-All Q throws_on sub (e ∷ es) a = ground (
    arith,
    deliver-All Q throws_on sub es a.1,
    deliver-All Q throws_on (record sub { last_delivered_seq = some e.sequence_number }) es a.1,
  )

  deliver-Rising :
      (throws_on : StreamEvent P → Bool) (sub : Subscriber) (es : List (StreamEvent P))
      → Rising es
      → Rising (sent (deliver_replay throws_on sub es).1)
  unfolding deliver_replay
  deliver-Rising throws_on sub [] r = tt
  deliver-Rising throws_on sub (e ∷ es) r =
      let sub' = record sub { last_delivered_seq = some e.sequence_number } in
      ground (
        arith,
        deliver-Rising throws_on sub es r.1,
        deliver-Rising throws_on sub' es r.1,
        deliver-All (λ f. e.sequence_number < f.sequence_number) throws_on sub' es r.0,
      )

  horizon-deliver :
      (throws_on : StreamEvent P → Bool) (sub : Subscriber) (es : List (StreamEvent P))
      → (deliver_replay throws_on sub es).0.max_evaluated_replay_seq ≡ sub.max_evaluated_replay_seq
  unfolding deliver_replay
  horizon-deliver throws_on sub [] = refl
  horizon-deliver throws_on sub (e ∷ es) = ground (
    arith,
    horizon-deliver throws_on sub es,
    horizon-deliver throws_on (record sub { last_delivered_seq = some e.sequence_number }) es,
  )

  UpTo-last :
      (e : StreamEvent P) (es : List (StreamEvent P))
      → Rising (e ∷ es)
      → (h : ℕ) × (last_sequence (e ∷ es) ≡ some h) × UpTo h (e ∷ es)
  unfolding last_sequence
  UpTo-last e [] r = (e.sequence_number, refl, (omega arith, tt))
  UpTo-last e (f ∷ es) r =
      let (h, last, up) = UpTo-last f es r.1 in (h, last, (omega (arith, r.0.0, up.0), up))

  -- From a replay of rising numbers on, a new subscriber is sent events of strictly rising numbers,
  -- so none twice and none out of order, whatever events come in afterwards, in whichever order.
  pub replay_then_live-Rising :
      (options : SubscriptionOptions P) (sub : Subscriber) (events live : List (StreamEvent P))
      → Rising events
      → let (sub', ds, _) = run_replay options sub (replay events) in
        Rising (sent (ds ++ feed sub' live))
  unfolding run_replay replay_horizon
  replay_then_live-Rising options sub [] live r =
      (feed-New (record sub { max_evaluated_replay_seq = replay_horizon {P = P} options.cursor [] })
        live).1
  replay_then_live-Rising options sub (e ∷ es) live r =
      let throws = options.listener.throws_on in
      let (h, last, up) = UpTo-last e es r in
      let start = record sub { max_evaluated_replay_seq = last_sequence (e ∷ es) } in
      let (end, ds, _) = deliver_replay throws start (e ∷ es) in
      let (past, rising) = feed-New end live in
      let horizon = horizon-deliver throws start (e ∷ es) ∙ last in
      rw (sent-append ds (feed end live)) (
        Rising-append h (sent ds) (sent (feed end live)) (deliver-Rising throws start (e ∷ es) r)
          (deliver-All (λ f. f.sequence_number ≤ h) throws start (e ∷ es) up) rising
          (All-mono (New end) (λ f. h < f.sequence_number) (sent (feed end live))
            (λ f k. rw horizon at k.1) past))
