-- ===== src/Events/Suffix.antt =====
-- What the replay buffer of services/backend/src/events/stream-event-bus.ts keeps of the events
-- pushed into it: the last ones, in order.
use nexus_os_ai_workspace.Base.{
  ℕ, ◌≤◌, ◌<◌, ◌≡◌, refl, ap, sym, subst, String, Option, some, List, [], ◌∷◌, ◌++◌, length, filter,
  All, All-append, length-append, arith, Option-cases, Bool-cases, ltb, inl, inr,
}
use nexus_os_ai_workspace.Events.Envelope.{StreamEvent}
use nexus_os_ai_workspace.Events.Buffer.{
  ReplayBuffer, newer_than, make_room, drop_stale, prune, push, is_stale,
}

module _ {ℓ} {P : Type ℓ} where
  -- The second list ends with the first.
  pub data Suffix (xs : List (StreamEvent P)) : List (StreamEvent P) → Type ℓ where
    here : Suffix xs xs
    there : (y : StreamEvent P) {ys : List (StreamEvent P)} → Suffix xs ys → Suffix xs (y ∷ ys)

  -- The sequence numbers rise.
  abbrev pub Rising : List (StreamEvent P) → Type 0
  Rising [] = Unit
  Rising (e ∷ es) = All (λ f. e.sequence_number < f.sequence_number) es × Rising es

  -- No sequence number lies past the given one.
  abbrev pub UpTo : ℕ → List (StreamEvent P) → Type 0
  UpTo n = All (λ e. e.sequence_number ≤ n)

  pub Suffix-trans : {xs ys zs : List (StreamEvent P)} → Suffix xs ys → Suffix ys zs → Suffix xs zs
  Suffix-trans s here = s
  Suffix-trans s (there y t) = there y (Suffix-trans s t)

  pub Suffix-snoc :
      (e : StreamEvent P) {xs ys : List (StreamEvent P)}
      → Suffix xs ys
      → Suffix (xs ++ e ∷ []) (ys ++ e ∷ [])
  Suffix-snoc e here = here
  Suffix-snoc e (there y s) = there y (Suffix-snoc e s)

  pub Rising-snoc :
      (e : StreamEvent P) (n : ℕ) (xs : List (StreamEvent P))
      → Rising xs
      → UpTo n xs
      → n < e.sequence_number
      → Rising (xs ++ e ∷ [])
  Rising-snoc e n [] r u h = (tt, tt)
  Rising-snoc e n (x ∷ xs) r u h = (
    All-append (λ f. x.sequence_number < f.sequence_number) xs (e ∷ []) r.0 (omega arith, tt),
    Rising-snoc e n xs r.1 u.1 h,
  )

  -- Nothing is newer than the head.
  pub filter-UpTo : (n : ℕ) (xs : List (StreamEvent P)) → UpTo n xs → filter (newer_than n) xs ≡ []
  filter-UpTo n [] u = refl
  filter-UpTo n (x ∷ xs) u = ground (arith, filter-UpTo n xs u.1)

  first-in-rest :
      (x e : StreamEvent P) {es ys : List (StreamEvent P)}
      → Suffix (e ∷ es) ys
      → All (λ f. x.sequence_number < f.sequence_number) ys
      → x.sequence_number < e.sequence_number
  first-in-rest x e here a = a.0
  first-in-rest x e (there y s) a = first-in-rest x e s a.1

  -- From a number that the suffix has reached, the suffix has all that is newer.
  pub filter-Suffix :
      (n : ℕ) (e : StreamEvent P) {es log : List (StreamEvent P)}
      → Suffix (e ∷ es) log
      → Rising log
      → e.sequence_number ≤ n
      → filter (newer_than n) (e ∷ es) ≡ filter (newer_than n) log
  filter-Suffix n e here r le = refl
  filter-Suffix n e (there x s) r le =
      ground (arith, filter-Suffix n e s r.1 le, first-in-rest x e s r.0)

  Suffix-make_room :
      (capacity : ℕ) (xs kept : List (StreamEvent P))
      → make_room capacity xs ≡ some kept
      → Suffix kept xs × (length kept < capacity)
  unfolding make_room
  Suffix-make_room capacity [] [] h = (here, ground arith)
  Suffix-make_room capacity [] (k ∷ kept) h = ground arith
  Suffix-make_room capacity (x ∷ xs) kept h = elim (Bool-cases (ltb (length (x ∷ xs)) capacity)) [
    | inl fits ↦
        let same : x ∷ xs ≡ kept = ground arith in
        (subst (λ k. Suffix k (x ∷ xs)) same here, ground arith)
    | inr full ↦ let (s, lt) = Suffix-make_room capacity xs kept (ground arith) in (there x s, lt)
  ]

  Suffix-drop_stale :
      (date_ms : String → Option ℕ) (age now : ℕ) (xs : List (StreamEvent P))
      → Suffix (drop_stale date_ms age now xs) xs
  unfolding drop_stale
  Suffix-drop_stale date_ms age now [] = here
  Suffix-drop_stale date_ms age now (x ∷ xs) =
      elim (Bool-cases (is_stale age now (date_ms x.occurred_at))) [
        | inl stale ↦ rw stale (there x (Suffix-drop_stale date_ms age now xs))
        | inr fresh ↦ rw fresh here
      ]

  -- Pruning keeps a suffix, and so does a push, which ends with the new event; the buffer never
  -- exceeds its capacity.
  pub Suffix-prune :
      (date_ms : String → Option ℕ) (b : ReplayBuffer P) (now : ℕ)
      → Suffix (prune date_ms b now).events b.events
  unfolding prune
  Suffix-prune date_ms b now = Suffix-drop_stale date_ms b.max_age_ms now b.events

  pub Suffix-push :
      (date_ms : String → Option ℕ) (b b' : ReplayBuffer P) (e : StreamEvent P) (now : ℕ)
      → push date_ms b e now ≡ some b'
      → Suffix b'.events (b.events ++ e ∷ [])
        × (length b'.events ≤ b.max_buffer_size)
        × (b'.max_buffer_size ≡ b.max_buffer_size)
  unfolding push prune
  Suffix-push date_ms b b' e now h =
      let pruned = prune date_ms b now in
      elim (Option-cases (make_room pruned.max_buffer_size pruned.events)) [
        | inl full ↦ ground arith
        | inr (kept, room) ↦
            let (s, lt) = Suffix-make_room pruned.max_buffer_size pruned.events kept room in
            let same : record pruned { events = kept ++ e ∷ [] } ≡ b' = ground arith in
            let events = ap (λ c. c.events) same in
            (
              subst (λ l. Suffix l (b.events ++ e ∷ [])) events
                  (Suffix-snoc e (Suffix-trans s (Suffix-prune date_ms b now))),
              ground (arith, ap length (sym events), length-append kept (e ∷ [])),
              ap (λ c. c.max_buffer_size) (sym same),
            )
      ]
