-- ===== src/Events/Stands.antt =====
-- What the head and the replay buffer of a tenant stand for: the log of the events published to it
-- by the bus of services/backend/src/events/stream-event-bus.ts.
use nexus_os_ai_workspace.Base.{
  ℕ, ◌+◌, ◌≤◌, ◌≡◌, ap, ◌∙◌, sym, subst, String, false, List, [], ◌∷◌, ◌++◌, length, All-append,
  All-mono, arith, Bool-cases, if◌then◌else◌, inl, inr, ◌==◌, eq_iff, eq_refl, get-put, append-nil,
}
use nexus_os_ai_workspace.Events.Envelope.{StreamEvent}
use nexus_os_ai_workspace.Events.Buffer.{ReplayBuffer}
use nexus_os_ai_workspace.Events.Bus.{
  EventBus, published, latest_sequence, buffer_of, set_buffer, set_sequence,
}
use nexus_os_ai_workspace.Events.Calls.{logged}
use nexus_os_ai_workspace.Events.Suffix.{
  Suffix, here, Suffix-trans, Suffix-snoc, Rising, Rising-snoc, UpTo,
}

module _ {ℓ} {P : Type ℓ} where
  -- A head and a buffer stand for a log: its numbers rise up to the head, and the buffer holds its
  -- last events, no more than the capacity.
  pub record Stands (head : ℕ) (b : ReplayBuffer P) (capacity : ℕ) (log : List (StreamEvent P))
      : Type ℓ where
    pub up_to : UpTo head log
    pub rising : Rising log
    pub suffix : Suffix b.events log
    pub sized : length b.events ≤ capacity
    pub capacity_kept : b.max_buffer_size ≡ capacity

  abbrev pub Rep : String → EventBus P → List (StreamEvent P) → Type ℓ
  Rep tenant bus log =
      Stands (latest_sequence bus tenant) (buffer_of bus tenant) bus.max_replay_buffer_capacity log

  pub UpTo-mono : (m n : ℕ) (log : List (StreamEvent P)) → m ≤ n → UpTo m log → UpTo n log
  UpTo-mono m n log h =
      All-mono (λ e. e.sequence_number ≤ m) (λ e. e.sequence_number ≤ n) log (λ e k. omega arith)

  length-Suffix : {xs ys : List (StreamEvent P)} → Suffix xs ys → length xs ≤ length ys
  length-Suffix here = omega arith
  length-Suffix (Suffix.there y s) = omega (arith, length-Suffix s)

  -- A buffer that lost its first events stands for the same log.
  Stands-shrink :
      (head : ℕ) (b b' : ReplayBuffer P) (capacity : ℕ) (log : List (StreamEvent P))
      → Suffix b'.events b.events
      → b'.max_buffer_size ≡ b.max_buffer_size
      → Stands head b capacity log
      → Stands head b' capacity log
  Stands-shrink head b b' capacity log s same h = record {
    up_to = h.up_to;
    rising = h.rising;
    suffix = Suffix-trans s h.suffix;
    sized = omega (arith, length-Suffix s, h.sized);
    capacity_kept = same ∙ h.capacity_kept;
  }

  Stands-grow :
      (head : ℕ) (b b' : ReplayBuffer P) (capacity : ℕ) (log : List (StreamEvent P))
      (e : StreamEvent P)
      → Suffix b'.events (b.events ++ e ∷ [])
      → length b'.events ≤ capacity
      → b'.max_buffer_size ≡ b.max_buffer_size
      → e.sequence_number ≡ head + 1
      → Stands head b capacity log
      → Stands ((head + 1)) b' capacity (log ++ e ∷ [])
  Stands-grow head b b' capacity log e s sized same next h = record {
    up_to =
        All-append (λ f. f.sequence_number ≤ head + 1) log (e ∷ [])
          (UpTo-mono head ((head + 1)) log (omega arith) h.up_to) (omega (arith, next), tt);
    rising = Rising-snoc e head log h.rising h.up_to (omega (arith, next));
    suffix = Suffix-trans s (Suffix-snoc e h.suffix);
    sized = sized;
    capacity_kept = same ∙ h.capacity_kept;
  }

  buffer_of-set_buffer :
      (tenant t : String) (b : ReplayBuffer P) (bus : EventBus P)
      → buffer_of (set_buffer t b bus) tenant ≡ (if t == tenant then b else buffer_of bus tenant)
  buffer_of-set_buffer tenant t b bus = ground (arith, get-put t tenant b bus.replay_buffers)

  latest-set_sequence :
      (tenant t : String) (n : ℕ) (bus : EventBus P)
      → latest_sequence (set_sequence t n bus) tenant
        ≡ (if t == tenant then n else latest_sequence bus tenant)
  latest-set_sequence tenant t n bus = ground (arith, get-put t tenant n bus.tenant_sequences)

  -- A buffer of one tenant that lost its first events, seen from any tenant.
  pub Rep-set_buffer :
      (tenant t : String) (b : ReplayBuffer P) (bus : EventBus P) (log : List (StreamEvent P))
      → Suffix b.events (buffer_of bus t).events
      → b.max_buffer_size ≡ (buffer_of bus t).max_buffer_size
      → Rep tenant bus log
      → Rep tenant (set_buffer t b bus) log
  Rep-set_buffer tenant t b bus log s same h = elim (Bool-cases (t == tenant)) [
    | inl own ↦
        let e : t ≡ tenant = (eq_iff t tenant).0 own in
        rw (buffer_of-set_buffer tenant t b bus, own)
          (Stands-shrink (latest_sequence bus tenant) (buffer_of bus tenant) b
            bus.max_replay_buffer_capacity log
            (subst (λ k. Suffix b.events (buffer_of bus k).events) e s)
            (same ∙ ap (λ k. (buffer_of bus k).max_buffer_size) e) h)
    | inr other ↦ rw (buffer_of-set_buffer tenant t b bus, other) h
  ]

  -- At the tenant itself or at another.
  by_tenant :
      (tenant t : String) (bus after : EventBus P) (log : List (StreamEvent P))
      (log' : String → List (StreamEvent P))
      → (Rep t bus log → Rep t after (log' t))
      → (t == tenant ≡ false → Rep tenant bus log → Rep tenant after (log' tenant))
      → Rep tenant bus log
      → Rep tenant after (log' tenant)
  by_tenant tenant t bus after log log' own other h = elim (Bool-cases (t == tenant)) [
    | inl same ↦
        let e : t ≡ tenant = (eq_iff t tenant).0 same in
        subst (λ k. Rep k after (log' k)) e (own (subst (λ k. Rep k bus log) (sym e) h))
    | inr differs ↦ other differs h
  ]

  -- A number taken without an event.
  pub Rep-set_sequence :
      (tenant t : String) (bus : EventBus P) (log : List (StreamEvent P))
      → Rep tenant bus log
      → Rep tenant (set_sequence t (latest_sequence bus t + 1) bus) log
  Rep-set_sequence tenant t bus log =
      let n = latest_sequence bus t + 1 in
      by_tenant tenant t bus (set_sequence t n bus) log (λ k. log)
        (λ h.
          rw (latest-set_sequence t t n bus, eq_refl t)
            record {
              up_to = UpTo-mono (latest_sequence bus t) n log (omega arith) h.up_to;
              rising = h.rising;
              suffix = h.suffix;
              sized = h.sized;
              capacity_kept = h.capacity_kept;
            })
        (λ differs h. rw (latest-set_sequence tenant t n bus, differs) h)

  -- An event, stored in the buffer of its tenant and taken into the log.
  pub Rep-store :
      (tenant : String) (b : ReplayBuffer P) (e : StreamEvent P) (bus : EventBus P)
      (log : List (StreamEvent P))
      → let t = e.tenant_id in
        Suffix b.events ((buffer_of bus t).events ++ e ∷ [])
        → length b.events ≤ (buffer_of bus t).max_buffer_size
        → b.max_buffer_size ≡ (buffer_of bus t).max_buffer_size
        → e.sequence_number ≡ latest_sequence bus t + 1
        → Rep tenant bus log
        → Rep tenant
            (set_buffer t b (set_sequence t (latest_sequence bus t + 1) bus))
            (log ++ logged tenant (published e))
  Rep-store tenant b e bus log s sized same next =
      let t = e.tenant_id in
      let n = latest_sequence bus t + 1 in
      let counted = set_sequence t n bus in
      by_tenant tenant t bus (set_buffer t b counted) log (λ k. log ++ logged k (published e))
        (λ h.
          rw (latest-set_sequence t t n bus, buffer_of-set_buffer t t b counted, eq_refl t)
            (Stands-grow (latest_sequence bus t) (buffer_of bus t) b bus.max_replay_buffer_capacity
              log e s (omega (arith, h.capacity_kept)) same next h))
        (λ differs h.
          rw
            (
              latest-set_sequence tenant t n bus,
              buffer_of-set_buffer tenant t b counted,
              differs,
              append-nil log,
            )
            h)
