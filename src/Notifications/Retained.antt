-- ===== src/Notifications/Retained.antt =====
-- What the notification queue of apps/desktop-agent/src/notifications/notification-queue.ts keeps.
use mathlib.Core.List.{Memᴰ}
use mathlib.Core.List.Memᴰ
use nexus_os_ai_workspace.Base.{
  ℕ, suc, ◌+◌, ◌≤◌, ◌≡◌, refl, ap, String, Bool, true, false, not, ◌&&◌, Option, List, [], ◌∷◌,
  ◌++◌, find, inl, inr, Bool-cases, ◌⊎◌, ◌<◌, leb, eq_iff, nonempty, same_text, some, none, length,
  filter, any, remove_first, length-append, length-filter-le, arith,
}
use nexus_os_ai_workspace.Notifications.{
  NotificationItem, NotificationQueue, NotificationPriority, critical, high, normal, low,
  priority_weight, has_key, is_past, is_minor, rejected, Writes, hard_capacity, persist_queue,
  has_expired, purge_expired, is_twin, replace_first, can_coalesce, push_item, enqueue_at_capacity,
  enqueue_live, enqueue,
}

-- An expiry that is not given, is empty, lies ahead or is no date.
abbrev pub Ahead : Option ℕ → ℕ → Type 0
Ahead none now = Unit
Ahead (some t) now = now < t

abbrev pub Current : (String → Option ℕ) → ℕ → Option String → Type 0
Current date_ms now none = Unit
Current date_ms now (some text) = (text ≡ "") ⊎ Ahead (date_ms text) now

module _ {ℓ} {B : Type ℓ} where
  -- An item that the new one replaces: unread, of the same coalescing key, and the new one is
  -- CRITICAL.
  abbrev pub Superseded : NotificationItem B → NotificationItem B → Type 0
  Superseded item i =
      ((key : String) × (i.coalesce_key ≡ some key) × (item.coalesce_key ≡ some key))
      × (i.is_read ≡ false)
      × (item.priority ≡ critical)

  items-persist :
      (written : Bool) (q : NotificationQueue B) → (persist_queue written q).items ≡ q.items
  unfolding persist_queue
  items-persist true q = refl
  items-persist false q = refl

  capacity-persist :
      (written : Bool) (q : NotificationQueue B)
      → (persist_queue written q).max_capacity ≡ q.max_capacity
  unfolding persist_queue
  capacity-persist true q = refl
  capacity-persist false q = refl

  length-replace_first :
      (p : NotificationItem B → Bool) (f : NotificationItem B → NotificationItem B)
      (xs : List (NotificationItem B))
      → length (replace_first p f xs) ≡ length xs
  unfolding replace_first
  length-replace_first p f [] = refl
  length-replace_first p f (x ∷ xs) = ground (arith, length-replace_first p f xs)

  length-evict :
      (p : NotificationItem B → Bool) (xs : List (NotificationItem B))
      → any p xs ≡ true
      → suc (length (remove_first p xs)) ≡ length xs
  length-evict p [] h = cc
  length-evict p (x ∷ xs) h = ground (arith, length-evict p xs)

  items-push :
      (written : Bool) (item : NotificationItem B) (q : NotificationQueue B)
      → (push_item written item q).items ≡ q.items ++ item ∷ []
  unfolding push_item
  items-push written item q =
      items-persist written
        (record q { items = q.items ++ item ∷ []; total_delivered = q.total_delivered + 1 })

  items-purge :
      (date_ms : String → Option ℕ) (now : ℕ) (written : Bool) (q : NotificationQueue B)
      → (purge_expired date_ms now written q).0.items
        ≡ filter (λ i. not (has_expired date_ms now i)) q.items
  unfolding purge_expired persist_queue
  items-purge date_ms now true q = refl
  items-purge date_ms now false q = refl

  Current-live :
      (date_ms : String → Option ℕ) (now : ℕ) (i : NotificationItem B)
      → Current date_ms now i.expires_at
      → has_expired date_ms now i ≡ false
  unfolding has_expired
  Current-live date_ms now i h = live i.expires_at h
    where
      ahead : (t : Option ℕ) → Ahead t now → is_past t now ≡ false
      ahead none h = refl
      ahead (some t) h = ground arith

      live :
          (e : Option String)
          → Current date_ms now e
          → (elim e [ none ↦ false | some text ↦ nonempty text && is_past (date_ms text) now ])
            ≡ false
      live none h = refl
      live (some text) h = ground (arith, h, eq_iff text "", ahead (date_ms text))

  critical-replaced :
      (item i : NotificationItem B)
      → i.priority ≡ critical
      → is_twin item i ≡ true
      → has_key item.coalesce_key ≡ true
      → leb (priority_weight i.priority) (priority_weight item.priority) ≡ true
      → Superseded item i
  critical-replaced item i is twin keyed le = (
    same_key item.coalesce_key i.coalesce_key keyed (ground (arith, twin)),
    ground (arith, twin),
    top item.priority (rw is at le),
  )
    where
      same_key :
          (a b : Option String)
          → has_key a ≡ true
          → same_text b a ≡ true
          → (key : String) × (b ≡ some key) × (a ≡ some key)
      same_key none b h same = cc h
      same_key (some k) none h same = cc same
      same_key (some k) (some l) h same = (k, ap some ((eq_iff l k).0 same), refl)

      top : (p : NotificationPriority) → leb 4 (priority_weight p) ≡ true → p ≡ critical
      top critical h = refl
      top high h = cc h
      top normal h = cc h
      top low h = cc h

  -- Where an item is after another was enqueued.
  abbrev pub Retained : NotificationItem B → NotificationItem B → List (NotificationItem B) → Type ℓ
  Retained item i items =
      Memᴰ i items ⊎ (Superseded item i × Memᴰ (record item { id = i.id }) items)

  Mem-replace :
      (p : NotificationItem B → Bool) (f : NotificationItem B → NotificationItem B)
      (i : NotificationItem B) (xs : List (NotificationItem B))
      → Memᴰ i xs
      → Memᴰ i (replace_first p f xs)
        ⊎ ((find p xs ≡ some i) × (p i ≡ true) × Memᴰ (f i) (replace_first p f xs))
  unfolding replace_first
  Mem-replace p f i [] m = elim m [ ]
  Mem-replace p f i (x ∷ xs) (Memᴰ.head e) = elim (Bool-cases (p x)) [
    | inl passes ↦ rw (passes, e) (inr (refl, passes, Memᴰ.head refl))
    | inr fails ↦ rw (fails, e) (inl (Memᴰ.head refl))
  ]
  Mem-replace p f i (x ∷ xs) (Memᴰ.tail m) = elim (Bool-cases (p x)) [
    | inl passes ↦ rw passes (inl (Memᴰ.tail m))
    | inr fails ↦ elim (Mem-replace p f i xs m) [
      | inl stays ↦ rw fails (inl (Memᴰ.tail stays))
      | inr (first, own, placed) ↦ rw fails (inr (first, own, Memᴰ.tail placed))
    ]
  ]

  Mem-evict :
      (i : NotificationItem B) (xs : List (NotificationItem B))
      → is_minor i.priority ≡ false
      → Memᴰ i xs
      → Memᴰ i (remove_first (λ j. is_minor j.priority) xs)
  Mem-evict i [] major m = elim m [ ]
  Mem-evict i (x ∷ xs) major (Memᴰ.head e) =
      let kept : is_minor x.priority ≡ false = rw e at major in rw kept (Memᴰ.head e)
  Mem-evict i (x ∷ xs) major (Memᴰ.tail m) = elim (Bool-cases (is_minor x.priority)) [
    | inl passes ↦ rw passes m
    | inr fails ↦ rw fails (Memᴰ.tail (Mem-evict i xs major m))
  ]

  Mem-filter :
      (p : NotificationItem B → Bool) (i : NotificationItem B) (xs : List (NotificationItem B))
      → p i ≡ true
      → Memᴰ i xs
      → Memᴰ i (filter p xs)
  Mem-filter p i [] h m = elim m [ ]
  Mem-filter p i (x ∷ xs) h (Memᴰ.head e) =
      let kept : p x ≡ true = rw e at h in rw kept (Memᴰ.head e)
  Mem-filter p i (x ∷ xs) h (Memᴰ.tail m) = elim (Bool-cases (p x)) [
    | inl passes ↦ rw passes (Memᴰ.tail (Mem-filter p i xs h m))
    | inr fails ↦ rw fails (Mem-filter p i xs h m)
  ]

  Mem-push :
      (written : Bool) (item : NotificationItem B) (q : NotificationQueue B)
      (i : NotificationItem B)
      → Memᴰ i q.items
      → Memᴰ i (push_item written item q).items
  Mem-push written item q i m = rw (items-push written item q) (Memᴰ.append_left (item ∷ []) m)

  Mem-at_capacity :
      (written : Bool) (item : NotificationItem B) (q : NotificationQueue B)
      (i : NotificationItem B)
      → is_minor i.priority ≡ false
      → Memᴰ i q.items
      → Memᴰ i (enqueue_at_capacity written item q).0.items
  unfolding enqueue_at_capacity
  Mem-at_capacity written item q i major m = ground (
    arith,
    m,
    Mem-push written item q i m,
    Mem-push written item (record q { items = remove_first (λ j. is_minor j.priority) q.items }) i
        (Mem-evict i q.items major m),
  )

  Retained-live :
      (written : Bool) (item : NotificationItem B) (q : NotificationQueue B)
      (i : NotificationItem B)
      → i.priority ≡ critical
      → Memᴰ i q.items
      → Retained item i (enqueue_live written item q).0.items
  unfolding enqueue_live
  Retained-live written item q i is m = elim (Bool-cases (can_coalesce item q.items)) [
    | inl merges ↦
        let put_in = λ (j : NotificationItem B). record item { id = j.id } in
        let merged : NotificationQueue B = record q {
          items = replace_first (is_twin item) put_in q.items;
          coalesced_count = q.coalesced_count + 1;
        } in
        let there : Retained item i merged.items =
          elim (Mem-replace (is_twin item) put_in i q.items m) [
            | inl stays ↦ inl stays
            | inr (first, twin, placed) ↦
                let test = rw first at merges in
                inr (
                  critical-replaced item i is twin (ground (arith, test)) (ground (arith, test)),
                  placed,
                )
          ] in
        rw (enqueue_live, merges) rw (items-persist written merged) there
    | inr apart ↦ elim (Bool-cases (leb q.max_capacity (length q.items))) [
      | inl full ↦
          rw (enqueue_live, apart, full) (inl (Mem-at_capacity written item q i (rw is refl) m))
      | inr room ↦ rw (enqueue_live, apart, room) (inl (Mem-push written item q i m))
    ]
  ]

  -- Whatever is enqueued, a notification of the queue with the priority CRITICAL and an expiry that
  -- is not given, empty, no date or ahead stays in the queue as it is; or else it was unread, the
  -- new notification is CRITICAL too with the same coalescing key, and the new one is in the queue
  -- under its identifier.
  pub enqueue-keeps_urgent :
      (date_ms : String → Option ℕ) (now : ℕ) (w : Writes) (q : NotificationQueue B)
      (item i : NotificationItem B)
      → Memᴰ i q.items
      → i.priority ≡ critical
      → Current date_ms now i.expires_at
      → Retained item i (enqueue date_ms now w q item).0.items
  unfolding enqueue
  enqueue-keeps_urgent date_ms now w q item i m is current =
      let live = Current-live date_ms now i current in
      let stays = Mem-filter (λ j. not (has_expired date_ms now j)) i q.items (ap not live) m in
      Retained-live w.store_written item (purge_expired date_ms now w.purge_written q).0 i is
        (rw (items-purge date_ms now w.purge_written q) stays)

  bounded-push :
      (written : Bool) (item : NotificationItem B) (q : NotificationQueue B)
      → length (push_item written item q).items ≡ suc (length q.items)
  bounded-push written item q =
      ground (arith, ap length (items-push written item q), length-append q.items (item ∷ []))

  bounded-at_capacity :
      (written : Bool) (item : NotificationItem B) (q : NotificationQueue B)
      → length q.items ≤ hard_capacity q
      → length (enqueue_at_capacity written item q).0.items ≤ hard_capacity q
  unfolding enqueue_at_capacity
  bounded-at_capacity written item q h = ground (
    arith,
    bounded-push written item q,
    bounded-push written item
        (record q { items = remove_first (λ i. is_minor i.priority) q.items }),
    length-evict (λ i. is_minor i.priority) q.items,
  )

  bounded-live :
      (written : Bool) (item : NotificationItem B) (q : NotificationQueue B)
      → length q.items ≤ hard_capacity q
      → length (enqueue_live written item q).0.items ≤ hard_capacity q
  unfolding enqueue_live
  bounded-live written item q h = ground (
    arith,
    length-replace_first (is_twin item) (λ i. record item { id = i.id }) q.items,
    ap length (
        items-persist written (record q {
          items = replace_first (is_twin item) (λ i. record item { id = i.id }) q.items;
          coalesced_count = q.coalesced_count + 1;
        })),
    bounded-push written item q,
    bounded-at_capacity written item q,
  )

  capacity-purge :
      (date_ms : String → Option ℕ) (now : ℕ) (written : Bool) (q : NotificationQueue B)
      → (purge_expired date_ms now written q).0.max_capacity ≡ q.max_capacity
  unfolding purge_expired persist_queue
  capacity-purge date_ms now true q = refl
  capacity-purge date_ms now false q = refl

  -- A queue that holds at most its hard capacity, twice the configured one, holds at most that
  -- after a notification was enqueued, merged or rejected.
  pub enqueue-bounded :
      (date_ms : String → Option ℕ) (now : ℕ) (w : Writes) (q : NotificationQueue B)
      (item : NotificationItem B)
      → length q.items ≤ hard_capacity q
      → length (enqueue date_ms now w q item).0.items ≤ hard_capacity q
  unfolding enqueue
  enqueue-bounded date_ms now w q item h =
      let q' = (purge_expired date_ms now w.purge_written q).0 in
      ground (
        arith,
        bounded-live w.store_written item q',
        ap length (items-purge date_ms now w.purge_written q),
        capacity-purge date_ms now w.purge_written q,
        length-filter-le (λ i. not (has_expired date_ms now i)) q.items,
      )

  -- A notification of the priority CRITICAL or HIGH is rejected only by a queue that holds its hard
  -- capacity of such notifications once the expired ones are gone.
  pub enqueue-rejects_major :
      (date_ms : String → Option ℕ) (now : ℕ) (w : Writes) (q : NotificationQueue B)
      (item : NotificationItem B)
      → is_minor item.priority ≡ false
      → (enqueue date_ms now w q item).1 ≡ rejected
      → let live = filter (λ i. not (has_expired date_ms now i)) q.items in
        (hard_capacity q ≤ length live) × (any (λ i. is_minor i.priority) live ≡ false)
  unfolding enqueue enqueue_live enqueue_at_capacity
  enqueue-rejects_major date_ms now w q item major refused = ground (
    arith,
    items-purge date_ms now w.purge_written q,
    capacity-purge date_ms now w.purge_written q,
  )
