-- ===== src/Notifications.antt =====
-- The queue of desktop notifications: class `NotificationQueue` of
-- apps/desktop-agent/src/notifications/notification-queue.ts. `date_ms` is `new Date(text).getTime()`,
-- `none` for NaN. Whether a write to disk succeeds (or none is configured) is given for each of the
-- two writes of a call: `purge_written` and `store_written`. `B` holds the fields that the queue only
-- copies. Reading the queue back starts from the items that the file held.
pub mod Retained
use nexus_os_ai_workspace.Base.{
  ℕ, ◌+◌, ◌*◌, String, Bool, true, false, not, ◌&&◌, ◌||◌, Option, none, some, List, [], ◌∷◌, ◌++◌,
  if◌then◌else◌, leb, ltb, min, length, take, filter, count, any, find, remove_first, nonempty,
  same_text, is_some, trim, ◌==◌,
}

pub data NotificationPriority : Type 0 where
  critical high normal low : NotificationPriority

abbrev pub priority_weight : NotificationPriority → ℕ
priority_weight critical = 4
priority_weight high = 3
priority_weight normal = 2
priority_weight low = 1

-- `LOW` and `NORMAL`, which a full queue drops.
abbrev pub is_minor : NotificationPriority → Bool
is_minor normal = true
is_minor low = true
is_minor _ = false

pub record NotificationItem {ℓ} (B : Type ℓ) : Type ℓ where
  pub id : String
  pub timestamp : String
  pub priority : NotificationPriority
  pub coalesce_key : Option String
  pub expires_at : Option String
  pub is_read : Bool
  pub body : B

pub data EnqueueStatus : Type 0 where
  enqueued coalesced rejected : EnqueueStatus

pub record NotificationQueue {ℓ} (B : Type ℓ) : Type ℓ where
  pub items : List (NotificationItem B)
  pub total_delivered : ℕ
  pub expired_count : ℕ
  pub coalesced_count : ℕ
  pub is_queue_full : Bool
  pub max_capacity : ℕ

pub record Writes : Type 0 where
  pub purge_written : Bool
  pub store_written : Bool

-- `new Date(text).getTime() <= now`.
abbrev is_past : Option ℕ → ℕ → Bool
is_past none now = false
is_past (some t) now = leb t now

-- `item.coalesceKey && item.coalesceKey.trim().length > 0`.
abbrev has_key : Option String → Bool
has_key none = false
has_key (some k) = nonempty k && nonempty (trim k)

module _ {ℓ} {B : Type ℓ} where
  abbrev pub hard_capacity : NotificationQueue B → ℕ
  hard_capacity q = q.max_capacity * 2

  unfoldable pub persist_queue : (written : Bool) → NotificationQueue B → NotificationQueue B
  persist_queue true q = q
  persist_queue false q = record q { is_queue_full = true }

  unfoldable pub has_expired : (String → Option ℕ) → ℕ → NotificationItem B → Bool
  has_expired date_ms now i = elim i.expires_at [
    | none ↦ false
    | some text ↦ nonempty text && is_past (date_ms text) now
  ]

  -- The loop of `purgeExpired` takes out every item that has expired.
  unfoldable pub purge_expired :
      (String → Option ℕ) → ℕ → (written : Bool) → NotificationQueue B → NotificationQueue B × ℕ
  unfolding persist_queue
  purge_expired date_ms now written q =
      let purged = count (has_expired date_ms now) q.items in
      let rest = filter (λ i. not (has_expired date_ms now i)) q.items in
      (
        persist_queue written (record q {
          items = rest;
          expired_count = q.expired_count + purged;
          is_queue_full = if ltb (length rest) (hard_capacity q) then false else q.is_queue_full;
        }),
        purged,
      )

  -- An unread item with the same coalescing key.
  abbrev pub is_twin : NotificationItem B → NotificationItem B → Bool
  is_twin item i = same_text i.coalesce_key item.coalesce_key && not i.is_read

  -- The first item that passes the test, replaced: `items[idx] = …`.
  unfoldable pub replace_first :
      (NotificationItem B → Bool)
      → (NotificationItem B → NotificationItem B)
      → List (NotificationItem B)
      → List (NotificationItem B)
  replace_first p f [] = []
  replace_first p f (i ∷ is) = if p i then f i ∷ is else i ∷ replace_first p f is

  abbrev coalesces_with : NotificationItem B → Option (NotificationItem B) → Bool
  coalesces_with item none = false
  coalesces_with item (some i) = leb (priority_weight i.priority) (priority_weight item.priority)

  abbrev pub can_coalesce : NotificationItem B → List (NotificationItem B) → Bool
  can_coalesce item items =
      has_key item.coalesce_key && coalesces_with item (find (is_twin item) items)

  unfoldable pub push_item :
      (written : Bool) → NotificationItem B → NotificationQueue B → NotificationQueue B
  unfolding persist_queue
  push_item written item q =
      persist_queue written
        (record q { items = q.items ++ item ∷ []; total_delivered = q.total_delivered + 1 })

  -- A queue at its capacity: a minor item gives way to a major one.
  unfoldable pub enqueue_at_capacity :
      (written : Bool)
      → NotificationItem B
      → NotificationQueue B
      → NotificationQueue B × EnqueueStatus
  unfolding push_item
  enqueue_at_capacity written item q =
      if is_minor item.priority
      then (q, rejected)
      else if any (λ i. is_minor i.priority) q.items
      then (
        push_item written item
            (record q { items = remove_first (λ i. is_minor i.priority) q.items }),
        enqueued,
      )
      else if leb (hard_capacity q) (length q.items)
      then (record q { is_queue_full = true }, rejected)
      else (push_item written item q, enqueued)

  -- `enqueue` after the expired items have gone.
  unfoldable pub enqueue_live :
      (written : Bool)
      → NotificationItem B
      → NotificationQueue B
      → NotificationQueue B × EnqueueStatus
  unfolding persist_queue enqueue_at_capacity push_item replace_first
  enqueue_live written item q =
      if can_coalesce item q.items
      then (
        persist_queue written (record q {
          items = replace_first (is_twin item) (λ i. record item { id = i.id }) q.items;
          coalesced_count = q.coalesced_count + 1;
        }),
        coalesced,
      )
      else if leb q.max_capacity (length q.items)
      then enqueue_at_capacity written item q
      else (push_item written item q, enqueued)

  unfoldable pub enqueue :
      (String → Option ℕ)
      → ℕ
      → Writes
      → NotificationQueue B
      → NotificationItem B
      → NotificationQueue B × EnqueueStatus
  unfolding purge_expired enqueue_live
  enqueue date_ms now w q item =
      enqueue_live w.store_written item (purge_expired date_ms now w.purge_written q).0

  unfoldable pub pop_pending :
      (String → Option ℕ)
      → ℕ
      → (written : Bool) → NotificationQueue B
      → (max_count : ℕ) → NotificationQueue B × List (NotificationItem B)
  unfolding purge_expired
  pop_pending date_ms now written q max_count =
      let (q', purged) = purge_expired date_ms now written q in
      let unread = filter (λ i. not i.is_read) q'.items in
      (q', take (min max_count (length unread)) unread)

  -- `markRead` writes through the reference that `find` returns.
  unfoldable pub mark_read :
      (written : Bool) → NotificationQueue B → String → NotificationQueue B × Bool
  unfolding persist_queue replace_first
  mark_read written q id =
      if any (λ i. i.id == id) q.items
      then (
        persist_queue written (record q {
          items = replace_first (λ i. i.id == id) (λ i. record i { is_read = true }) q.items;
        }),
        true,
      )
      else (q, false)

  unfoldable pub update_item :
      (written : Bool)
      → NotificationQueue B
      → String
      → NotificationItem B
      → NotificationQueue B × Bool
  unfolding persist_queue replace_first
  update_item written q id updated =
      if any (λ i. i.id == id) q.items
      then (
        persist_queue written (record q {
          items = replace_first (λ i. i.id == id) (λ i. record updated { id = id }) q.items;
        }),
        true,
      )
      else (q, false)

  unfoldable pub clear : (written : Bool) → NotificationQueue B → NotificationQueue B
  unfolding persist_queue
  clear written q = persist_queue written (record q { items = []; is_queue_full = false })

  -- The loop of `loadQueueFromStorage` over the items that the file held. A priority is never empty.
  unfoldable pub load_queue : NotificationQueue B → List (NotificationItem B) → NotificationQueue B
  load_queue q [] = q
  load_queue q (i ∷ is) =
      load_queue (if nonempty i.id then record q { items = q.items ++ i ∷ [] } else q) is
