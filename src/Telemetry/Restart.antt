-- ===== src/Telemetry/Restart.antt =====
-- What the spool of apps/desktop-agent/src/telemetry/telemetry-spool.ts has after a restart.
use nexus_os_ai_workspace.Base.{
  ℕ, ◌+◌, ◌≡◌, refl, sym, Bool, ◌&&◌, List, [], ◌∷◌, ◌++◌, if◌then◌else◌, filter, count, nonempty,
  arith, append-nil, append_assoc,
}
use nexus_os_ai_workspace.Telemetry.Backpressure.{
  Controller, EventPriority, critical, non_critical, is_critical, record_item_added,
}
use nexus_os_ai_workspace.Telemetry.Spool.{
  Filter, Spool, TelemetryItem, is_critical_item, load_items,
}

critical-record_item_added :
    (p : EventPriority) (bytes : ℕ) (c : Controller)
    → (record_item_added p bytes c).critical_items_count
      ≡ c.critical_items_count + (if is_critical p then 1 else 0)
unfolding record_item_added
critical-record_item_added critical bytes c = refl
critical-record_item_added non_critical bytes c = omega arith

module _ {ℓ} {A : Type ℓ} where
  abbrev pub is_named : TelemetryItem A → Bool
  is_named i = nonempty i.item_id

  abbrev pub is_named_critical : TelemetryItem A → Bool
  is_named_critical i = nonempty i.item_id && is_critical_item i

  -- Reading back a list of items appends to the spool those that have an identifier, in their
  -- order, and counts the critical ones among them as critical.
  pub load_items-restores :
      (f : Filter A) (s : Spool A) (is : List (TelemetryItem A))
      → let s' = load_items f s is in
        (s'.items ≡ s.items ++ filter is_named is)
        × (s'.controller.critical_items_count
            ≡ s.controller.critical_items_count + count is_named_critical is)
  unfolding load_items
  load_items-restores f s [] = (sym (append-nil s.items), omega arith)
  load_items-restores f s (i ∷ is) =
      let added = record s {
        items = s.items ++ i ∷ [];
        controller = record_item_added i.priority (f.json_length i) s.controller;
      } in
      ground (
        arith,
        load_items-restores f s is,
        load_items-restores f added is,
        append_assoc s.items (i ∷ []) (filter is_named is),
        critical-record_item_added i.priority (f.json_length i) s.controller,
      )
