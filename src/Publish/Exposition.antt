-- ===== src/Publish/Exposition.antt =====
-- src/publish.rs: the texts of the loss reasons and of errors, and the Prometheus text of a snapshot.
use thalamic_relay.Prelude.{
  ℕ, zero, suc, ◌==◌, if◌then◌else◌, String, concat, show_u64, List, [], ◌∷◌, map,
}
use thalamic_relay.Publish.{
  QueueFullPolicy, as_str, DropReason, as_id, all_reasons, QueueConfigError, capacity_too_small,
  capacity_too_large,
}
use thalamic_relay.Publish.Queue.{QueueSnapshot}

-- `DropReason::as_str`.
unfoldable pub reason_label : DropReason → String
reason_label DropReason.reject_newest = "reject_newest"
reason_label DropReason.drop_oldest = "drop_oldest"
reason_label DropReason.absent = "absent"
reason_label DropReason.disconnected = "disconnected"
reason_label DropReason.send_failed = "send_failed"
reason_label DropReason.mutex_contended = "mutex_contended"

-- `Display for QueueConfigError`.
unfoldable pub config_error_text : QueueConfigError → String
config_error_text (capacity_too_small capacity min) =
    concat
      ("sensory queue capacity " ∷ show_u64 capacity ∷ " is below minimum " ∷ show_u64 min ∷ [])
config_error_text (capacity_too_large capacity max) =
    concat ("sensory queue capacity " ∷ show_u64 capacity ∷ " exceeds maximum " ∷ show_u64 max ∷ [])

abbrev slot_at : ℕ → List ℕ → ℕ
slot_at i [] = 0
slot_at zero (slot ∷ slots) = slot
slot_at (suc i) (slot ∷ slots) = slot_at i slots

-- `QueueSnapshot::dropped`; the six slots are there.
unfoldable pub dropped : QueueSnapshot → DropReason → ℕ
unfolding as_id
dropped snap reason = slot_at (as_id reason) snap.dropped_by_reason

abbrev pub policy_id : QueueFullPolicy → ℕ
policy_id QueueFullPolicy.drop_oldest = 0
policy_id QueueFullPolicy.reject_newest = 1

abbrev pub all_policies : List QueueFullPolicy
all_policies = QueueFullPolicy.drop_oldest ∷ QueueFullPolicy.reject_newest ∷ []

dropped_line : QueueSnapshot → DropReason → String
unfolding dropped reason_label
dropped_line snap reason = concat (
    "sensory_queue_dropped_total{reason=\""
    ∷ reason_label reason
    ∷ "\"} "
    ∷ show_u64 (dropped snap reason)
    ∷ "\n"
    ∷ [])

policy_line : QueueSnapshot → QueueFullPolicy → String
unfolding as_str
policy_line snap policy = concat (
    "sensory_queue_full_policy{policy=\""
    ∷ as_str policy
    ∷ "\"} "
    ∷ (if policy_id policy == policy_id snap.policy then "1" else "0")
    ∷ "\n"
    ∷ [])

unfoldable pub prometheus_exposition : QueueSnapshot → String
unfolding dropped_line policy_line
prometheus_exposition snap = concat (
    "# HELP sensory_queue_depth Current outbound sensory queue depth\n"
    ∷ "# TYPE sensory_queue_depth gauge\n"
    ∷ concat ("sensory_queue_depth " ∷ show_u64 snap.depth ∷ "\n" ∷ [])
    ∷ "# HELP sensory_queue_capacity Configured outbound sensory queue capacity\n"
    ∷ "# TYPE sensory_queue_capacity gauge\n"
    ∷ concat ("sensory_queue_capacity " ∷ show_u64 snap.capacity ∷ "\n" ∷ [])
    ∷ "# HELP sensory_queue_enqueued_total Sensory frames accepted into the outbound queue\n"
    ∷ "# TYPE sensory_queue_enqueued_total counter\n"
    ∷ concat ("sensory_queue_enqueued_total " ∷ show_u64 snap.enqueued_total ∷ "\n" ∷ [])
    ∷ "# HELP sensory_queue_dropped_total Sensory frames dropped (bounded reason label)\n"
    ∷ "# TYPE sensory_queue_dropped_total counter\n"
    ∷ concat (map (dropped_line snap) all_reasons)
    ∷ "# HELP sensory_queue_full_policy Configured full-queue policy (one-hot)\n"
    ∷ "# TYPE sensory_queue_full_policy gauge\n"
    ∷ concat (map (policy_line snap) all_policies)
    ∷ [])
