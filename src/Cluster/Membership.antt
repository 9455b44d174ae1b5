-- ===== src/Cluster/Membership.antt =====
-- internal/cluster/membership.go: who belongs to the cluster, and the events about it. The channel of
-- events is a list of at most 256; a handler is a number, and what handlers are given is a log.
pub mod Expiry
use afd.Prelude.{
  ℕ, ◌+◌, String, str_eq, Bool, true, false, ◌&&◌, not, List, [], ◌∷◌, ◌++◌, map, Option, none,
  some, GoMap, lookup, insert, delete, length, arith, if◌then◌else◌, ltb,
}
use afd.Cluster.Node.{Node, is_online, update_seen, mark_offline, set_load}

pub data ClusterEventType : Type 0 where
  node_join node_leave node_update : ClusterEventType

pub record ClusterEvent : Type 0 where
  pub event_type : ClusterEventType
  pub node : Node
  pub timestamp : ℕ

pub record Membership : Type 0 where
  pub members : GoMap Node
  pub events : List ClusterEvent
  pub handlers : List ℕ
  pub local_id : String
  pub stopped : Bool
  pub handled : List (ℕ × ClusterEvent)

unfoldable pub new_membership : String → Membership
new_membership local_id = record {
  members = [];
  events = [];
  handlers = [];
  local_id = local_id;
  stopped = false;
  handled = [];
}

-- `emitEvent`: an event is dropped after the shutdown and when the channel is full.
unfoldable pub emit_event : ClusterEvent → Membership → Membership
emit_event e m =
    if not m.stopped && ltb (length m.events) 256
    then record m { events = m.events ++ e ∷ [] }
    else m

-- One round of `eventLoop` and `dispatch`: the oldest event goes to every handler.
unfoldable pub dispatch : Membership → Membership
dispatch m = elim m.events [
  | [] ↦ m
  | e ∷ es ↦ record m { events = es; handled = m.handled ++ map (λ (h : ℕ). (h, e)) m.handlers }
]

unfoldable pub refresh : ℕ → Node → Node → Node
unfolding set_load update_seen
refresh now node existing = update_seen now (record (set_load node.load existing) {
  addr = node.addr;
  grpc_port = node.grpc_port;
  api_port = node.api_port;
  tags = node.tags;
})

unfoldable pub add_member : ℕ → Node → Membership → Membership
unfolding refresh update_seen emit_event
add_member now node m = elim (lookup node.id m.members) [
  | some existing ↦
      let fresh = refresh now node existing in
      emit_event (record { event_type = node_update; node = fresh; timestamp = now })
        (record m { members = insert node.id fresh m.members })
  | none ↦
      let fresh = update_seen now node in
      emit_event (record { event_type = node_join; node = fresh; timestamp = now })
        (record m { members = insert node.id fresh m.members })
]

unfoldable pub remove_member : ℕ → String → Membership → Membership
unfolding mark_offline emit_event
remove_member now id m = elim (lookup id m.members) [
  | none ↦ m
  | some node ↦
      emit_event (record { event_type = node_leave; node = mark_offline node; timestamp = now })
        (record m { members = delete id m.members })
]

unfoldable pub merge_members : ℕ → List Node → Membership → Membership
unfolding add_member
merge_members now [] m = m
merge_members now (node ∷ nodes) m =
    merge_members now nodes (if str_eq node.id m.local_id then m else add_member now node m)

abbrev pub is_expired : ℕ → ℕ → Node → Bool
is_expired now timeout n = is_online n && ltb (n.last_seen + timeout) now

-- The loop of `CheckTimeouts` that collects what has expired, under the keys of the map.
unfoldable pub expired_members : ℕ → ℕ → GoMap Node → GoMap Node
unfolding mark_offline
expired_members now timeout [] = []
expired_members now timeout ((id, n) ∷ m) =
    let rest = expired_members now timeout m in
    if is_expired now timeout n then (id, mark_offline n) ∷ rest else rest

unfoldable pub delete_all : GoMap Node → GoMap Node → GoMap Node
delete_all [] m = m
delete_all ((id, _) ∷ ids) m = delete_all ids (delete id m)

unfoldable pub emit_leaves : ℕ → GoMap Node → Membership → Membership
unfolding emit_event
emit_leaves now [] m = m
emit_leaves now ((_, n) ∷ ns) m =
    emit_leaves now ns
      (emit_event (record { event_type = node_leave; node = n; timestamp = now }) m)

unfoldable pub check_timeouts : ℕ → ℕ → Membership → Membership × List String
unfolding expired_members delete_all emit_leaves
check_timeouts now timeout m =
    let expired = expired_members now timeout m.members in
    (
      emit_leaves now expired (record m { members = delete_all expired m.members }),
      map (λ (e : String × Node). e.0) expired,
    )

unfoldable pub online_count : GoMap Node → ℕ
unfolding is_online
online_count [] = 0
online_count ((_, n) ∷ m) = (if is_online n then 1 else 0) + online_count m

unfoldable pub on_event : ℕ → Membership → Membership
on_event h m = record m { handlers = m.handlers ++ h ∷ [] }
