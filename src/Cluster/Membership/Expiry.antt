-- ===== src/Cluster/Membership/Expiry.antt =====
-- `CheckTimeouts`, `AddMember` and `MergeMembers` of internal/cluster/membership.go.
use afd.Prelude.{
  ℕ, ◌+◌, ◌<◌, ◌≡◌, ◌⊎◌, refl, ap, sym, ◌∙◌, inl, inr, String, str_eq, eq_iff, Bool, false, List,
  [], ◌∷◌, Option, none, some, GoMap, lookup, delete, has_key, arith, if◌then◌else◌, Bool-cases,
  Option-cases, lookup-insert, lookup-delete,
}
use afd.Cluster.Node.{Node, online, is_online, update_seen}
use afd.Cluster.Membership.{
  Membership, ClusterEvent, emit_event, add_member, merge_members, is_expired, expired_members,
  delete_all, emit_leaves, check_timeouts, refresh,
}

-- No key occurs twice.
abbrev pub Distinct : GoMap Node → Type 0
Distinct [] = Unit {0}
Distinct ((id, _) ∷ m) = (has_key id m ≡ false) × Distinct m

-- Whether the node that is filed under a key has expired.
abbrev pub expired_at : ℕ → ℕ → Option Node → Bool
expired_at now timeout none = false
expired_at now timeout (some n) = is_expired now timeout n

lookup-absent : (id : String) (m : GoMap Node) → has_key id m ≡ false → lookup id m ≡ none
unfolding has_key lookup
lookup-absent id [] h = refl
lookup-absent id ((j, n) ∷ m) h = ground (arith, lookup-absent id m)

has_key-expired :
    (now timeout : ℕ) (m : GoMap Node) (id : String)
    → Distinct m
    → has_key id (expired_members now timeout m) ≡ expired_at now timeout (lookup id m)
unfolding has_key lookup expired_members
has_key-expired now timeout [] id d = refl
has_key-expired now timeout ((j, n) ∷ m) id d = elim (Bool-cases (str_eq j id)) [
  | inl here ↦
      let e : j ≡ id = (eq_iff j id).0 here in
      let gone : lookup id m ≡ none = lookup-absent id m (ap (λ k. has_key k m) (sym e) ∙ d.0) in
      let ih = has_key-expired now timeout m id d.1 in ground (arith, here, gone, ih)
  | inr there ↦ ground (arith, there, has_key-expired now timeout m id d.1)
]

lookup-delete_all :
    (ids m : GoMap Node) (id : String)
    → lookup id (delete_all ids m) ≡ (if has_key id ids then none else lookup id m)
unfolding delete_all has_key
lookup-delete_all [] m id = refl
lookup-delete_all ((j, n) ∷ ids) m id =
    ground (arith, lookup-delete_all ids (delete j m) id, lookup-delete j id m)

emit_event-members : (e : ClusterEvent) (m : Membership) → (emit_event e m).members ≡ m.members
unfolding emit_event
emit_event-members e m = ground arith

emit_leaves-members :
    (now : ℕ) (ns : GoMap Node) (m : Membership) → (emit_leaves now ns m).members ≡ m.members
unfolding emit_leaves
emit_leaves-members now [] m = refl
emit_leaves-members now ((_, n) ∷ ns) m = emit_leaves-members now ns _ ∙ emit_event-members _ m

check_timeouts-lookup :
    (now timeout : ℕ) (m : Membership) (id : String)
    → Distinct m.members
    → lookup id (check_timeouts now timeout m).0.members
      ≡ (if expired_at now timeout (lookup id m.members) then none else lookup id m.members)
unfolding check_timeouts
check_timeouts-lookup now timeout m id d =
    let ex = expired_members now timeout m.members in
    ap (lookup id) (emit_leaves-members now ex (record m { members = delete_all ex m.members }))
    ∙ lookup-delete_all ex m.members id
    ∙ ap (λ b. if b then none else lookup id m.members) (has_key-expired now timeout m.members id d)

-- The node is online and was last seen longer ago than the timeout.
abbrev pub TimedOut : ℕ → ℕ → Node → Type 0
TimedOut now timeout n = (n.status ≡ online) × (n.last_seen + timeout < now)

-- What may stand under a key after the check, by what stood there before.
abbrev pub Checked : ℕ → ℕ → Option Node → Option Node → Type 0
Checked now timeout none after = after ≡ none
Checked now timeout (some n) after =
    (TimedOut now timeout n × (after ≡ none)) ⊎ ((¬ TimedOut now timeout n) × (after ≡ some n))

Checked-cases :
    (now timeout : ℕ) (before : Option Node)
    → Checked now timeout before (if expired_at now timeout before then none else before)
unfolding is_online
Checked-cases now timeout none = refl
Checked-cases now timeout (some n) = elim (Bool-cases (is_expired now timeout n)) [
  | inl over ↦ rw over (inl (ground (arith, over), refl))
  | inr stays ↦ rw stays (inr (λ h. ground (arith, stays, h), refl))
]

-- Where no key occurs twice, `CheckTimeouts` removes exactly the members that are online and were last seen
-- longer ago than the timeout, leaves every other entry as it is, and adds none.
pub check_timeouts_lem :
    (now timeout : ℕ) (m : Membership) (id : String)
    → Distinct m.members
    → Checked now timeout (lookup id m.members) (lookup id (check_timeouts now timeout m).0.members)
check_timeouts_lem now timeout m id d =
    rw (check_timeouts-lookup now timeout m id d) (Checked-cases now timeout (lookup id m.members))

add_member-other :
    (now : ℕ) (node : Node) (m : Membership) (id : String)
    → str_eq node.id id ≡ false
    → (lookup id (add_member now node m).members ≡ lookup id m.members)
      × ((add_member now node m).local_id ≡ m.local_id)
unfolding add_member emit_event
add_member-other now node m id other = elim (Option-cases (lookup node.id m.members)) [
  | inl new ↦ ground (arith, new, other, lookup-insert node.id id (update_seen now node) m.members)
  | inr (old, known) ↦
      ground (arith, known, other, lookup-insert node.id id (refresh now node old) m.members)
]

merge_step-local :
    (now : ℕ) (node : Node) (m : Membership)
    → let m' = if str_eq node.id m.local_id then m else add_member now node m in
      (lookup m.local_id m'.members ≡ lookup m.local_id m.members) × (m'.local_id ≡ m.local_id)
merge_step-local now node m = elim (Bool-cases (str_eq node.id m.local_id)) [
  | inl own ↦ rw own (refl, refl)
  | inr other ↦ rw other (add_member-other now node m m.local_id other)
]

-- `MergeMembers` never touches the entry of the local node, whatever the other nodes report.
pub merge_members-local :
    (now : ℕ) (nodes : List Node) (m : Membership)
    → lookup m.local_id (merge_members now nodes m).members ≡ lookup m.local_id m.members
unfolding merge_members
merge_members-local now [] m = refl
merge_members-local now (node ∷ nodes) m =
    let m' = if str_eq node.id m.local_id then m else add_member now node m in
    let same = merge_step-local now node m in
    ap (λ i. lookup i (merge_members now nodes m').members) (sym same.1)
    ∙ merge_members-local now nodes m'
    ∙ ap (λ i. lookup i m'.members) same.1
    ∙ same.0
