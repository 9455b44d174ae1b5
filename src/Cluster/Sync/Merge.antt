-- ===== src/Cluster/Sync/Merge.antt =====
-- `MergeState` of internal/cluster/sync.go: what every entry is after it.
use afd.Prelude.{
  ℕ, ◌≤ℤ◌, ◌≡◌, ◌⊎◌, refl, ap, sym, ◌∙◌, inl, inr, String, str_eq, eq_iff, true, false, [], ◌∷◌,
  Option, none, some, GoMap, lookup, insert, has_key, arith, if◌then◌else◌, leb_ℤ, Bool-cases,
  Option-cases, lookup-insert, ◌<◌, ◌≤◌,
}
use afd.Cluster.Sync.{NodeState, ClusterState, is_newer, merge_nodes, merge_tasks, merge_state}

module _ {ℓ} {V : Type ℓ} where
  -- No key occurs twice.
  abbrev pub NoRepeat : GoMap V → Type 0
  NoRepeat [] = Unit {0}
  NoRepeat ((id, _) ∷ m) = (has_key id m ≡ false) × NoRepeat m

  lookup-absent : (id : String) (m : GoMap V) → has_key id m ≡ false → lookup id m ≡ none
  unfolding has_key lookup
  lookup-absent id [] h = refl
  lookup-absent id ((j, n) ∷ m) h = elim (Bool-cases (str_eq j id)) [
    | inl here ↦ ground (arith, here, h)
    | inr there ↦ ground (arith, there, h, lookup-absent id m)
  ]

  has_key-none : (id : String) (m : GoMap V) → lookup id m ≡ none → has_key id m ≡ false
  unfolding has_key lookup
  has_key-none id [] h = refl
  has_key-none id ((j, n) ∷ m) h = elim (Bool-cases (str_eq j id)) [
    | inl here ↦ ground (arith, here, h)
    | inr there ↦ ground (arith, there, h, has_key-none id m)
  ]

  has_key-known : (id : String) (m : GoMap V) (v : V) → lookup id m ≡ some v → has_key id m ≡ true
  unfolding has_key lookup
  has_key-known id [] v h = cc
  has_key-known id ((j, n) ∷ m) v h = elim (Bool-cases (str_eq j id)) [
    | inl here ↦ ground (arith, here)
    | inr there ↦ ground (arith, there, h, has_key-known id m v)
  ]

-- What is known of a node afterwards, by what the remote state and this one say of it: the remote entry where this
-- state has none or an older one.
abbrev pub Newest : Option NodeState → Option NodeState → Option NodeState → Type 0
Newest none here after = after ≡ here
Newest (some r) none after = after ≡ some r
Newest (some r) (some h) after =
    ((h.last_sync < r.last_sync) × (after ≡ some r))
    ⊎ ((r.last_sync ≤ h.last_sync) × (after ≡ some h))

-- The node of a task afterwards: the remote one where this state has none.
abbrev pub Known : Option String → Option String → Option String → Type 0
Known remote none after = after ≡ remote
Known remote (some node) after = after ≡ some node

-- One step of the loop over the nodes, at its own key.
Newest-step :
    (r : NodeState) (here : Option NodeState)
    → Newest (some r) here (if is_newer r here then some r else here)
Newest-step r none = refl
Newest-step r (some h) = ground arith

node_step :
    (j : String) (r : NodeState) (here : GoMap NodeState) (id : String)
    → let here' = if is_newer r (lookup j here) then insert j r here else here in
      (str_eq j id ≡ true
        → lookup id here' ≡ (if is_newer r (lookup id here) then some r else lookup id here))
      × (str_eq j id ≡ false → lookup id here' ≡ lookup id here)
node_step j r here id = (
  λ same.
      let e : j ≡ id = (eq_iff j id).0 same in
      let l : lookup j here ≡ lookup id here = ap (λ k. lookup k here) e in
      elim (Bool-cases (is_newer r (lookup id here))) [
        | inl newer ↦ rw (l, newer) (lookup-insert j id r here ∙ rw same refl)
        | inr older ↦ rw (l, older) refl
      ],
  λ other. elim (Bool-cases (is_newer r (lookup j here))) [
    | inl newer ↦ rw newer (lookup-insert j id r here ∙ rw other refl)
    | inr older ↦ rw older refl
  ],
)

merge_nodes-Newest :
    (rs here : GoMap NodeState) (id : String)
    → NoRepeat rs
    → Newest (lookup id rs) (lookup id here) (lookup id (merge_nodes rs here))
unfolding merge_nodes lookup
merge_nodes-Newest [] here id d = refl
merge_nodes-Newest ((j, r) ∷ rs) here id d =
    let here' = if is_newer r (lookup j here) then insert j r here else here in
    let ih = merge_nodes-Newest rs here' id d.1 in
    let step = node_step j r here id in
    elim (Bool-cases (str_eq j id)) [
      | inr other ↦ rw other (rw (step.1 other) at ih)
      | inl same ↦
          let e : j ≡ id = (eq_iff j id).0 same in
          let gone : lookup id rs ≡ none =
            lookup-absent id rs (ap (λ k. has_key k rs) (sym e) ∙ d.0) in
          let after : lookup id (merge_nodes rs here') ≡ lookup id here' = rw gone at ih in
          rw (same, after, step.0 same) (Newest-step r (lookup id here))
    ]

task_step :
    (j node : String) (here : GoMap String) (id : String)
    → let here' = if has_key j here then here else insert j node here in
      (str_eq j id ≡ true → Known (some node) (lookup id here) (lookup id here'))
      × (str_eq j id ≡ false → lookup id here' ≡ lookup id here)
task_step j node here id = (
  λ same.
      let e : j ≡ id = (eq_iff j id).0 same in
      let k : has_key j here ≡ has_key id here = ap (λ i. has_key i here) e in
      elim (Option-cases (lookup id here)) [
        | inl gone ↦
            rw (gone, k, has_key-none id here gone) (lookup-insert j id node here ∙ rw same refl)
        | inr (n, found) ↦ rw (found, k, has_key-known id here n found) found
      ],
  λ other. elim (Bool-cases (has_key j here)) [
    | inl known ↦ rw known refl
    | inr new ↦ rw new (lookup-insert j id node here ∙ rw other refl)
  ],
)

Known-after :
    (before here after : Option String) (node : String)
    → Known (some node) before here
    → Known none here after
    → Known (some node) before after
Known-after none none after node k k' = cc
Known-after none (some n) after node k k' = k' ∙ k
Known-after (some b) none after node k k' = cc
Known-after (some b) (some n) after node k k' = k' ∙ k

merge_tasks-Known :
    (rs here : GoMap String) (id : String)
    → NoRepeat rs
    → Known (lookup id rs) (lookup id here) (lookup id (merge_tasks rs here))
unfolding merge_tasks lookup
merge_tasks-Known [] here id d = elim (Option-cases (lookup id here)) [
  | inl gone ↦ rw gone refl
  | inr (n, found) ↦ rw found refl
]
merge_tasks-Known ((j, node) ∷ rs) here id d =
    let here' = if has_key j here then here else insert j node here in
    let ih = merge_tasks-Known rs here' id d.1 in
    let step = task_step j node here id in
    elim (Bool-cases (str_eq j id)) [
      | inr other ↦ rw other (rw (step.1 other) at ih)
      | inl same ↦
          let e : j ≡ id = (eq_iff j id).0 same in
          let gone : lookup id rs ≡ none =
            lookup-absent id rs (ap (λ k. has_key k rs) (sym e) ∙ d.0) in
          rw same
            (Known-after (lookup id here) (lookup id here') _ node (step.0 same) (rw gone at ih))
    ]

-- `MergeState` of a remote state in which no key occurs twice. A remote version that is not newer changes nothing. A
-- newer one is taken over, and under every key: what is known of a node is the remote entry exactly if there is one
-- and this state has none or one that was synchronised earlier, and a task keeps the node that it has here, if any,
-- and gets the remote one else.
pub merge_state_lem :
    (now : ℕ) (remote s : ClusterState) (id : String)
    → NoRepeat remote.nodes
    → NoRepeat remote.tasks
    → ((remote.version ≤ℤ s.version) × (merge_state now remote s ≡ s))
      ⊎ ((¬ (remote.version ≤ℤ s.version))
          × ((merge_state now remote s).version ≡ remote.version)
          × Newest
              (lookup id remote.nodes)
              (lookup id s.nodes)
              (lookup id (merge_state now remote s).nodes)
          × Known
              (lookup id remote.tasks)
              (lookup id s.tasks)
              (lookup id (merge_state now remote s).tasks))
unfolding merge_state
merge_state_lem now remote s id d d' = elim (Bool-cases (leb_ℤ remote.version s.version)) [
  | inl old ↦ rw old (inl (ground (arith, old), refl))
  | inr newer ↦ rw newer (
      inr (
        λ h. ground (arith, newer, h),
        refl,
        merge_nodes-Newest remote.nodes s.nodes id d,
        merge_tasks-Known remote.tasks s.tasks id d',
      ))
]
