-- ===== src/Cluster/Scheduler/Choice.antt =====
-- `selectNode` of internal/cluster/scheduler.go.
use afd.Prelude.{
  ◌≡◌, refl, ap, sym, ◌∙◌, subst, ◌⊎◌, inl, inr, ℤ, pos, ltb_ℤ, ◌≤ℤ◌, Bool, true, false, ◌&&◌, List,
  [], ◌∷◌, none, some, GoMap, arith, Bool-cases,
}
use afd.Cluster.Node.{Node, is_online}
use afd.Cluster.Scheduler.{Scheduler, eligible_nodes, least_loaded, select_node}

-- A node of the map that the test passes on.
abbrev pub Filed : Node → GoMap Node → Type 0
Filed n [] = ⊥
Filed n ((_, x) ∷ m) = (x ≡ n) ⊎ Filed n m

abbrev pub Listed : Node → List Node → Type 0
Listed n [] = ⊥
Listed n (x ∷ xs) = (x ≡ n) ⊎ Listed n xs

abbrev pub is_eligible : Node → Bool
is_eligible n = is_online n && ltb_ℤ n.load (pos 80)

eligible-Listed :
    (m : GoMap Node) (n : Node) → Filed n m → is_eligible n ≡ true → Listed n (eligible_nodes m)
unfolding eligible_nodes
eligible-Listed [] n f e = f
eligible-Listed ((k, x) ∷ m) n (inl same) e = rw (ap is_eligible same ∙ e) (inl same)
eligible-Listed ((k, x) ∷ m) n (inr f) e = elim (Bool-cases (is_eligible x)) [
  | inl fit ↦ rw fit (inr (eligible-Listed m n f e))
  | inr unfit ↦ rw unfit (eligible-Listed m n f e)
]

file_more :
    (x n : Node) (m : GoMap Node)
    → Filed n m × (is_eligible n ≡ true)
    → ((x ≡ n) ⊎ Filed n m) × (is_eligible n ≡ true)
file_more x n m h = (inr h.0, h.1)

file_head :
    (x n : Node) (m : GoMap Node)
    → is_eligible x ≡ true
    → (Listed n (eligible_nodes m) → Filed n m × (is_eligible n ≡ true))
    → (x ≡ n) ⊎ Listed n (eligible_nodes m)
    → ((x ≡ n) ⊎ Filed n m) × (is_eligible n ≡ true)
file_head x n m fit below (inl same) = (inl same, ap is_eligible (sym same) ∙ fit)
file_head x n m fit below (inr f) = file_more x n m (below f)

eligible-Filed :
    (m : GoMap Node) (n : Node) → Listed n (eligible_nodes m) → Filed n m × (is_eligible n ≡ true)
unfolding eligible_nodes
eligible-Filed [] n f = absurd f
eligible-Filed ((k, x) ∷ m) n f = elim (Bool-cases (is_eligible x)) [
  | inl fit ↦ file_head x n m fit (eligible-Filed m n) (rw fit at f)
  | inr unfit ↦ file_more x n m (eligible-Filed m n (rw unfit at f))
]

IsLeast-head :
    (x n : Node) (ns : List Node) (b : ℤ)
    → b ≤ℤ n.load
    → ((y : Node) → Listed y ns → b ≤ℤ y.load)
    → Listed x (n ∷ ns)
    → b ≤ℤ x.load
IsLeast-head x n ns b h below (inl same) = subst (λ (z : Node). b ≤ℤ z.load) same h
IsLeast-head x n ns b h below (inr l) = below x l

-- A node of the list, and none of the list has a smaller load.
pub record IsLeast (n : Node) (ns : List Node) : Type 0 where
  pub listed : Listed n ns
  pub least : (x : Node) → Listed x ns → n.load ≤ℤ x.load

least_loaded-cases :
    (ns : List Node)
    → ((least_loaded ns ≡ none) × (ns ≡ []))
      ⊎ ((n : Node) × (least_loaded ns ≡ some n) × IsLeast n ns)
unfolding least_loaded
least_loaded-cases [] = inl (refl, refl)
least_loaded-cases (n ∷ ns) = elim (least_loaded-cases ns) [
  | inl (nothing, empty) ↦ rw nothing (
      inr (
        n,
        refl,
        record {
          listed = inl refl;
          least = λ x l.
              IsLeast-head x n ns n.load (omega arith) (λ y t. absurd (subst (Listed y) empty t)) l;
        },
      ))
  | inr (best, found, b) ↦ elim (Bool-cases (ltb_ℤ best.load n.load)) [
    | inl better ↦
        rw (found, better)
          (inr (
            best,
            refl,
            record {
              listed = inr b.listed;
              least = λ x l. IsLeast-head x n ns best.load (ground (arith, better)) b.least l;
            },
          ))
    | inr worse ↦
        let le : n.load ≤ℤ best.load = ground (arith, worse) in
        rw (found, worse)
          (inr (
            n,
            refl,
            record {
              listed = inl refl;
              least = λ x l.
                  IsLeast-head x n ns n.load (omega arith) (λ y t. omega (arith, le, b.least y t))
                    l;
            },
          ))
  ]
]

-- `selectNode` gives an online node of the map with a load below 80 such that no other such node has a smaller
-- load, or none, and then the map has no such node.
pub select_node_lem :
    (s : Scheduler)
    → ((select_node s ≡ none) × ((n : Node) → Filed n s.nodes → is_eligible n ≡ false))
      ⊎ ((n : Node) × (select_node s ≡ some n)
          × Filed n s.nodes
          × (is_eligible n ≡ true)
          × ((x : Node) → Filed x s.nodes → is_eligible x ≡ true → n.load ≤ℤ x.load))
unfolding select_node
select_node_lem s = elim (least_loaded-cases (eligible_nodes s.nodes)) [
  | inl (nothing, empty) ↦ inl (
    nothing,
    λ n f. elim (Bool-cases (is_eligible n)) [
      | inl fit ↦ absurd (subst (Listed n) empty (eligible-Listed s.nodes n f fit))
      | inr unfit ↦ unfit
    ],
  )
  | inr (n, found, b) ↦
      let home = eligible-Filed s.nodes n b.listed in
      inr (n, found, home.0, home.1, λ x f fit. b.least x (eligible-Listed s.nodes x f fit))
]
