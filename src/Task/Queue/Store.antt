-- ===== src/Task/Queue/Store.antt =====
-- The map of tasks and the store that its references point into.
use afd.Prelude.{
  ℕ, ◌+◌, ◌≡◌, refl, ap, sym, ◌∙◌, Bool, true, false, [], ◌∷◌, some, String, str_eq, eq_iff, GoMap,
  lookup, insert, delete, has_key, arith, if◌then◌else◌, ◌==◌, Bool-cases, inl, inr,
}
use afd.Task.Model.{Task, TaskStatus}
use afd.Task.Queue.{update}

-- Every task is filed under its own identifier, and no identifier occurs twice.
abbrev pub Keyed : (ℕ → Task) → GoMap ℕ → Type 0
Keyed st [] = Unit {0}
Keyed st ((id, r) ∷ m) = ((st r).id ≡ id) × (has_key id m ≡ false) × Keyed st m

-- How many tasks of the map have a status that passes.
unfoldable pub count_tasks : (TaskStatus → Bool) → (ℕ → Task) → GoMap ℕ → ℕ
count_tasks p st [] = 0
count_tasks p st ((id, r) ∷ m) = (if p (st r).status then 1 else 0) + count_tasks p st m

abbrev pub KeepsId : (Task → Task) → Type 0
KeepsId f = (t : Task) → (f t).id ≡ t.id

-- A change that keeps the identifiers keeps the map well keyed.
pub Keyed-update :
    (st : ℕ → Task) (m : GoMap ℕ) (r : ℕ) (f : Task → Task)
    → KeepsId f
    → Keyed st m
    → Keyed (update st r f) m
Keyed-update st [] r f h k = tt
Keyed-update st ((id, x) ∷ m) r f h k =
    (ground (arith, h (st x), k.0), k.1, Keyed-update st m r f h k.2)

pub lookup-id :
    (st : ℕ → Task) (m : GoMap ℕ) (id : String) (r : ℕ)
    → Keyed st m
    → lookup id m ≡ some r
    → (st r).id ≡ id
unfolding lookup
lookup-id st [] id r k e = cc
lookup-id st ((j, x) ∷ m) id r k e = ground (arith, eq_iff j id, k.0, lookup-id st m id r k.2)

-- A task that is not in the map under its identifier is not in the map.
count_tasks-update_other :
    (p : TaskStatus → Bool) (st : ℕ → Task) (m : GoMap ℕ) (r : ℕ) (f : Task → Task)
    → Keyed st m
    → has_key (st r).id m ≡ false
    → count_tasks p (update st r f) m ≡ count_tasks p st m
unfolding count_tasks has_key
count_tasks-update_other p st [] r f k h = refl
count_tasks-update_other p st ((j, x) ∷ m) r f k h = elim (Bool-cases (x == r)) [
  | inl same ↦
      let e : x ≡ r = ground arith in
      absurd (cc (rw ((eq_iff j (st r).id).1 (sym k.0 ∙ ap (λ y. (st y).id) e)) at h))
  | inr other ↦ ground (arith, other, count_tasks-update_other p st m r f k.2)
]

-- A change of one task of the map changes the count by that task's share.
pub count_tasks-update :
    (p : TaskStatus → Bool) (st : ℕ → Task) (m : GoMap ℕ) (id : String) (r : ℕ) (f : Task → Task)
    → Keyed st m
    → lookup id m ≡ some r
    → count_tasks p (update st r f) m + (if p (st r).status then 1 else 0)
      ≡ count_tasks p st m + (if p (f (st r)).status then 1 else 0)
unfolding count_tasks lookup
count_tasks-update p st [] id r f k e = cc
count_tasks-update p st ((j, x) ∷ m) id r f k e = elim (Bool-cases (str_eq j id)) [
  | inl here ↦
      let same : x ≡ r = ground arith in
      let key : (st r).id ≡ j = rw same at k.0 in
      rw same
        (ground (arith, count_tasks-update_other p st m r f k.2 (ap (λ i. has_key i m) key ∙ k.1)))
  | inr there ↦ elim (Bool-cases (x == r)) [
    | inl same ↦
        let e' : x ≡ r = ground arith in
        let in_rest : lookup id m ≡ some r = ground arith in
        let key : id ≡ j =
          sym (lookup-id st m id r k.2 in_rest) ∙ ap (λ y. (st y).id) (sym e') ∙ k.0 in
        absurd (cc (rw ((eq_iff j id).1 (sym key)) at there))
    | inr other ↦ ground (arith, there, other, count_tasks-update p st m id r f k.2)
  ]
]

has_key-insert :
    (id j : String) (r : ℕ) (m : GoMap ℕ)
    → has_key j (insert id r m) ≡ (if str_eq id j then true else has_key j m)
unfolding has_key insert
has_key-insert id j r [] = ground arith
has_key-insert id j r ((i, x) ∷ m) =
    ground (arith, eq_iff id j, eq_iff i id, eq_iff i j, has_key-insert id j r m)

has_key-delete_self :
    (id j : String) (m : GoMap ℕ) → has_key j m ≡ false → has_key j (delete id m) ≡ false
unfolding has_key delete
has_key-delete_self id j [] h = refl
has_key-delete_self id j ((i, x) ∷ m) h = ground (arith, has_key-delete_self id j m)

pub Keyed-insert :
    (st : ℕ → Task) (m : GoMap ℕ) (r : ℕ)
    → has_key (st r).id m ≡ false
    → Keyed st m
    → Keyed st (insert (st r).id r m)
unfolding insert has_key
Keyed-insert st [] r h k = (refl, refl, tt)
Keyed-insert st ((j, x) ∷ m) r h k =
    let other : str_eq j (st r).id ≡ false = ground arith in
    rw other (
      k.0,
      ground (
        arith,
        has_key-insert (st r).id j r m,
        k.1,
        other,
        eq_iff j (st r).id,
        eq_iff (st r).id j,
      ),
      Keyed-insert st m r (ground (arith, other)) k.2,
    )

pub count_tasks-insert :
    (p : TaskStatus → Bool) (st : ℕ → Task) (m : GoMap ℕ) (id : String) (r : ℕ)
    → has_key id m ≡ false
    → count_tasks p st (insert id r m) ≡ count_tasks p st m + (if p (st r).status then 1 else 0)
unfolding count_tasks insert has_key
count_tasks-insert p st [] id r h = ground arith
count_tasks-insert p st ((j, x) ∷ m) id r h = ground (arith, count_tasks-insert p st m id r)

pub Keyed-delete : (st : ℕ → Task) (m : GoMap ℕ) (id : String) → Keyed st m → Keyed st (delete id m)
unfolding delete
Keyed-delete st [] id k = tt
Keyed-delete st ((j, x) ∷ m) id k = elim (Bool-cases (str_eq j id)) [
  | inl here ↦ rw here (Keyed-delete st m id k.2)
  | inr there ↦ rw there (k.0, has_key-delete_self id j m k.1, Keyed-delete st m id k.2)
]

delete-absent : (id : String) (m : GoMap ℕ) → has_key id m ≡ false → delete id m ≡ m
unfolding has_key delete
delete-absent id [] h = refl
delete-absent id ((j, x) ∷ m) h = ground (arith, delete-absent id m)

pub count_tasks-delete :
    (p : TaskStatus → Bool) (st : ℕ → Task) (m : GoMap ℕ) (id : String) (r : ℕ)
    → Keyed st m
    → lookup id m ≡ some r
    → count_tasks p st (delete id m) + (if p (st r).status then 1 else 0) ≡ count_tasks p st m
unfolding count_tasks lookup delete
count_tasks-delete p st [] id r k e = cc
count_tasks-delete p st ((j, x) ∷ m) id r k e = elim (Bool-cases (str_eq j id)) [
  | inl here ↦
      let same : x ≡ r = ground arith in
      let key : j ≡ id = (eq_iff j id).0 here in
      rw (here, delete-absent id m (ap (λ i. has_key i m) (sym key) ∙ k.1), same) (omega arith)
  | inr there ↦ ground (arith, there, count_tasks-delete p st m id r k.2)
]
