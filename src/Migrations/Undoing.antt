-- ===== src/Migrations/Undoing.antt =====
-- Each script's downgrade against its upgrade. What an operation does to the database is a parameter.
use document_agent_api.Common.{
  ℕ, Text, text_eq, text_eq_iff, Bool, true, false, ◌&&◌, ◌≡◌, refl, sym, ap, subst, Option, none,
  some, List, [], ◌∷◌, Result, ok, Exec, pure, ◌>>◌, Result-cases, Bool-cases, Option-cases, inl,
  inr, arith, All-get_elem?, get_elem?, if◌then◌else◌,
}
use document_agent_api.Migrations.{
  Operation, create_table, drop_table, add_column, drop_column, alter_nullable,
  alter_server_default, create_index, drop_index, create_foreign_key, drop_constraint, upgrade_0001,
  downgrade_0001, upgrade_0002, downgrade_0002, upgrade_0003, downgrade_0003, upgrade_0004,
  downgrade_0004, upgrade_0005, downgrade_0005, upgrade_0006, downgrade_0006, upgrade_0007,
  downgrade_0007,
}

-- The operations over a database, and whether a column is NOT NULL.
pub record SchemaOps : Type 1 where
  pub Schema : Type 0
  pub apply : Operation → Exec Schema Unit
  pub is_not_null : Schema → (table column : Text) → Bool

-- The operation that takes an operation back.
abbrev pub undo_of : Operation → Option Operation
undo_of (create_table t columns) = some (drop_table t)
undo_of (add_column t c) = some (drop_column t c.name)
undo_of (alter_nullable t c true) = some (alter_nullable t c false)
undo_of (create_index name t columns unique) = some (drop_index name t)
undo_of (create_foreign_key name t referent columns referent_columns ondelete) =
    some (drop_constraint name t)
undo_of _ = none

-- What an operation can only be taken back from: a column becomes nullable that was not.
abbrev pub presumes : (S : SchemaOps) → Operation → S.Schema → Bool
presumes S (alter_nullable t c true) s = S.is_not_null s t c
presumes S _ s = true

-- A database that takes back what it has done, and where a dropped column takes its default with it.
pub record SchemaLaws (S : SchemaOps) : Type 0 where
  pub undo :
      (o p : Operation) (s s1 : S.Schema)
      → undo_of o ≡ some p
      → presumes S o s ≡ true
      → S.apply o s ≡ (ok tt, s1)
      → S.apply p s1 ≡ (ok tt, s)
  pub drop_altered :
      (t c : Text) (d : Option Text) (s s1 : S.Schema)
      → S.apply (alter_server_default t c d) s ≡ (ok tt, s1)
      → S.apply (drop_column t c) s1 ≡ S.apply (drop_column t c) s

-- The last of the operations adds the column.
abbrev adds : Text → Text → List Operation → Bool
adds t c (add_column u d ∷ rest) = text_eq u t && text_eq d.name c
adds t c _ = false

-- The operations that take others back, given with the last one first; a default that is changed just
-- after its column was added needs none.
unfoldable undo_all : List Operation → Option (List Operation)
undo_all [] = some []
undo_all (alter_server_default t c d ∷ rest) =
    let undone = undo_all rest in if adds t c rest then undone else none
undo_all (o ∷ rest) =
    let undone = undo_all rest in
    elim (undo_of o) [
      | none ↦ none
      | some p ↦ elim undone [ none ↦ none | some ps ↦ some (p ∷ ps) ]
    ]

heads :
    (t c : Text) (rest ps : List Operation)
    → adds t c rest ≡ true
    → undo_all rest ≡ some ps
    → (qs : List Operation) × (ps ≡ drop_column t c ∷ qs)
unfolding undo_all
heads t c (add_column u d ∷ rest) ps a h = elim (Option-cases (undo_all rest)) [
  | inl e ↦ absurd (ground arith)
  | inr (qs, e) ↦ (qs, ground (arith, text_eq_iff u t, text_eq_iff d.name c))
]
heads t c [] ps a h = absurd (ground arith)
heads t c (create_table u x ∷ rest) ps a h = absurd (ground arith)
heads t c (drop_table u ∷ rest) ps a h = absurd (ground arith)
heads t c (drop_column u x ∷ rest) ps a h = absurd (ground arith)
heads t c (alter_nullable u x y ∷ rest) ps a h = absurd (ground arith)
heads t c (alter_server_default u x y ∷ rest) ps a h = absurd (ground arith)
heads t c (create_index u x y z ∷ rest) ps a h = absurd (ground arith)
heads t c (drop_index u x ∷ rest) ps a h = absurd (ground arith)
heads t c (create_foreign_key u x y z v r ∷ rest) ps a h = absurd (ground arith)
heads t c (drop_constraint u x ∷ rest) ps a h = absurd (ground arith)

abbrev onto : List Operation → List Operation → List Operation
onto [] done = done
onto (o ∷ os) done = onto os (o ∷ done)

abbrev scripts : List (List Operation × List Operation)
scripts =
    (upgrade_0001, downgrade_0001)
    ∷ (upgrade_0002, downgrade_0002)
    ∷ (upgrade_0003, downgrade_0003)
    ∷ (upgrade_0004, downgrade_0004)
    ∷ (upgrade_0005, downgrade_0005)
    ∷ (upgrade_0006, downgrade_0006)
    ∷ (upgrade_0007, downgrade_0007)
    ∷ []

-- The n-th script: the operations of its `upgrade` and of its `downgrade`.
unfoldable pub script : ℕ → Option (List Operation × List Operation)
script n = get_elem? scripts n

abbrev IsUndone : List Operation × List Operation → Type 0
IsUndone script = undo_all (onto script.0 []) ≡ some script.1

script-IsUndone :
    (n : ℕ) (up down : List Operation) → script n ≡ some (up, down) → IsUndone (up, down)
unfolding undo_all script text_eq
script-IsUndone n up down e =
    All-get_elem? IsUndone scripts n (up, down)
      (refl, (refl, (refl, (refl, (refl, (refl, (refl, tt))))))) e

module _ (S : SchemaOps) where
  -- The operations of a script, up to the first that raises.
  unfoldable pub run : List Operation → Exec S.Schema Unit
  run [] = pure tt
  run (o ∷ os) = do S.apply o; run os

  -- Each operation presumes what holds where it stands.
  abbrev pub Presumed : List Operation → S.Schema → Type 0
  Presumed [] s = Unit
  Presumed (o ∷ os) s = (presumes S o s ≡ true) × Presumed os (S.apply o s).1

  -- Operations that led from one schema to another, the last one first.
  unfoldable Ran : List Operation → S.Schema → S.Schema → Type 0
  Ran [] s s' = s ≡ s'
  Ran (o ∷ rest) s s' =
      (s1 : S.Schema) × Ran rest s s1 × (presumes S o s1 ≡ true) × (S.apply o s1 ≡ (ok tt, s'))

  run-Ran :
      (os done : List Operation) (s0 s s' : S.Schema)
      → Ran done s0 s
      → Presumed os s
      → run os s ≡ (ok tt, s')
      → Ran (onto os done) s0 s'
  unfolding Ran run
  run-Ran [] done s0 s s' r p h =
      subst (λ x. Ran done s0 x) (ap (λ (x : Result (Unit {0}) × S.Schema). x.1) h) r
  run-Ran (o ∷ os) done s0 s s' r (p, ps) h = elim (Result-cases (S.apply o s).0) [
    | inr (e, q) ↦ absurd (ground arith)
    | inl (_, q) ↦
        run-Ran os (o ∷ done) s0 (S.apply o s).1 s' (s, r, p, ground arith) ps (ground arith)
  ]

  module _ (L : SchemaLaws S) where
    taken :
        (o p : Operation) (ps : List Operation) (s s1 s' : S.Schema)
        → undo_of o ≡ some p
        → presumes S o s1 ≡ true
        → S.apply o s1 ≡ (ok tt, s')
        → run ps s1 ≡ (ok tt, s)
        → run (p ∷ ps) s' ≡ (ok tt, s)
    unfolding run
    taken o p ps s s1 s' u q a r = ground (arith, L.undo o p s1 s' u q a, r)

    -- One more operation on the stack, whose undoing stands before the others'.
    stacked :
        (o p : Operation) (rest ps : List Operation) (s s' : S.Schema)
        → undo_of o ≡ some p
        → undo_all (o ∷ rest) ≡ (elim (undo_all rest) [ none ↦ none | some qs ↦ some (p ∷ qs) ])
        → undo_all (o ∷ rest) ≡ some ps
        → ((qs : List Operation) (s1 : S.Schema)
            → undo_all rest ≡ some qs
            → Ran rest s s1
            → run qs s1 ≡ (ok tt, s))
        → Ran (o ∷ rest) s s'
        → run ps s' ≡ (ok tt, s)
    unfolding Ran
    stacked o p rest ps s s' u d h ih (s1, r, q, a) = elim (Option-cases (undo_all rest)) [
      | inl n ↦ absurd (ground arith)
      | inr (qs, n) ↦
          let same : p ∷ qs ≡ ps = ground arith in
          subst (λ l. run l s' ≡ (ok tt, s)) same (taken o p qs s s1 s' u q a (ih qs s1 n r))
    ]

    -- A default that was changed just after its column was added.
    altered :
        (t c : Text) (d : Option Text) (rest ps : List Operation) (s s' : S.Schema)
        → adds t c rest ≡ true
        → undo_all rest ≡ some ps
        → ((s1 : S.Schema) → Ran rest s s1 → run ps s1 ≡ (ok tt, s))
        → Ran (alter_server_default t c d ∷ rest) s s'
        → run ps s' ≡ (ok tt, s)
    unfolding Ran run
    altered t c d rest ps s s' a h ih (s1, r, q, alter) =
        let (qs, e) = heads t c rest ps a h in
        let before : run (drop_column t c ∷ qs) s1 ≡ (ok tt, s) =
          subst (λ l. run l s1 ≡ (ok tt, s)) e (ih s1 r) in
        let after : run (drop_column t c ∷ qs) s' ≡ (ok tt, s) =
          ground (arith, before, L.drop_altered t c d s1 s' alter) in
        subst (λ l. run l s' ≡ (ok tt, s)) (sym e) after

    undone :
        (stack ps : List Operation) (s s' : S.Schema)
        → undo_all stack ≡ some ps
        → Ran stack s s'
        → run ps s' ≡ (ok tt, s)
    unfolding undo_all
    undone [] ps s s' h r = unfold run Ran in ground arith
    undone (create_table t x ∷ rest) ps s s' h r =
        stacked (create_table t x) (drop_table t) rest ps s s' refl refl h
          (λ qs s1. undone rest qs s s1) r
    undone (add_column t x ∷ rest) ps s s' h r =
        stacked (add_column t x) (drop_column t x.name) rest ps s s' refl refl h
          (λ qs s1. undone rest qs s s1) r
    undone (alter_nullable t x true ∷ rest) ps s s' h r =
        stacked (alter_nullable t x true) (alter_nullable t x false) rest ps s s' refl refl h
          (λ qs s1. undone rest qs s s1) r
    undone (create_index name t x unique ∷ rest) ps s s' h r =
        stacked (create_index name t x unique) (drop_index name t) rest ps s s' refl refl h
          (λ qs s1. undone rest qs s s1) r
    undone (create_foreign_key name t u x y z ∷ rest) ps s s' h r =
        stacked (create_foreign_key name t u x y z) (drop_constraint name t) rest ps s s' refl refl
          h (λ qs s1. undone rest qs s s1) r
    undone (alter_server_default t c d ∷ rest) ps s s' h r = elim (Bool-cases (adds t c rest)) [
      | inr a ↦ absurd (ground arith)
      | inl a ↦
          altered t c d rest ps s s' a (ground arith) (λ s1. undone rest ps s s1 (ground arith)) r
    ]
    undone (alter_nullable t x false ∷ rest) ps s s' h r = absurd (ground arith)
    undone (drop_table t ∷ rest) ps s s' h r = absurd (ground arith)
    undone (drop_column t x ∷ rest) ps s s' h r = absurd (ground arith)
    undone (drop_index t x ∷ rest) ps s s' h r = absurd (ground arith)
    undone (drop_constraint t x ∷ rest) ps s s' h r = absurd (ground arith)

    -- A script whose downgrade is its upgrade undone, step by step from the end.
    taken_back :
        (up down : List Operation) (s s' : S.Schema)
        → undo_all (onto up []) ≡ some down
        → Presumed up s
        → run up s ≡ (ok tt, s')
        → run down s' ≡ (ok tt, s)
    taken_back up down s s' u p h =
        undone (onto up []) down s s' u (run-Ran up [] s s s' (unfold Ran in refl) p h)

    -- Each of the seven downgrades takes back its upgrade: where the operations of a script's `upgrade`
    -- ran and the columns that it makes nullable were not nullable before, the operations of its
    -- `downgrade` run after it, without an error, and leave the schema as it was before the upgrade.
    pub downgrade-upgrade :
        (n : ℕ) (up down : List Operation) (s s' : S.Schema)
        → script n ≡ some (up, down)
        → Presumed up s
        → run up s ≡ (ok tt, s')
        → run down s' ≡ (ok tt, s)
    unfolding undo_all
    downgrade-upgrade n up down s s' e p h =
        taken_back up down s s' (script-IsUndone n up down e) p h
