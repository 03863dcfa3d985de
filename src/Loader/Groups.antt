-- ===== src/Loader/Groups.antt =====
-- The groups that `discover` makes, by condition.
use time_sensitive_packet.Base.{
  ℕ, ◌≡◌, ◌≤◌, refl, sym, ap, ◌∙◌, Bool, true, false, Option, none, some, List, [], ◌∷◌, ◌++◌,
  arith, ltb, if◌then◌else◌, Bool-cases, inl, inr, Result, ok, map_result, OnOk, OnOk-bind,
  OnOk-imp, OnOk-self, Text, text_eq, lookup, lookup-insert, count_if, all, leb,
}
use time_sensitive_packet.Floats.{FloatOps}
use time_sensitive_packet.Loader.{
  Table, Run, load_csv, listed, group, group_all, index_key, insert_run, sort_runs, sort_groups,
  discover,
}

module _ (F : FloatOps) (float_of : Text → Result F.Float) where
  -- The runs of one condition, in the order they were read.
  abbrev pub runs_of : Text → List (Run F) → List (Run F)
  runs_of c [] = []
  runs_of c (r ∷ runs) = if text_eq.beq c r.condition then r ∷ runs_of c runs else runs_of c runs

  -- A group is there if it has a run.
  abbrev grouped : List (Run F) → Option (List (Run F))
  grouped [] = none
  grouped (r ∷ runs) = some (r ∷ runs)

  abbrev pub sorted_group : List (Run F) → Option (List (Run F))
  sorted_group [] = none
  sorted_group (r ∷ runs) = some (sort_runs F float_of (r ∷ runs))

  abbrev pub load : Text × Table → Result (Run F)
  load (stem, table) = load_csv F float_of stem table

  abbrev Groups : Type 0
  Groups = List (Text × List (Run F))

  abbrev Holds : List (Run F) → Groups → Type 0
  Holds runs groups = (c : Text) → lookup c groups ≡ grouped (runs_of c runs)

  append_nil : (runs : List (Run F)) → runs ++ [] ≡ runs
  append_nil [] = refl
  append_nil (r ∷ runs) = ap (λ rs. r ∷ rs) (append_nil runs)

  append_assoc :
      (runs : List (Run F)) (r : Run F) (more : List (Run F))
      → (runs ++ r ∷ []) ++ more ≡ runs ++ r ∷ more
  append_assoc [] r more = refl
  append_assoc (s ∷ runs) r more = ap (λ rs. s ∷ rs) (append_assoc runs r more)

  grouped-snoc :
      (runs : List (Run F)) (r : Run F) → grouped (runs ++ r ∷ []) ≡ some (runs ++ r ∷ [])
  grouped-snoc [] r = refl
  grouped-snoc (s ∷ runs) r = refl

  runs_of-snoc :
      (c : Text) (runs : List (Run F)) (r : Run F)
      → runs_of c (runs ++ r ∷ [])
        ≡ (if text_eq.beq c r.condition then runs_of c runs ++ r ∷ [] else runs_of c runs)
  runs_of-snoc c [] r = refl
  runs_of-snoc c (s ∷ runs) r = ground (arith, runs_of-snoc c runs r)

  listed-grouped : (runs : List (Run F)) → listed F float_of (grouped runs) ≡ runs
  listed-grouped [] = refl
  listed-grouped (r ∷ runs) = refl

  group-Holds :
      (runs : List (Run F)) (r : Run F) (groups : Groups)
      → Holds runs groups
      → Holds (runs ++ r ∷ []) (group F float_of r groups)
  group-Holds runs r groups h c = elim (Bool-cases (text_eq.beq c r.condition)) [
    | inl same ↦
        lookup-insert r.condition c (listed F float_of (lookup r.condition groups) ++ r ∷ []) groups
        ∙ if_true _ _ same
        ∙ ap (λ rs. some (rs ++ r ∷ []))
            (ap (listed F float_of) (h r.condition)
              ∙ listed-grouped (runs_of r.condition runs)
              ∙ ap (λ d. runs_of d runs) (sym ((text_eq.beq_iff c r.condition).0 same)))
        ∙ sym (grouped-snoc (runs_of c runs) r)
        ∙ ap grouped (sym (runs_of-snoc c runs r ∙ if_true _ _ same))
    | inr other ↦
        lookup-insert r.condition c (listed F float_of (lookup r.condition groups) ++ r ∷ []) groups
        ∙ if_false _ _ other
        ∙ h c
        ∙ ap grouped (sym (runs_of-snoc c runs r ∙ if_false _ _ other))
  ]
    where
      if_true : {A : Type 0} {b : Bool} (x y : A) → b ≡ true → (if b then x else y) ≡ x
      if_true x y e = rw e refl

      if_false : {A : Type 0} {b : Bool} (x y : A) → b ≡ false → (if b then x else y) ≡ y
      if_false x y e = rw e refl

  group_all-Holds :
      (files : List (Text × Table)) (runs : List (Run F)) (groups : Groups)
      → Holds runs groups
      → OnOk
          (λ after.
            (more : List (Run F)) × (map_result load files ≡ ok more) × Holds (runs ++ more) after)
          (group_all F float_of files groups)
  unfolding group_all
  group_all-Holds [] runs groups h =
      ([], refl, λ c. h c ∙ ap (λ rs. grouped (runs_of c rs)) (sym (append_nil runs)))
  group_all-Holds ((stem, table) ∷ files) runs groups h =
      let P = λ (after : Groups).
        (more : List (Run F)) × (map_result load ((stem, table) ∷ files) ≡ ok more)
        × Holds (runs ++ more) after in
      OnOk-bind (λ r. load_csv F float_of stem table ≡ ok r) P (load_csv F float_of stem table)
        (λ r. group_all F float_of files (group F float_of r groups))
        (OnOk-self (load_csv F float_of stem table))
        (λ r e.
          OnOk-imp
            (λ after.
              (more : List (Run F)) × (map_result load files ≡ ok more)
              × Holds ((runs ++ r ∷ []) ++ more) after)
            P (group_all F float_of files (group F float_of r groups))
            (λ after (more, loaded, holds). (
              r ∷ more,
              rw (e, loaded) refl,
              λ c. holds c ∙ ap (λ rs. grouped (runs_of c rs)) (append_assoc runs r more),
            ))
            (group_all-Holds files (runs ++ r ∷ []) (group F float_of r groups)
              (group-Holds runs r groups h)))

  -- No run stands behind one with a larger index; a run without an index stands before all others.
  abbrev pub IsOrdered : List (Run F) → Type 0
  IsOrdered [] = Unit
  IsOrdered (r ∷ runs) =
      (all (λ s. leb (index_key F float_of r) (index_key F float_of s)) runs ≡ true)
      × IsOrdered runs

  all-insert_run :
      (p : Run F → Bool) (r : Run F) (runs : List (Run F))
      → p r ≡ true
      → all p runs ≡ true
      → all p (insert_run F float_of r runs) ≡ true
  all-insert_run p r [] h a = ground arith
  all-insert_run p r (s ∷ runs) h a = ground (arith, all-insert_run p r runs h)

  all_later :
      (k m : ℕ) (runs : List (Run F))
      → k ≤ m
      → all (λ s. leb m (index_key F float_of s)) runs ≡ true
      → all (λ s. leb k (index_key F float_of s)) runs ≡ true
  all_later k m [] le a = refl
  all_later k m (s ∷ runs) le a = ground (arith, all_later k m runs le)

  insert_run-IsOrdered :
      (r : Run F) (runs : List (Run F)) → IsOrdered runs → IsOrdered (insert_run F float_of r runs)
  insert_run-IsOrdered r [] o = (refl, tt)
  insert_run-IsOrdered r (s ∷ runs) o =
      let key = index_key F float_of in
      elim (Bool-cases (ltb (key s) (key r))) [
        | inl less ↦ rw less (
          all-insert_run (λ t. leb (key s) (key t)) r runs (ground arith) o.0,
          insert_run-IsOrdered r runs o.1,
        )
        | inr geq ↦
            let le : key r ≤ key s = ground arith in
            rw geq (ground (arith, all_later (key r) (key s) runs le o.0), (o.0, o.1))
      ]

  sort_runs-IsOrdered : (runs : List (Run F)) → IsOrdered (sort_runs F float_of runs)
  sort_runs-IsOrdered [] = tt
  sort_runs-IsOrdered (r ∷ runs) =
      insert_run-IsOrdered r (sort_runs F float_of runs) (sort_runs-IsOrdered runs)

  count_if-sort_runs :
      (p : Run F → Bool) (runs : List (Run F))
      → count_if p (sort_runs F float_of runs) ≡ count_if p runs
  count_if-sort_runs p [] = refl
  count_if-sort_runs p (r ∷ runs) =
      ground (arith, count_if-insert r (sort_runs F float_of runs), count_if-sort_runs p runs)
    where
      count_if-insert :
          (r : Run F) (runs : List (Run F))
          → count_if p (insert_run F float_of r runs) ≡ count_if p (r ∷ runs)
      count_if-insert r [] = refl
      count_if-insert r (s ∷ runs) = ground (arith, count_if-insert r runs)

  abbrev sort_option : Option (List (Run F)) → Option (List (Run F))
  sort_option none = none
  sort_option (some runs) = some (sort_runs F float_of runs)

  lookup-sort_groups :
      (c : Text) (groups : Groups)
      → lookup c (sort_groups F float_of groups) ≡ sort_option (lookup c groups)
  lookup-sort_groups c [] = refl
  lookup-sort_groups c ((d, runs) ∷ groups) = elim (Bool-cases (text_eq.beq c d)) [
    | inl same ↦ rw same refl
    | inr other ↦ rw other (lookup-sort_groups c groups)
  ]

  sort_option-grouped : (runs : List (Run F)) → sort_option (grouped runs) ≡ sorted_group runs
  sort_option-grouped [] = refl
  sort_option-grouped (r ∷ runs) = refl

  -- What `discover` returns, from the runs that its files load to: the runs of a condition are
  -- the group of that condition, in the order of their indices, and no run is lost or twice.
  pub record IsDiscovered (files : List (Text × Table)) (groups : Groups) : Type 0 where
    pub runs : List (Run F)
    pub loaded : map_result load files ≡ ok runs
    pub group_lem : (c : Text) → lookup c groups ≡ sorted_group (runs_of c runs)
    pub ordered : (c : Text) → IsOrdered (sort_runs F float_of (runs_of c runs))
    pub counts :
        (c : Text) (p : Run F → Bool)
        → count_if p (sort_runs F float_of (runs_of c runs)) ≡ count_if p (runs_of c runs)

  -- If `discover` returns, every file has loaded, the group of a condition is the runs of that
  -- condition sorted by their index, each as often as before, and a condition without a run has no
  -- group.
  pub discover-IsDiscovered :
      (files : List (Text × Table)) → OnOk (IsDiscovered files) (discover F float_of files)
  unfolding discover
  discover-IsDiscovered files =
      OnOk-bind
        (λ after. (more : List (Run F)) × (map_result load files ≡ ok more) × Holds more after)
        (IsDiscovered files) (group_all F float_of files [])
        (λ groups. ok (sort_groups F float_of groups)) (group_all-Holds files [] [] (λ c. refl))
        (λ groups (more, loaded, holds). record {
          runs = more;
          loaded = loaded;
          group_lem = λ c.
              lookup-sort_groups c groups
              ∙ ap sort_option (holds c)
              ∙ sort_option-grouped (runs_of c more);
          ordered = λ c. sort_runs-IsOrdered (runs_of c more);
          counts = λ c p. count_if-sort_runs p (runs_of c more);
        })
