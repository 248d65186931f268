-- ===== src/Portal/Database/Migrations.antt =====
-- Every migration is applied once, and a start after a completed one changes nothing.
use mathlib.Core.List.{append-nil, append_assoc}
use cascade_vpn.Base.{
  ◌≡◌, refl, ap, sym, ◌∙◌, subst, String, Bool, true, false, ◌||◌, Option, none, some, List, [],
  ◌∷◌, ◌++◌, All, any, str_eq, str_eq_refl, if◌then◌else◌, arith,
}
use cascade_vpn.Portal.Database.{
  Migration, Store, Outcome, completed, failed, is_applied, commit, rollback, run_script,
  after_script, apply_each, initialize,
}

-- The names of the files that are not applied, in their order.
pub fresh_names : List String → List Migration → List String
fresh_names applied [] = []
fresh_names applied (m ∷ ms) =
    let rest = fresh_names applied ms in if is_applied applied m.name then rest else m.name ∷ rest

module _ {S : Type 0} (execute : String → S → S × Bool) where
  -- A completed loop has committed, and recorded the new versions in their order.
  pub record Recorded (fresh : List String) (s s' : Store S) : Type 0 where
    pub settled : s'.pending ≡ []
    pub recorded : s'.versions ≡ s.versions ++ (s.pending ++ fresh)

  abbrev Ended : List String → Store S → Store S × Outcome → Type 0
  Ended fresh s (s', completed) = Recorded fresh s s'
  Ended fresh s (s', failed) = Unit

  module _ (name : String) (fresh : List String) (s : Store S) (rest : Store S → Store S × Outcome)
      (rest-Ended : (t : Store S) → Ended fresh t (rest t)) where
    abbrev begun : S → Store S
    begun tables = record (commit execute s) { tables = tables; pending = name ∷ [] }

    one_more :
        (tables : S) (x : Store S × Outcome)
        → Ended fresh (begun tables) x
        → Ended (name ∷ fresh) s x
    one_more tables (s', failed) h = tt
    one_more tables (s', completed) h = record {
      settled = h.settled;
      recorded = h.recorded ∙ append_assoc s.versions s.pending (name ∷ fresh);
    }

    run-Ended :
        (x : S × Bool)
        → Ended
            (name ∷ fresh)
            s
            (after_script execute name (record (commit execute s) { tables = x.0 }, x.1) rest)
    run-Ended (tables, false) = tt
    run-Ended (tables, true) = one_more tables (rest (begun tables)) (rest-Ended (begun tables))

    step-Ended :
        (applied : Bool) (script : Option String)
        → Ended (if applied then fresh else name ∷ fresh) s (
            if applied then rest s else elim script [
              | none ↦ (rollback execute s, failed)
              | some text ↦ after_script execute name (run_script execute text s) rest
            ])
    step-Ended true script = rest-Ended s
    step-Ended false none = tt
    step-Ended false (some text) = run-Ended (execute text s.tables)

  apply_each-Ended :
      (applied : List String) (ms : List Migration) (s : Store S)
      → Ended (fresh_names applied ms) s (apply_each execute applied ms s)
  unfolding apply_each fresh_names
  apply_each-Ended applied [] s = record {
    settled = refl;
    recorded = ap (λ t. s.versions ++ t) (sym (append-nil s.pending));
  }
  apply_each-Ended applied (m ∷ ms) s =
      step-Ended m.name (fresh_names applied ms) s (apply_each execute applied ms)
        (apply_each-Ended applied ms) (is_applied applied m.name) m.script

  -- Where every version is recorded and nothing is pending, the loop leaves the database as it is.
  no_new_version :
      (applied : List String) (ms : List Migration) (s : Store S)
      → All (λ m. is_applied applied m.name ≡ true) ms
      → s.pending ≡ []
      → apply_each execute applied ms s ≡ (s, completed)
  unfolding apply_each
  no_new_version applied [] s h e =
      ap (λ v. (record s { versions = v; pending = [] }, completed))
        (ap (λ t. s.versions ++ t) e ∙ append-nil s.versions)
      ∙ ap (λ t. (record s { pending = t }, completed)) (sym e)
  no_new_version applied (m ∷ ms) s h e = ground (arith, no_new_version applied ms s h.1 e)

  any-append : (p : String → Bool) (xs ys : List String) → any p (xs ++ ys) ≡ (any p xs || any p ys)
  any-append p [] ys = refl
  any-append p (x ∷ xs) ys = ground (arith, any-append p xs ys)

  All-weaken {ℓ} :
      {A : Type ℓ} {P Q : A → Type 0} (f : (a : A) → P a → Q a) (xs : List A) → All P xs → All Q xs
  All-weaken f [] h = tt
  All-weaken f (x ∷ xs) h = (f x h.0, All-weaken f xs h.1)

  abbrev Covers : List String → List String → Migration → Type 0
  Covers applied fresh m = (is_applied applied m.name || is_applied fresh m.name) ≡ true

  still-Covers :
      (applied : List String) (m : Migration) (fresh : List String) (n : Migration)
      → Covers applied fresh n
      → Covers applied (if is_applied applied m.name then fresh else m.name ∷ fresh) n
  still-Covers applied m fresh n h = ground arith

  fresh-Covers :
      (applied : List String) (ms : List Migration)
      → All (Covers applied (fresh_names applied ms)) ms
  unfolding fresh_names
  fresh-Covers applied [] = tt
  fresh-Covers applied (m ∷ ms) =
      let fresh = fresh_names applied ms in
      (
        ground (arith, str_eq_refl m.name),
        All-weaken (still-Covers applied m fresh) ms (fresh-Covers applied ms),
      )

  is_recorded :
      (applied fresh versions : List String)
      → versions ≡ applied ++ fresh
      → (m : Migration) → Covers applied fresh m
      → is_applied versions m.name ≡ true
  is_recorded applied fresh versions e m h =
      ap (λ t. is_applied t m.name) e ∙ any-append (str_eq m.name) applied fresh ∙ h

  -- A start that completes records each new version once, in the order of the files, and a second
  -- start then runs no script and changes nothing.
  pub initialize_twice :
      (ms : List Migration) (s s' : Store S)
      → s.pending ≡ []
      → initialize execute ms s ≡ (s', completed)
      → (s'.versions ≡ s.versions ++ fresh_names s.versions ms)
        × (initialize execute ms s' ≡ (s', completed))
  unfolding initialize
  initialize_twice ms s s' e h =
      let done = subst (Ended (fresh_names s.versions ms) s) h (apply_each-Ended s.versions ms s) in
      let recorded = done.recorded ∙ ap (λ t. s.versions ++ (t ++ fresh_names s.versions ms)) e in
      let known =
        All-weaken (is_recorded s.versions (fresh_names s.versions ms) s'.versions recorded) ms
          (fresh-Covers s.versions ms) in
      (recorded, no_new_version s'.versions ms s' known done.settled)
