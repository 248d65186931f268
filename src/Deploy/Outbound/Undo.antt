-- ===== src/Deploy/Outbound/Undo.antt =====
-- The exchange of the command apply, where no other program changes the template and at most one step
-- fails.
use cascade_vpn.Base.{
  ◌≡◌, refl, ap, ◌∙◌, String, Bool, true, false, Option, none, some, ◌⊎◌, inl, inr, List, [], ◌∷◌,
  str_eq_refl, if◌then◌else◌, Result, ok, err,
}
use cascade_vpn.Deploy.Outbound.Template.{Credentials}
use cascade_vpn.Deploy.Outbound.{
  Event, done, fails, changed, step_failed, changed_concurrently, World, State, applied, Error, Io,
  continue, ◌>>=◌, ◌>>◌, step_from, step, holds, replace_value, restart_and_verify, write_state,
  write_status, undo, undone, loading, exchange, refuse_state, apply_prepared,
}

-- No step finds a change of another program, and none fails, or at most one does.
abbrev pub Few : Bool → List Event → Type 0
Few may_fail [] = Unit
Few may_fail (done ∷ es) = Few may_fail es
Few true (fails ∷ es) = Few false es
Few false (fails ∷ es) = ⊥
Few may_fail (changed t ∷ es) = ⊥

-- A property of the template and the active configuration, and one of the steps to come besides.
abbrev pub View : Type 1
View = Option String → Option Credentials → Type 0

abbrev pub Failure : Type 1
Failure = Option String → Option Credentials → List Event → Type 0

abbrev pub Anyhow : View → Failure
Anyhow P t a es = P t a

-- After the error of a step the one failure is behind; where none may come there is no error.
abbrev Behind : Bool → View → Failure
Behind true P t a es = P t a × Few false es
Behind false P t a es = ⊥

abbrev pub Ending : Bool → {A : Type 0} → (A → View) → Failure → Result Error A × World → Type 0
Ending b Q E (ok a, w) = Q a w.template w.active × Few b w.events
Ending b Q E (err e, w) = E w.template w.active w.events

abbrev pub Runs : Bool → {A : Type 0} → View → Io A → (A → View) → Failure → Type 0
Runs b P m Q E = (w : World) → P w.template w.active → Few b w.events → Ending b Q E (m w)

abbrev pub Weaker : Failure → Failure → Type 0
Weaker E F = (t : Option String) (a : Option Credentials) (es : List Event) → E t a es → F t a es

pub bind-Runs :
    (b : Bool) {A B : Type 0} (P : View) (Q : A → View) (R : B → View) (E F : Failure) (m : Io A)
    (k : A → Io B)
    → Weaker E F
    → Runs b P m Q E
    → ((a : A) → Runs b (Q a) (k a) R F)
    → Runs b P (m >>= k) R F
bind-Runs b P Q R E F m k f h l w p few = after (m w) (h w p few)
  where
    after : (x : Result Error _ × World) → Ending b Q E x → Ending b R F (continue x k)
    after (ok a, w') q = l a w' q.0 q.1
    after (err e, w') q = f w'.template w'.active w'.events q

module _ (P : View) where
  step_from-Runs :
      (b : Bool) (w : World) (es : List Event)
      → P w.template w.active
      → Few b es
      → Ending b
          (λ _. P)
          (Behind b P)
          (let (fine, w') = step_from w es in (if fine then ok tt else err step_failed, w'))
  unfolding step_from
  step_from-Runs b w [] p few = (p, tt)
  step_from-Runs true w (done ∷ es) p few = (p, few)
  step_from-Runs false w (done ∷ es) p few = (p, few)
  step_from-Runs true w (fails ∷ es) p few = (p, few)
  step_from-Runs false w (fails ∷ es) p few = elim few [ ]
  step_from-Runs true w (changed t ∷ es) p few = elim few [ ]
  step_from-Runs false w (changed t ∷ es) p few = elim few [ ]

  step-Runs : (b : Bool) → Runs b P step (λ _. P) (Behind b P)
  unfolding step
  step-Runs b w p few = step_from-Runs b w w.events p few

  forget : (b : Bool) → Weaker (Behind b P) (Anyhow P)
  forget true t a es h = h.0
  forget false t a es h = elim h [ ]

  -- A step that changes neither.
  quiet_step-Runs :
      (m : Io (Unit {0}))
      → ((w : World)
          → P w.template w.active
          → Few true w.events
          → Ending true (λ _. P) (Anyhow P) (m w))
      → Runs true P (step >> m) (λ _. P) (Anyhow P)
  quiet_step-Runs m h =
      bind-Runs true P (λ _. P) (λ _. P) (Behind true P) (Anyhow P) step (λ _. m) (forget true)
        (step-Runs true) λ _. h

-- The template is this.
abbrev pub Shows : String → View
Shows raw t a = t ≡ some raw

abbrev pub Loaded : String → Credentials → View
Loaded raw c t a = (t ≡ some raw) × (a ≡ some c)

replace_value-Runs :
    (b : Bool) (old new : String)
    → Runs b (Shows old) (replace_value old new) (λ _. Shows new) (Behind b (Shows old))
unfolding replace_value
replace_value-Runs b old new =
    bind-Runs b (Shows old) (λ _. Shows old) (λ _. Shows new) (Behind b (Shows old))
      (Behind b (Shows old)) step _ (λ t a es h. h) (step-Runs (Shows old) b)
      λ _ w p few. by_test w few (holds old w.template) (ap (holds old) p ∙ str_eq_refl old)
  where
    by_test :
        (w : World)
        → Few b w.events
        → (x : Bool) → x ≡ true
        → Ending b
            (λ _. Shows new)
            (Behind b (Shows old))
            (if x then (ok tt, record w { template = some new }) else (err changed_concurrently, w))
    by_test w few true h = (refl, few)
    by_test w few false h = cc h

restart-Runs :
    (b : Bool) (raw : String) (c : Credentials)
    → Runs b (Shows raw) (restart_and_verify c) (λ _. Loaded raw c) (Behind b (Shows raw))
unfolding restart_and_verify
restart-Runs b raw c =
    let P = Shows raw in
    let E = Behind b P in
    bind-Runs b P (λ _. P) (λ _. Loaded raw c) E E step _ (λ t a es h. h) (step-Runs P b)
      λ _.
        bind-Runs b P (λ _. P) (λ _. Loaded raw c) E E step _ (λ t a es h. h) (step-Runs P b)
          λ _ w p few. ((p, refl), few)

module _ (s : State) where
  abbrev pub Old : View
  Old = Shows s.original_template

  abbrev New : View
  New = Shows s.applied_template

  undo-Runs : (e : Error) → Runs false New (undo s true e) (λ _ t a. ⊥) (Anyhow Old)
  unfolding undo
  undo-Runs e =
      bind-Runs false New (λ _. Old) (λ _ t a. ⊥) (Behind false New) (Anyhow Old) _ _
        (λ t a es h. elim h [ ]) (replace_value-Runs false s.applied_template s.original_template)
        λ _.
          bind-Runs false Old (λ _. Loaded s.original_template s.original_credentials) (λ _ t a. ⊥)
            (Behind false Old) (Anyhow Old) _ _ (λ t a es h. elim h [ ])
            (restart-Runs false s.original_template s.original_credentials) λ _ w p few. p.0

  exchange-Runs :
      (c : Credentials)
      → Runs true Old (exchange s c) (λ _. Loaded s.applied_template c) (Anyhow Old)
  unfolding exchange undo
  exchange-Runs c w p few =
      replaced (replace_value s.original_template s.applied_template w)
        (replace_value-Runs true s.original_template s.applied_template w p few)
    where
      undoing :
          (x : Result Error (Unit {0}) × World)
          → Ending false (λ _ t a. ⊥) (Anyhow Old) x
          → Ending true (λ _. Loaded s.applied_template c) (Anyhow Old) x
      undoing (ok _, w') q = elim q.0 [ ]
      undoing (err e, w') q = q

      restarted :
          (x : Result Error (Unit {0}) × World)
          → Ending true (λ _. Loaded s.applied_template c) (Behind true New) x
          → Ending true (λ _. Loaded s.applied_template c) (Anyhow Old) (undone s true x)
      restarted (ok _, w') q = q
      restarted (err e, w') q = undoing (undo s true e w') (undo-Runs e w' q.0 q.1)

      replaced :
          (x : Result Error (Unit {0}) × World)
          → Ending true (λ _. New) (Behind true Old) x
          → Ending true (λ _. Loaded s.applied_template c) (Anyhow Old) (loading s c x)
      replaced (err e, w') q = q.0
      replaced (ok _, w') q =
          restarted (restart_and_verify c w') (restart-Runs true s.applied_template c w' q.0 q.1)

  -- The original is there, or the new template was loaded.
  abbrev pub Either : Credentials → View
  Either c t a = Old t a ⊎ Loaded s.applied_template c t a

  pub apply_prepared-Runs :
      (c : Credentials)
      → Runs true Old (apply_prepared s c) (λ _. Loaded s.applied_template c) (Anyhow (Either c))
  unfolding apply_prepared write_state write_status
  apply_prepared-Runs c =
      let L = Loaded s.applied_template c in
      let E = Anyhow (Either c) in
      bind-Runs true Old (λ _. Old) (λ _. L) (Behind true Old) E step _ (λ t a es h. inl h.0)
        (step-Runs Old true)
        λ _.
          bind-Runs true Old (λ _. Old) (λ _. L) (Anyhow Old) E (λ w. refuse_state w.state w) _
            (λ t a es h. inl h) refusing
            λ _.
              bind-Runs true Old (λ _. Old) (λ _. L) (Behind true Old) E step _
                (λ t a es h. inl h.0) (step-Runs Old true)
                λ _.
                  bind-Runs true Old (λ _. Old) (λ _. L) (Anyhow Old) E (write_state s) _
                    (λ t a es h. inl h) (quiet_step-Runs Old _ λ w p few. (p, few))
                    λ _.
                      bind-Runs true Old (λ _. L) (λ _. L) (Anyhow Old) E (exchange s c) _
                        (λ t a es h. inl h) (exchange-Runs c)
                        λ _.
                          bind-Runs true L (λ _. L) (λ _. L) (Anyhow L) E
                            (write_state (record s { stage = applied })) _ (λ t a es h. inr h)
                            (quiet_step-Runs L _ λ w p few. (p, few))
                            λ _ w p few.
                              recorded (write_status applied w)
                                (quiet_step-Runs L _ (λ w p few. (p, few)) w p few)
    where
      recorded :
          (x : Result Error (Unit {0}) × World)
          → Ending true (λ _. Loaded s.applied_template c) (Anyhow (Loaded s.applied_template c)) x
          → Ending true (λ _. Loaded s.applied_template c) (Anyhow (Either c)) x
      recorded (ok _, w') q = q
      recorded (err e, w') q = inr q

      refusing : Runs true Old (λ w. refuse_state w.state w) (λ _. Old) (Anyhow Old)
      refusing w p few = by_state w.state
        where
          by_state : (st : Option State) → Ending true (λ _. Old) (Anyhow Old) (refuse_state st w)
          by_state none = (p, few)
          by_state (some _) = p
