-- ===== src/Deploy/Outbound/Triples.antt =====
-- Rules for the steps of the script, where no other program changes the template.
use cascade_vpn.Base.{
  ◌≡◌, refl, ap, ◌∙◌, String, Bool, true, false, Option, some, List, [], ◌∷◌, str_eq_refl,
  if◌then◌else◌, Result, ok, err,
}
use cascade_vpn.Deploy.Outbound.{
  Event, done, fails, changed, World, State, Stage, Error, step_failed, changed_concurrently, Io,
  continue, ◌>>=◌, step_from, step, holds, replace_value, restart_and_verify, write_state,
  write_status,
}
use cascade_vpn.Deploy.Outbound.Template.{Credentials}

-- No step finds a change of another program.
abbrev pub Calm : List Event → Type 0
Calm [] = Unit
Calm (done ∷ es) = Calm es
Calm (fails ∷ es) = Calm es
Calm (changed t ∷ es) = ⊥

-- A property of the template and the state file.
abbrev pub Assertion : Type 1
Assertion = Option String → Option State → Type 0

abbrev pub Post : {A : Type 0} → (A → Assertion) → Assertion → Result Error A × World → Type 0
Post Q E (ok a, w) = Q a w.template w.state × Calm w.events
Post Q E (err e, w) = E w.template w.state × Calm w.events

-- From where `P` holds, the steps end with `Q` of their value, or with `E` and an error.
abbrev pub Triple : {A : Type 0} → Assertion → Io A → (A → Assertion) → Assertion → Type 0
Triple P m Q E = (w : World) → P w.template w.state → Calm w.events → Post Q E (m w)

pub bind-Triple :
    {A B : Type 0} (P : Assertion) (Q : A → Assertion) (R : B → Assertion) (E : Assertion)
    (m : Io A) (k : A → Io B)
    → Triple P m Q E
    → ((a : A) → Triple (Q a) (k a) R E)
    → Triple P (m >>= k) R E
bind-Triple P Q R E m k h l w p calm = after (m w) (h w p calm)
  where
    after : (x : Result Error _ × World) → Post Q E x → Post R E (continue x k)
    after (ok a, w') q = l a w' q.0 q.1
    after (err e, w') q = q

pub weaken-Triple :
    {A : Type 0} (P : Assertion) (Q : A → Assertion) (E F : Assertion) (m : Io A)
    → Triple P m Q E
    → ((t : Option String) (st : Option State) → E t st → F t st)
    → Triple P m Q F
weaken-Triple P Q E F m h f w p calm = after (m w) (h w p calm)
  where
    after : (x : Result Error _ × World) → Post Q E x → Post Q F x
    after (ok a, w') q = q
    after (err e, w') q = (f w'.template w'.state q.0, q.1)

module _ (P : Assertion) where
  from-Calm :
      (w : World) (es : List Event)
      → P w.template w.state
      → Calm es
      → Post
          (λ _. P)
          P
          (let (fine, w') = step_from w es in (if fine then ok tt else err step_failed, w'))
  unfolding step_from
  from-Calm w [] p calm = (p, tt)
  from-Calm w (done ∷ es) p calm = (p, calm)
  from-Calm w (fails ∷ es) p calm = (p, calm)
  from-Calm w (changed t ∷ es) p calm = elim calm [ ]

  pub step-Triple : Triple P step (λ _. P) P
  unfolding step
  step-Triple w p calm = from-Calm w w.events p calm

  pub restart-Triple : (c : Credentials) → Triple P (restart_and_verify c) (λ _. P) P
  unfolding restart_and_verify
  restart-Triple c =
      bind-Triple P (λ _. P) (λ _. P) P step _ step-Triple
        λ _. bind-Triple P (λ _. P) (λ _. P) P step _ step-Triple λ _ w p calm. (p, calm)

  pub write_status-Triple : (s : Stage) → Triple P (write_status s) (λ _. P) P
  unfolding write_status
  write_status-Triple s =
      bind-Triple P (λ _. P) (λ _. P) P step _ step-Triple λ _ w p calm. (p, calm)

-- The template is this.
abbrev pub Is : String → (Option State → Type 0) → Assertion
Is t S template state = (template ≡ some t) × S state

pub write_state-Triple :
    (t : String) (S : Option State → Type 0) (s : State)
    → Triple (Is t S) (write_state s) (λ _. Is t (λ st. st ≡ some s)) (Is t S)
unfolding write_state
write_state-Triple t S s =
    bind-Triple (Is t S) (λ _. Is t S) (λ _. Is t (λ st. st ≡ some s)) (Is t S) step _
      (step-Triple (Is t S)) λ _ w p calm. ((p.0, refl), calm)

pub replace_value-Triple :
    (old new : String) (S : Option State → Type 0)
    → Triple (Is old S) (replace_value old new) (λ _. Is new S) (Is old S)
unfolding replace_value
replace_value-Triple old new S =
    bind-Triple (Is old S) (λ _. Is old S) (λ _. Is new S) (Is old S) step _
      (step-Triple (Is old S))
      λ _ w p calm.
        by_value w p.1 calm (holds old w.template) (ap (holds old) p.0 ∙ str_eq_refl old) p.0
  where
    by_value :
        (w : World)
        → S w.state
        → Calm w.events
        → (b : Bool) → b ≡ true
        → w.template ≡ some old
        → Post
            (λ _. Is new S)
            (Is old S)
            (if b then (ok tt, record w { template = some new }) else (err changed_concurrently, w))
    by_value w s calm true h e = ((refl, s), calm)
    by_value w s calm false h e = ((e, s), calm)
