-- ===== src/Deploy/Outbound/Ends.antt =====
-- How the commands apply and rollback end, where no other program changes the template.
use cascade_vpn.Base.{
  ◌≡◌, refl, ap, sym, subst, String, Bool, true, false, Option, none, some, ◌⊎◌, inl, inr, str_eq,
  if◌then◌else◌, Result, ok, err,
}
use cascade_vpn.Deploy.Outbound.Template.{Credentials}
use cascade_vpn.Deploy.Outbound.{
  missing_template, credentials_differ, same_credentials, World, State, applied, Error, Io, Job,
  continue, ◌>>=◌, ◌>>◌, pure, raise, step, replace_value, restart_and_verify, write_state,
  write_status, undo, undone, loading, exchange, refuse_state, apply_prepared, read_template,
  or_unreadable, values_of, credentials_of, require_known, prepared_state, no_email,
  apply_to_client, apply,
}
use cascade_vpn.Deploy.Outbound.Triples.{
  Calm, Assertion, Post, Triple, Is, bind-Triple, weaken-Triple, step-Triple, restart-Triple,
  write_status-Triple, write_state-Triple, replace_value-Triple,
}

-- The template is the original, or the new one while the state file keeps the original.
abbrev pub Recoverable : String → String → Assertion
Recoverable original new template state =
    (template ≡ some original)
    ⊎ ((template ≡ some new) × (s : State) × (state ≡ some s) × (s.original_template ≡ original))

abbrev pub Anything : Option State → Type 0
Anything state = Unit

module _ (s : State) where
  abbrev pub original : String
  original = s.original_template

  abbrev pub new : String
  new = s.applied_template

  abbrev pub Fallback : Assertion
  Fallback = Recoverable original new

  abbrev pub Kept : Option State → Type 0
  Kept state = state ≡ some s

  pub from_original :
      (S : Option State → Type 0) (t : Option String) (st : Option State)
      → Is original S t st
      → Fallback t st
  from_original S t st h = inl h.0

  pub from_new : (t : Option String) (st : Option State) → Is new Kept t st → Fallback t st
  from_new t st h = inr (h.0, s, h.1, refl)

  undo-Triple : (e : Error) → Triple (Is new Kept) (undo s true e) (λ _. Is new Kept) Fallback
  unfolding undo
  undo-Triple e =
      bind-Triple (Is new Kept) (λ _. Is original Kept) (λ _. Is new Kept) Fallback
        (replace_value new original) _
        (weaken-Triple _ _ _ _ (replace_value new original) (replace_value-Triple new original Kept)
          from_new)
        λ _.
          bind-Triple (Is original Kept) (λ _. Is original Kept) (λ _. Is new Kept) Fallback
            (restart_and_verify s.original_credentials) _
            (weaken-Triple _ _ _ _ (restart_and_verify s.original_credentials)
              (restart-Triple (Is original Kept) s.original_credentials) (from_original Kept))
            λ _ w p calm. (inl p.0, calm)

  exchange-Triple :
      (desired : Credentials)
      → Triple (Is original Kept) (exchange s desired) (λ _. Is new Kept) Fallback
  unfolding exchange undo
  exchange-Triple desired w p calm =
      replaced (replace_value original new w) (replace_value-Triple original new Kept w p calm)
    where
      restarted :
          (x : Result Error (Unit {0}) × World)
          → Post (λ _. Is new Kept) (Is new Kept) x
          → Post (λ _. Is new Kept) Fallback (undone s true x)
      restarted (ok _, w') q = q
      restarted (err e, w') q = undo-Triple e w' q.0 q.1

      replaced :
          (x : Result Error (Unit {0}) × World)
          → Post (λ _. Is new Kept) (Is original Kept) x
          → Post (λ _. Is new Kept) Fallback (loading s desired x)
      replaced (err e, w') q = (inl q.0.0, q.1)
      replaced (ok _, w') q =
          restarted (restart_and_verify desired w')
            (restart-Triple (Is new Kept) desired w' q.0 q.1)

  refuse_state-Triple :
      Triple
        (Is original Anything)
        (λ w. refuse_state w.state w)
        (λ _. Is original Anything)
        Fallback
  refuse_state-Triple w p calm = by_state w.state
    where
      by_state : (st : Option State) → Post (λ _. Is original Anything) Fallback (refuse_state st w)
      by_state none = (p, calm)
      by_state (some _) = (inl p.0, calm)

  abbrev finished : State
  finished = record s { stage = applied }

  -- The state that was written last.
  abbrev Recorded : Assertion
  Recorded = Is new (λ state. state ≡ some finished)

  from_finished : (t : Option String) (st : Option State) → Recorded t st → Fallback t st
  from_finished t st h = inr (h.0, finished, h.1, refl)

  apply_prepared-Triple :
      (desired : Credentials)
      → Triple (Is original Anything) (apply_prepared s desired) (λ _. Recorded) Fallback
  unfolding apply_prepared
  apply_prepared-Triple desired =
      let P = Is original Anything in
      let early =
        weaken-Triple P (λ _. P) P Fallback step (step-Triple P) (from_original Anything) in
      bind-Triple P (λ _. P) (λ _. Recorded) Fallback step _ early
        λ _.
          bind-Triple P (λ _. P) (λ _. Recorded) Fallback (λ w. refuse_state w.state w) _
            refuse_state-Triple
            λ _.
              bind-Triple P (λ _. P) (λ _. Recorded) Fallback step _ early
                λ _.
                  bind-Triple P (λ _. Is original Kept) (λ _. Recorded) Fallback (write_state s) _
                    (weaken-Triple _ _ _ _ (write_state s) (write_state-Triple original Anything s)
                      (from_original Anything))
                    λ _.
                      bind-Triple (Is original Kept) (λ _. Is new Kept) (λ _. Recorded) Fallback
                        (exchange s desired) _ (exchange-Triple desired)
                        λ _.
                          bind-Triple (Is new Kept) (λ _. Recorded) (λ _. Recorded) Fallback
                            (write_state finished) _
                            (weaken-Triple _ _ _ _ (write_state finished)
                              (write_state-Triple new Kept finished) from_new)
                            λ _.
                              weaken-Triple _ _ _ _ (write_status applied)
                                (write_status-Triple Recorded applied) from_finished

pub or_unreadable-Triple :
    {A : Type 0} (P : Assertion) (o : Option A) → Triple P (or_unreadable o) (λ _. P) P
or_unreadable-Triple P none w p calm = (p, calm)
or_unreadable-Triple P (some a) w p calm = (p, calm)

module _ (P : Assertion) (job : Job) where
  pub values_of-Triple : (raw : String) → Triple P (values_of job raw) (λ _. P) P
  values_of-Triple raw =
      bind-Triple P (λ _. P) (λ _. P) P (or_unreadable job.inbound) _
        (or_unreadable-Triple P job.inbound) λ inbound. or_unreadable-Triple P _

  credentials_of-Triple : (config : Option String) → Triple P (credentials_of job config) (λ _. P) P
  credentials_of-Triple config =
      bind-Triple P (λ _. P) (λ _. P) P (or_unreadable config) _ (or_unreadable-Triple P config)
        λ raw. or_unreadable-Triple P _

require_known-Triple :
    (P : Assertion) (known active : Credentials) → Triple P (require_known known active) (λ _. P) P
require_known-Triple P known active w p calm = by_test (same_credentials known active)
  where
    by_test : (b : Bool) → Post (λ _. P) P ((if b then pure tt else raise credentials_differ) w)
    by_test true = (p, calm)
    by_test false = (p, calm)

-- A completed exchange: the new template is in place, and the state file says so and keeps the
-- original.
abbrev pub Applied : String → Assertion
Applied o template state =
    (s : State) × (s.original_template ≡ o)
    × (s.stage ≡ applied)
    × (template ≡ some s.applied_template)
    × (state ≡ some s)

abbrev pub Safe : String → Assertion
Safe o template state = (new : String) × Recoverable o new template state

-- A command that succeeds has exchanged the template; one that fails has left the original, or a
-- template whose original the state file keeps.
abbrev pub Applies : String → Result Error (Unit {0}) × World → Type 0
Applies o (ok _, w) = Applied o w.template w.state
Applies o (err e, w) = Safe o w.template w.state

module _ (job : Job) (o : String) where
  abbrev Start : Assertion
  Start = Is o Anything

  abbrev safe : (t : Option String) (st : Option State) → Start t st → Safe o t st
  safe t st h = ("", inl h.0)

  rest : String → Io (Unit {0})
  rest raw = values_of job raw >>= λ edited. credentials_of job job.active_config >>= λ active.
      credentials_of job (some raw) >>= λ known.
      require_known known active >> apply_prepared (prepared_state job raw edited.0 active) edited.1

  prepared-Triple :
      (new : String) (active desired : Credentials)
      → Triple Start
          (apply_prepared (prepared_state job o new active) desired)
          (λ _. Applied o)
          (Safe o)
  prepared-Triple new active desired w p calm =
      after _ (apply_prepared-Triple (prepared_state job o new active) desired w p calm)
    where
      s : State
      s = prepared_state job o new active

      after :
          (x : Result Error (Unit {0}) × World)
          → Post (λ _. Recorded s) (Fallback s) x
          → Post (λ _. Applied o) (Safe o) x
      after (ok _, w') q = ((finished s, refl, refl, q.0.0, q.0.1), q.1)
      after (err e, w') q = ((new, q.0), q.1)

  rest-Triple : Triple Start (rest o) (λ _. Applied o) (Safe o)
  unfolding rest
  rest-Triple =
      bind-Triple Start (λ _. Start) (λ _. Applied o) (Safe o) (values_of job o) _
        (weaken-Triple _ _ _ _ (values_of job o) (values_of-Triple Start job o) safe)
        λ edited.
          bind-Triple Start (λ _. Start) (λ _. Applied o) (Safe o)
            (credentials_of job job.active_config) _
            (weaken-Triple _ _ _ _ (credentials_of job job.active_config)
              (credentials_of-Triple Start job job.active_config) safe)
            λ active.
              bind-Triple Start (λ _. Start) (λ _. Applied o) (Safe o) (credentials_of job (some o))
                _
                (weaken-Triple _ _ _ _ (credentials_of job (some o))
                  (credentials_of-Triple Start job (some o)) safe)
                λ known.
                  bind-Triple Start (λ _. Start) (λ _. Applied o) (Safe o)
                    (require_known known active) _
                    (weaken-Triple _ _ _ _ (require_known known active)
                      (require_known-Triple Start known active) safe)
                    λ _. prepared-Triple edited.0 active edited.1

  apply_to_client-Applies :
      (w : World) → w.template ≡ some o → Calm w.events → Applies o (apply_to_client job w)
  unfolding apply_to_client rest
  apply_to_client-Applies w p calm = after (apply_to_client job w) (
      subst (λ x. Post (λ _. Applied o) (Safe o) (continue x rest)) (sym (found p))
        (rest-Triple w (p, tt) calm))
    where
      found : w.template ≡ some o → read_template w ≡ (ok o, w)
      found h = ap (λ t. elim t [ none ↦ (err missing_template, w) | some raw ↦ (ok raw, w) ]) h

      after : (x : Result Error (Unit {0}) × World) → Post (λ _. Applied o) (Safe o) x → Applies o x
      after (ok _, w') q = q.0
      after (err e, w') q = q.0

  -- However its steps end, an exchange of a template that no other program changes meanwhile ends with
  -- the new template in place and its original in the state file, or fails and leaves the original, or
  -- leaves another one whose original the state file keeps.
  pub apply-Applies : (w : World) → w.template ≡ some o → Calm w.events → Applies o (apply job w)
  unfolding apply
  apply-Applies w p calm = by_test (str_eq job.email "")
    where
      by_test : (b : Bool) → Applies o ((if b then raise no_email else apply_to_client job) w)
      by_test true = ("", inl p)
      by_test false = apply_to_client-Applies w p calm
