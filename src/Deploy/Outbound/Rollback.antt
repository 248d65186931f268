-- ===== src/Deploy/Outbound/Rollback.antt =====
-- A rollback after an exchange that was carried out.
use cascade_vpn.Base.{
  ◌≡◌, ap, sym, subst, ◌∙◌, String, Bool, true, false, none, some, inl, List, str_eq, if◌then◌else◌,
  Result, ok, err,
}
use cascade_vpn.Deploy.Outbound.{
  Event, World, State, applied, rolled_back, Error, no_state, missing_template, changed_since_apply,
  Io, Job, continue, ◌>>=◌, ◌>>◌, pure, raise, replace_value, restart_and_verify, write_state,
  write_status, read_template, require_applied, require_current, values_of, apply, rollback,
}
use cascade_vpn.Deploy.Outbound.Triples.{
  Calm, Assertion, Post, Triple, Is, bind-Triple, weaken-Triple, restart-Triple,
  write_status-Triple, write_state-Triple, replace_value-Triple,
}
use cascade_vpn.Deploy.Outbound.Ends.{
  Recoverable, Applied, Safe, Fallback, Kept, original, new, from_original, from_new,
  values_of-Triple, Applies, apply-Applies,
}

module _ (s : State) (job : Job) where
  require_current-Triple :
      Triple
        (Is (new s) (Kept s))
        (require_current (new s) s)
        (λ _. Is (new s) (Kept s))
        (Is (new s) (Kept s))
  require_current-Triple w p calm = by_test (str_eq (new s) s.applied_template)
    where
      by_test :
          (b : Bool)
          → Post
              (λ _. Is (new s) (Kept s))
              (Is (new s) (Kept s))
              ((if b then pure tt else raise changed_since_apply) w)
      by_test true = (p, calm)
      by_test false = (p, calm)

  require_applied-Triple :
      s.stage ≡ applied
      → Triple
          (Is (new s) (Kept s))
          (require_applied s.stage)
          (λ _. Is (new s) (Kept s))
          (Is (new s) (Kept s))
  require_applied-Triple e =
      subst
        (λ t.
          Triple (Is (new s) (Kept s)) (require_applied t) (λ _. Is (new s) (Kept s))
            (Is (new s) (Kept s)))
        (sym e) λ w p calm. (p, calm)

  -- The state after a rollback.
  abbrev over : State
  over = record s { stage = rolled_back }

  abbrev Back : Assertion
  Back = Is (original s) (λ state. state ≡ some over)

  replacing : Io (Unit {0})
  replacing =
      replace_value (new s) (original s)
      >> (restart_and_verify s.original_credentials
          >> (write_state over >> write_status rolled_back))

  replacing-Triple : Triple (Is (new s) (Kept s)) replacing (λ _. Back) (Fallback s)
  unfolding replacing
  replacing-Triple =
      bind-Triple (Is (new s) (Kept s)) (λ _. Is (original s) (Kept s)) (λ _. Back) (Fallback s)
        (replace_value (new s) (original s)) _
        (weaken-Triple _ _ _ _ (replace_value (new s) (original s))
          (replace_value-Triple (new s) (original s) (Kept s)) (from_new s))
        λ _.
          bind-Triple (Is (original s) (Kept s)) (λ _. Is (original s) (Kept s)) (λ _. Back)
            (Fallback s) (restart_and_verify s.original_credentials) _
            (weaken-Triple _ _ _ _ (restart_and_verify s.original_credentials)
              (restart-Triple (Is (original s) (Kept s)) s.original_credentials)
              (from_original s (Kept s)))
            λ _.
              bind-Triple (Is (original s) (Kept s)) (λ _. Back) (λ _. Back) (Fallback s)
                (write_state over) _
                (weaken-Triple _ _ _ _ (write_state over)
                  (write_state-Triple (original s) (Kept s) over) (from_original s (Kept s)))
                λ _.
                  weaken-Triple _ _ _ _ (write_status rolled_back)
                    (write_status-Triple Back rolled_back) λ t st h. inl h.0

  from_template : String → Io (Unit {0})
  from_template current =
      values_of job current
      >> (require_current current s
          >> (replace_value current (original s)
              >> (restart_and_verify s.original_credentials
                  >> (write_state over >> write_status rolled_back))))

  from_template-Triple :
      Triple (Is (new s) (Kept s)) (from_template (new s)) (λ _. Back) (Fallback s)
  unfolding from_template replacing
  from_template-Triple =
      let P = Is (new s) (Kept s) in
      bind-Triple P (λ _. P) (λ _. Back) (Fallback s) (values_of job (new s)) _
        (weaken-Triple _ _ _ _ (values_of job (new s)) (values_of-Triple P job (new s))
          (from_new s))
        λ _.
          bind-Triple P (λ _. P) (λ _. Back) (Fallback s) (require_current (new s) s) _
            (weaken-Triple _ _ _ _ (require_current (new s) s) require_current-Triple (from_new s))
            λ _. replacing-Triple

  reading : Io (Unit {0})
  reading = read_template >>= from_template

  reading-Triple : Triple (Is (new s) (Kept s)) reading (λ _. Back) (Fallback s)
  unfolding reading
  reading-Triple w p calm =
      subst (λ x. Post (λ _. Back) (Fallback s) (continue x from_template))
        (sym (ap (λ t. elim t [ none ↦ (err missing_template, w) | some raw ↦ (ok raw, w) ]) p.0))
        (from_template-Triple w p calm)

  rollback-Triple :
      s.stage ≡ applied → Triple (Is (new s) (Kept s)) (rollback job) (λ _. Back) (Fallback s)
  unfolding rollback reading from_template
  rollback-Triple e w p calm =
      subst (λ x. Post (λ _. Back) (Fallback s) (continue x go))
        (sym (ap (λ t. elim t [ none ↦ (err no_state, w) | some t ↦ (ok t, w) ]) p.1))
        (bind-Triple (Is (new s) (Kept s)) (λ _. Is (new s) (Kept s)) (λ _. Back) (Fallback s)
          (require_applied s.stage) _
          (weaken-Triple _ _ _ _ (require_applied s.stage) (require_applied-Triple e) (from_new s))
          (λ _. reading-Triple) w p calm)
    where
      go : State → Io (Unit {0})
      go t =
          require_applied t.stage
          >> (read_template >>= λ current.
              values_of job current
              >> (require_current current t
                  >> (replace_value current t.original_template
                      >> (restart_and_verify t.original_credentials
                          >> (write_state (record t { stage = rolled_back })
                              >> write_status rolled_back)))))

-- A rollback that succeeds has put the original template back; one that fails leaves it, or another
-- one whose original the state file keeps.
abbrev pub Restores : String → Result Error (Unit {0}) × World → Type 0
Restores o (ok _, w) = w.template ≡ some o
Restores o (err e, w) = Safe o w.template w.state

pub rollback-Restores :
    (job : Job) (o : String) (w : World)
    → Applied o w.template w.state
    → Calm w.events
    → Restores o (rollback job w)
rollback-Restores job o w (s, e, stage, template, state) calm =
    after (rollback job w) (rollback-Triple s job stage w (template, state) calm)
  where
    after :
        (x : Result Error (Unit {0}) × World) → Post (λ _. Back s job) (Fallback s) x → Restores o x
    after (ok _, w') q = q.0.0 ∙ ap some e
    after (err problem, w') q = (
      s.applied_template,
      subst (λ t. Recoverable t s.applied_template w'.template w'.state) e q.0,
    )

-- After an exchange that succeeded, a rollback that succeeds gives back the very template of before,
-- and one that fails leaves that or a template whose original the state file keeps, whatever steps
-- fail, as long as no other program changes the template.
pub rollback-apply :
    (job later : Job) (w : World) (o : String) (events : List Event)
    → w.template ≡ some o
    → Calm w.events
    → (apply job w).0 ≡ ok tt
    → Calm events
    → Restores o (rollback later (record (apply job w).1 { events = events }))
rollback-apply job later w o events start calm h calm' =
    rollback-Restores later o (record (apply job w).1 { events = events })
      (after (apply job w) h (apply-Applies job o w start calm)) calm'
  where
    after :
        (x : Result Error (Unit {0}) × World)
        → x.0 ≡ ok tt
        → Applies o x
        → Applied o x.1.template x.1.state
    after (ok _, w') e a = a
    after (err problem, w') e a = cc
