-- ===== src/Deploy/Outbound/Single.antt =====
-- The command apply, where no other program changes the template and at most one step fails.
use cascade_vpn.Base.{
  ◌≡◌, refl, ap, sym, subst, String, Bool, true, false, Option, none, some, ◌⊎◌, inl, inr, str_eq,
  if◌then◌else◌, Result, ok, err,
}
use cascade_vpn.Deploy.Outbound.Template.{Credentials, read_values, credentials_in}
use cascade_vpn.Deploy.Outbound.{
  missing_template, credentials_differ, no_email, World, Error, Io, Job, continue, ◌>>=◌, ◌>>◌,
  pure, raise, read_template, or_unreadable, same_credentials, values_of, credentials_of,
  require_known, apply_prepared, prepared_state, apply_to_client, apply,
}
use cascade_vpn.Deploy.Outbound.Undo.{
  Few, View, Failure, Anyhow, Ending, Runs, Shows, Loaded, bind-Runs, Either, apply_prepared-Runs,
}

module _ (job : Job) (o : String) where
  -- The new template and the client's credentials, as read of the inbound and the old template.
  abbrev pub IsEdit : String × Credentials → Type 0
  IsEdit edited =
      (inbound : String) × (job.inbound ≡ some inbound)
      × (read_values job.codec job.email job.outbound_tag inbound o ≡ some edited)

  -- The new template is there, and the panel was seen to run with the client's credentials.
  abbrev pub Exchanged : View
  Exchanged t a = (edited : String × Credentials) × IsEdit edited × Loaded edited.0 edited.1 t a

  abbrev pub Undone : Result Error (Unit {0}) × World → Type 0
  Undone (ok _, w) = Exchanged w.template w.active
  Undone (err e, w) = (w.template ≡ some o) ⊎ Exchanged w.template w.active

  abbrev Start : View
  Start = Shows o

  abbrev Or : Failure
  Or t a es = Start t a ⊎ Exchanged t a

  values_of-Runs :
      Runs true Start (values_of job o) (λ edited t a. Start t a × IsEdit edited) (Anyhow Start)
  values_of-Runs w p few = by_inbound job.inbound refl
    where
      by_values :
          (inbound : String)
          → job.inbound ≡ some inbound
          → (x : Option (String × Credentials))
          → read_values job.codec job.email job.outbound_tag inbound o ≡ x
          → Ending true (λ edited t a. Start t a × IsEdit edited) (Anyhow Start) (or_unreadable x w)
      by_values inbound e none h = p
      by_values inbound e (some edited) h = ((p, (inbound, e, h)), few)

      by_inbound :
          (i : Option String)
          → job.inbound ≡ i
          → Ending true
              (λ edited t a. Start t a × IsEdit edited)
              (Anyhow Start)
              ((or_unreadable i >>= λ inbound.
                  or_unreadable (read_values job.codec job.email job.outbound_tag inbound o))
                w)
      by_inbound none e = p
      by_inbound (some inbound) e =
          by_values inbound e (read_values job.codec job.email job.outbound_tag inbound o) refl

  credentials_of-Runs :
      (P : View) (config : Option String)
      → Runs true P (credentials_of job config) (λ _. P) (Anyhow P)
  credentials_of-Runs P none w p few = p
  credentials_of-Runs P (some raw) w p few =
      by_found (credentials_in job.codec job.outbound_tag raw)
    where
      by_found : (x : Option Credentials) → Ending true (λ _. P) (Anyhow P) (or_unreadable x w)
      by_found none = p
      by_found (some c) = (p, few)

  require_known-Runs :
      (P : View) (known active : Credentials)
      → Runs true P (require_known known active) (λ _. P) (Anyhow P)
  require_known-Runs P known active w p few = by_test (same_credentials known active)
    where
      by_test :
          (b : Bool)
          → Ending true (λ _. P) (Anyhow P) ((if b then pure tt else raise credentials_differ) w)
      by_test true = (p, few)
      by_test false = p

  prepared-Runs :
      (edited : String × Credentials) (active : Credentials)
      → Runs true
          (λ t a. Start t a × IsEdit edited)
          (apply_prepared (prepared_state job o edited.0 active) edited.1)
          (λ _. Exchanged)
          Or
  prepared-Runs edited active w p few =
      ended _ (apply_prepared-Runs (prepared_state job o edited.0 active) edited.1 w p.0 few)
    where
      ended :
          (x : Result Error (Unit {0}) × World)
          → Ending true
              (λ _. Loaded edited.0 edited.1)
              (Anyhow (Either (prepared_state job o edited.0 active) edited.1))
              x
          → Ending true (λ _. Exchanged) Or x
      ended (ok _, w') q = ((edited, p.1, q.0), q.1)
      ended (err e, w') (inl h) = inl h
      ended (err e, w') (inr h) = inr (edited, p.1, h)

  rest : String → Io (Unit {0})
  rest raw = values_of job raw >>= λ edited. credentials_of job job.active_config >>= λ active.
      credentials_of job (some raw) >>= λ known.
      require_known known active >> apply_prepared (prepared_state job raw edited.0 active) edited.1

  rest-Runs : Runs true Start (rest o) (λ _. Exchanged) Or
  unfolding rest
  rest-Runs =
      bind-Runs true Start (λ edited t a. Start t a × IsEdit edited) (λ _. Exchanged) (Anyhow Start)
        Or (values_of job o) _ (λ t a es h. inl h) values_of-Runs
        λ edited.
          let P : View = λ t a. Start t a × IsEdit edited in
          bind-Runs true P (λ _. P) (λ _. Exchanged) (Anyhow P) Or
            (credentials_of job job.active_config) _ (λ t a es h. inl h.0)
            (credentials_of-Runs P job.active_config)
            λ active.
              bind-Runs true P (λ _. P) (λ _. Exchanged) (Anyhow P) Or (credentials_of job (some o))
                _ (λ t a es h. inl h.0) (credentials_of-Runs P (some o))
                λ known.
                  bind-Runs true P (λ _. P) (λ _. Exchanged) (Anyhow P) Or
                    (require_known known active) _ (λ t a es h. inl h.0)
                    (require_known-Runs P known active) λ _. prepared-Runs edited active

  apply_to_client-Undone :
      (w : World) → w.template ≡ some o → Few true w.events → Undone (apply_to_client job w)
  unfolding apply_to_client rest
  apply_to_client-Undone w p few = ended (apply_to_client job w) (
      subst (λ x. Ending true (λ _. Exchanged) Or (continue x rest)) (sym (found p))
        (rest-Runs w p few))
    where
      found : w.template ≡ some o → read_template w ≡ (ok o, w)
      found h = ap (λ t. elim t [ none ↦ (err missing_template, w) | some raw ↦ (ok raw, w) ]) h

      ended : (x : Result Error (Unit {0}) × World) → Ending true (λ _. Exchanged) Or x → Undone x
      ended (ok _, w') q = q.0
      ended (err e, w') q = q

  -- Where no other program changes the template and at most one step fails, an apply that succeeds has
  -- put the client's credentials into the template, and the panel was seen to run with them. One that
  -- fails has left or put back the original template, unless it was only the records of a completed
  -- exchange that could not be written.
  pub apply-Undone : (w : World) → w.template ≡ some o → Few true w.events → Undone (apply job w)
  unfolding apply
  apply-Undone w p few = by_test (str_eq job.email "")
    where
      by_test : (b : Bool) → Undone ((if b then raise no_email else apply_to_client job) w)
      by_test true = inl p
      by_test false = apply_to_client-Undone w p few
