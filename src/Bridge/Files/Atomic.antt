-- ===== src/Bridge/Files/Atomic.antt =====
-- `atomic_write`: the directories that it makes, and the file that it writes.
use cascade_vpn.Base.{
  ℕ, String, ◌≡◌, ◌≢◌, ◌⊎◌, inl, inr, refl, true, false, Bool-cases, Option-cases, none, some, ◌∙◌,
  sym, ap, subst, List, [], ◌∷◌, any, arith, str_eq, str_eq_iff, str_eq_refl, Result, ok, err,
}
use cascade_vpn.Bridge.Files.{
  Entry, missing, symlink, directory, special, file, Machine, World, Os, Error, os_error, FileState,
  update, syscall, stat, write_by_way_of, write_in, make_directory, make_directories, atomic_write,
}
use cascade_vpn.Bridge.Files.Ensures.{
  Ends, Ensures, Ensures-pure, Ensures-raise, Ensures-weaken, Ensures-bind, Ensures-syscall,
  Ensures-put, Ensures-stat, Ensures-then,
}
use cascade_vpn.Bridge.Files.Replace.{
  SameProcess, Finished, EitherWay, start-Untouched, write_through-Ensures,
}

-- `m'` is `m`, but for missing directories among `paths` that were made.
pub record Grown (paths : List String) (m m' : Machine) : Type 0 where
  pub same : SameProcess m m'
  pub at :
      (q : String)
      → (m'.files q ≡ m.files q)
        ⊎ ((m.files q ≡ missing) × (m'.files q ≡ directory) × (any (str_eq q) paths ≡ true))

module _ (paths : List String) (m : Machine) where
  made-Grown :
      (p : String) (m' : Machine)
      → any (str_eq p) paths ≡ true
      → Grown paths m m'
      → m'.files p ≡ missing
      → Grown paths m (record m' { files = update m'.files p directory })
  made-Grown p m' among g free = record {
    same = record {
      service = g.same.service;
      output = g.same.output;
      uid = g.same.uid;
      gid = g.same.gid;
    };
    at = λ q. by_path q (Bool-cases (str_eq p q)) (g.at q);
  }
    where
      by_path :
          (q : String)
          → (str_eq p q ≡ true) ⊎ (str_eq p q ≡ false)
          → (m'.files q ≡ m.files q)
            ⊎ ((m.files q ≡ missing) × (m'.files q ≡ directory) × (any (str_eq q) paths ≡ true))
          → (update m'.files p directory q ≡ m.files q)
            ⊎ ((m.files q ≡ missing)
                × (update m'.files p directory q ≡ directory)
                × (any (str_eq q) paths ≡ true))
      by_path q (inr other) h = rw other h
      by_path q (inl found) (inl h) =
          let e = (str_eq_iff p q).0 found in
          inr (
            sym h ∙ ap m'.files (sym e) ∙ free,
            rw found,
            subst (λ x. any (str_eq x) paths ≡ true) e among,
          )
      by_path q (inl found) (inr h) = inr (h.0, rw found, h.2)

  make_directory-Ensures :
      (p : String) (e : Entry)
      → any (str_eq p) paths ≡ true
      → Ensures
          (λ m'. Grown paths m m' × (m'.files p ≡ e))
          (make_directory p e)
          (λ _. Grown paths m)
          (λ _. Grown paths m)
  unfolding make_directory
  make_directory-Ensures p missing among =
      let P : Machine → Type 0 = λ m'. Grown paths m m' × (m'.files p ≡ missing) in
      Ensures-then P (λ _. P) _ _ (λ _ m' g. g.0) syscall _ (Ensures-syscall P)
        λ _. Ensures-put P (Grown paths m) _ p directory λ m' g. made-Grown p m' among g.0 g.1
  make_directory-Ensures p directory among = Ensures-pure _ _ _ tt (λ m' g. g.0)
  make_directory-Ensures p symlink among =
      Ensures-weaken _ _ _ (Grown paths m) (λ _. Grown paths m) (λ _. Grown paths m) syscall
        (λ m' g. g.0) (λ _ m' g. g) (λ _ m' g. g) (Ensures-syscall (Grown paths m))
  make_directory-Ensures p special among = Ensures-raise _ _ _ os_error (λ m' g. g.0)
  make_directory-Ensures p (file d) among = Ensures-raise _ _ _ os_error (λ m' g. g.0)

  make_each-Ensures :
      (rest : List String)
      → ((q : String) → any (str_eq q) rest ≡ true → any (str_eq q) paths ≡ true)
      → Ensures (Grown paths m) (make_directories rest) (λ _. Grown paths m) (λ _. Grown paths m)
  unfolding make_directories
  make_each-Ensures [] within = Ensures-pure _ _ _ tt (λ m' g. g)
  make_each-Ensures (p ∷ rest) within =
      Ensures-bind (Grown paths m) (λ e m'. Grown paths m m' × (m'.files p ≡ e)) _ _ (stat p) _
        (Ensures-stat (Grown paths m) (λ _. Grown paths m) p)
        λ e.
          Ensures-bind _ (λ _. Grown paths m) _ _ _ _
            (make_directory-Ensures p e (within p (rw str_eq_refl)))
            λ _. make_each-Ensures rest λ q h. within q (ground (arith, h))

pub start-Grown : (paths : List String) (m : Machine) → Grown paths m m
start-Grown paths m = record {
  same = record { service = refl; output = refl; uid = refl; gid = refl };
  at = λ q. inl refl;
}

pub make_directories-Ensures :
    (paths : List String) (m : Machine)
    → Ensures (Grown paths m) (make_directories paths) (λ _. Grown paths m) (λ _. Grown paths m)
make_directories-Ensures paths m = make_each-Ensures paths m paths (λ q h. h)

-- The machine in which the temporary file was made, and its name.
pub record Middle (paths : List String) (path : String) (m : Machine) : Type 0 where
  pub middle : Machine
  pub grown : Grown paths m middle
  pub tmp : String
  pub free : middle.files tmp ≡ missing
  pub other : path ≢ tmp

module _ (paths : List String) (m : Machine) (path : String) (content : List ℕ)
    (state : FileState) where
  -- The target holds the new content, and every other path is as before but for directories made.
  abbrev pub Wrote : Unit {0} → Machine → Type 0
  Wrote u m' = (x : Middle paths path m) × Finished x.middle x.tmp path content state u m'

  -- Besides, the temporary file may be left, and the target be the old one.
  abbrev pub Stopped : Error → Machine → Type 0
  Stopped e m' =
      Grown paths m m'
      ⊎ ((x : Middle paths path m) × EitherWay x.middle x.tmp path content state e m')

  write_in-Ensures :
      (os : Os) → Ensures (Grown paths m) (write_in os path content state) Wrote Stopped
  unfolding write_in write_by_way_of
  write_in-Ensures os = record { run = λ w g. by_name w g (Option-cases (os.mkstemp w.files path)) }
    where
      ended :
          (x : Middle paths path m) (r : Result Error (Unit {0})) (m' : Machine)
          → Ends
              (Finished x.middle x.tmp path content state)
              (EitherWay x.middle x.tmp path content state)
              r
              m'
          → Ends Wrote Stopped r m'
      ended x (ok u) m' h = (x, h)
      ended x (err e) m' h = inr (x, h)

      by_name :
          (w : World)
          → Grown paths m w.machine
          → (os.mkstemp w.files path ≡ none)
            ⊎ ((tmp : String) × (os.mkstemp w.files path ≡ some tmp))
          → let (r, w') =
              write_by_way_of (os.mkstemp w.files path) w.uid w.gid path content state w in
            Ends Wrote Stopped r w'.machine
      by_name w g (inl unnamed) = rw unnamed (inl g)
      by_name w g (inr (tmp, named)) =
          let new = os.mkstemp_new w.files path tmp named in
          rw named (
            ended (record { middle = w.machine; grown = g; tmp = tmp; free = new.0; other = new.1 })
              _ _
              ((write_through-Ensures w.machine tmp path content state w.uid w.gid).run w
                (start-Untouched w.machine tmp)))

-- Whatever system calls fail, `atomic_write` ends so. Where it returns, the target holds the whole
-- new content with the old mode, and every other path is as before, except that directories above
-- the target that were missing are there. After an exception the target may also be as before, and
-- the temporary file may be left.
pub atomic_write_lem :
    (os : Os) (path : String) (content : List ℕ) (state : FileState) (w : World)
    → let (r, w') = atomic_write os path content state w in
      Ends
        (Wrote (os.parents_of path) w.machine path content state)
        (Stopped (os.parents_of path) w.machine path content state)
        r
        w'.machine
unfolding atomic_write
atomic_write_lem os path content state w =
    let paths = os.parents_of path in
    (Ensures-bind (Grown paths w.machine) (λ _. Grown paths w.machine)
        (Wrote paths w.machine path content state) (Stopped paths w.machine path content state) _ _
        (Ensures-weaken _ _ _ (Grown paths w.machine) (λ _. Grown paths w.machine)
          (λ _. Grown paths w.machine) _ (λ m g. g) (λ _ m g. g) (λ _ m g. inl g)
          (make_directories-Ensures paths w.machine))
        λ _. write_in-Ensures paths w.machine path content state os).run
      w (start-Grown paths w.machine)
