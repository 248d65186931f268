-- ===== src/Bridge/Apply/Target.antt =====
-- What the steps of an application do to the target file and to the service.
use cascade_vpn.Base.{
  ℕ, String, ◌≡◌, ◌≢◌, ◌⊎◌, inl, inr, refl, subst, ◌∙◌, Bool, true, false, Option, none, some, List,
  Result, ok, err, any, str_eq, arith, str_eq_iff, str_eq_refl,
}
use cascade_vpn.Bridge.Files.{
  FileData, Entry, missing, symlink, directory, special, file, Machine, Os, Error, os_error, pure,
  FileState, absent, existed, ◌>>◌, syscall, stat, capture_file_state, read_entry, atomic_write,
  apply_error, not_regular, print,
}
use cascade_vpn.Bridge.Files.Ensures.{
  Ends, Ensures, Ensures-pure, Ensures-raise, Ensures-weaken, Ensures-bind, Ensures-syscall,
  Ensures-if, Ensures-then,
}
use cascade_vpn.Bridge.Files.Replace.{Fits, Untouched, Written}
use cascade_vpn.Bridge.Files.Atomic.{Grown, Middle, Wrote, Stopped, atomic_write_lem}
use cascade_vpn.Bridge.Files.Service.{Calls, Tracks}
use cascade_vpn.Bridge.Apply.{stage_changed, write_backup}

module _ (path : String) where
  -- The target is the entry `e`, after the calls `s`.
  abbrev pub At : Entry → Calls → Machine → Type 0
  At e s m = (m.files path ≡ e) × (m.service ≡ s)

  -- The target is a file with the whole content, and the mode of what stood there.
  pub record New (content : List ℕ) (state : FileState) (s : Calls) (m : Machine) : Type 0 where
    pub final : FileData
    pub stored : m.files path ≡ file final
    pub whole : final.content ≡ content
    pub fits : Fits state final
    pub calls : m.service ≡ s

  abbrev pub OldOrNew : Entry → List ℕ → FileState → Calls → Error → Machine → Type 0
  OldOrNew e content state s _ m = At e s m ⊎ New content state s m

-- Directories made above the target leave it.
pub Grown-At :
    (paths : List String) (path : String) (e : Entry) (s : Calls) (m m' : Machine)
    → any (str_eq path) paths ≡ false
    → Grown paths m m'
    → At path e s m
    → At path e s m'
Grown-At paths path e s m m' apart g a = (by_change (g.at path) ∙ a.0, g.same.service ∙ a.1)
  where
    by_change :
        (m'.files path ≡ m.files path)
          ⊎ ((m.files path ≡ missing)
              × (m'.files path ≡ directory)
              × (any (str_eq path) paths ≡ true))
        → m'.files path ≡ m.files path
    by_change (inl h) = h
    by_change (inr h) = cc (apart, h.2)

-- Directories made anywhere leave a file.
Grown-At_file :
    (paths : List String) (path : String) (d : FileData) (s : Calls) (m m' : Machine)
    → Grown paths m m'
    → At path (file d) s m
    → At path (file d) s m'
Grown-At_file paths path d s m m' g a = (by_change (g.at path), g.same.service ∙ a.1)
  where
    by_change :
        (m'.files path ≡ m.files path)
          ⊎ ((m.files path ≡ missing)
              × (m'.files path ≡ directory)
              × (any (str_eq path) paths ≡ true))
        → m'.files path ≡ file d
    by_change (inl h) = h ∙ a.0
    by_change (inr h) = cc (a.0, h.0)

module _ (os : Os) (path : String) (e : Entry) (s : Calls) (content : List ℕ)
    (state : FileState) where
  module _ (m : Machine) (tmp : String) (other : path ≢ tmp) where
    Untouched-At :
        (m' : Machine) → At path e s m → Untouched m tmp path content state m' → At path e s m'
    Untouched-At m' a u = (u.at path other ∙ a.0, u.same.service ∙ a.1)

    Written-New :
        (m' : Machine)
        → At path e s m
        → Written m tmp path content state m'
        → New path content state s m'
    Written-New m' a r = record {
      final = r.final;
      stored = r.holds.at path other ∙ rw str_eq_refl;
      whole = r.whole;
      fits = r.fits;
      calls = r.holds.same.service ∙ a.1;
    }

  ended :
      (m : Machine) (r : Result Error (Unit {0})) (m' : Machine)
      → At path e s m
      → Ends
          (Wrote (os.parents_of path) m path content state)
          (Stopped (os.parents_of path) m path content state)
          r
          m'
      → Ends (λ _. New path content state s) (OldOrNew path e content state s) r m'
  ended m r m' a = by_end r
    where
      paths : List String
      paths = os.parents_of path

      at_middle : (x : Middle paths path m) → At path e s x.middle
      at_middle x = Grown-At paths path e s m x.middle (os.parents_ne path) x.grown a

      by_end :
          (r : Result Error (Unit {0}))
          → Ends (Wrote paths m path content state) (Stopped paths m path content state) r m'
          → Ends (λ _. New path content state s) (OldOrNew path e content state s) r m'
      by_end (ok u) (x, h) = Written-New x.middle x.tmp x.other m' (at_middle x) h.0
      by_end (err y) (inl g) = inl (Grown-At paths path e s m m' (os.parents_ne path) g a)
      by_end (err y) (inr (x, inl u)) = inl (Untouched-At x.middle x.tmp x.other m' (at_middle x) u)
      by_end (err y) (inr (x, inr r)) = inr (Written-New x.middle x.tmp x.other m' (at_middle x) r)

  pub write_target-Ensures :
      Ensures
        (At path e s)
        (atomic_write os path content state)
        (λ _. New path content state s)
        (OldOrNew path e content state s)
  write_target-Ensures = record {
    run = λ w a. ended w.machine _ _ a (atomic_write_lem os path content state w);
  }

-- A write to another path leaves a target that exists.
module _ (os : Os) (path other : String) (differ : other ≢ path) (d : FileData) (s : Calls)
    (content : List ℕ) (state : FileState) where
  module _ (m : Machine) (tmp : String) (free : m.files tmp ≡ missing)
      (a : At path (file d) s m) where
    stays : path ≢ tmp
    stays eq = cc (a.0, free, eq)

    Untouched-stays :
        (m' : Machine) → Untouched m tmp other content state m' → At path (file d) s m'
    Untouched-stays m' u = (u.at path stays ∙ a.0, u.same.service ∙ a.1)

    Written-stays : (m' : Machine) → Written m tmp other content state m' → At path (file d) s m'
    Written-stays m' r =
        (r.holds.at path stays ∙ ground (arith, str_eq_iff other path), r.holds.same.service ∙ a.1)

  stayed :
      (m : Machine) (r : Result Error (Unit {0})) (m' : Machine)
      → At path (file d) s m
      → Ends
          (Wrote (os.parents_of other) m other content state)
          (Stopped (os.parents_of other) m other content state)
          r
          m'
      → Ends (λ _. At path (file d) s) (λ _. At path (file d) s) r m'
  stayed m r m' a = by_end r
    where
      paths : List String
      paths = os.parents_of other

      at_middle : (x : Middle paths other m) → At path (file d) s x.middle
      at_middle x = Grown-At_file paths path d s m x.middle x.grown a

      by_end :
          (r : Result Error (Unit {0}))
          → Ends (Wrote paths m other content state) (Stopped paths m other content state) r m'
          → Ends (λ _. At path (file d) s) (λ _. At path (file d) s) r m'
      by_end (ok u) (x, h) = Written-stays x.middle x.tmp x.free (at_middle x) m' h.0
      by_end (err y) (inl g) = Grown-At_file paths path d s m m' g a
      by_end (err y) (inr (x, inl u)) = Untouched-stays x.middle x.tmp x.free (at_middle x) m' u
      by_end (err y) (inr (x, inr r)) = Written-stays x.middle x.tmp x.free (at_middle x) m' r

  pub write_other-Ensures :
      Ensures
        (At path (file d) s)
        (atomic_write os other content state)
        (λ _. At path (file d) s)
        (λ _. At path (file d) s)
  write_other-Ensures = record {
    run = λ w a. stayed w.machine _ _ a (atomic_write_lem os other content state w);
  }

-- What `capture_file_state` returns at an entry.
abbrev pub Captures : Entry → FileState → Type 0
Captures e absent = e ≡ missing
Captures e (existed d) = e ≡ file d

module _ (os : Os) (path : String) (s : Calls) (content : List ℕ) where
  read_entry-Ensures :
      (e : Entry)
      → Ensures
          (At path e s)
          (read_entry e)
          (λ state m. Captures e state × At path e s m)
          (λ _. At path e s)
  unfolding read_entry
  read_entry-Ensures missing = Ensures-pure _ _ _ absent (λ m a. (refl, a))
  read_entry-Ensures symlink = Ensures-raise _ _ _ os_error (λ m a. a)
  read_entry-Ensures directory =
      let P : Machine → Type 0 = At path directory s in
      Ensures-bind P (λ _. P) _ (λ _. P) syscall _ (Ensures-syscall P)
        λ _. Ensures-raise _ _ _ os_error (λ m a. a)
  read_entry-Ensures special =
      let P : Machine → Type 0 = At path special s in
      Ensures-bind P (λ _. P) _ (λ _. P) syscall _ (Ensures-syscall P)
        λ _. Ensures-raise _ _ _ (apply_error not_regular) (λ m a. a)
  read_entry-Ensures (file d) =
      let P : Machine → Type 0 = At path (file d) s in
      Ensures-bind P (λ _. P) _ (λ _. P) syscall _ (Ensures-syscall P)
        λ _.
          Ensures-bind P (λ _. P) _ (λ _. P) syscall _ (Ensures-syscall P)
            λ _. Ensures-pure _ _ _ (existed d) (λ m a. (refl, a))

  pub capture-Ensures :
      (e : Entry)
      → Ensures
          (At path e s)
          (capture_file_state path)
          (λ state m. Captures e state × At path e s m)
          (λ _. At path e s)
  unfolding capture_file_state stat
  capture-Ensures e = record {
    run = λ w a.
        subst
          (λ e'.
            Ends (λ state m. Captures e' state × At path e' s m) (λ _. At path e' s)
              (capture_file_state path w).0 (capture_file_state path w).1.machine)
          a.0 ((read_entry-Ensures (w.files path)).run w (refl, a.1));
  }

-- How the staging of a new content ends: nothing to do, or the file is written (unless this is a
-- dry run); `state` is the snapshot for the rollback.
module _ (path : String) (s : Calls) (content : List ℕ) (dry_run : Bool) (e : Entry) where
  pub data Staged : Option FileState → Machine → Type 0 where
    same :
        {m : Machine} (d : FileData)
        → e ≡ file d
        → d.content ≡ content
        → At path e s m
        → Staged none m
    shown :
        {m : Machine} (state : FileState)
        → dry_run ≡ true
        → Captures e state
        → At path e s m
        → Staged (some state) m
    written :
        {m : Machine} (state : FileState)
        → dry_run ≡ false
        → Captures e state
        → New path content state s m
        → Staged (some state) m

  -- An exception during the staging leaves the old target or the new one.
  pub data Broken : Machine → Type 0 where
    old : {m : Machine} → At path e s m → Broken m
    new :
        {m : Machine} (state : FileState) → Captures e state → New path content state s m → Broken m

module _ (os : Os) (path : String) (s : Calls) (text : String) (dry_run : Bool) (e : Entry) where
  abbrev bytes : List ℕ
  bytes = os.encode text

  print-Ensures :
      (state : FileState) → Ensures (At path e s) (print text) (λ _. At path e s) (λ _. At path e s)
  unfolding print
  print-Ensures state = record { run = λ w a. a }

  write_backup-Ensures :
      (state : FileState)
      → Captures e state
      → Ensures (At path e s) (write_backup os path state) (λ _. At path e s) (λ _. At path e s)
  unfolding write_backup
  write_backup-Ensures absent c = Ensures-pure _ _ _ tt (λ m a. a)
  write_backup-Ensures (existed d) c = rw c (
      write_other-Ensures os path (os.backup_of path) (os.backup_ne path) d s d.content (existed d))

  write_new-Ensures :
      (state : FileState)
      → dry_run ≡ false
      → Captures e state
      → Ensures
          (At path e s)
          (atomic_write os path bytes state >> pure (some state))
          (Staged path s bytes dry_run e)
          (λ _. Broken path s bytes dry_run e)
  write_new-Ensures state live c =
      Ensures-bind (At path e s) (λ _. New path bytes state s) _ _ _ _
        (Ensures-weaken _ _ _ (At path e s) (λ _. New path bytes state s)
          (OldOrNew path e bytes state s) _ (λ m a. a) (λ _ m n. n) (λ _ m x. ended m x)
          (write_target-Ensures os path e s bytes state))
        λ _. Ensures-pure _ _ _ (some state) (λ m n. written state live c n)
    where
      ended :
          (m : Machine) → At path e s m ⊎ New path bytes state s m → Broken path s bytes dry_run e m
      ended m (inl a) = old a
      ended m (inr n) = new state c n

  pub stage_changed-Ensures :
      (state : FileState)
      → Captures e state
      → Ensures
          (At path e s)
          (stage_changed os path text dry_run state)
          (Staged path s bytes dry_run e)
          (λ _. Broken path s bytes dry_run e)
  unfolding stage_changed
  stage_changed-Ensures state c =
      Ensures-if _ _ _ dry_run _ _
        (λ dry.
          Ensures-then (At path e s) (λ _. At path e s) _ _ (λ _ m a. old a) _ _
            (print-Ensures state) λ _. Ensures-pure _ _ _ (some state) (λ m a. shown state dry c a))
        (λ live.
          Ensures-then (At path e s) (λ _. At path e s) _ _ (λ _ m a. old a) _ _
            (write_backup-Ensures state c) λ _. write_new-Ensures state live c)

pub At-Tracks : (path : String) (e : Entry) → Tracks (At path e)
At-Tracks path e = record { calls = λ s m a. a.1; reindex = λ s s' m a. (a.0, refl) }

pub New-Tracks :
    (path : String) (content : List ℕ) (state : FileState) → Tracks (New path content state)
New-Tracks path content state = record {
  calls = λ s m n. n.calls;
  reindex = λ s s' m n. record {
    final = n.final;
    stored = n.stored;
    whole = n.whole;
    fits = n.fits;
    calls = refl;
  };
}
