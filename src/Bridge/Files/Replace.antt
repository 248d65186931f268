-- ===== src/Bridge/Files/Replace.antt =====
-- The body of `atomic_write`, once the name of the temporary file is there: at every moment the target
-- is the old file or the whole new one.
use cascade_vpn.Base.{
  ℕ, String, ◌≡◌, ◌≢◌, ◌⊎◌, inl, inr, refl, ◌∙◌, List, arith, str_eq_iff, str_eq_refl,
}
use cascade_vpn.Bridge.Files.{
  FileData, Entry, missing, symlink, directory, special, file, Machine, Error, os_error, FileState,
  absent, existed, update, ◌>>◌, finally, syscall, syscall_permitted, syscall_tried, put, stat,
  fsync_directory, unlink, unlink_entry, copy_metadata, replace_with, own_file, write_through,
}
use cascade_vpn.Bridge.Files.Ensures.{
  Ensures, Ensures-pure, Ensures-weaken, Ensures-bind, Ensures-finally, Ensures-syscall,
  Ensures-permitted, Ensures-tried, Ensures-put, Ensures-stat, Ensures-if, Ensures-then,
}

-- What no file operation changes.
pub record SameProcess (m m' : Machine) : Type 0 where
  pub service : m'.service ≡ m.service
  pub output : m'.output ≡ m.output
  pub uid : m'.uid ≡ m.uid
  pub gid : m'.gid ≡ m.gid

-- The files of `m'` are `files`, but for the temporary one.
pub record Holds (m : Machine) (tmp : String) (files : String → Entry) (m' : Machine) : Type 0 where
  pub same : SameProcess m m'
  pub at : (q : String) → q ≢ tmp → m'.files q ≡ files q

pub update-ne :
    (files : String → Entry) (p q : String) (e : Entry) → q ≢ p → update files p e q ≡ files q
update-ne files p q e h = ground (arith, str_eq_iff p q)

pub update_self : (files : String → Entry) (p : String) (e : Entry) → update files p e p ≡ e
update_self files p e = rw str_eq_refl

Holds-put_tmp :
    (m : Machine) (tmp : String) (files : String → Entry) (e : Entry) (m' : Machine)
    → Holds m tmp files m'
    → Holds m tmp files (record m' { files = update m'.files tmp e })
Holds-put_tmp m tmp files e m' h = record {
  same = record {
    service = h.same.service;
    output = h.same.output;
    uid = h.same.uid;
    gid = h.same.gid;
  };
  at = λ q ne. update-ne m'.files tmp q e ne ∙ h.at q ne;
}

Holds-put :
    (m : Machine) (tmp path : String) (e : Entry) (m' : Machine)
    → Holds m tmp m.files m'
    → Holds m tmp (update m.files path e) (record m' { files = update m'.files path e })
Holds-put m tmp path e m' h = record {
  same = record {
    service = h.same.service;
    output = h.same.output;
    uid = h.same.uid;
    gid = h.same.gid;
  };
  at = λ q ne. ground (arith, h.at q ne);
}

-- The mode of the new file is that of the old one, and otherwise private.
abbrev pub Fits : FileState → FileData → Type 0
Fits absent d = d.mode ≡ 0o600
Fits (existed old) d = d.mode ≡ old.mode

-- The target holds the new content.
pub record Replaced (m : Machine) (tmp path : String) (content : List ℕ) (state : FileState)
    (m' : Machine) : Type 0 where
  pub final : FileData
  pub whole : final.content ≡ content
  pub fits : Fits state final
  pub holds : Holds m tmp (update m.files path (file final)) m'

copy_metadata-Ensures :
    (P : Machine → Type 0) (state : FileState) (new : FileData) (content : List ℕ)
    → new.content ≡ content
    → new.mode ≡ 0o600
    → Ensures P
        (copy_metadata state new)
        (λ d m. P m × (d.content ≡ content) × Fits state d)
        (λ _. P)
unfolding copy_metadata
copy_metadata-Ensures P absent new content c f = Ensures-pure P _ _ new (λ m p. (p, c, f))
copy_metadata-Ensures P (existed d) new content c f =
    Ensures-bind P (λ _. P) _ (λ _. P) syscall _ (Ensures-syscall P)
      λ _.
        Ensures-bind P (λ _. P) _ (λ _. P) syscall_permitted _ (Ensures-permitted P)
          λ owned. Ensures-pure P _ _ _ (λ m p. (p, ground arith, ground arith))

pub fsync_directory-Ensures : (P : Machine → Type 0) → Ensures P fsync_directory (λ _. P) (λ _. P)
unfolding fsync_directory
fsync_directory-Ensures P =
    Ensures-bind P (λ _. P) _ (λ _. P) syscall_tried _ (Ensures-tried P)
      λ opened.
        Ensures-if P (λ _. P) (λ _. P) opened _ _
          (λ _.
            Ensures-bind P (λ _. P) _ (λ _. P) syscall_tried _ (Ensures-tried P)
              λ _. Ensures-syscall P)
          (λ _. Ensures-pure P _ _ tt (λ m p. p))

module _ (P : Machine → Type 0) (path : String)
    (keeps : (m : Machine) → P m → P (record m { files = update m.files path missing })) where
  abbrev Gone : Unit {0} → Machine → Type 0
  Gone _ m = P m × (m.files path ≡ missing)

  removed-Ensures :
      (entry : Entry)
      → Ensures (λ m. P m × (m.files path ≡ entry)) (syscall >> put path missing) Gone (λ _. P)
  removed-Ensures entry =
      Ensures-weaken _ Gone (λ _. P) P Gone (λ _. P) _ (λ m p. p.0) (λ _ m q. q) (λ _ m q. q)
        (Ensures-bind P (λ _. P) Gone (λ _. P) syscall _ (Ensures-syscall P)
          λ _.
            Ensures-put P (Gone tt) (λ _. P) path missing
              (λ m p. (keeps m p, update_self m.files path missing)))

  unlink_entry-Ensures :
      (entry : Entry)
      → Ensures (λ m. P m × (m.files path ≡ entry)) (unlink_entry path entry) Gone (λ _. P)
  unfolding unlink_entry
  unlink_entry-Ensures missing = Ensures-pure _ _ _ tt (λ m p. p)
  unlink_entry-Ensures symlink = removed-Ensures symlink
  unlink_entry-Ensures directory = removed-Ensures directory
  unlink_entry-Ensures special = removed-Ensures special
  unlink_entry-Ensures (file d) = removed-Ensures (file d)

  pub unlink-Ensures : Ensures P (unlink path) Gone (λ _. P)
  unfolding unlink
  unlink-Ensures =
      Ensures-bind P (λ entry m. P m × (m.files path ≡ entry)) Gone (λ _. P) (stat path) _
        (Ensures-stat P (λ _. P) path) unlink_entry-Ensures

module _ (m : Machine) (tmp path : String) (content : List ℕ) (state : FileState) where
  abbrev pub Untouched : Machine → Type 0
  Untouched = Holds m tmp m.files

  abbrev pub Written : Machine → Type 0
  Written = Replaced m tmp path content state

  -- An exception leaves the old target or the whole new one.
  abbrev pub EitherWay : Error → Machine → Type 0
  EitherWay _ m' = Untouched m' ⊎ Written m'

  abbrev pub Finished : Unit {0} → Machine → Type 0
  Finished _ m' = Written m' × (m'.files tmp ≡ missing)

  abbrev Prepared : FileData → Machine → Type 0
  Prepared d m' = Untouched m' × (d.content ≡ content) × Fits state d

  before : (e : Error) (m' : Machine) → Untouched m' → EitherWay e m'
  before e m' u = inl u

  Written-put_tmp :
      (e : Entry) (m' : Machine)
      → Written m'
      → Written (record m' { files = update m'.files tmp e })
  Written-put_tmp e m' r = record {
    final = r.final;
    whole = r.whole;
    fits = r.fits;
    holds = Holds-put_tmp m tmp (update m.files path (file r.final)) e m' r.holds;
  }

  EitherWay-put_tmp :
      (x : Entry) (e : Error) (m' : Machine)
      → EitherWay e m'
      → EitherWay e (record m' { files = update m'.files tmp x })
  EitherWay-put_tmp x e m' (inl u) = inl (Holds-put_tmp m tmp m.files x m' u)
  EitherWay-put_tmp x e m' (inr r) = inr (Written-put_tmp x m' r)

  -- From the moment of the replacement on.
  replaced-Ensures :
      (d : FileData)
      → Ensures
          (Prepared d)
          (put path (file d) >> (put tmp missing >> fsync_directory))
          Finished
          EitherWay
  replaced-Ensures d =
      Ensures-bind (Prepared d) (λ _. Written) Finished EitherWay _ _
        (Ensures-put (Prepared d) Written EitherWay path (file d) λ m' p. record {
          final = d;
          whole = p.1;
          fits = p.2;
          holds = Holds-put m tmp path (file d) m' p.0;
        })
        λ _.
          Ensures-bind Written (λ _. Finished tt) Finished EitherWay _ _
            (Ensures-put Written (Finished tt) EitherWay tmp missing
              λ m' r. (Written-put_tmp missing m' r, update_self m'.files tmp missing))
            λ _.
              Ensures-weaken (Finished tt) Finished EitherWay (Finished tt) (λ _. Finished tt)
                (λ _. Finished tt) fsync_directory (λ m' p. p) (λ _ m' q. q) (λ _ m' q. inr q.0)
                (fsync_directory-Ensures (Finished tt))

  pub replace_with-Ensures :
      (new : FileData)
      → new.content ≡ content
      → new.mode ≡ 0o600
      → Ensures Untouched (replace_with new tmp path state) Finished EitherWay
  unfolding replace_with
  replace_with-Ensures new c f =
      Ensures-then Untouched (λ _. Untouched) Finished EitherWay before syscall _
        (Ensures-syscall Untouched)
        λ _.
          Ensures-bind Untouched (λ _. Untouched) Finished EitherWay _ _ (tmp_put (file new))
            λ _.
              Ensures-then Untouched (λ _. Untouched) Finished EitherWay before syscall _
                (Ensures-syscall Untouched)
                λ _.
                  Ensures-then Untouched Prepared Finished EitherWay before _ _
                    (copy_metadata-Ensures Untouched state new content c f) finish_with
    where
      tmp_put : (e : Entry) → Ensures Untouched (put tmp e) (λ _. Untouched) EitherWay
      tmp_put e = Ensures-put Untouched Untouched EitherWay tmp e (Holds-put_tmp m tmp m.files e)

      finish_with :
          (d : FileData)
          → Ensures
              (Prepared d)
              (put tmp (file d)
                >> (syscall >> (put path (file d) >> (put tmp missing >> fsync_directory))))
              Finished
              EitherWay
      finish_with d =
          Ensures-bind (Prepared d) (λ _. Prepared d) Finished EitherWay _ _
            (Ensures-put (Prepared d) (Prepared d) EitherWay tmp (file d)
              λ m' p. (Holds-put_tmp m tmp m.files (file d) m' p.0, p.1, p.2))
            λ _.
              Ensures-then (Prepared d) (λ _. Prepared d) Finished EitherWay (λ _ m' p. inl p.0)
                syscall _ (Ensures-syscall (Prepared d)) λ _. replaced-Ensures d

  pub write_through-Ensures :
      (uid gid : ℕ)
      → Ensures Untouched (write_through uid gid tmp path content state) Finished EitherWay
  unfolding write_through
  write_through-Ensures uid gid =
      Ensures-then Untouched (λ _. Untouched) Finished EitherWay before syscall _
        (Ensures-syscall Untouched)
        λ _.
          Ensures-bind Untouched (λ _. Untouched) Finished EitherWay _ _
            (Ensures-put Untouched Untouched EitherWay tmp _ (Holds-put_tmp m tmp m.files _))
            λ _. guarded
    where
      clean : Ensures Written (unlink tmp) Finished (λ _. Written)
      clean = unlink-Ensures Written tmp (Written-put_tmp missing)

      clean_either : Ensures (EitherWay os_error) (unlink tmp) (λ _. EitherWay os_error) EitherWay
      clean_either =
          Ensures-weaken (EitherWay os_error) (λ _. EitherWay os_error) EitherWay
            (EitherWay os_error) _ EitherWay _ (λ _ p. p) (λ _ m' q. q.0) (λ _ m' q. q)
            (unlink-Ensures (EitherWay os_error) tmp (EitherWay-put_tmp missing os_error))

      guarded :
          Ensures Untouched
            (finally (replace_with (own_file uid gid content) tmp path state) (unlink tmp))
            Finished
            EitherWay
      guarded =
          Ensures-finally Untouched Finished Finished EitherWay EitherWay _ _
            (replace_with-Ensures (own_file uid gid content) refl refl)
            (λ _.
              Ensures-weaken (Finished tt) (λ _. Finished tt) EitherWay Written Finished
                (λ _. Written) _ (λ m' q. q.0) (λ _ m' q. q) (λ _ m' q. inr q) clean)
            (λ x. clean_either)

pub start-Untouched : (m : Machine) (tmp : String) → Holds m tmp m.files m
start-Untouched m tmp = record {
  same = record { service = refl; output = refl; uid = refl; gid = refl };
  at = λ q ne. refl;
}
