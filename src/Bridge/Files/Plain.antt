-- ===== src/Bridge/Files/Plain.antt =====
-- The file operations never raise the error that reports a rollback which went through.
use cascade_vpn.Base.{
  String, ◌≡◌, refl, none, some, Option, Bool, true, false, List, [], ◌∷◌, ℕ, Result, ok, err,
  arith, Bool-cases, inl, inr, if◌then◌else◌,
}
use cascade_vpn.Bridge.Files.{
  Machine, Os, Io, Entry, missing, symlink, directory, special, make_directory, make_directories,
  write_in, file, FileData, FileState, absent, existed, Error, apply_error, not_regular, os_error,
  pure, raise, continue, ◌>>=◌, finally, after_finally, catching, handle, Action, called, systemctl,
  World, is_plain, Outcome, done, denied, failed, next_outcome, syscall, syscall_tried,
  syscall_permitted, put, stat, capture_file_state, read_entry, fsync_directory, unlink,
  unlink_entry, copy_metadata, replace_with, write_through, write_by_way_of, atomic_write, print,
  restore_file_state,
}
use cascade_vpn.Bridge.Files.Ensures.{Ends, Ensures}

abbrev pub IsPlain : {A : Type 0} → Result Error A → Type 0
IsPlain (ok a) = Unit {0}
IsPlain (err x) = is_plain x ≡ true

pub record Plain {A : Type 0} (action : Io A) : Type 0 where
  pub at : (w : World) → IsPlain (action w).0

module _ {A : Type 0} where
  pub Plain-pure : (a : A) → Plain (pure a)
  Plain-pure a = record { at = λ w. tt }

  pub Plain-raise : (x : Error) → is_plain x ≡ true → Plain (raise {A = A} x)
  Plain-raise x h = record { at = λ w. h }

  pub Plain-if : (b : Bool) (m n : Io A) → Plain m → Plain n → Plain (if b then m else n)
  Plain-if true m n hm hn = hm
  Plain-if false m n hm hn = hn

  pub Plain-finally : (m : Io A) (k : Io (Unit {0})) → Plain m → Plain k → Plain (finally m k)
  Plain-finally m k hm hk = record { at = λ w. go (m w).0 (k (m w).1).0 (hm.at w) (hk.at (m w).1) }
    where
      go :
          (r : Result Error A) (c : Result Error (Unit {0}))
          → IsPlain r
          → IsPlain c
          → IsPlain (after_finally r c)
      go r (ok u) hr hc = hr
      go r (err x) hr hc = hc

  pub Plain-catching :
      (caught : Error → Bool) (m : Io A) (h : Error → Io A)
      → Plain m
      → ((x : Error) → Plain (h x))
      → Plain (catching caught m h)
  Plain-catching caught m h hm hh = record { at = λ w. go (m w).0 (m w).1 (hm.at w) }
    where
      go : (r : Result Error A) (w : World) → IsPlain r → IsPlain (handle caught r h w).0
      go (ok a) w p = p
      go (err x) w p = elim (Bool-cases (caught x)) [
        | inl picked ↦ rw picked ((hh x).at w)
        | inr passed ↦ rw passed p
      ]

module _ {A B : Type 0} where
  pub Plain-bind : (m : Io A) (f : A → Io B) → Plain m → ((a : A) → Plain (f a)) → Plain (m >>= f)
  Plain-bind m f hm hf = record { at = λ w. go (m w).0 (m w).1 (hm.at w) }
    where
      go : (r : Result Error A) (w : World) → IsPlain r → IsPlain (continue r f w).0
      go (ok a) w h = (hf a).at w
      go (err x) w h = h

-- An ending and the plainness of its error, together.
pub Ensures-plain :
    {A : Type 0} (P : Machine → Type 0) (Q : A → Machine → Type 0) (E E' : Error → Machine → Type 0)
    (action : Io A)
    → Ensures P action Q E
    → Plain action
    → ((x : Error) (m : Machine) → is_plain x ≡ true → E x m → E' x m)
    → Ensures P action Q E'
Ensures-plain {A} P Q E E' action h plain back = record {
  run = λ w p. go (action w).0 (action w).1.machine (plain.at w) (h.run w p);
}
  where
    go : (r : Result Error A) (m : Machine) → IsPlain r → Ends Q E r m → Ends Q E' r m
    go (ok a) m hp e = e
    go (err x) m hp e = back x m hp e

pub syscall-Plain : Plain syscall
unfolding syscall
syscall-Plain = record { at = λ w. ground arith }

pub permitted-Plain : Plain syscall_permitted
unfolding syscall_permitted
permitted-Plain = record { at = λ w. ground arith }

pub tried-Plain : Plain syscall_tried
unfolding syscall_tried
tried-Plain = record { at = λ w. ground arith }

pub put-Plain : (path : String) (e : Entry) → Plain (put path e)
unfolding put
put-Plain path e = record { at = λ w. tt }

pub stat-Plain : (path : String) → Plain (stat path)
unfolding stat
stat-Plain path = record { at = λ w. tt }

pub print-Plain : (text : String) → Plain (print text)
unfolding print
print-Plain text = record { at = λ w. tt }

pub ruleset plain_rules = (
  Plain-pure, Plain-raise, Plain-if, Plain-finally, Plain-catching, Plain-bind, syscall-Plain,
  permitted-Plain, tried-Plain, put-Plain, stat-Plain, print-Plain,
)

read_entry-Plain : (e : Entry) → Plain (read_entry e)
unfolding read_entry
read_entry-Plain missing = search plain_rules
read_entry-Plain symlink = Plain-raise os_error refl
read_entry-Plain directory = Plain-bind _ _ syscall-Plain (λ _. Plain-raise os_error refl)
read_entry-Plain special =
    Plain-bind _ _ syscall-Plain (λ _. Plain-raise (apply_error not_regular) refl)
read_entry-Plain (file d) = search plain_rules

pub capture-Plain : (path : String) → Plain (capture_file_state path)
unfolding capture_file_state
capture-Plain path = search (plain_rules, read_entry-Plain)

fsync_directory-Plain : Plain fsync_directory
unfolding fsync_directory
fsync_directory-Plain = search plain_rules

unlink_entry-Plain : (path : String) (e : Entry) → Plain (unlink_entry path e)
unfolding unlink_entry
unlink_entry-Plain path missing = search plain_rules
unlink_entry-Plain path _ = search plain_rules

unlink-Plain : (path : String) → Plain (unlink path)
unfolding unlink
unlink-Plain path = search (plain_rules, unlink_entry-Plain)

copy_metadata-Plain : (state : FileState) (d : FileData) → Plain (copy_metadata state d)
unfolding copy_metadata
copy_metadata-Plain absent d = search plain_rules
copy_metadata-Plain (existed old) d = search plain_rules

replace_with-Plain :
    (new : FileData) (tmp path : String) (state : FileState)
    → Plain (replace_with new tmp path state)
unfolding replace_with
replace_with-Plain new tmp path state =
    search (plain_rules, copy_metadata-Plain, fsync_directory-Plain) depth 12

write_through-Plain :
    (uid gid : ℕ) (tmp path : String) (content : List ℕ) (state : FileState)
    → Plain (write_through uid gid tmp path content state)
unfolding write_through
write_through-Plain uid gid tmp path content state =
    search (plain_rules, replace_with-Plain, unlink-Plain) depth 9

by_way_of-Plain :
    (tmp : Option String) (uid gid : ℕ) (path : String) (content : List ℕ) (state : FileState)
    → Plain (write_by_way_of tmp uid gid path content state)
unfolding write_by_way_of
by_way_of-Plain none uid gid path content state = Plain-raise os_error refl
by_way_of-Plain (some tmp) uid gid path content state =
    write_through-Plain uid gid tmp path content state

make_directory-Plain : (path : String) (e : Entry) → Plain (make_directory path e)
unfolding make_directory
make_directory-Plain path missing = search plain_rules
make_directory-Plain path directory = Plain-pure tt
make_directory-Plain path symlink = syscall-Plain
make_directory-Plain path special = Plain-raise os_error refl
make_directory-Plain path (file d) = Plain-raise os_error refl

pub make_directories-Plain : (paths : List String) → Plain (make_directories paths)
unfolding make_directories
make_directories-Plain [] = Plain-pure tt
make_directories-Plain (path ∷ paths) =
    Plain-bind _ _ (stat-Plain path)
      λ e. Plain-bind _ _ (make_directory-Plain path e) λ _. make_directories-Plain paths

write_in-Plain :
    (os : Os) (path : String) (content : List ℕ) (state : FileState)
    → Plain (write_in os path content state)
unfolding write_in
write_in-Plain os path content state = record {
  at = λ w. (by_way_of-Plain (os.mkstemp w.files path) w.uid w.gid path content state).at w;
}

pub atomic_write-Plain :
    (os : Os) (path : String) (content : List ℕ) (state : FileState)
    → Plain (atomic_write os path content state)
unfolding atomic_write
atomic_write-Plain os path content state =
    Plain-bind _ _ (make_directories-Plain (os.parents_of path))
      λ _. write_in-Plain os path content state

called-Plain : (action : Action) (o : Outcome) (w : World) → IsPlain (called action (o, w)).0
unfolding called
called-Plain action done w = tt
called-Plain action denied w = refl
called-Plain action failed w = refl

pub systemctl-Plain : (action : Action) → Plain (systemctl action)
unfolding systemctl
systemctl-Plain action = record {
  at = λ w. called-Plain action (next_outcome w).0 (next_outcome w).1;
}

pub restore-Plain :
    (os : Os) (path : String) (state : FileState) → Plain (restore_file_state os path state)
unfolding restore_file_state
restore-Plain os path absent = search (plain_rules, unlink-Plain, fsync_directory-Plain)
restore-Plain os path (existed d) = atomic_write-Plain os path d.content (existed d)
