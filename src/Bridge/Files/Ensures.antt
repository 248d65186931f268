-- ===== src/Bridge/Files/Ensures.antt =====
-- Partial correctness of `Io`: what an operation leaves when it returns, and when it raises. The
-- predicates are about the machine, so that they hold whatever the environment still has in store.
use cascade_vpn.Base.{
  String, if◌then◌else◌, Bool-cases, inl, inr, ◌≡◌, refl, Bool, true, false, Result, ok, err, arith,
}
use cascade_vpn.Bridge.Files.{
  Machine, World, Entry, Error, Io, pure, raise, continue, ◌>>=◌, finally, after_finally, handle,
  catching, next_outcome, syscall, syscall_permitted, syscall_tried, put, stat, update,
}

-- `Q` of what is returned, `E` after an exception.
abbrev pub Ends :
    {A : Type 0}
    → (A → Machine → Type 0)
    → (Error → Machine → Type 0)
    → Result Error A
    → Machine
    → Type 0
Ends Q E (ok a) m = Q a m
Ends Q E (err e) m = E e m

pub record Ensures {A : Type 0} (P : Machine → Type 0) (action : Io A) (Q : A → Machine → Type 0)
    (E : Error → Machine → Type 0) : Type 0 where
  pub run : (w : World) → P w.machine → Ends Q E (action w).0 (action w).1.machine

module _ {A : Type 0} (P : Machine → Type 0) (Q : A → Machine → Type 0)
    (E : Error → Machine → Type 0) where
  pub Ensures-pure : (a : A) → ((m : Machine) → P m → Q a m) → Ensures P (pure a) Q E
  Ensures-pure a h = record { run = λ w p. h w.machine p }

  pub Ensures-raise : (e : Error) → ((m : Machine) → P m → E e m) → Ensures P (raise e) Q E
  Ensures-raise e h = record { run = λ w p. h w.machine p }

  pub Ensures-weaken :
      (P' : Machine → Type 0) (Q' : A → Machine → Type 0) (E' : Error → Machine → Type 0)
      (action : Io A)
      → ((m : Machine) → P m → P' m)
      → ((a : A) (m : Machine) → Q' a m → Q a m)
      → ((e : Error) (m : Machine) → E' e m → E e m)
      → Ensures P' action Q' E'
      → Ensures P action Q E
  Ensures-weaken P' Q' E' action hp hq he h = record {
    run = λ w p. go (action w).0 (action w).1.machine (h.run w (hp w.machine p));
  }
    where
      go : (r : Result Error A) (m : Machine) → Ends Q' E' r m → Ends Q E r m
      go (ok a) m q = hq a m q
      go (err e) m q = he e m q

module _ {A B : Type 0} (P : Machine → Type 0) (R : A → Machine → Type 0) (Q : B → Machine → Type 0)
    (E : Error → Machine → Type 0) where
  continue_ends :
      (f : A → Io B) (r : Result Error A) (w : World)
      → ((a : A) → Ensures (R a) (f a) Q E)
      → Ends R E r w.machine
      → Ends Q E (continue r f w).0 (continue r f w).1.machine
  continue_ends f (ok a) w h e = (h a).run w e
  continue_ends f (err x) w h e = e

  pub Ensures-bind :
      (action : Io A) (f : A → Io B)
      → Ensures P action R E
      → ((a : A) → Ensures (R a) (f a) Q E)
      → Ensures P (action >>= f) Q E
  Ensures-bind action f h k = record {
    run = λ w p. continue_ends f (action w).0 (action w).1 k (h.run w p);
  }

-- The clean-up `k` of a `finally` must keep what the body ended in, and may raise `E` itself.
module _ {A : Type 0} (P : Machine → Type 0) (R Q : A → Machine → Type 0)
    (X E : Error → Machine → Type 0) where
  pub Ensures-finally :
      (action : Io A) (k : Io (Unit {0}))
      → Ensures P action R X
      → ((a : A) → Ensures (R a) k (λ _. Q a) E)
      → ((x : Error) → Ensures (X x) k (λ _. E x) E)
      → Ensures P (finally action k) Q E
  Ensures-finally action k h returned raised = record {
    run = λ w p. go (action w).0 (action w).1 (h.run w p);
  }
    where
      after :
          (r : Result Error A) (c : Result Error (Unit {0})) (m : Machine)
          → Ends (λ _. Ends Q E r) E c m
          → Ends Q E (after_finally r c) m
      after r (ok u) m q = q
      after r (err e) m q = q

      go :
          (r : Result Error A) (w : World)
          → Ends R X r w.machine
          → Ends Q E (after_finally r (k w).0) (k w).1.machine
      go (ok a) w e = after (ok a) (k w).0 (k w).1.machine ((returned a).run w e)
      go (err x) w e = after (err x) (k w).0 (k w).1.machine ((raised x).run w e)

pub machine-next_outcome : (w : World) → (next_outcome w).1.machine ≡ w.machine
unfolding next_outcome
machine-next_outcome w = ground arith

machine-syscall : (w : World) → (syscall w).1.machine ≡ w.machine
unfolding syscall
machine-syscall w = ground (arith, machine-next_outcome w)

machine-permitted : (w : World) → (syscall_permitted w).1.machine ≡ w.machine
unfolding syscall_permitted
machine-permitted w = ground (arith, machine-next_outcome w)

machine-tried : (w : World) → (syscall_tried w).1.machine ≡ w.machine
unfolding syscall_tried
machine-tried w = ground (arith, machine-next_outcome w)

-- A call that changes nothing keeps every predicate.
module _ {A : Type 0} (P : Machine → Type 0) (action : Io A)
    (same : (w : World) → (action w).1.machine ≡ w.machine) where
  quiet_ends : (r : Result Error A) (m : Machine) → P m → Ends (λ _. P) (λ _. P) r m
  quiet_ends (ok a) m p = p
  quiet_ends (err e) m p = p

  pub Ensures-quiet : Ensures P action (λ _. P) (λ _. P)
  Ensures-quiet = record {
    run = λ w p. quiet_ends (action w).0 (action w).1.machine (rw (same w) p);
  }

pub Ensures-syscall : (P : Machine → Type 0) → Ensures P syscall (λ _. P) (λ _. P)
Ensures-syscall P = Ensures-quiet P syscall machine-syscall

pub Ensures-permitted : (P : Machine → Type 0) → Ensures P syscall_permitted (λ _. P) (λ _. P)
Ensures-permitted P = Ensures-quiet P syscall_permitted machine-permitted

pub Ensures-tried : (P : Machine → Type 0) → Ensures P syscall_tried (λ _. P) (λ _. P)
Ensures-tried P = Ensures-quiet P syscall_tried machine-tried

-- A write to the store.
pub Ensures-put :
    (P : Machine → Type 0) (Q : Machine → Type 0) (E : Error → Machine → Type 0) (path : String)
    (e : Entry)
    → ((m : Machine) → P m → Q (record m { files = update m.files path e }))
    → Ensures P (put path e) (λ _. Q) E
unfolding put
Ensures-put P Q E path e h = record { run = λ w p. h w.machine p }

-- Reading a path tells what it names.
pub Ensures-stat :
    (P : Machine → Type 0) (E : Error → Machine → Type 0) (path : String)
    → Ensures P (stat path) (λ entry m. P m × (m.files path ≡ entry)) E
unfolding stat
Ensures-stat P E path = record { run = λ w p. (p, refl) }

module _ {A : Type 0} (P : Machine → Type 0) (Q : A → Machine → Type 0)
    (E : Error → Machine → Type 0) where
  pub Ensures-if :
      (b : Bool) (left right : Io A)
      → (b ≡ true → Ensures P left Q E)
      → (b ≡ false → Ensures P right Q E)
      → Ensures P (if b then left else right) Q E
  Ensures-if true left right l r = l refl
  Ensures-if false left right l r = r refl

-- A step that may raise and then leaves `P`, which is one of the endings allowed.
module _ {A B : Type 0} (P : Machine → Type 0) (R : A → Machine → Type 0) (Q : B → Machine → Type 0)
    (E : Error → Machine → Type 0) (allowed : (e : Error) (m : Machine) → P m → E e m) where
  pub Ensures-then :
      (action : Io A) (f : A → Io B)
      → Ensures P action R (λ _. P)
      → ((a : A) → Ensures (R a) (f a) Q E)
      → Ensures P (action >>= f) Q E
  Ensures-then action f h k =
      Ensures-bind P R Q E action f
        (Ensures-weaken P R E P R (λ _. P) action (λ m p. p) (λ a m q. q) allowed h) k

module _ {A : Type 0} (P : Machine → Type 0) (Q : A → Machine → Type 0)
    (X E : Error → Machine → Type 0) (caught : Error → Bool) where
  handle_ends :
      (handler : Error → Io A) (r : Result Error A) (w : World)
      → ((x : Error) → caught x ≡ true → Ensures (X x) (handler x) Q E)
      → ((x : Error) (m : Machine) → caught x ≡ false → X x m → E x m)
      → Ends Q X r w.machine
      → Ends Q E (handle caught r handler w).0 (handle caught r handler w).1.machine
  handle_ends handler (ok a) w h l e = e
  handle_ends handler (err x) w h l e = elim (Bool-cases (caught x)) [
    | inl yes_caught ↦ rw yes_caught ((h x yes_caught).run w e)
    | inr not_caught ↦ rw not_caught (l x w.machine not_caught e)
  ]

  pub Ensures-catching :
      (action : Io A) (handler : Error → Io A)
      → Ensures P action Q X
      → ((x : Error) → caught x ≡ true → Ensures (X x) (handler x) Q E)
      → ((x : Error) (m : Machine) → caught x ≡ false → X x m → E x m)
      → Ensures P (catching caught action handler) Q E
  Ensures-catching action handler h k l = record {
    run = λ w p. handle_ends handler (action w).0 (action w).1 k l (h.run w p);
  }
