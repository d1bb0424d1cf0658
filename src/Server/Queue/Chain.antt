-- ===== src/Server/Queue/Chain.antt =====
-- What the linked list stands for: its tasks in order, each at its address.
use bspd.Common.{◌≡◌, ◌≢◌, refl, sym, Option, some, List, [], ◌∷◌, ◌++◌, arith}
use bspd.Server.Task.{Ptr, null_ptr, Task}
use bspd.Server.Queue.{Node, Queue, update}

abbrev pub Entries : Type 0
Entries = List (Ptr × Task)

-- From `p` the `next` pointers lead through the entries to NULL.
pub data Chain (cell : Ptr → Option Node) : Ptr → Entries → Type 0 where
  nil : {p : Ptr} → p ≡ null_ptr → Chain cell p []
  cons :
      {p q : Ptr} {t : Task} {xs : Entries}
      → p ≢ null_ptr
      → cell p ≡ some (record { task = t; next = q })
      → Chain cell q xs
      → Chain cell p ((p, t) ∷ xs)

abbrev pub Avoids : Ptr → Entries → Type 0
Avoids p [] = Unit {0}
Avoids p ((q, t) ∷ xs) = (q ≢ p) × Avoids p xs

abbrev pub Distinct : Entries → Type 0
Distinct [] = Unit {0}
Distinct ((q, t) ∷ xs) = Avoids q xs × Distinct xs

abbrev pub last_or : Ptr → Entries → Ptr
last_or d [] = d
last_or d ((p, t) ∷ xs) = last_or p xs

abbrev pub last : Entries → Ptr
last = last_or null_ptr

last_or-ne : (a d : Ptr) (xs : Entries) → d ≢ a → Avoids a xs → last_or d xs ≢ a
last_or-ne a d [] ne h = ne
last_or-ne a d ((p, t) ∷ xs) ne h = last_or-ne a p xs h.0 h.1

pub last_or-snoc : (d a : Ptr) (t : Task) (xs : Entries) → last_or d (xs ++ (a, t) ∷ []) ≡ a
last_or-snoc d a t [] = refl
last_or-snoc d a t ((p, u) ∷ xs) = last_or-snoc p a t xs

pub Distinct-snoc :
    (a : Ptr) (t : Task) (xs : Entries) → Distinct xs → Avoids a xs → Distinct (xs ++ (a, t) ∷ [])
Distinct-snoc a t [] d h = (tt, tt)
Distinct-snoc a t ((p, u) ∷ xs) d h = (Avoids-snoc xs d.0, Distinct-snoc a t xs d.1 h.1)
  where
    Avoids-snoc : (ys : Entries) → Avoids p ys → Avoids p (ys ++ (a, t) ∷ [])
    Avoids-snoc [] k = (λ e. h.0 (sym e), tt)
    Avoids-snoc ((q, v) ∷ ys) k = (k.0, Avoids-snoc ys k.1)

pub record IsQueue (q : Queue) (xs : Entries) : Type 0 where
  pub chain : Chain q.cell q.head xs
  pub distinct : Distinct xs
  pub tail_is : q.tail ≡ last xs

module _ {cell : Ptr → Option Node} where
  -- A change at an address that the list does not use leaves it.
  pub Chain-update :
      {p : Ptr} {xs : Entries} (a : Ptr) (n : Option Node)
      → Chain cell p xs
      → Avoids a xs
      → Chain (update cell a n) p xs
  unfolding update
  Chain-update a n (nil e) h = nil e
  Chain-update a n (cons ne e c) h = cons ne (ground arith) (Chain-update a n c h.1)

  -- The last entry's `next` is set to a new one.
  pub Chain-snoc :
      {p : Ptr} {xs : Entries} (a : Ptr) (t : Task)
      → Chain cell p xs
      → xs ≢ []
      → Distinct xs
      → Avoids a xs
      → a ≢ null_ptr
      → cell a ≡ some (record { task = t; next = null_ptr })
      → (n : Node) × (cell (last xs) ≡ some n)
        × (last xs ≢ null_ptr)
        × Chain (update cell (last xs) (some (record n { next = a }))) p (xs ++ (a, t) ∷ [])
  unfolding update
  Chain-snoc a t (nil e) ne d av nn at = absurd (ne refl)
  Chain-snoc a t (cons {p} {q} {t = u} {xs = []} pn e c) ne d av nn at = (
    record { task = u; next = q },
    e,
    pn,
    cons pn (ground arith) (cons nn (ground arith) (nil refl)),
  )
  Chain-snoc a t (cons {p} {q} {t = u} {xs = (y, v) ∷ ys} pn e c) ne d av nn at =
      let (n, l, ln, rest) = Chain-snoc a t c (λ x. cc) d.1 av.1 nn at in
      (n, l, ln, cons pn (ground (arith, last_or-ne p y ys d.0.0 d.0.1)) rest)
