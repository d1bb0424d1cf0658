-- ===== src/Server/Clients/New.antt =====
-- Finding what `new_channel` of server/clients.c makes.
use bspd.Common.{
  ℕ, zero, suc, ◌+◌, ◌-◌, ◌*◌, ◌≤◌, ◌<◌, ◌≡◌, ◌≢◌, ◌⊎◌, inl, inr, refl, true, false, Option, none,
  some, [], arith, ◌==◌, if◌then◌else◌, Bytes, length, take_all,
}
use bspd.Server.Clients.{
  HashLib, static, dynamic, World, assign, free_place, set_next, put_static, add_dynamic,
  new_channel, check_static_channel, check_dynamic_channel,
}
use bspd.Server.Clients.Logged.{assign_same}
use bspd.Server.Task.{Ptr, null_ptr}

-- A place that is found is empty and in range.
pub free_place-some :
    (n i k : ℕ) (list : ℕ → Ptr)
    → free_place n i list ≡ some k
    → (list k ≡ null_ptr) × (i ≤ k) × (k < i + n)
unfolding free_place
free_place-some zero i k list e = cc
free_place-some (suc n) i k list e =
    elim (list i == null_ptr)
        as (λ t.
          (if t then some i else free_place n (suc i) list) ≡ some k
          → list i == null_ptr ≡ t
          → (list k ≡ null_ptr) × (i ≤ k) × (k < i + suc n)) [
            | true ↦ λ f h. ground arith
            | false ↦ λ f h. ground (arith, free_place-some n (suc i) k list f)
          ]
      e refl

module _ (lib : HashLib) where
  -- The next place for a dynamic channel: in range, and empty.
  pub record HasPlace (w : World lib) : Type 0 where
    pub in_range : w.next_dynamic_id < w.dynamic_list_size
    pub is_empty : w.dynamic_list w.next_dynamic_id ≡ null_ptr

  new_channel-put_static :
      (garbage : ℕ → Ptr) (p : Ptr) (name : Bytes) (w : World lib)
      → p ≢ null_ptr
      → check_static_channel lib name w ≡ none
      → new_channel lib garbage p (some name) w ≡ some (p, put_static lib p name w)
  unfolding new_channel check_static_channel
  new_channel-put_static garbage p name w pn absent = ground arith

  -- A named channel is found by its name, if that has less than 64 bytes and no channel had it.
  pub new_channel-check_static_channel :
      (garbage : ℕ → Ptr) (p : Ptr) (name : Bytes) (w : World lib)
      → p ≢ null_ptr
      → length name < 64
      → check_static_channel lib name w ≡ none
      → (w' : World lib) × (new_channel lib garbage p (some name) w ≡ some (p, w'))
        × (check_static_channel lib name w' ≡ some p)
        × (w'.channels p ≡ some (record { id = 0; name = name; type_of = static; list = none }))
  unfolding put_static check_static_channel
  new_channel-check_static_channel garbage p name w pn short absent =
      let copy = take_all 63 name (omega arith) in
      (
        put_static lib p name w,
        new_channel-put_static garbage p name w pn absent,
        rw copy (lib.find-set w.static_list name p),
        rw copy (assign_same w.channels p _),
      )

  -- The world with the channel, before the next place is looked for.
  abbrev placed : Ptr → World lib → World lib
  placed p w = record w {
    channels =
        assign w.channels p
          (some (record { id = w.next_dynamic_id; name = []; type_of = dynamic; list = none }));
    dynamic_list = λ n. if n == w.next_dynamic_id then p else w.dynamic_list n;
  }

  abbrev pub NextIs : (ℕ → Ptr) → World lib → World lib → Type 0
  NextIs garbage w w' =
      HasPlace w'
      ⊎ ((w'.dynamic_list_size ≡ 2 * w.dynamic_list_size)
          × (w'.dynamic_list w'.next_dynamic_id ≡ garbage w.dynamic_list_size))

  set_next-placed :
      (garbage : ℕ → Ptr) (p : Ptr) (w : World lib) (o : Option ℕ)
      → HasPlace w
      → free_place (w.dynamic_list_size - 1) 1 (placed p w).dynamic_list ≡ o
      → (check_dynamic_channel lib w.next_dynamic_id (set_next lib garbage (placed p w) o) ≡ p)
        × NextIs garbage w (set_next lib garbage (placed p w) o)
  unfolding set_next check_dynamic_channel
  set_next-placed garbage p w none h e = (ground arith, inr (refl, ground arith))
  set_next-placed garbage p w (some k) h e =
      let found = free_place-some (w.dynamic_list_size - 1) 1 k (placed p w).dynamic_list e in
      (ground arith, inl (record { in_range = omega arith; is_empty = found.0 }))

  -- An anonymous channel is found by its id, the place that was next. The place that is next then
  -- is in range; it is empty, unless the list was full, when it holds what the new memory holds.
  pub new_channel-check_dynamic_channel :
      (garbage : ℕ → Ptr) (p : Ptr) (w : World lib)
      → p ≢ null_ptr
      → HasPlace w
      → (w' : World lib) × (new_channel lib garbage p none w ≡ some (p, w'))
        × (check_dynamic_channel lib w.next_dynamic_id w' ≡ p)
        × NextIs garbage w w'
  unfolding new_channel add_dynamic
  new_channel-check_dynamic_channel garbage p w pn h =
      let (found, next) =
        set_next-placed garbage p w
          (free_place (w.dynamic_list_size - 1) 1 (placed p w).dynamic_list) h refl in
      (add_dynamic lib garbage p w, ground arith, found, next)
