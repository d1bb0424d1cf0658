-- ===== src/Server/Clients/Index/Added.antt =====
-- What a new dynamic channel of server/clients.c makes of the places.
use bspd.Common.{
  ℕ, ◌*◌, ◌-◌, ◌≤◌, ◌<◌, ◌≡◌, ◌≢◌, refl, sym, ap, ◌∙◌, Bool-cases, inl, inr, Option, none, some, [],
  ◌==◌, ==_iff, ltb, ltb→lt, if_true, if_false, if◌then◌else◌, arith,
}
use bspd.Server.Clients.{
  HashLib, dynamic, Channel, World, assign, set_next, free_place, add_dynamic,
}
use bspd.Server.Clients.Index.{IsIndexed}
use bspd.Server.Clients.Logged.{assign_same, assign_other}
use bspd.Server.Clients.New.{HasPlace, free_place-some}
use bspd.Server.Task.{Ptr, null_ptr}

module _ (lib : HashLib) where
  -- The channel that is made, at the place that was next.
  abbrev made : World lib → Channel lib
  made w = record { id = w.next_dynamic_id; name = []; type_of = dynamic; list = none }

  abbrev grown : World lib → Ptr → (ℕ → Ptr) → ℕ → ℕ → World lib
  grown w p list size next_id = record w {
    channels = assign w.channels p (some (made w));
    dynamic_list = list;
    dynamic_list_size = size;
    next_dynamic_id = next_id;
  }

  -- The list, whose new part is empty.
  record Extends (w : World lib) (p : Ptr) (list : ℕ → Ptr) (size : ℕ) : Type 0 where
    larger : w.dynamic_list_size ≤ size
    old : (i : ℕ) → i < w.dynamic_list_size → i ≢ w.next_dynamic_id → list i ≡ w.dynamic_list i
    new : list w.next_dynamic_id ≡ p
    rest : (i : ℕ) → w.dynamic_list_size ≤ i → i < size → list i ≡ null_ptr

  grown-IsIndexed :
      (w : World lib) (p : Ptr) (list : ℕ → Ptr) (size next_id : ℕ)
      → IsIndexed lib w
      → p ≢ null_ptr
      → w.channels p ≡ none
      → Extends w p list size
      → HasPlace lib (grown w p list size next_id)
      → IsIndexed lib (grown w p list size next_id)
  grown-IsIndexed w p list size next_id v nn free x place = record {
    listed = λ i lt ne. elim (Bool-cases (ltb i w.dynamic_list_size)) [
      | inr e ↦ absurd (ne (x.rest i (ground (arith, e)) lt))
      | inl e ↦ elim (Bool-cases (i == w.next_dynamic_id)) [
        | inl z ↦
            let same : i ≡ w.next_dynamic_id = (==_iff i w.next_dynamic_id).0 z in
            (
              made w,
              ap (assign w.channels p (some (made w))) (ap list same ∙ x.new)
                  ∙ assign_same w.channels p (some (made w)),
              sym same,
              refl,
            )
        | inr z ↦
            let at =
              x.old i (ltb→lt i w.dynamic_list_size e)
                (λ k. cc (z, (==_iff i w.next_dynamic_id).1 k)) in
            let (c, ci, cd, ct) = v.listed i (ltb→lt i w.dynamic_list_size e) (λ k. ne (at ∙ k)) in
            let away : w.dynamic_list i ≢ p = λ k. cc (ci, free, ap w.channels k) in
            (
              c,
              ap (assign w.channels p (some (made w))) at
                  ∙ assign_other w.channels p (w.dynamic_list i) (some (made w)) away
                  ∙ ci,
              cd,
              ct,
            )
      ]
    ];
    placed = λ q c at t. elim (Bool-cases (q == p)) [
      | inl z ↦
          let same : q ≡ p = (==_iff q p).0 z in
          let c_is : some (made w) ≡ some c =
            sym (assign_same w.channels p (some (made w)))
            ∙ ap (assign w.channels p (some (made w))) (sym same)
            ∙ at in
          let id_is : w.next_dynamic_id ≡ c.id = ground (arith, c_is) in
          (omega (arith, id_is, v.place.in_range, x.larger), ap list (sym id_is) ∙ x.new ∙ sym same)
      | inr z ↦
          let away : q ≢ p = λ k. cc (z, (==_iff q p).1 k) in
          let kept = sym (assign_other w.channels p q (some (made w)) away) ∙ at in
          let (lt, e) = v.placed q c kept t in
          let old_id : c.id ≢ w.next_dynamic_id = λ k.
            let q_null : q ≡ null_ptr = sym e ∙ ap w.dynamic_list k ∙ v.place.is_empty in
            cc (kept, v.no_null, ap w.channels q_null) in
          (omega (arith, lt, x.larger), x.old c.id lt old_id ∙ e)
    ];
    no_null = assign_other w.channels p null_ptr (some (made w)) (λ k. nn (sym k)) ∙ v.no_null;
    place = place;
  }

  -- The list with the channel at the place that was next.
  abbrev with_place : World lib → Ptr → ℕ → Ptr
  with_place w p n = if n == w.next_dynamic_id then p else w.dynamic_list n

  abbrev with_memory : (ℕ → Ptr) → World lib → Ptr → ℕ → Ptr
  with_memory garbage w p n = if ltb n w.dynamic_list_size then with_place w p n else garbage n

  with_place_old :
      (w : World lib) (p : Ptr) (i : ℕ)
      → i ≢ w.next_dynamic_id
      → with_place w p i ≡ w.dynamic_list i
  with_place_old w p i ne = ground arith

  with_place_new : (w : World lib) (p : Ptr) → with_place w p w.next_dynamic_id ≡ p
  with_place_new w p = ground arith

  with_memory_old :
      (garbage : ℕ → Ptr) (w : World lib) (p : Ptr) (i : ℕ)
      → i < w.dynamic_list_size
      → with_memory garbage w p i ≡ with_place w p i
  with_memory_old garbage w p i lt = if_true (ltb i w.dynamic_list_size) _ _ (ground arith)

  with_memory_rest :
      (garbage : ℕ → Ptr) (w : World lib) (p : Ptr) (i : ℕ)
      → w.dynamic_list_size ≤ i
      → with_memory garbage w p i ≡ garbage i
  with_memory_rest garbage w p i le = if_false (ltb i w.dynamic_list_size) _ _ (ground arith)

  set_next-IsIndexed :
      (garbage : ℕ → Ptr) (p : Ptr) (w : World lib) (o : Option ℕ)
      → IsIndexed lib w
      → p ≢ null_ptr
      → w.channels p ≡ none
      → ((i : ℕ) → garbage i ≡ null_ptr)
      → free_place (w.dynamic_list_size - 1) 1 (with_place w p) ≡ o
      → IsIndexed lib (
          set_next lib garbage (grown w p (with_place w p) w.dynamic_list_size w.next_dynamic_id) o)
  unfolding set_next
  set_next-IsIndexed garbage p w (some k) v nn free zeros e =
      let found = free_place-some (w.dynamic_list_size - 1) 1 k (with_place w p) e in
      grown-IsIndexed w p (with_place w p) w.dynamic_list_size k v nn free
        (record {
          larger = omega arith;
          old = λ i lt ne. with_place_old w p i ne;
          new = with_place_new w p;
          rest = λ i le lt. absurd (omega (arith, le, lt));
        })
        (record { in_range = omega (arith, found, v.place.in_range); is_empty = found.0 })
  set_next-IsIndexed garbage p w none v nn free zeros e =
      let size = w.dynamic_list_size in
      let list = with_memory garbage w p in
      grown-IsIndexed w p list (2 * size) size v nn free
        (record {
          larger = omega arith;
          old = λ i lt ne. with_memory_old garbage w p i lt ∙ with_place_old w p i ne;
          new = with_memory_old garbage w p w.next_dynamic_id v.place.in_range ∙ with_place_new w p;
          rest = λ i le lt. with_memory_rest garbage w p i le ∙ zeros i;
        })
        (record {
          in_range = omega (arith, v.place.in_range);
          is_empty = with_memory_rest garbage w p size (omega arith) ∙ zeros size;
        })

  pub add_dynamic-IsIndexed :
      (garbage : ℕ → Ptr) (p : Ptr) (w : World lib)
      → IsIndexed lib w
      → p ≢ null_ptr
      → w.channels p ≡ none
      → ((i : ℕ) → garbage i ≡ null_ptr)
      → IsIndexed lib (add_dynamic lib garbage p w)
  unfolding add_dynamic
  add_dynamic-IsIndexed garbage p w v nn free zeros =
      set_next-IsIndexed garbage p w (free_place (w.dynamic_list_size - 1) 1 (with_place w p)) v nn
        free zeros refl
