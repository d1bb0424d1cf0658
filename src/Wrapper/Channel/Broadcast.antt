-- ===== src/Wrapper/Channel/Broadcast.antt =====
-- Who gets what a script sends to a channel with wrapper/standard.c.
use bspd.Common.{
  ℕ, suc, ◌+◌, ◌≡◌, ◌≢◌, refl, sym, ◌∙◌, ap, false, Bool-cases, inl, inr, if_true, if_false, none,
  some, List, [], ◌∷◌, ◌==◌, Bytes, length, All, pos, arith,
}
use bspd.Protocol.Frame.{Bared}
use bspd.Script.Lua.{Lua, t_integer, LuaLib}
use bspd.Server.Clients.{HashLib, World, Channel, assign}
use bspd.Server.Link.{Link}
use bspd.Server.Send.{SendLib, send_string}
use bspd.Server.Task.{Ptr, null_ptr}
use bspd.Wrapper.Send.{is_table, Links}
use bspd.Wrapper.Sessions.{ArgLib, channel_of}
use bspd.Wrapper.Channel.{
  member_client, send_one, broadcast, list_of, sender_of, standard_net_send_channel,
}

-- The client is there.
abbrev pub IsPresent : Links → Ptr → Type 0
IsPresent links clt = (l : Link) × (links clt ≡ some l)

-- Each client of the list in turn is sent to.
abbrev pub deliver : (Link → ℕ × Link) → List Ptr → Links → Links
deliver f [] links = links
deliver f (clt ∷ clts) links =
    deliver f clts (assign links clt (elim (links clt) [ none ↦ none | some l ↦ some (f l).1 ]))

IsPresent-assign :
    (links : Links) (clt q : Ptr) (l : Link)
    → IsPresent links q
    → IsPresent (assign links clt (some l)) q
unfolding assign
IsPresent-assign links clt q l h = elim (Bool-cases (q == clt)) [
  | inl e ↦ (l, if_true (q == clt) _ _ e)
  | inr e ↦ (h.0, if_false (q == clt) _ _ e ∙ h.1)
]

All-IsPresent-assign :
    (links : Links) (clt : Ptr) (l : Link) (clts : List Ptr)
    → All (IsPresent links) clts
    → All (IsPresent (assign links clt (some l))) clts
All-IsPresent-assign links clt l [] h = tt
All-IsPresent-assign links clt l (q ∷ clts) h =
    (IsPresent-assign links clt q l h.0, All-IsPresent-assign links clt l clts h.1)

ne_null : (p : Ptr) → p ≢ null_ptr → (p == null_ptr) ≡ false
ne_null p h = ground arith

send_one-present :
    (f : Link → ℕ × Link) (clt : Ptr) (links : Links) (l : Link)
    → links clt ≡ some l
    → send_one f clt links ≡ some (assign links clt (some (f l).1))
unfolding send_one
send_one-present f clt links l e = ground (arith, e)

deliver-present :
    (f : Link → ℕ × Link) (clt : Ptr) (clts : List Ptr) (links : Links) (l : Link)
    → links clt ≡ some l
    → deliver f (clt ∷ clts) links ≡ deliver f clts (assign links clt (some (f l).1))
deliver-present f clt clts links l e = rw e refl

module _ {hashes : HashLib} where
  -- The clients that the members are bound to, in order.
  pub data BoundTo (w : World hashes) : List (Bytes × Ptr) → List Ptr → Type 0 where
    bound_end : BoundTo w [] []
    bound_none :
        {key : Bytes} {session : Ptr} {ms : List (Bytes × Ptr)} {clts : List Ptr}
        → member_client session w ≡ some null_ptr
        → BoundTo w ms clts
        → BoundTo w ((key, session) ∷ ms) clts
    bound_to :
        {key : Bytes} {session clt : Ptr} {ms : List (Bytes × Ptr)} {clts : List Ptr}
        → member_client session w ≡ some clt
        → clt ≢ null_ptr
        → BoundTo w ms clts
        → BoundTo w ((key, session) ∷ ms) (clt ∷ clts)

  broadcast_skipped :
      (f : Link → ℕ × Link) (key : Bytes) (session : Ptr) (ms : List (Bytes × Ptr))
      (w : World hashes) (n : ℕ) (links : Links)
      → member_client session w ≡ some null_ptr
      → broadcast f ((key, session) ∷ ms) w n links ≡ broadcast f ms w n links
  unfolding broadcast
  broadcast_skipped f key session ms w n links e = ground (arith, e)

  broadcast_sent :
      (f : Link → ℕ × Link) (key : Bytes) (session clt : Ptr) (ms : List (Bytes × Ptr))
      (w : World hashes) (n : ℕ) (links : Links) (l : Link)
      → member_client session w ≡ some clt
      → clt ≢ null_ptr
      → links clt ≡ some l
      → broadcast f ((key, session) ∷ ms) w n links
        ≡ broadcast f ms w (suc n) (assign links clt (some (f l).1))
  unfolding broadcast
  broadcast_sent f key session clt ms w n links l e ne p =
      ground (arith, e, ne_null clt ne, send_one-present f clt links l p)

  broadcast-deliver :
      (f : Link → ℕ × Link) (w : World hashes) {ms : List (Bytes × Ptr)} {clts : List Ptr} (n : ℕ)
      (links : Links)
      → BoundTo w ms clts
      → All (IsPresent links) clts
      → broadcast f ms w n links ≡ some (n + length clts, deliver f clts links)
  unfolding broadcast
  broadcast-deliver f w n links bound_end h =
      let z : n ≡ n + 0 = omega arith in ap (λ (m : ℕ). some (m, links)) z
  broadcast-deliver f w n links (bound_none {key = key} {session = session} {ms = ms} e b) h =
      broadcast_skipped f key session ms w n links e ∙ broadcast-deliver f w n links b h
  broadcast-deliver f w n links
        (bound_to {key = key} {session = session} {clt = clt} {ms = ms} {clts = clts} e ne b) h =
      let l = h.0.0 in
      let z : suc n + length clts ≡ n + suc (length clts) = omega arith in
      broadcast_sent f key session clt ms w n links l e ne h.0.1
      ∙ broadcast-deliver f w (suc n) (assign links clt (some (f l).1)) b
          (All-IsPresent-assign links clt (f l).1 clts h.1)
      ∙ ap (λ (m : ℕ). some (m, deliver f clts (assign links clt (some (f l).1)))) z
      ∙ ap (λ (x : Links). some (n + suc (length clts), x))
          (sym (deliver-present f clt clts links l h.0.1))

module _ (args : ArgLib) (lua : LuaLib) (hashes : HashLib) (lib : SendLib) (block : Bared) where
  -- A string that a script sends to a channel, with no table behind it, goes to the clients of its
  -- members in turn, and their number is pushed: if the channel has a list, and the blocks of the
  -- members and of their clients are in use.
  pub standard_net_send_channel-deliver :
      (fuel : ℕ) (target v params : Lua) (s : Bytes) (channel : Ptr) (c : Channel hashes)
      (h : hashes.Hash) (clts : List Ptr) (w : World hashes) (links : Links)
      → channel_of args hashes target w ≡ channel
      → channel ≢ null_ptr
      → w.channels channel ≡ some c
      → c.list ≡ some h
      → is_table v ≡ false
      → is_table params ≡ false
      → args.to_text v ≡ some s
      → BoundTo w (hashes.members h) clts
      → All (IsPresent links) clts
      → standard_net_send_channel args lua hashes lib block fuel target v params w links
        ≡ some (t_integer (pos (length clts)), deliver (send_string lib block s) clts links)
  unfolding standard_net_send_channel list_of sender_of
  standard_net_send_channel-deliver fuel target v params s channel c h clts w links e n k l a p t b
        q =
      ground (arith, e, k, l, t, broadcast-deliver (send_string lib block s) w 0 links b q)
