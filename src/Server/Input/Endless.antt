-- ===== src/Server/Input/Endless.antt =====
-- What `_bspd_on_data` of server/main.c makes of a request of which the header has not ended.
use bspd.Common.{ℕ, zero, suc, ◌+◌, ◌≡◌, refl, ap, ◌∙◌, true, none, some, List, ◌∷◌, Bytes}
use bspd.Protocol.Frame.{Bared}
use bspd.Protocol.Http.{stuck, find_header_end}
use bspd.Protocol.Http.Bare.{http_bare_data_unfinished}
use bspd.Server.Input.{frame_at, clear_frame, set_active, barer, data_loop, on_data}
use bspd.Server.Input.Rounds.{on_data-loop, data_loop-round}
use bspd.Server.Link.{http, ServerProp, Link}
use bspd.Server.Packet.{Wire}
use bspd.Server.Task.{Task}

module _ (wire : Wire) (up : Bytes → Bytes) (block : Bared) (blocks : List Task → Task) where
  data_loop_endless :
      (fuel : ℕ) (prop : ServerProp) (c : ℕ) (s : Bytes) (n : ℕ) (l : Link) (hook : Bytes)
      → prop.type_of ≡ http
      → prop.lua_hook_data ≡ some hook
      → find_header_end (c ∷ s) ≡ none
      → (frame_at block l.frame).proto ≡ none
      → data_loop wire up block blocks fuel prop (c ∷ s) n l ≡ stuck
  unfolding data_loop frame_at clear_frame barer
  data_loop_endless zero prop c s n l hook t h e p = refl
  data_loop_endless (suc fuel) prop c s n l hook t h e p =
      let b : Bared = record (frame_at block l.frame) {
        expectation = 0;
        proced = 0;
        bared = true;
      } in
      data_loop-round wire up block blocks fuel prop c s n l hook b
        (ap (λ y. barer wire up block blocks y (frame_at block l.frame) (c ∷ s)) t
          ∙ http_bare_data_unfinished up (frame_at block l.frame) (c ∷ s) p e)
        refl h
      ∙ data_loop_endless fuel prop c s (n + 0) _ hook t h e refl

  -- On a server of the HTTP type with a data hook, a chunk in which no blank line ends the header
  -- is never finished: whatever number of rounds is allowed, the loop has not returned, since each
  -- round advances by no byte.
  pub on_data_endless :
      (fuel now : ℕ) (prop : ServerProp) (c : ℕ) (s : Bytes) (l : Link) (hook : Bytes)
      → l.registered ≡ true
      → l.prop ≡ some prop
      → prop.type_of ≡ http
      → prop.lua_hook_data ≡ some hook
      → find_header_end (c ∷ s) ≡ none
      → (frame_at block l.frame).proto ≡ none
      → on_data wire up block blocks fuel now (c ∷ s) l ≡ stuck
  unfolding set_active
  on_data_endless fuel now prop c s l hook reg p t h e q =
      on_data-loop wire up block blocks fuel now prop c s l reg p
      ∙ data_loop_endless fuel prop c s 0 (set_active now l) hook t h e q
