-- ===== src/Server/Input/Requests.antt =====
-- What `_bspd_on_data` of server/main.c makes of a chunk of requests.
use bspd.Common.{
  ℕ, zero, suc, ◌+◌, ◌-◌, ◌<◌, ◌≡◌, refl, ap, ◌∙◌, true, false, Option, none, some, List, [], ◌∷◌,
  arith, Bytes, length, length-append, All,
}
use bspd.Json.Value.{hash}
use bspd.Protocol.Frame.{Bared}
use bspd.Protocol.Http.{ok}
use bspd.Protocol.Http.Bare.{http_bare_data-print}
use bspd.Protocol.Http.RequestLine.{
  method_name, version_name, request_fields, parse_request_line-print,
}
use bspd.Protocol.Http.Lines.{crlf, print_headers, add_headers}
use bspd.Server.Input.{frame_at, clear_frame, set_active, barer, proc_by, data_loop, on_data}
use bspd.Server.Input.Rounds.{on_data-loop_ne, data_loop-end, data_loop-segment}
use bspd.Server.Link.{http, ServerProp, Link}
use bspd.Server.Packet.{Conn, Wire, proc_raw, push_task}
use bspd.Server.Task.{Task, raw, no_data}
use bspd.Server.Input.Request.{
  Request, IsRequest, print_request, print_requests, line_of, line_of-append, line_of-IsLine,
  print_request-append, print_request-length, drop-print_request, print_request_ne,
}

module _ (wire : Wire) (up : Bytes → Bytes) (block : Bared) (blocks : List Task → Task) where
  -- The task of a request: a raw one that has no data, and the request as its `proto`.
  abbrev pub request_task : Bytes → Conn → Request → Task
  request_task hook c r = record (blocks c.tasks) {
    type_of = raw;
    clt = c.fd;
    func = some hook;
    payload = no_data;
    proto = some (
        hash (
          add_headers up (request_fields (method_name r.method) r.uri (version_name r.version))
            r.headers));
  }

  abbrev pub push_requests : Bytes → Conn → List Request → Conn
  push_requests hook c [] = c
  push_requests hook c (r ∷ rs) = push_requests hook (push_task c (request_task hook c r)) rs

  proc_by-request :
      (hook : Bytes) (b : Bared) (c : Conn)
      → b.data_of ≡ none
      → (proc_by wire up block blocks false hook b c).2
        ≡ push_task c (record (blocks c.tasks) {
          type_of = raw;
          clt = c.fd;
          func = some hook;
          payload = no_data;
          proto = b.proto;
        })
  unfolding proc_by proc_raw
  proc_by-request hook b c e = ground arith

  -- The frame that the request fills.
  abbrev frame_of : Option Bared → Request → Bytes → Bared
  frame_of f r rest = record (frame_at block f) {
    proto = some (
        hash (
          add_headers up (request_fields (method_name r.method) r.uri (version_name r.version))
            r.headers));
    expectation = 0;
    proced = length (print_request r rest) - length rest;
    bared = true;
  }

  barer-request :
      (f : Option Bared) (r : Request) (rest : Bytes)
      → IsRequest r
      → (frame_at block f).proto ≡ none
      → barer wire up block blocks http (frame_at block f) (print_request r rest)
        ≡ ok (frame_of f r rest)
  unfolding barer
  barer-request f r rest h p =
      let e = line_of-append r (crlf (print_headers r.headers rest)) in
      let bare =
        http_bare_data-print up (frame_at block f) (line_of r []) r.headers rest p
          (line_of-IsLine r h) h.headers_are in
      (rw e at bare)
      ∙ rw
          (parse_request_line-print r.method r.uri r.version (crlf (print_headers r.headers rest))
            h.not_options h.uri_is)
          refl

  proc_by-request_frame :
      (hook : Bytes) (b : Bared) (c : Conn)
      → clear_frame (proc_by wire up block blocks false hook b c).1 ≡ clear_frame b
  unfolding proc_by proc_raw clear_frame
  proc_by-request_frame hook b c = refl

  -- One round reads one request.
  data_loop-request :
      (r : Request) (rest : Bytes) (fuel : ℕ) (prop : ServerProp) (n : ℕ) (l : Link) (hook : Bytes)
      → IsRequest r
      → prop.type_of ≡ http
      → prop.packets ≡ false
      → prop.lua_hook_data ≡ some hook
      → (frame_at block l.frame).proto ≡ none
      → (frame_at block l.frame).data_of ≡ none
      → data_loop wire up block blocks (suc fuel) prop (print_request r rest) n l
        ≡ data_loop wire up block blocks fuel prop rest
            (n + length (print_request r []))
            (record l {
              conn = push_task l.conn (request_task hook l.conn r);
              frame = some (clear_frame (frame_of l.frame r rest));
            })
  data_loop-request r rest fuel prop n l hook a t pk h p d =
      let b = frame_of l.frame r rest in
      data_loop-segment wire up block blocks fuel prop (print_request r rest) n l hook b
        (print_request_ne r rest)
        (ap (λ y. barer wire up block blocks y (frame_at block l.frame) (print_request r rest)) t
          ∙ barer-request l.frame r rest a p)
        refl h
      ∙ rw
          (
            pk,
            proc_by-request hook b l.conn d,
            proc_by-request_frame hook b l.conn,
            drop-print_request r rest,
            print_request-length r rest,
          )
          refl

  data_loop-requests :
      (rs : List Request) (fuel : ℕ) (prop : ServerProp) (n : ℕ) (l : Link) (hook : Bytes)
      → All IsRequest rs
      → length rs < fuel
      → prop.type_of ≡ http
      → prop.packets ≡ false
      → prop.lua_hook_data ≡ some hook
      → (frame_at block l.frame).proto ≡ none
      → (frame_at block l.frame).data_of ≡ none
      → (f : Option Bared) × (data_loop wire up block blocks fuel prop (print_requests rs) n l
          ≡ ok (
            n + length (print_requests rs),
            record l { conn = push_requests hook l.conn rs; frame = f },
          ))
  unfolding frame_at clear_frame
  data_loop-requests rs zero prop n l hook a lt t pk h p d = absurd (omega arith)
  data_loop-requests [] (suc fuel) prop n l hook a lt t pk h p d = (
    l.frame,
    data_loop-end wire up block blocks fuel prop n l ∙ ap (λ m. ok (m, l)) (omega arith),
  )
  data_loop-requests (r ∷ rs) (suc fuel) prop n l hook a lt t pk h p d =
      let rest = print_requests rs in
      let l1 : Link = record l {
        conn = push_task l.conn (request_task hook l.conn r);
        frame = some (clear_frame (frame_of l.frame r rest));
      } in
      let (f, e) =
        data_loop-requests rs fuel prop (n + length (print_request r [])) l1 hook a.1 (omega arith)
          t pk h refl refl in
      (
        f,
        data_loop-request r rest fuel prop n l hook a.0 t pk h p d
            ∙ e
            ∙ ap (λ m. ok (m, record l { conn = push_requests hook l.conn (r ∷ rs); frame = f }))
                (omega (
                  arith,
                  length-append (print_request r []) rest,
                  ap length (print_request-append r rest),
                )),
      )

  -- On a server of the HTTP type with raw data and a data hook, a chunk of complete requests with no
  -- bodies is taken whole, and pushes one task for each of them, in order, with what its lines say:
  -- if the method is not OPTIONS, the URI and each header's name are not empty and of visible ASCII,
  -- with no colon in the name, each value is of printable ASCII and begins with a visible byte, the
  -- client is registered, its frame has neither data nor headers yet, and there are more rounds
  -- than requests.
  pub on_data-requests :
      (r : Request) (rs : List Request) (fuel now : ℕ) (prop : ServerProp) (l : Link) (hook : Bytes)
      → All IsRequest (r ∷ rs)
      → suc (length rs) < fuel
      → l.registered ≡ true
      → l.prop ≡ some prop
      → prop.type_of ≡ http
      → prop.packets ≡ false
      → prop.lua_hook_data ≡ some hook
      → (frame_at block l.frame).proto ≡ none
      → (frame_at block l.frame).data_of ≡ none
      → let l' = set_active now l in
        (f : Option Bared) × (on_data wire up block blocks fuel now (print_requests (r ∷ rs)) l
          ≡ ok (
            length (print_requests (r ∷ rs)),
            record l' { conn = push_requests hook l'.conn (r ∷ rs); frame = f },
          ))
  unfolding set_active
  on_data-requests r rs fuel now prop l hook a lt reg p t pk h pr d =
      let (f, e) =
        data_loop-requests (r ∷ rs) fuel prop 0 (set_active now l) hook a lt t pk h pr d in
      let whole = print_requests (r ∷ rs) in
      (
        f,
        on_data-loop_ne wire up block blocks fuel now prop whole l
              (print_request_ne r (print_requests rs)) reg p
            ∙ e
            ∙ ap
                (λ m. ok (
                  m,
                  record (set_active now l) {
                    conn = push_requests hook (set_active now l).conn (r ∷ rs);
                    frame = f;
                  },
                ))
                (omega arith),
      )
