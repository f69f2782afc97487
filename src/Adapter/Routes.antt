-- ===== src/Adapter/Routes.antt =====
-- bin/adapter/src/main.rs: which servers get a request, and what comes back.
use Prim.Native.String.{String}
use text.Mathlib.Text.{starts_with}
use mathlib.Core.Path.{fun_ext}
use zk_ress.Adapter.{
  Uri, ress_auth, Http, HttpResponse, HttpRequest, add_headers, build_request, reth_uri,
  is_engine_method, and_then, and_then, replace_payload_id, answer_engine, forward_request,
}
use zk_ress.Base.{
  ◌≡◌, ◌⊎◌, refl, Bool, true, false, List, [], ◌∷◌, ◌++◌, none, some, Option-cases, Bool-cases, inl,
  inr, ◌∙◌, subst,
}
use mathlib.Core.List.{append-nil, append_assoc}
use zk_ress.Env.{ok}
use zk_ress.Results.{Result-cases}

module _ (http : Http) where
  -- The response is that of ress, as it is if reth gave no payload id, and else with this id set in it.
  pub record FromRess (ress_req : HttpRequest http) (reth_body : http.Bytes)
      (res : HttpResponse http) : Type 0 where
    pub ress_res : HttpResponse http
    pub ress_body : http.Bytes
    pub top_level : http.Value
    pub answered : http.send ress_req ≡ some ress_res
    pub has_body : ress_res.body ≡ ok ress_body
    pub reth_reads : http.from_slice reth_body ≡ some top_level
    pub body_is :
        ((http.result_payload_id top_level ≡ none)
          × (res.body ≡ ok ress_body)
          × (res.parts ≡ ress_res.parts))
        ⊎ ((id : http.PayloadId) × (ress_top_level : http.Value) × (http.result_payload_id top_level
              ≡ some id)
            × (http.from_slice ress_body ≡ some ress_top_level)
            × (res.body ≡ ok (http.to_vec (http.set_result_payload_id id ress_top_level))))

  -- A method of the engine that is not a getter.
  abbrev pub ChangesState : http.Value → Type 0
  ChangesState body =
      (name : String) × (http.method body ≡ some name)
      × (starts_with name "engine" ≡ true)
      × (starts_with name "engine_get" ≡ false)

  is_engine_method-ChangesState :
      (body : http.Value) → is_engine_method http body ≡ true → ChangesState body
  unfolding is_engine_method
  is_engine_method-ChangesState body e = elim (Option-cases (http.method body)) [
    | inl none_named ↦ absurd (cc (rw (is_engine_method, none_named) at e))
    | inr (name, named) ↦ elim (Bool-cases (starts_with name "engine")) [
      | inr other ↦ absurd (cc (rw (is_engine_method, named, other) at e))
      | inl begins ↦ elim (Bool-cases (starts_with name "engine_get")) [
        | inl getter ↦ absurd (cc (rw (is_engine_method, named, begins, getter) at e))
        | inr changes ↦ (name, named, begins, changes)
      ]
    ]
  ]

  is_engine_method-reads :
      (body : http.Value) → is_engine_method http body ≡ false → ¬ ChangesState body
  unfolding is_engine_method
  is_engine_method-reads body e (name, named, begins, changes) =
      cc (rw (is_engine_method, named, begins, changes) at e)

  answer_engine_lem :
      (ress_req : HttpRequest http) (reth_res res : HttpResponse http)
      (sent : List (HttpRequest http))
      → (answer_engine http ress_req reth_res sent).1 ≡ ok res
      → ((answer_engine http ress_req reth_res sent).0 ≡ sent ++ ress_req ∷ [])
        × ((reth_body : http.Bytes) × (reth_res.body ≡ ok reth_body)
            × FromRess ress_req reth_body res)
  unfolding answer_engine replace_payload_id
  answer_engine_lem ress_req reth_res res sent h = elim (Result-cases reth_res.body) [
    | inr (e, failed) ↦ absurd (cc (rw (failed, answer_engine) at h))
    | inl (reth_body, got) ↦ elim (Option-cases (http.send ress_req)) [
      | inl unanswered ↦ absurd (cc (rw (got, answer_engine, and_then, unanswered) at h))
      | inr (ress_res, answered) ↦ elim (Result-cases ress_res.body) [
        | inr (e, failed) ↦
            absurd (cc (rw (got, answer_engine, and_then, answered, and_then, failed) at h))
        | inl (ress_body, has_body) ↦ elim (Option-cases (http.from_slice reth_body)) [
          | inl unread ↦ absurd (
              cc (
                rw (got, answer_engine, and_then, answered, and_then, has_body, and_then, unread) at
                  h))
          | inr (top_level, reads) ↦ elim (Option-cases (http.result_payload_id top_level)) [
            | inl no_id ↦
                let same =
                  rw
                    (
                      got, answer_engine, and_then, answered, and_then, has_body, and_then, reads,
                      and_then, no_id,
                    )
                    at h in
                (
                  rw
                      (
                        got, answer_engine, and_then, answered, and_then, has_body, and_then, reads,
                        and_then, no_id,
                      )
                      refl,
                  (
                    reth_body,
                    got,
                    record {
                      ress_res = ress_res;
                      ress_body = ress_body;
                      top_level = top_level;
                      answered = answered;
                      has_body = has_body;
                      reth_reads = reads;
                      body_is = inl (no_id, cc same, cc same);
                    },
                  ),
                )
            | inr (id, has_id) ↦ elim (Option-cases (http.from_slice ress_body)) [
              | inl unread ↦ absurd (
                  cc (
                    rw
                      (
                        got, answer_engine, and_then, answered, and_then, has_body, and_then, reads,
                        and_then, has_id, replace_payload_id, unread,
                      )
                      at h))
              | inr (ress_top_level, ress_reads) ↦
                  let same =
                    rw
                      (
                        got, answer_engine, and_then, answered, and_then, has_body, and_then, reads,
                        and_then, has_id, replace_payload_id, ress_reads,
                      )
                      at h in
                  (
                    rw
                        (
                          got, answer_engine, and_then, answered, and_then, has_body, and_then,
                          reads, and_then, has_id, replace_payload_id, ress_reads,
                        )
                        refl,
                    (
                      reth_body,
                      got,
                      record {
                        ress_res = ress_res;
                        ress_body = ress_body;
                        top_level = top_level;
                        answered = answered;
                        has_body = has_body;
                        reth_reads = reads;
                        body_is = inr (id, ress_top_level, has_id, ress_reads, cc same);
                      },
                    ),
                  )
            ]
          ]
        ]
      ]
    ]
  ]

  add_headers_lem :
      (headers built : List http.Header) → add_headers http headers built ≡ built ++ headers
  unfolding add_headers
  add_headers_lem [] built = rw (append-nil built) refl
  add_headers_lem (header ∷ headers) built =
      add_headers_lem headers (built ++ header ∷ []) ∙ append_assoc built (header ∷ []) headers

  -- The request that came in, sent on to a server.
  abbrev pub sent_on : http.Method → List http.Header → http.Bytes → Uri → HttpRequest http
  sent_on req_method req_headers bytes uri = record {
    method = req_method;
    uri = uri;
    headers = req_headers;
    body = bytes;
  }

  build_request_lem :
      (req_method : http.Method) (req_headers : List http.Header) (bytes : http.Bytes) (uri : Uri)
      → build_request http req_method req_headers bytes uri
        ≡ sent_on req_method req_headers bytes uri
  unfolding build_request
  build_request_lem req_method req_headers bytes uri = rw (add_headers_lem req_headers []) refl

  -- Where a request goes, as what, and what comes back.
  abbrev pub Routed :
      http.Method
      → List http.Header
      → http.Bytes
      → Bool
      → HttpResponse http
      → (Uri → HttpRequest http)
      → Type 0
  Routed req_method req_headers bytes is_auth_server res request_to =
      let reth_uri' = reth_uri http is_auth_server in
      let sent = (forward_request http req_method req_headers (ok bytes) is_auth_server []).0 in
      (body : http.Value) × (http.from_slice bytes ≡ some body)
      × (reth_res : HttpResponse http) × (http.send (request_to reth_uri') ≡ some reth_res)
      × ((¬ ChangesState body × (res ≡ reth_res) × (sent ≡ request_to reth_uri' ∷ []))
          ⊎ (ChangesState body
              × (sent ≡ request_to reth_uri' ∷ request_to ress_auth ∷ [])
              × ((reth_body : http.Bytes) × (reth_res.body ≡ ok reth_body)
                  × FromRess (request_to ress_auth) reth_body res)))

  built_lem :
      (req_method : http.Method) (req_headers : List http.Header) (bytes : http.Bytes)
      (is_auth_server : Bool) (res : HttpResponse http)
      → (forward_request http req_method req_headers (ok bytes) is_auth_server []).1 ≡ ok res
      → Routed req_method req_headers bytes is_auth_server res
          (build_request http req_method req_headers bytes)
  unfolding forward_request
  built_lem req_method req_headers bytes is_auth_server res h =
      elim (Option-cases (http.from_slice bytes)) [
        | inl unread ↦ absurd (cc (rw (forward_request, and_then, unread) at h))
        | inr (body, reads) ↦
            elim (Option-cases (
              http.send
                (build_request http req_method req_headers bytes (reth_uri http is_auth_server)))) [
                  | inl unanswered ↦
                      absurd (cc (rw (forward_request, and_then, reads, and_then, unanswered) at h))
                  | inr (reth_res, answered) ↦ (
                    body,
                    reads,
                    reth_res,
                    answered,
                    elim (Bool-cases (is_engine_method http body)) [
                      | inr other ↦
                          let same =
                            rw (forward_request, and_then, reads, and_then, answered, other) at h in
                          inl (
                            is_engine_method-reads body other,
                            cc same,
                            rw (forward_request, and_then, reads, and_then, answered, other) refl,
                          )
                      | inl engine ↦
                          let (sent, from_ress) =
                            answer_engine_lem
                              (build_request http req_method req_headers bytes ress_auth) reth_res
                              res
                              (build_request http req_method req_headers bytes
                                  (reth_uri http is_auth_server)
                                ∷ [])
                              (rw (forward_request, and_then, reads, and_then, answered, engine) at
                                h) in
                          inr (
                            is_engine_method-ChangesState body engine,
                            rw (forward_request, and_then, reads, and_then, answered, engine) sent,
                            from_ress,
                          )
                    ],
                  )
                ]
      ]

  -- A request that the HTTP adapter answers was sent to reth with the method, headers and body
  -- that came in, and answered by it; if the method in its body does not begin with engine, or
  -- begins with engine_get, it goes to no other server and the response is that of reth; else the
  -- same request goes to ress after reth, and the response has the body of ress, with the payload
  -- id that reth gave set in it, if reth gave one.
  pub forward_request_lem :
      (req_method : http.Method) (req_headers : List http.Header) (bytes : http.Bytes)
      (is_auth_server : Bool) (res : HttpResponse http)
      → (forward_request http req_method req_headers (ok bytes) is_auth_server []).1 ≡ ok res
      → Routed req_method req_headers bytes is_auth_server res
          (sent_on req_method req_headers bytes)
  forward_request_lem req_method req_headers bytes is_auth_server res h =
      subst (Routed req_method req_headers bytes is_auth_server res)
        (fun_ext (λ uri. build_request_lem req_method req_headers bytes uri))
        (built_lem req_method req_headers bytes is_auth_server res h)
