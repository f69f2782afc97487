-- ===== src/Adapter.antt =====
-- bin/adapter/src/main.rs: `forward_request`, which passes the requests of a consensus client to reth and
-- those of the Engine API that change state to ress as well. HTTP and JSON are parameters; the servers
-- around it are left out.
pub mod Routes
use Prim.Native.String.{String}
use text.Mathlib.Text.{starts_with}
use zk_ress.Base.{
  ℕ, ◌≡◌, refl, Bool, true, false, not, ◌&&◌, List, [], ◌∷◌, ◌++◌, Option, none, some, Option-cases,
  Bool-cases, inl, inr, if◌then◌else◌, unwrap_or, map_option,
}
use zk_ress.Env.{Result, ok, err}
use zk_ress.Results.{map_err, ok_or}

pub data Uri : Type 0 where
  reth_auth reth_http ress_auth : Uri

-- A request to a server, with what `build_request` copies from the one that came in.
pub record OutRequest (Method Header Bytes : Type 0) : Type 0 where
  pub method : Method
  pub uri : Uri
  pub headers : List Header
  pub body : Bytes

-- A response with its parts, and its body, which may fail while it is read.
pub record Response (Parts Bytes E : Type 0) : Type 0 where
  pub parts : Parts
  pub body : Result Bytes E

pub record Http : Type 1 where
  pub Bytes : Type 0
  pub HyperError : Type 0
  -- The methods of HTTP, and headers with their values.
  pub Method : Type 0
  pub Header : Type 0
  pub Parts : Type 0
  -- Setting `CONTENT_LENGTH`, and the length of a body.
  pub set_content_length : ℕ → Parts → Parts
  pub length : Bytes → ℕ
  -- `serde_json`: values, the string under `method`, the payload id of a `RethPayloadResponse` under
  -- `result`, and setting `payloadId` in the object under `result`, if there is one.
  pub Value : Type 0
  pub from_slice : Bytes → Option Value
  pub to_vec : Value → Bytes
  pub method : Value → Option String
  pub PayloadId : Type 0
  pub result_payload_id : Value → Option PayloadId
  pub set_result_payload_id : PayloadId → Value → Value
  -- What a server answers to a request; `none` is a failure of the client.
  pub send : OutRequest Method Header Bytes → Option (Response Parts Bytes HyperError)

-- How a request fails: with an error of hyper, or by an `unwrap`.
pub data Failure (E : Type 0) : Type 0 where
  hyper : E → Failure E
  panic : Failure E

module _ (http : Http) where
  abbrev pub HttpResponse : Type 0
  HttpResponse = Response http.Parts http.Bytes http.HyperError

  abbrev pub HttpRequest : Type 0
  HttpRequest = OutRequest http.Method http.Header http.Bytes

  -- A step of the handler: the requests that were sent so far, in order, go along.
  abbrev pub Action : Type 0 → Type 0
  Action A = List HttpRequest → List HttpRequest × Result A (Failure http.HyperError)

  abbrev pub pure : {A : Type 0} → A → Action A
  pure a sent = (sent, ok a)

  abbrev pub unwrap : {A : Type 0} → Option A → Action A
  unwrap o sent = (sent, ok_or o panic)

  abbrev pub collect : {A : Type 0} → Result A http.HyperError → Action A
  collect r sent = (sent, map_err hyper r)

  abbrev pub request : HttpRequest → Action HttpResponse
  request req sent = unwrap (http.send req) (sent ++ req ∷ [])

  -- The loop of `build_request`, which puts each header behind those of the builder.
  unfoldable pub add_headers : List http.Header → List http.Header → List http.Header
  add_headers [] built = built
  add_headers (header ∷ headers) built = add_headers headers (built ++ header ∷ [])

  unfoldable pub build_request : http.Method → List http.Header → http.Bytes → Uri → HttpRequest
  unfolding add_headers
  build_request req_method req_headers whole_body uri = record {
    method = req_method;
    uri = uri;
    headers = add_headers req_headers [];
    body = whole_body;
  }

  abbrev pub and_then : {A B : Type 0} → Action A → (A → Action B) → Action B
  and_then first next sent =
      let (sent', r) = first sent in elim r [ ok a ↦ next a sent' | err e ↦ (sent', err e) ]

  unfoldable pub is_engine_method : http.Value → Bool
  is_engine_method request_body =
      unwrap_or
        (map_option (λ name. starts_with name "engine" && not (starts_with name "engine_get"))
          (http.method request_body))
        false

  -- The answer of ress, with the payload id that reth gave.
  unfoldable pub replace_payload_id :
      HttpResponse → http.Bytes → http.PayloadId → Action HttpResponse
  replace_payload_id ress_res ress_body_bytes reth_payload_id =
      and_then (unwrap (http.from_slice ress_body_bytes)) λ ress_top_level.
        let new_body = http.to_vec (http.set_result_payload_id reth_payload_id ress_top_level) in
        pure (record {
          parts = http.set_content_length (http.length new_body) ress_res.parts;
          body = ok new_body;
        })

  unfoldable pub answer_engine : HttpRequest → HttpResponse → Action HttpResponse
  unfolding replace_payload_id
  answer_engine ress_req reth_res = and_then (collect reth_res.body) λ reth_body_bytes.
      and_then (request ress_req) λ ress_res. and_then (collect ress_res.body) λ ress_body_bytes.
        and_then (unwrap (http.from_slice reth_body_bytes)) λ top_level.
          elim (http.result_payload_id top_level) [
            | none ↦ pure (record { parts = ress_res.parts; body = ok ress_body_bytes })
            | some reth_payload_id ↦ replace_payload_id ress_res ress_body_bytes reth_payload_id
          ]

  abbrev pub reth_uri : Bool → Uri
  reth_uri is_auth_server = if is_auth_server then reth_auth else reth_http

  -- The request by its method, headers and body.
  unfoldable pub forward_request :
      http.Method
      → List http.Header
      → Result http.Bytes http.HyperError
      → Bool
      → Action HttpResponse
  unfolding is_engine_method build_request answer_engine
  forward_request req_method req_headers whole_body is_auth_server =
      and_then (collect whole_body) λ bytes.
        and_then (unwrap (http.from_slice bytes)) λ request_body.
          and_then (request (build_request req_method req_headers bytes (reth_uri is_auth_server)))
            λ reth_res.
              if is_engine_method request_body
              then answer_engine (build_request req_method req_headers bytes ress_auth) reth_res
              else pure reth_res
