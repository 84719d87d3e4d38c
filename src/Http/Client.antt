-- ===== src/Http/Client.antt =====
-- src/http/client.rs and src/http/transport.rs: the client over HTTP. `reqwest`, `url` and `serde_json`
-- are parameters; what a function sends stands beside its result.
use notifiapp_transport.Common.{
  ℕ, List, [], ◌∷◌, ◌++◌, Bool, true, false, Option, none, some, Result, ok, err, ◌>>=◌, map_err,
  Text, codes, if◌then◌else◌, is_nil,
}
use notifiapp_transport.Http.Config.{HttpClientConfig}
use notifiapp_transport.Http.Libraries.{Method, empty, json, octets, Request, Libraries}
use notifiapp_transport.Error.{
  TransportError, invalid_url, connection_failed, http_error, decode_error, decimal,
}

-- What `tasks.spawn` starts.
pub data Task (Url : Type 0) : Type 0 where
  post_event : Request Url → Task Url
  listen : Url → Task Url

pub record HttpClient (Url Web : Type 0) : Type 0 where
  pub client : Web
  pub base_url : Option Url
  pub config : HttpClientConfig
  pub cancelled : Bool
  pub tasks : List (Task Url)

-- A subscription: the address of its task, and its token.
pub record SseSubscription (Url : Type 0) : Type 0 where
  pub url : Url
  pub cancelled : Bool

abbrev pub octet_stream : List (Text × Text)
octet_stream = (codes "Content-Type", codes "application/octet-stream") ∷ []

module _ {Url Web Response : Type 0} (lib : Libraries Url Web Response) where
  unfoldable pub parse_url : Text → Result Url TransportError
  parse_url s = elim (lib.parse s) [ some url ↦ ok url | none ↦ err (invalid_url s) ]

  -- The address of the configuration: none if it is empty.
  unfoldable pub configured_url : HttpClientConfig → Result (Option Url) TransportError
  unfolding parse_url
  configured_url config =
      if is_nil config.base_url
      then ok none
      else (do url ← parse_url config.base_url; ok (some url))

  unfoldable pub authorization : HttpClientConfig → Result (Option Text) TransportError
  authorization config = elim config.auth_token [
    | none ↦ ok none
    | some token ↦
        if lib.is_header_value (codes "Bearer " ++ token)
        then ok (some (codes "Bearer " ++ token))
        else err (connection_failed (codes "invalid auth token"))
  ]

  unfoldable pub new : HttpClientConfig → Result (HttpClient Url Web) TransportError
  unfolding configured_url authorization
  new config = do
    base_url ← configured_url config
    header ← authorization config
    client ← map_err connection_failed (lib.build config.request_timeout header)
    ok (record {
      client = client;
      base_url = base_url;
      config = config;
      cancelled = false;
      tasks = [];
    })

  unfoldable pub resolve : Text → HttpClient Url Web → Result Url TransportError
  resolve path self = elim self.base_url [
    | none ↦ err (invalid_url (codes "No endpoint set"))
    | some base_url ↦ elim (lib.join base_url path) [
      | some url ↦ ok url
      | none ↦ err (invalid_url path)
    ]
  ]

  unfoldable pub check_status : (ℕ → Text) → Result Response Text → Result Response TransportError
  check_status text answer = do
    response ← map_err http_error answer
    (if lib.is_success (lib.status response)
        then ok response
        else err (http_error (text (lib.status response))))

  abbrev pub reason_of : ℕ → Text
  reason_of code = elim (lib.canonical_reason code) [ some reason ↦ reason | none ↦ [] ]

  abbrev pub code_text : ℕ → Text
  code_text code = codes "HTTP " ++ decimal code

  abbrev pub reason_text : ℕ → Text
  reason_text code = codes "HTTP " ++ (decimal code ++ (codes " " ++ reason_of code))

  -- The result of a call, and the requests that it sent.
  abbrev pub Call : Type 0 → Type 0
  Call A = Result A TransportError × List (Request Url)

  -- A request, and what the answer is read as if its status is a success.
  unfoldable pub exchange :
      {A : Type 0}
      → HttpClient Url Web
      → (ℕ → Text)
      → (Response → Result A TransportError)
      → Request Url
      → Call A
  unfolding check_status
  exchange self text read request =
      (check_status text (lib.send self.client request) >>= read, request ∷ [])

  -- `self.resolve(path)?`, before anything is sent.
  abbrev pub with_url : {A : Type 0} → HttpClient Url Web → Text → (Url → Call A) → Call A
  with_url self path k = elim (resolve path self) [ ok url ↦ k url | err e ↦ (err e, []) ]

  -- A body that `serde_json` refuses is an error of `send`, before anything is sent.
  unfoldable pub post :
      {Req Resp : Type 0}
      → (Req → Result (List ℕ) Text)
      → (Response → Result Resp Text)
      → Text
      → Req
      → HttpClient Url Web
      → Call Resp
  unfolding resolve exchange
  post to_json from_json path body self = with_url self path (λ url. elim (to_json body) [
    | err e ↦ (err (http_error e), [])
    | ok payload ↦
        exchange self reason_text (λ r. map_err decode_error (from_json r))
          (record { method = Method.post; url = url; headers = []; body = json payload })
  ])

  unfoldable pub get :
      {Resp : Type 0} → (Response → Result Resp Text) → Text → HttpClient Url Web → Call Resp
  unfolding resolve exchange
  get from_json path self = with_url self path (λ url.
      exchange self code_text (λ r. map_err decode_error (from_json r))
        (record { method = Method.get; url = url; headers = []; body = empty }))

  unfoldable pub delete : Text → HttpClient Url Web → Call (Unit {0})
  unfolding resolve exchange
  delete path self = with_url self path (λ url.
      exchange self code_text (λ r. ok tt)
        (record { method = Method.delete; url = url; headers = []; body = empty }))

  abbrev pub octet_post : Url → List ℕ → Request Url
  octet_post url content = record {
    method = Method.post;
    url = url;
    headers = octet_stream;
    body = octets content;
  }

  -- The task that is spawned runs `sse_loop` on the address, until the token is cancelled.
  unfoldable pub subscribe_sse :
      Text → HttpClient Url Web → Result (SseSubscription Url) TransportError
  unfolding resolve
  subscribe_sse path self = do url ← resolve path self; ok (record { url = url; cancelled = false })

  -- The `Transport` of the client.
  unfoldable pub request : List ℕ → HttpClient Url Web → Call (List ℕ)
  unfolding resolve exchange
  request content self = with_url self (codes "/request") (λ url.
      exchange self code_text (λ r. map_err decode_error (lib.bytes r)) (octet_post url content))

  unfoldable pub send_event :
      List ℕ → HttpClient Url Web → Result (Unit {0}) TransportError × HttpClient Url Web
  unfolding resolve
  send_event content self = elim (resolve (codes "/event") self) [
    | err e ↦ (err e, self)
    | ok url ↦
        (ok tt, record self { tasks = self.tasks ++ (post_event (octet_post url content) ∷ []) })
  ]

  unfoldable pub on_event : HttpClient Url Web → HttpClient Url Web
  unfolding resolve
  on_event self = elim (resolve (codes "/events") self) [
    | err e ↦ self
    | ok url ↦ record self { tasks = self.tasks ++ (listen url ∷ []) }
  ]

  unfoldable pub set_endpoint :
      Text → HttpClient Url Web → Result (Unit {0}) TransportError × HttpClient Url Web
  unfolding parse_url
  set_endpoint url_str self = elim (parse_url url_str) [
    | err e ↦ (err e, self)
    | ok url ↦ (ok tt, record self { base_url = some url })
  ]

  unfoldable pub endpoint : HttpClient Url Web → Option Text
  endpoint self = elim self.base_url [ some url ↦ some (lib.to_string url) | none ↦ none ]

unfoldable pub clear_endpoint : {Url Web : Type 0} → HttpClient Url Web → HttpClient Url Web
clear_endpoint self = record self { base_url = none }

unfoldable pub shutdown : {Url Web : Type 0} → HttpClient Url Web → HttpClient Url Web
shutdown self = record self { cancelled = true }

-- The `Drop` of a client and of a subscription.
unfoldable pub drop_client : {Url Web : Type 0} → HttpClient Url Web → HttpClient Url Web
drop_client self = record self { cancelled = true }

unfoldable pub drop_subscription : {Url : Type 0} → SseSubscription Url → SseSubscription Url
drop_subscription self = record self { cancelled = true }
