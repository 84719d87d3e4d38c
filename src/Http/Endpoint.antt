-- ===== src/Http/Endpoint.antt =====
-- The endpoint of the client of src/http/: what it does while there is none.
use notifiapp_transport.Common.{
  ℕ, ◌≡◌, refl, List, [], ◌∷◌, none, Result, err, Text, codes, All, ◌∙◌,
}
use notifiapp_transport.Error.{TransportError, invalid_url}
use notifiapp_transport.Http.Libraries.{Libraries}
use notifiapp_transport.Http.Client
use notifiapp_transport.Http.Client.{
  HttpClient, parse_url, resolve, post, get, delete, subscribe_sse, request, endpoint,
}

-- The calls of the `Transport` that change the client.
pub data Command : Type 0 where
  send_event : List ℕ → Command
  on_event : Command
  set_endpoint : Text → Command
  clear_endpoint : Command
  shutdown : Command

module _ {Url Web Response : Type 0} (lib : Libraries Url Web Response) where
  unfoldable pub perform : Command → HttpClient Url Web → HttpClient Url Web
  perform (send_event payload) self = (Client.send_event lib payload self).1
  perform on_event self = Client.on_event lib self
  perform (set_endpoint s) self = (Client.set_endpoint lib s self).1
  perform clear_endpoint self = Client.clear_endpoint self
  perform shutdown self = Client.shutdown self

  unfoldable pub perform_all : List Command → HttpClient Url Web → HttpClient Url Web
  perform_all [] self = self
  perform_all (c ∷ cs) self = perform_all cs (perform c self)

  -- A command that sets no endpoint.
  unfoldable pub SetsNone : Command → Type 0
  SetsNone (set_endpoint s) = lib.parse s ≡ none
  SetsNone _ = Unit

  unfoldable pub no_endpoint : TransportError
  no_endpoint = invalid_url (codes "No endpoint set")

  -- Every request fails before it is sent, and an event or a subscription starts no task.
  pub record IsClosed (self : HttpClient Url Web) : Type 1 where
    pub post_fails :
        {Req Resp : Type 0} (to_json : Req → Result (List ℕ) Text)
        (from_json : Response → Result Resp Text) (path : Text) (body : Req)
        → post lib to_json from_json path body self ≡ (err no_endpoint, [])
    pub get_fails :
        {Resp : Type 0} (from_json : Response → Result Resp Text) (path : Text)
        → get lib from_json path self ≡ (err no_endpoint, [])
    pub delete_fails : (path : Text) → delete lib path self ≡ (err no_endpoint, [])
    pub request_fails : (payload : List ℕ) → request lib payload self ≡ (err no_endpoint, [])
    pub send_event_fails :
        (payload : List ℕ) → Client.send_event lib payload self ≡ (err no_endpoint, self)
    pub subscribe_fails : (path : Text) → subscribe_sse lib path self ≡ err no_endpoint
    pub on_event_ignored : Client.on_event lib self ≡ self
    pub endpoint_none : endpoint lib self ≡ none

  none-IsClosed : (self : HttpClient Url Web) → self.base_url ≡ none → IsClosed self
  unfolding resolve subscribe_sse post get delete request Client.send_event Client.on_event endpoint
      no_endpoint
  none-IsClosed self h = record {
    post_fails = λ to_json from_json path body. rw (h) refl;
    get_fails = λ from_json path. rw (h) refl;
    delete_fails = λ path. rw (h) refl;
    request_fails = λ payload. rw (h) refl;
    send_event_fails = λ payload. rw (h) refl;
    subscribe_fails = λ path. rw (h) refl;
    on_event_ignored = rw (h) refl;
    endpoint_none = rw (h) refl;
  }

  perform-none :
      (c : Command) (self : HttpClient Url Web)
      → SetsNone c
      → self.base_url ≡ none
      → ((perform c self).base_url ≡ none) × ((perform c self).tasks ≡ self.tasks)
  unfolding perform SetsNone resolve parse_url Client.send_event Client.on_event Client.set_endpoint
      Client.clear_endpoint Client.shutdown
  perform-none (send_event payload) self k h = rw (h) (refl, refl)
  perform-none on_event self k h = rw (h) (refl, refl)
  perform-none (set_endpoint s) self k h = rw (perform, k) (h, refl)
  perform-none clear_endpoint self k h = (refl, refl)
  perform-none shutdown self k h = (h, refl)

  perform_all-none :
      (cs : List Command) (self : HttpClient Url Web)
      → All SetsNone cs
      → self.base_url ≡ none
      → ((perform_all cs self).base_url ≡ none) × ((perform_all cs self).tasks ≡ self.tasks)
  unfolding perform_all
  perform_all-none [] self k h = (h, refl)
  perform_all-none (c ∷ cs) self k h =
      let step = perform-none c self k.0 h in
      let rest = perform_all-none cs (perform c self) k.1 step.0 in (rest.0, rest.1 ∙ step.1)

  -- After clear_endpoint, and any further calls that set no valid endpoint, every request and
  -- event of the HTTP client fails with InvalidUrl and sends nothing, a subscription is ignored,
  -- endpoint is None, and no task was started since.
  pub clear_endpoint-IsClosed :
      (cs : List Command) (self : HttpClient Url Web)
      → All SetsNone cs
      → IsClosed (perform_all cs (perform clear_endpoint self))
        × ((perform_all cs (perform clear_endpoint self)).tasks ≡ self.tasks)
  unfolding perform Client.clear_endpoint
  clear_endpoint-IsClosed cs self k =
      let run = perform_all-none cs (perform clear_endpoint self) k refl in
      (none-IsClosed (perform_all cs (perform clear_endpoint self)) run.0, run.1)
