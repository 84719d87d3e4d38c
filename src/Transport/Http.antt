-- ===== src/Transport/Http.antt =====
-- The `Transport` of src/http/transport.rs: the methods of `HttpClient`.
use notifiapp_transport.Common.{
  ℕ, arith, ◌≡◌, refl, List, [], ◌∷◌, Bool, true, false, none, some, Text, ok, err,
}
use notifiapp_transport.Error.{invalid_url}
use notifiapp_transport.State.{online}
use notifiapp_transport.Http.Libraries.{Libraries}
use notifiapp_transport.Http.Client
use notifiapp_transport.Http.Client.{HttpClient, resolve, parse_url}
use notifiapp_transport.Transport.{Transport, IsTransport, Seen}

module _ {Url Web Response : Type 0} (lib : Libraries Url Web Response) where
  -- The libraries say what the network makes of a request; `online` is published once.
  abbrev pub http : Transport
  http = record {
    Self = HttpClient Url Web;
    Outcome = Unit {0};
    request = λ payload p o c. ((Client.request lib payload c).0, c);
    send_event = λ payload p c. Client.send_event lib payload c;
    on_event = λ h c. Client.on_event lib c;
    subscribe_state = λ c. online ∷ [];
    set_endpoint = Client.set_endpoint lib;
    clear_endpoint = Client.clear_endpoint;
    endpoint = Client.endpoint lib;
    shutdown = Client.shutdown;
  }

  abbrev pub seen : HttpClient Url Web → Seen
  seen c = record { endpoint = Client.endpoint lib c; is_down = c.cancelled }

  abbrev pub is_url : Text → Bool
  is_url s = elim (lib.parse s) [ some url ↦ true | none ↦ false ]

  -- The address as the crate url prints it.
  abbrev pub shown : Text → Text
  shown s = elim (lib.parse s) [ some url ↦ lib.to_string url | none ↦ s ]

  send_event-seen :
      (payload : List ℕ) (c : HttpClient Url Web)
      → seen (Client.send_event lib payload c).1 ≡ seen c
  unfolding Client.send_event Client.endpoint
  send_event-seen payload c = ground arith

  on_event-seen : (c : HttpClient Url Web) → seen (Client.on_event lib c) ≡ seen c
  unfolding Client.on_event Client.endpoint
  on_event-seen c = ground arith

  set_endpoint-ok :
      (s : Text) (c : HttpClient Url Web)
      → is_url s ≡ true
      → ((Client.set_endpoint lib s c).0 ≡ ok tt)
        × (seen (Client.set_endpoint lib s c).1 ≡ record (seen c) { endpoint = some (shown s) })
  unfolding Client.set_endpoint Client.endpoint parse_url
  set_endpoint-ok s c e = (ground arith, ground arith)

  set_endpoint-err :
      (s : Text) (c : HttpClient Url Web)
      → is_url s ≡ false
      → Client.set_endpoint lib s c ≡ (err (invalid_url s), c)
  unfolding Client.set_endpoint parse_url
  set_endpoint-err s c e = ground arith

  pub http-IsTransport : IsTransport http is_url shown seen
  unfolding Client.clear_endpoint Client.endpoint Client.shutdown
  http-IsTransport = record {
    endpoint_lem = λ c. refl;
    request_lem = λ payload p o c. refl;
    send_event_lem = λ payload p c. send_event-seen payload c;
    on_event_lem = λ h c. on_event-seen c;
    set_endpoint_ok = set_endpoint-ok;
    set_endpoint_err = set_endpoint-err;
    clear_endpoint_lem = λ c. refl;
    shutdown_lem = λ c. refl;
  }
