-- ===== src/Transport/Clients.antt =====
-- Any calls of the methods of `Transport`, src/transport.rs, on either of its clients.
use notifiapp_transport.Common.{ap, ◌≡◌, List, Bool, Text}
use notifiapp_transport.Client.State.{Client, Admission}
use notifiapp_transport.Http.Client.{HttpClient}
use notifiapp_transport.Http.Libraries.{Libraries}
use notifiapp_transport.Transport.{TransportCall, perform_all, track_all, perform_all-track}
use notifiapp_transport.Transport.Websocket
use notifiapp_transport.Transport.Websocket.{Outcome, websocket, websocket-IsTransport}
use notifiapp_transport.Transport.Http
use notifiapp_transport.Transport.Http.{http, http-IsTransport}

module _ {Url Web Response : Type 0} (lib : Libraries Url Web Response) (admits : Admission)
    (is_url : Text → Bool) where
  -- After any calls of the methods of the trait on a WebSocket client, whatever happens to its
  -- requests meanwhile, its URL is the last one that was taken and not cleared since, as it was
  -- given, and it is shut down just if it was before or shutdown was called; the same holds of an
  -- HTTP client, whose endpoint is shown as the crate url prints it.
  pub clients-tracked :
      (xs : List (TransportCall Outcome)) (c : Client) (ys : List (TransportCall (Unit {0})))
      (h : HttpClient Url Web)
      → let c' = perform_all (websocket admits is_url) xs c in
        let h' = perform_all (http lib) ys h in
        let v = track_all is_url (λ s. s) xs (Websocket.seen c) in
        let u = track_all (Http.is_url lib) (Http.shown lib) ys (Http.seen lib h) in
        (c'.url ≡ v.endpoint)
        × (c'.cancelled ≡ v.is_down)
        × ((http lib).endpoint h' ≡ u.endpoint)
        × (h'.cancelled ≡ u.is_down)
  clients-tracked xs c ys h =
      let s =
        perform_all-track (websocket admits is_url) is_url (λ s. s) Websocket.seen
          (websocket-IsTransport admits is_url) xs c in
      let t =
        perform_all-track (http lib) (Http.is_url lib) (Http.shown lib) (Http.seen lib)
          (http-IsTransport lib) ys h in
      (ap (λ v. v.endpoint) s, ap (λ v. v.is_down) s, ap (λ v. v.endpoint) t, ap (λ v. v.is_down) t)
