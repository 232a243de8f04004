-- ===== src/Gateway.antt =====
-- cmd/gateway/main.go: one user's socket, as the steps that `serveWS`, its reader pump and what is
-- around them take in any order.
pub mod Delivery
pub mod Routes
use taxi_app.Base.{
  ℕ, String, Bool, true, false, List, [], ◌∷◌, ◌++◌, ◌≡◌, ◌⊎◌, if◌then◌else◌, str_eq, Option, none,
  some,
}
use taxi_app.TripWorker.{channel}

pub data Frame : Type 0 where
  text : String → Frame
  ping : Frame

-- `ctx`, the reader's goroutine, and what `serveWS` holds open. `client_gone` says that nothing can be
-- read from the client any more, for whatever reason. `inbox` is what `ch` holds, `given`
-- all that was ever put into it, and `sent` what was written to the socket.
pub record Socket : Type 0 where
  pub topic : String
  pub running : Bool
  pub cancelled : Bool
  pub reading : Bool
  pub connected : Bool
  pub client_gone : Bool
  pub subscribed : Bool
  pub ticking : Bool
  pub channel_closed : Bool
  pub given : List String
  pub inbox : List String
  pub sent : List Frame

-- `Subscribe`: the channel that a socket listens on
unfoldable pub subscribe : String → String
subscribe user = channel user

-- The state at the head of the loop, for the first time.
unfoldable pub opened : String → Socket
unfolding subscribe
opened user = record {
  topic = subscribe user;
  running = true;
  cancelled = false;
  reading = true;
  connected = true;
  client_gone = false;
  subscribed = true;
  ticking = true;
  channel_closed = false;
  given = [];
  inbox = [];
  sent = [];
}

-- `serveWS` up to the loop: an error of 400, the upgrade's own refusal, or a socket.
pub data Upgraded : Type 0 where
  bad_request : Upgraded
  refused : Upgraded
  upgraded : Socket → Upgraded

unfoldable pub serve_ws : String → Option String → Upgraded
serve_ws user upgrade_error =
    if str_eq user ""
    then bad_request
    else elim upgrade_error [ some e ↦ refused | none ↦ upgraded (opened user) ]

-- A return from the loop runs the deferred calls: `ping.Stop`, `sub.Close`, `cancel`, `conn.Close`.
abbrev pub returned : Socket → Socket
returned s = record s {
  running = false;
  ticking = false;
  subscribed = false;
  cancelled = true;
  connected = false;
}

-- The reader pump's return runs its deferred `cancel`.
abbrev pub reader_returned : Socket → Socket
reader_returned s = record s { reading = false; cancelled = true }

abbrev pub write_frame : Frame → Socket → Socket
write_frame f s = record s { sent = s.sent ++ (f ∷ []) }

-- A step of the loop or of the reader pump.
pub data Own (s t : Socket) : Type 0 where
  -- `<-ctx.Done()`
  done : s.running ≡ true → s.cancelled ≡ true → t ≡ returned s → Own s t
  -- `<-ch` with a message, whose write succeeds or fails
  forward :
      (m : String) (rest : List String)
      → s.running ≡ true
      → s.inbox ≡ m ∷ rest
      → t ≡ write_frame (text m) (record s { inbox = rest })
      → Own s t
  drop :
      (m : String) (rest : List String)
      → s.running ≡ true
      → s.inbox ≡ m ∷ rest
      → t ≡ returned (record s { inbox = rest })
      → Own s t
  -- `<-ch` once it is closed and empty
  drained : s.running ≡ true → s.channel_closed ≡ true → s.inbox ≡ [] → t ≡ returned s → Own s t
  -- `<-ping.C`, whose write succeeds or fails
  tick : s.running ≡ true → t ≡ write_frame ping s → Own s t
  tick_fails : s.running ≡ true → t ≡ returned s → Own s t
  -- `conn.ReadMessage()`: of a message, or of an error, once the client is gone or the connection
  -- is closed
  read : s.reading ≡ true → s.connected ≡ true → t ≡ s → Own s t
  read_fails :
      s.reading ≡ true
      → (s.client_gone ≡ true) ⊎ (s.connected ≡ false)
      → t ≡ reader_returned s
      → Own s t

-- A step of Redis, of the HTTP server or of the client.
pub data Around (s t : Socket) : Type 0 where
  deliver :
      (name m : String)
      → s.subscribed ≡ true
      → s.channel_closed ≡ false
      → name ≡ s.topic
      → t ≡ record s { given = s.given ++ (m ∷ []); inbox = s.inbox ++ (m ∷ []) }
      → Around s t
  close_channel : t ≡ record s { channel_closed = true } → Around s t
  request_ends : t ≡ record s { cancelled = true } → Around s t
  client_leaves : t ≡ record s { client_gone = true } → Around s t

pub data Reach (user : String) : Socket → Type 0 where
  start : Reach user (opened user)
  own : {s t : Socket} → Reach user s → Own s t → Reach user t
  around : {s t : Socket} → Reach user s → Around s t → Reach user t

-- Whether a step writes to the socket, with success or not.
unfoldable pub writes : {s t : Socket} → Own s t → Bool
writes (done r c e) = false
writes (forward m rest r q e) = true
writes (drop m rest r q e) = true
writes (drained r c q e) = false
writes (tick r e) = true
writes (tick_fails r e) = true
writes (read r c e) = false
writes (read_fails r c e) = false

-- Steps of the process alone that write nothing.
pub data Runs (s : Socket) : Socket → Type 0 where
  here : Runs s s
  next : {t u : Socket} → Runs s t → (st : Own t u) → writes st ≡ false → Runs s u
