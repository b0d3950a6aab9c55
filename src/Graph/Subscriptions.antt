-- ===== src/Graph/Subscriptions.antt =====
-- graph/schema.resolvers.go, the subscriptions: WatchPods, WatchAllPods and StreamPodLogs start the
-- same two goroutines. One runs the service, which sends into `serviceChan`; the other converts what it
-- takes from there and sends it into the channel of the client.
pub mod Order
pub mod Start
pub mod Panics
pub mod EndToEnd
pub mod Tests
use k8s_pod_manager_graphql.Prelude.{
  ℕ, ◌<◌, ◌≡◌, String, Bool, true, false, List, [], ◌∷◌, ◌++◌, length,
}

-- The buffer of each channel
abbrev pub capacity : ℕ
capacity = 100

-- A buffered channel, the next item first
pub record Channel (A : Type 0) : Type 0 where
  pub buffer : List A
  pub is_closed : Bool

-- The goroutine of the service: still in the call, or returned
pub data Producer : Type 0 where
  active ended : Producer

-- The converting goroutine: in its `range` over `serviceChan`, in the `select` with a converted event,
-- or returned
pub data Converter (B : Type 0) : Type 0 where
  waiting : Converter B
  holding : B → Converter B
  finished : Converter B

-- `sent` and `received` record what the service sent and what the client got, in order.
pub record Subscription (A B : Type 0) : Type 0 where
  pub service : Channel A
  pub events : Channel B
  pub producer : Producer
  pub converter : Converter B
  pub cancelled : Bool
  pub sent : List A
  pub received : List B

-- A panic of a goroutine ends the whole server.
pub data System (A B : Type 0) : Type 0 where
  live : Subscription A B → System A B
  panicked : String → System A B

-- The channels are made open and empty, and the goroutines started.
abbrev pub new_subscription : {A B : Type 0} → Subscription A B
new_subscription = record {
  service = record { buffer = []; is_closed = false };
  events = record { buffer = []; is_closed = false };
  producer = active;
  converter = waiting;
  cancelled = false;
  sent = [];
  received = [];
}

-- One step of a goroutine, of the client or of the context. `convert` is the method of the converter.
pub data Step {A B : Type 0} (convert : A → B) (s : Subscription A B) : System A B → Type 0 where
  -- the service sends an event
  send :
      (a : A)
      → s.producer ≡ active
      → s.service.is_closed ≡ false
      → length s.service.buffer < capacity
      → Step convert s (
          live (record s {
            service = record { buffer = s.service.buffer ++ (a ∷ []); is_closed = false };
            sent = s.sent ++ (a ∷ []);
          }))
  send_on_closed :
      s.producer ≡ active
      → s.service.is_closed ≡ true
      → Step convert s (panicked "send on closed channel")
  -- the service returns, and `close(eventsChan)` is deferred
  end :
      s.producer ≡ active
      → Step convert s (
          live (record s {
            producer = ended;
            events = record { buffer = s.events.buffer; is_closed = true };
          }))
  -- the `range` takes an event, which is converted
  take :
      (a : A) (rest : List A)
      → s.converter ≡ waiting
      → s.service.buffer ≡ a ∷ rest
      → Step convert s (
          live (record s {
            service = record { buffer = rest; is_closed = s.service.is_closed };
            converter = holding (convert a);
          }))
  -- the `range` ends, and `close(serviceChan)` is deferred
  drain :
      s.converter ≡ waiting
      → s.service.buffer ≡ []
      → s.service.is_closed ≡ true
      → Step convert s (panicked "close of closed channel")
  -- the `select` sends
  deliver :
      (b : B)
      → s.converter ≡ holding b
      → s.events.is_closed ≡ false
      → length s.events.buffer < capacity
      → Step convert s (
          live (record s {
            events = record { buffer = s.events.buffer ++ (b ∷ []); is_closed = false };
            converter = waiting;
          }))
  deliver_on_closed :
      (b : B)
      → s.converter ≡ holding b
      → s.events.is_closed ≡ true
      → Step convert s (panicked "send on closed channel")
  -- the `select` sees the end of the context, and `close(serviceChan)` is deferred
  give_up :
      (b : B)
      → s.converter ≡ holding b
      → s.cancelled ≡ true
      → Step convert s (
          live (record s {
            service = record { buffer = s.service.buffer; is_closed = true };
            converter = finished;
          }))
  cancel : Step convert s (live (record s { cancelled = true }))
  -- the client takes an event
  receive :
      (b : B) (rest : List B)
      → s.events.buffer ≡ b ∷ rest
      → Step convert s (
          live (record s {
            events = record { buffer = rest; is_closed = s.events.is_closed };
            received = s.received ++ (b ∷ []);
          }))

-- The states that a run from `s` can reach
pub data Reach {A B : Type 0} (convert : A → B) (s : Subscription A B) : System A B → Type 0 where
  here : Reach convert s (live s)
  next :
      {t : Subscription A B} {u : System A B}
      → Reach convert s (live t)
      → Step convert t u
      → Reach convert s u
