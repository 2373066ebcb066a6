-- ===== src/Realtime.antt =====
-- modules/realtime: the gateway that pushes notifications to sockets. Socket.IO is a parameter: which
-- sockets are in a room after a join and after a disconnect.
pub mod Delivery
pub mod Cluster
mod Tests
use task_scheduling_platform.Base.{
  ℕ, String, Bool, true, false, ◌≡◌, ◌≢◌, ◌↔◌, ◌⊎◌, Option, none, some, List, [], ◌∷◌, ◌++◌, map,
  In, or_else, or_some,
}
use task_scheduling_platform.World.{Uuid, Micros, Notification}
use task_scheduling_platform.World.Delivery.{NotificationType}

-- `user:${userId}`
pub data Room : Type 0 where
  user_room : Uuid → Room

-- A socket, by its id, in a room.
pub record Joined : Type 0 where
  pub client : ℕ
  pub room : Room

pub record SocketIo : Type 0 where
  pub join : ℕ → Room → List Joined → List Joined
  pub disconnect : ℕ → List Joined → List Joined
  pub clients_in : Room → List Joined → List ℕ

-- A room holds the sockets that joined it and did not disconnect.
pub record IsSocketIo (io : SocketIo) : Type 0 where
  pub clients_in-join :
      (c client : ℕ) (r room : Room) (joined : List Joined)
      → In c (io.clients_in r (io.join client room joined))
      → ((c ≡ client) × (r ≡ room)) ⊎ In c (io.clients_in r joined)
  pub clients_in-disconnect :
      (c client : ℕ) (r : Room) (joined : List Joined)
      → In c (io.clients_in r (io.disconnect client joined))
      → In c (io.clients_in r joined)
  pub clients_in-none : (c : ℕ) (r : Room) → ¬ In c (io.clients_in r [])

-- The fields of a notification that are pushed.
pub record Payload : Type 0 where
  pub id : Uuid
  pub type : NotificationType
  pub title : String
  pub body : Option String
  pub entity_type : Option String
  pub entity_id : Option Uuid
  pub created_at : Micros

abbrev pub payload_of : Notification → Payload
payload_of n = record {
  id = n.id;
  type = n.type;
  title = n.title;
  body = n.body;
  entity_type = n.entity_type;
  entity_id = n.entity_id;
  created_at = n.created_at;
}

-- `client.handshake`: the token of `auth` and the one of the query, which are only
-- handed to `verify`.
pub record Handshake : Type 0 where
  pub auth_token : Option ℕ
  pub query_token : Option ℕ

pub data Message : Type 0 where
  unauthorized : Message
  notification : Payload → Message

-- The gateway of one process: the rooms of its server, and the messages sent to sockets.
pub record Gateway : Type 0 where
  pub has_server : Bool
  pub joined : List Joined
  pub sent : List (ℕ × Message)

abbrev pub room : Uuid → Room
room user_id = user_room user_id

-- `token ?? ''`: the empty text is 0.
abbrev pub token_of : Handshake → ℕ
token_of handshake = or_else (or_some handshake.auth_token handshake.query_token) 0

module _ (io : SocketIo) where
  -- `verify` gives the `sub` of a valid token.
  abbrev admit : ℕ → Option Uuid → Gateway → Gateway
  admit client (some sub) g = record g { joined = io.join client (room sub) g.joined }
  admit client none g = record g {
    joined = io.disconnect client g.joined;
    sent = g.sent ++ (client, unauthorized) ∷ [];
  }

  unfoldable pub handle_connection : (ℕ → Option Uuid) → ℕ → Handshake → Gateway → Gateway
  handle_connection verify client handshake g = admit client (verify (token_of handshake)) g

  abbrev pub handle_disconnect : ℕ → Gateway → Gateway
  handle_disconnect client g = record g { joined = io.disconnect client g.joined }

  abbrev pub addressed : Payload → List ℕ → List (ℕ × Message)
  addressed p clients = map (λ c. (c, notification p)) clients

  unfoldable pub push_notification : Notification → Gateway → Gateway
  push_notification n g = elim g.has_server [
    | false ↦ g
    | true ↦ record g {
      sent = g.sent ++ addressed (payload_of n) (io.clients_in (room n.recipient_id) g.joined);
    }
  ]
