-- ===== src/Realtime/Tests.antt =====
-- Runs of the gateway and of the bridge with a server that keeps its rooms in a list, and the theorems
-- at concrete inputs.
use task_scheduling_platform.Base.{
  ℕ, true, false, ◌≡◌, ◌⊎◌, refl, Option, none, some, List, [], ◌∷◌, ◌==◌, ◌*◌, arith, In, inl, inr,
  if◌then◌else◌, delete_where,
}
use task_scheduling_platform.World.{Uuid, Notification}
use task_scheduling_platform.World.Delivery.{task_assigned}
use task_scheduling_platform.Realtime.{
  Room, user_room, Joined, SocketIo, IsSocketIo, payload_of, Handshake, notification, unauthorized,
  Gateway, handle_connection, push_notification, room,
}
use task_scheduling_platform.Realtime.Delivery.{
  Happening, connected, created, run, IsMeantFor, opened, run-IsMeantFor,
}
use task_scheduling_platform.Realtime.Cluster.{
  Json, Redis, IsRedis, gather, own_sockets, publish, count, publish-count,
}

abbrev owner_of : Room → Uuid
owner_of (user_room u) = u

abbrev clients : Room → List Joined → List ℕ
clients r [] = []
clients r (j ∷ joined) =
    let rest = clients r joined in if owner_of j.room == owner_of r then j.client ∷ rest else rest

abbrev listed : SocketIo
listed = record {
  join = λ client room joined. record { client = client; room = room } ∷ joined;
  disconnect = λ client joined. delete_where (λ j. j.client == client) joined;
  clients_in = clients;
}

same_owner : (r s : Room) → (owner_of s == owner_of r) ≡ true → r ≡ s
same_owner (user_room a) (user_room b) h = ground arith

clients-cons :
    (c : ℕ) (r : Room) (j : Joined) (joined : List Joined)
    → In c (clients r (j ∷ joined))
    → ((c ≡ j.client) × (r ≡ j.room)) ⊎ In c (clients r joined)
clients-cons c r j joined m = ground (arith, same_owner r j.room)

clients-disconnect :
    (c client : ℕ) (r : Room) (joined : List Joined)
    → In c (clients r (delete_where (λ j. j.client == client) joined))
    → In c (clients r joined)
clients-disconnect c client r [] m = m
clients-disconnect c client r (j ∷ joined) m = ground (arith, clients-disconnect c client r joined)

listed-IsSocketIo : IsSocketIo listed
listed-IsSocketIo = record {
  clients_in-join = λ c client r room joined m.
      clients-cons c r (record { client = client; room = room }) joined m;
  clients_in-disconnect = clients-disconnect;
  clients_in-none = λ c r m. m;
}

-- A token is the id of its user; 0, the empty text, is refused.
abbrev verify : ℕ → Option Uuid
verify token = if token == 0 then none else some token

abbrev assigned : Notification
assigned = record {
  id = 70;
  recipient_id = 2;
  type = task_assigned;
  title = "You were assigned a task";
  body = none;
  entity_type = some "task";
  entity_id = some 31;
  workspace_id = none;
  is_read = false;
  read_at = none;
  created_at = 5000;
}

abbrev with_token : ℕ → Handshake
with_token token = record { auth_token = none; query_token = some token }

-- Sockets 501 of user 2, 502 of user 3, and 503 without a token.
abbrev happenings : List Happening
happenings =
    connected 501 (with_token 2)
    ∷ connected 502 (with_token 3)
    ∷ connected 503 (record { auth_token = none; query_token = none })
    ∷ created assigned
    ∷ []

service : Unit {0}
unfolding run handle_connection push_notification publish
service = tt

sent_messages :
    (run listed verify happenings (opened true)).sent
    ≡ (503, unauthorized) ∷ (501, notification (payload_of assigned)) ∷ []
unfolding service
sent_messages = refl

assigned-sent :
    In (501, notification (payload_of assigned)) (run listed verify happenings (opened true)).sent
unfolding service
assigned-sent = inr (inl refl)

run-IsMeantFor_example : IsMeantFor listed verify happenings 501 (payload_of assigned)
run-IsMeantFor_example =
    run-IsMeantFor listed verify happenings true 501 (payload_of assigned) listed-IsSocketIo
      assigned-sent

-- Two API instances, with socket 501 of user 2 at the first one.
abbrev instances : List Gateway
instances =
    record { has_server = true; joined = record { client = 501; room = room 2 } ∷ []; sent = [] }
    ∷ opened true
    ∷ []

abbrev broker : Redis
broker = record { receivers = λ gs. gs; clients_in = λ r gs. gather (λ g. clients r g.joined) gs }

broker-IsRedis : IsRedis listed broker
broker-IsRedis = record { every_subscriber = λ gs. refl; whole_room = λ r gs. refl }

abbrev json : Json
json = record { stringify = λ n. []; parse = λ text. some assigned }

twice : publish listed broker instances json true assigned ≡ 501 ∷ 501 ∷ []
unfolding service
twice = refl

publish-count_example :
    (count 501 (publish listed broker instances json false assigned)
      ≡ count 501 (gather (own_sockets listed broker instances 2) instances))
    × (count 501 (publish listed broker instances json true assigned)
        ≡ 2 * count 501 (gather (own_sockets listed broker instances 2) instances))
publish-count_example =
    publish-count listed broker json instances assigned assigned 501 broker-IsRedis refl refl
      (λ g m. ground arith)
