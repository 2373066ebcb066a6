-- ===== src/Realtime/Cluster.antt =====
-- modules/realtime: the bridge from the worker to the API instances, realtime.publisher.ts and
-- realtime.subscriber.ts, beside the Socket.IO adapter of redis-io.adapter.ts, which main.ts installs
-- where REDIS_URL is set.
use native.Mathlib.Nat.{zero-mul, suc-mul}
use task_scheduling_platform.Base.{
  ℕ, suc, ◌+◌, ◌*◌, ◌≡◌, refl, sym, ap, ◌∙◌, Bool, true, false, Option, none, some, List, [], ◌∷◌,
  ◌++◌, length, arith, In, inl, inr, ◌==◌, if◌then◌else◌,
}
use task_scheduling_platform.World.{Uuid, Notification}
use task_scheduling_platform.Pagination.Cursor.{Text}
use task_scheduling_platform.Realtime.{SocketIo, Gateway, Room, room}

-- JSON.stringify, and JSON.parse, which throws on a malformed text; a date comes back as a text, so
-- what is read need not be what was written.
pub record Json : Type 0 where
  pub stringify : Notification → Text
  pub parse : Text → Option Notification

abbrev pub gather : (Gateway → List ℕ) → List Gateway → List ℕ
gather f [] = []
gather f (g ∷ gs) = f g ++ gather f gs

-- Redis, for both uses: which of the subscribed instances a published message reaches, and which
-- sockets, of all instances, the adapter counts to a room.
pub record Redis : Type 0 where
  pub receivers : List Gateway → List Gateway
  pub clients_in : Room → List Gateway → List ℕ

-- A message reaches every subscriber once, and a room spans all instances.
pub record IsRedis (io : SocketIo) (redis : Redis) : Type 0 where
  pub every_subscriber : (gs : List Gateway) → redis.receivers gs ≡ gs
  pub whole_room :
      (r : Room) (gs : List Gateway)
      → redis.clients_in r gs ≡ gather (λ g. io.clients_in r g.joined) gs

module _ (io : SocketIo) (redis : Redis) (instances : List Gateway) where
  abbrev pub own_sockets : Uuid → Gateway → List ℕ
  own_sockets user_id g = io.clients_in (room user_id) g.joined

  -- `server.to(room).emit(…)` at the instance `g`: the sockets that get it.
  abbrev pub audience : (redis_adapter : Bool) → Uuid → Gateway → List ℕ
  audience true user_id g = redis.clients_in (room user_id) instances
  audience false user_id g = own_sockets user_id g

  -- NotificationsGateway.pushNotification at the instance `g`.
  abbrev pub pushed_at : (redis_adapter : Bool) → Notification → Gateway → List ℕ
  pushed_at redis_adapter n g = if g.has_server then audience redis_adapter n.recipient_id g else []

  -- RealtimeSubscriber.handleMessage at the instance `g`; `catch` discards a malformed message.
  abbrev pub handle_message : (redis_adapter : Bool) → Option Notification → Gateway → List ℕ
  handle_message redis_adapter none g = []
  handle_message redis_adapter (some n) g = pushed_at redis_adapter n g

  -- RealtimePublisher.publish, and what the subscribers do with the message.
  unfoldable pub publish : Json → (redis_adapter : Bool) → Notification → List ℕ
  publish json redis_adapter n =
      gather (handle_message redis_adapter (json.parse (json.stringify n)))
        (redis.receivers instances)

abbrev pub count : ℕ → List ℕ → ℕ
count c [] = 0
count c (d ∷ ds) = let rest = count c ds in if c == d then suc rest else rest

count-append : (c : ℕ) (xs ys : List ℕ) → count c (xs ++ ys) ≡ count c xs + count c ys
count-append c [] ys = omega arith
count-append c (x ∷ xs) ys = ground (arith, count-append c xs ys)

gather-same :
    (f g : Gateway → List ℕ) (gs : List Gateway)
    → ((x : Gateway) → In x gs → f x ≡ g x)
    → gather f gs ≡ gather g gs
gather-same f g [] h = refl
gather-same f g (x ∷ gs) h = rw (h x (inl refl), gather-same f g gs (λ y m. h y (inr m))) refl

count-gather_constant :
    (c : ℕ) (xs : List ℕ) (gs : List Gateway)
    → count c (gather (λ _. xs) gs) ≡ length gs * count c xs
count-gather_constant c xs [] = sym (zero-mul (count c xs))
count-gather_constant c xs (g ∷ gs) =
    let product = suc-mul (length gs) (count c xs) in
    omega (arith, count-append c xs (gather (λ _. xs) gs), count-gather_constant c xs gs, product)

-- How often each socket gets a notification that the worker publishes, where every instance has a
-- server: without the Redis adapter as often as it is in the room of the recipient, and with it that
-- often times the number of instances.
pub publish-count :
    (io : SocketIo) (redis : Redis) (json : Json) (instances : List Gateway) (n m : Notification)
    (c : ℕ)
    → IsRedis io redis
    → json.parse (json.stringify n) ≡ some m
    → m.recipient_id ≡ n.recipient_id
    → ((g : Gateway) → In g instances → g.has_server ≡ true)
    → (count c (publish io redis instances json false n)
        ≡ count c (gather (own_sockets io redis instances n.recipient_id) instances))
      × (count c (publish io redis instances json true n)
          ≡ length instances
            * count c (gather (own_sockets io redis instances n.recipient_id) instances))
unfolding publish
publish-count io redis json instances n m c laws parsed same serving =
    let own = own_sockets io redis instances m.recipient_id in
    let whole : redis.clients_in (room m.recipient_id) instances ≡ gather own instances =
      laws.whole_room (room m.recipient_id) instances in
    rw (parsed, laws.every_subscriber instances, sym same)
      (
        ap (count c) (
            gather-same (pushed_at io redis instances false m) own instances
              (λ g m. rw (serving g m) refl)),
        ap (count c) (
              gather-same (pushed_at io redis instances true m) (λ _. gather own instances)
                instances (λ g m. rw (serving g m) whole))
            ∙ count-gather_constant c (gather own instances) instances,
      )
