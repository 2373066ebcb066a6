-- ===== src/Realtime/Delivery.antt =====
-- modules/realtime/notifications.gateway.ts: to whom a notification is pushed.
use task_scheduling_platform.Base.{
  ℕ, Bool, ◌≡◌, refl, sym, ap, ◌∙◌, subst, Option, some, List, [], ◌∷◌, ◌++◌, append_assoc,
  append-nil, arith, In, In-append, In-snoc, inl, inr, Option-cases, Bool-cases,
}
use task_scheduling_platform.World.{Uuid, Notification}
use task_scheduling_platform.Realtime.{
  user_room, SocketIo, IsSocketIo, Payload, payload_of, Handshake, Message, notification,
  unauthorized, Gateway, token_of, handle_connection, handle_disconnect, addressed,
  push_notification,
}

-- What happens at a gateway.
pub data Happening : Type 0 where
  connected : ℕ → Handshake → Happening
  disconnected : ℕ → Happening
  created : Notification → Happening

module _ (io : SocketIo) (verify : ℕ → Option Uuid) where
  abbrev pub after : Happening → Gateway → Gateway
  after (connected client handshake) g = handle_connection io verify client handshake g
  after (disconnected client) g = handle_disconnect io client g
  after (created n) g = push_notification io n g

  unfoldable pub run : List Happening → Gateway → Gateway
  unfolding handle_connection push_notification
  run [] g = g
  run (e ∷ es) g = run es (after e g)

  -- The socket `c` came with a token of the user.
  abbrev pub HasToken : List Happening → ℕ → Uuid → Type 0
  HasToken past c user_id =
      (h : Handshake) × In (connected c h) past × (verify (token_of h) ≡ some user_id)

  -- The payload is of a notification for a user whose token `c` had shown.
  abbrev pub IsMeantFor : List Happening → ℕ → Payload → Type 0
  IsMeantFor past c p =
      (n : Notification) × In (created n) past × (payload_of n ≡ p) × HasToken past c n.recipient_id

  record IsTraced (past : List Happening) (g : Gateway) : Type 0 where
    rooms : (c : ℕ) (u : Uuid) → In c (io.clients_in (user_room u) g.joined) → HasToken past c u
    messages : (c : ℕ) (p : Payload) → In (c, notification p) g.sent → IsMeantFor past c p

  later : (past : List Happening) (e f : Happening) → In f past → In f (past ++ e ∷ [])
  later past e f m = (In-append f past (e ∷ [])).1 (inl m)

  now : (past : List Happening) (e : Happening) → In e (past ++ e ∷ [])
  now past e = (In-append e past (e ∷ [])).1 (inr (inl refl))

  HasToken-later :
      (past : List Happening) (e : Happening) (c : ℕ) (u : Uuid)
      → HasToken past c u
      → HasToken (past ++ e ∷ []) c u
  HasToken-later past e c u (h, m, v) = (h, later past e (connected c h) m, v)

  IsMeantFor-later :
      (past : List Happening) (e : Happening) (c : ℕ) (p : Payload)
      → IsMeantFor past c p
      → IsMeantFor (past ++ e ∷ []) c p
  IsMeantFor-later past e c p (n, m, same, token) =
      (n, later past e (created n) m, same, HasToken-later past e c n.recipient_id token)

  In-addressed :
      (c : ℕ) (p q : Payload) (clients : List ℕ)
      → In (c, notification p) (addressed io q clients)
      → In c clients × (p ≡ q)
  In-addressed c p q [] m = absurd m
  In-addressed c p q (d ∷ clients) m = ground (arith, In-addressed c p q clients)

  told :
      (c : ℕ) (p : Payload) (client : ℕ) (sent : List (ℕ × Message))
      → In (c, notification p) (sent ++ (client, unauthorized) ∷ [])
      → In (c, notification p) sent
  told c p client sent m = elim (In-snoc (c, notification p) (client, unauthorized) sent m) [
    | inl k ↦ k
    | inr e ↦ absurd (ground arith)
  ]

  same_user : (sub u : Uuid) → user_room u ≡ user_room sub → sub ≡ u
  same_user sub u e = cc

  module _ (laws : IsSocketIo io) where
    after-IsTraced :
        (past : List Happening) (e : Happening) (g : Gateway)
        → IsTraced past g
        → IsTraced (past ++ e ∷ []) (after e g)
    unfolding handle_connection push_notification
    after-IsTraced past (connected client h) g traced = elim (Option-cases (verify (token_of h))) [
      | inl refused ↦ rw refused (record {
        rooms = λ c u m.
            HasToken-later past _ c u
              (traced.rooms c u (laws.clients_in-disconnect c client (user_room u) g.joined m));
        messages =
            λ c p m. IsMeantFor-later past _ c p (traced.messages c p (told c p client g.sent m));
      })
      | inr (sub, valid) ↦ rw valid (record {
        rooms = λ c u m.
            elim (laws.clients_in-join c client (user_room u) (user_room sub) g.joined m) [
              | inl (same, it) ↦
                  (h, rw same (now past (connected client h)), valid ∙ ap some (same_user sub u it))
              | inr before ↦ HasToken-later past _ c u (traced.rooms c u before)
            ];
        messages = λ c p m. IsMeantFor-later past _ c p (traced.messages c p m);
      })
    ]
    after-IsTraced past (disconnected client) g traced = record {
      rooms = λ c u m.
          HasToken-later past _ c u
            (traced.rooms c u (laws.clients_in-disconnect c client (user_room u) g.joined m));
      messages = λ c p m. IsMeantFor-later past _ c p (traced.messages c p m);
    }
    after-IsTraced past (created n) g traced = elim (Bool-cases g.has_server) [
      | inr without ↦ rw without (record {
        rooms = λ c u m. HasToken-later past _ c u (traced.rooms c u m);
        messages = λ c p m. IsMeantFor-later past _ c p (traced.messages c p m);
      })
      | inl attached ↦ rw attached (record {
        rooms = λ c u m. HasToken-later past _ c u (traced.rooms c u m);
        messages = λ c p m. elim ((In-append (c, notification p) g.sent _).0 m) [
          | inl before ↦ IsMeantFor-later past _ c p (traced.messages c p before)
          | inr pushed ↦
              let (there, same) = In-addressed c p (payload_of n) _ pushed in
              (
                n,
                now past (created n),
                sym same,
                HasToken-later past _ c n.recipient_id (traced.rooms c n.recipient_id there),
              )
        ];
      })
    ]

    run-IsTraced :
        (past es : List Happening) (g : Gateway)
        → IsTraced past g
        → IsTraced (past ++ es) (run es g)
    unfolding run
    run-IsTraced past [] g traced = subst (λ p. IsTraced p g) (sym (append-nil past)) traced
    run-IsTraced past (e ∷ es) g traced =
        subst (λ p. IsTraced p (run es (after e g))) (append_assoc past (e ∷ []) es)
          (run-IsTraced (past ++ e ∷ []) es (after e g) (after-IsTraced past e g traced))

abbrev pub opened : Bool → Gateway
opened has_server = record { has_server = has_server; joined = []; sent = [] }

-- Over every sequence of connections, disconnections and created notifications, a socket is sent a
-- notification only if that notification was created and the socket had come with a token that is
-- valid for the recipient of it.
pub run-IsMeantFor :
    (io : SocketIo) (verify : ℕ → Option Uuid) (es : List Happening) (has_server : Bool) (c : ℕ)
    (p : Payload)
    → IsSocketIo io
    → In (c, notification p) (run io verify es (opened has_server)).sent
    → IsMeantFor io verify es c p
run-IsMeantFor io verify es has_server c p laws m =
    (run-IsTraced io verify laws [] es (opened has_server) (record {
      rooms = λ c u k. absurd (laws.clients_in-none c (user_room u) k);
      messages = λ c p k. absurd k;
    })).messages
      c p m
