-- ===== src/Worker/Connections/Isolated.antt =====
-- What the connections of one worker of src/worker/src/worker.ts have to do with each other.
use js_sidecar.Prelude.{
  ℕ, ◌≡◌, ◌≢◌, none, refl, sym, ap, subst, ◌∙◌, true, false, some, inl, inr, Bool-cases, List, [],
  ◌∷◌, ◌++◌, map, All, All-at, All-put, append-nil, ◌==◌, arith,
}
use js_sidecar.Worker.Node.{Node}
use js_sidecar.Worker.Primary.{remove}
use js_sidecar.Prelude.Outcome.{ok}
use js_sidecar.Worker.Logged.{Rising}
use js_sidecar.Worker.Protocol.{
  IncomingMessage, fresh, returned, prepend, handle_data, handle_chunks,
}
use js_sidecar.Worker.Protocol.Chunks.{handle_chunks-last}
use js_sidecar.Worker.Tasks.{World, Turn, Step, connected}
use js_sidecar.Worker.Tasks.Events.{Service, req_ids}
use js_sidecar.Worker.Tasks.Intake.{
  pings_in-append, others_in-append, take_in, take_in-Kept, pings_in, others_in,
}
use js_sidecar.Worker.Tasks.Service.{Implements, Step-Implements, Reach-Implements}
use js_sidecar.Worker.Server.{
  Server, Event, message, signal, connects, ends, fails, handle, shutdown, exit_if_drained, accept,
  end_connection, Reachable, started, handled,
}
use js_sidecar.Worker.Server.Exit.{Reachable-Orderly}
use js_sidecar.Worker.Connections.{
  Client, Process, new_client, remove_client, on_clients, on_event, world, client_after, after_turn,
  fed, on_data, receives, Running, starts, serves, takes_turn,
}

drained_connections : (s : Server) → (exit_if_drained s).connections ≡ s.connections
unfolding exit_if_drained
drained_connections s = ground arith

module _ {n : Node} where
  -- The messages of all data that came on a connection.
  abbrev pub messages_in : Client n → List IncomingMessage
  messages_in c = (handle_chunks fresh c.data_in).emitted

  -- A connection has taken its messages from what came on it, and gives its service to them, whatever it
  -- shares with the others.
  pub record Served (c : Client n) : Type 0 where
    pub no_throw : (handle_chunks fresh c.data_in).status ≡ returned
    pub left : (handle_chunks fresh c.data_in).incoming ≡ c.incoming
    pub gives :
        (heap : n.Heap) (cache : n.Cache)
        → Implements (pings_in (messages_in c)) (others_in (messages_in c)) (world heap cache c)

  same_service :
      (pinged asked : List ℕ) (w w' : World n)
      → w.tasks ≡ w'.tasks
      → w.session.sender ≡ w'.session.sender
      → Implements pinged asked w
      → Implements pinged asked w'
  same_service pinged asked w w' tasks sender i = record {
    events = i.events;
    service = subst (λ ts. Service (req_ids ts) i.events) tasks i.service;
    requests = i.requests;
    ponged_to = i.ponged_to;
    frames = i.frames;
    replies = i.replies;
    on_wire = ap (λ s. s.sent) (sym sender) ∙ i.on_wire;
    outputs = i.outputs;
    rising = subst (λ s. Rising 0 i.frames s.id) sender i.rising;
  }

  new_client-Served : (id : ℕ) → Served (new_client id)
  unfolding handle_chunks
  new_client-Served id = record {
    no_throw = refl;
    left = refl;
    gives =
        λ heap cache. Reach-Implements n _ (world heap cache (new_client id)) [] [] refl connected;
  }

  -- A turn of a task.
  turn-Served :
      (c : Client n) (heap : n.Heap) (cache : n.Cache) (w : World n)
      → Served c
      → Step n (world heap cache c) w [] []
      → Served (client_after c w)
  turn-Served c heap cache w served step = record {
    no_throw = served.no_throw;
    left = served.left;
    gives = λ heap' cache'. same_service _ _ w (world heap' cache' (client_after c w)) refl refl (
        subst (λ x. Implements x (others_in (messages_in c)) w) (append-nil _)
          (subst (λ x. Implements (pings_in (messages_in c) ++ []) x w) (append-nil _)
            (Step-Implements (served.gives heap cache) step)));
  }

  -- Data, with the messages that it completes.
  data-Served :
      (turn : Turn n) (bytes : List ℕ) (c : Client n) (heap : n.Heap) (cache : n.Cache)
      → Served c
      → (handle_data c.incoming bytes).status ≡ returned
      → (take_in n turn (handle_data c.incoming bytes).emitted (world heap cache c)).0 ≡ ok tt
      → Served (
          client_after
            (fed bytes c)
            (take_in n turn (handle_data c.incoming bytes).emitted (world heap cache c)).1)
  data-Served turn bytes c heap cache served fine done =
      let before = handle_chunks fresh c.data_in in
      let h = handle_data c.incoming bytes in
      let joined : handle_chunks fresh (c.data_in ++ bytes ∷ []) ≡ prepend before.emitted h =
        handle_chunks-last fresh c.data_in bytes served.no_throw
          (ap (λ i. (handle_data i bytes).status) served.left ∙ fine)
        ∙ ap (λ i. prepend before.emitted (handle_data i bytes)) served.left in
      let w = (take_in n turn h.emitted (world heap cache c)).1 in
      let now =
        take_in-Kept n turn (λ w pinged asked. Implements pinged asked w)
          (λ w w' p a p' a' i step. Step-Implements i step) h.emitted (world heap cache c)
          (pings_in before.emitted) (others_in before.emitted) (served.gives heap cache) done in
      record {
        no_throw = ap (λ x. x.status) joined ∙ fine;
        left = ap (λ x. x.incoming) joined;
        gives = λ heap' cache'.
            same_service _ _ w (world heap' cache' (client_after (fed bytes c) w)) refl refl (
              subst (λ x. Implements x (others_in (messages_in (fed bytes c))) w)
                (sym
                  (ap (λ x. pings_in x.emitted) joined ∙ pings_in-append before.emitted h.emitted))
                (subst (λ x. Implements (pings_in before.emitted ++ pings_in h.emitted) x w)
                  (sym (
                    ap (λ x. others_in x.emitted) joined
                    ∙ others_in-append before.emitted h.emitted))
                  now));
      }

  abbrev pub client_ids : List (Client n) → List ℕ
  client_ids = map (λ c. c.id)

  -- What a server event does to the clients is what it does to the numbers of the server.
  remove_client-Served :
      (id : ℕ) (cs : List (Client n)) → All Served cs → All Served (remove_client id cs)
  unfolding remove_client
  remove_client-Served id [] served = tt
  remove_client-Served id (c ∷ cs) (first, others) = elim (Bool-cases (id == c.id)) [
    | inl e ↦ rw e others
    | inr e ↦ rw e (first, remove_client-Served id cs others)
  ]

  remove_client-ids :
      (id : ℕ) (cs : List (Client n)) → client_ids (remove_client id cs) ≡ remove id (client_ids cs)
  unfolding remove_client remove
  remove_client-ids id [] = refl
  remove_client-ids id (c ∷ cs) = elim (Bool-cases (id == c.id)) [
    | inl e ↦ rw e refl
    | inr e ↦ rw e (ap (λ ids. c.id ∷ ids) (remove_client-ids id cs))
  ]

  on_clients-Served :
      (e : Event) (s : Server) (cs : List (Client n))
      → All Served cs
      → All Served (on_clients e s cs)
  unfolding on_clients
  on_clients-Served (connects id) s cs served = elim (Bool-cases s.closing) [
    | inl h ↦ rw h served
    | inr h ↦ rw h (new_client-Served id, served)
  ]
  on_clients-Served (ends id) s cs served = remove_client-Served id cs served
  on_clients-Served (message b) s cs served = served
  on_clients-Served signal s cs served = served
  on_clients-Served fails s cs served = served

  on_clients-ids :
      (e : Event) (s : Server) (cs : List (Client n))
      → client_ids cs ≡ s.connections
      → client_ids (on_clients e s cs) ≡ (handle e s).connections
  unfolding on_clients handle accept shutdown end_connection
  on_clients-ids (connects id) s cs known = elim (Bool-cases s.closing) [
    | inl h ↦ rw h known
    | inr h ↦ rw h (ap (λ ids. id ∷ ids) known)
  ]
  on_clients-ids (ends id) s cs known =
      remove_client-ids id cs ∙ ap (remove id) known ∙ sym (drained_connections _)
  on_clients-ids (message true) s cs known = known ∙ sym (drained_connections _)
  on_clients-ids (message false) s cs known = known
  on_clients-ids signal s cs known = known ∙ sym (drained_connections _)
  on_clients-ids fails s cs known = known

  put-ids :
      (before later : List (Client n)) (c d : Client n)
      → c.id ≡ d.id
      → client_ids (before ++ d ∷ later) ≡ client_ids (before ++ c ∷ later)
  put-ids [] later c d same = ap (λ x. x ∷ client_ids later) (sym same)
  put-ids (b ∷ before) later c d same = ap (λ xs. b.id ∷ xs) (put-ids before later c d same)

  -- Each connection has given its service, the clients are the connections of the server, and the worker
  -- exits with code 0 when, and as soon as, it is told to shut down and has no client.
  pub record Serves (p : Process n) : Type 0 where
    pub served : All Served p.clients
    pub known : client_ids p.clients ≡ p.server.connections
    pub clean : p.server.exit_code ≡ some 0 → (p.server.closing ≡ true) × (p.clients ≡ [])
    pub prompt : p.server.closing ≡ true → p.server.exit_code ≡ none → p.clients ≢ []

module _ (n : Node) (heap : n.Heap) (cache : n.Cache) where
  Running-Reachable : (p : Process n) → Running n heap cache p → Reachable p.server
  unfolding on_event on_data after_turn
  Running-Reachable p starts = started
  Running-Reachable p (serves e run going possible) =
      handled e (Running-Reachable _ run) going possible
  Running-Reachable p (receives turn bytes before later c run going here fine done) =
      Running-Reachable _ run
  Running-Reachable p (takes_turn before later c w run going here step) = Running-Reachable _ run

  Running-Served :
      (p : Process n)
      → Running n heap cache p
      → All Served p.clients × (client_ids p.clients ≡ p.server.connections)
  unfolding on_event on_data after_turn
  Running-Served p starts = (tt, refl)
  Running-Served p (serves e run going possible) =
      let (served, known) = Running-Served _ run in
      (on_clients-Served e _ _ served, on_clients-ids e _ _ known)
  Running-Served p (receives turn bytes before later c run going here fine done) =
      let (served, known) = Running-Served _ run in
      let here_served = subst (All Served) here served in
      (
        All-put Served before later c _ here_served
            (data-Served turn bytes c _ _ (All-at Served before later c here_served) fine done),
        put-ids before later c _ refl ∙ sym (ap client_ids here) ∙ known,
      )
  Running-Served p (takes_turn before later c w run going here step) =
      let (served, known) = Running-Served _ run in
      let here_served = subst (All Served) here served in
      (
        All-put Served before later c _ here_served
            (turn-Served c _ _ w (All-at Served before later c here_served) step),
        put-ids before later c _ refl ∙ sym (ap client_ids here) ∙ known,
      )

  no_ids : (cs : List (Client n)) → client_ids cs ≡ [] → cs ≡ []
  no_ids [] e = refl
  no_ids (c ∷ cs) e = cc e

  -- In every state of a worker, whatever its server takes, whatever data come on its connections, in
  -- whatever pieces, and whatever turns its tasks take, while all share node:vm and the code cache: each
  -- connection has taken its messages from the data that came on it, and has given its service to them,
  -- as if it were alone; the clients are those that the server counts; the worker exits with code 0 only
  -- when it was told to shut down and has no client, and from when it was told, as soon as it has none.
  pub Running-Serves : (p : Process n) → Running n heap cache p → Serves p
  Running-Serves p run =
      let (served, known) = Running-Served p run in
      let orderly = Reachable-Orderly p.server (Running-Reachable p run) in
      record {
        served = served;
        known = known;
        clean = λ e. ((orderly.clean e).0, no_ids p.clients (known ∙ (orderly.clean e).1));
        prompt = λ c e empty. orderly.prompt c e (sym known ∙ ap client_ids empty);
      }
