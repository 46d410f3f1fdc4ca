-- ===== src/Host/Channel/Flow.antt =====
-- What comes through the channel between the reader task and the connection of src/connection.rs.
use js_sidecar.Prelude.{
  ℕ, ◌<◌, ◌≤◌, ◌≡◌, inl, inr, refl, sym, ap, subst, ◌∙◌, true, false, Option, none, some, List, [],
  ◌∷◌, ◌++◌, append_assoc, length, length-append, All, arith, Bool-cases,
}
use js_sidecar.Frame.{Frame, IsEncodable, stream}
use js_sidecar.Host.Messages.{WorkerToHostMessage}
use js_sidecar.Host.Libs.{Libs, Profile, ReadsExactly}
use js_sidecar.Host.Protocol.{read_from}
use js_sidecar.Host.Protocol.Read.{read_from-encode}
use js_sidecar.Host.Protocol.Errors.{no_header}
use js_sidecar.Host.Reader.{Parses}
use js_sidecar.Host.Error.{read_stream}
use js_sidecar.Host.Channel.{
  capacity, Pipe, Event, reads, closes, puts, receives, drops, new_pipe, on_read, on_put,
  on_receive, handle, Possible,
}
use js_sidecar.Host.Channel.Events.{
  on_put-none, on_put-alive, on_put-gone, on_receive-nil, on_receive-cons, on_read-ok, on_read-err,
  read_content,
}

abbrev pub waiting : {A : Type 0} → Option A → List A
waiting none = []
waiting (some a) = a ∷ []

module _ (lib : Libs) (unread : lib.Reader → List ℕ) (exactly : ReadsExactly lib unread)
    (p : Profile) (ms : List (WorkerToHostMessage lib.Value)) where
  -- The frames that are not read yet, and their messages.
  pub record Source : Type 0 where
    pub ahead : List Frame
    pub coming : List (WorkerToHostMessage lib.Value)
    pub encodable : All IsEncodable ahead
    pub parses : Parses lib ahead coming

  -- What is still to come, and, of the messages, those that are not yet taken.
  pub record Flow (s : Pipe lib) : Type 0 where
    pub source : Source
    pub later : List (WorkerToHostMessage lib.Value)
    pub order : s.taken ++ later ≡ ms
    pub connected : s.alive ≡ true → later ≡ s.queue ++ (waiting s.sending ++ source.coming)
    pub on_wire : s.running ≡ true → unread s.reader ≡ stream source.ahead
    pub over : s.alive ≡ true → s.running ≡ false → waiting s.sending ++ source.coming ≡ []
    pub room : length s.queue ≤ capacity

  pub new_pipe-Flow :
      (fs : List Frame) (r : lib.Reader)
      → All IsEncodable fs
      → Parses lib fs ms
      → unread r ≡ stream fs
      → Flow (new_pipe lib r)
  new_pipe-Flow fs r v parses q = record {
    source = record { ahead = fs; coming = ms; encodable = v; parses = parses };
    later = ms;
    order = refl;
    connected = λ h. refl;
    on_wire = λ h. q;
    over = λ h k. cc;
    room = omega arith;
  }

  module _ (s : Pipe lib) (i : Flow s) where
    closes-Flow : s.alive ≡ false → Flow (record s { running = false })
    closes-Flow gone = record {
      source = i.source;
      later = i.later;
      order = i.order;
      connected = i.connected;
      on_wire = λ k. cc;
      over = λ h k. cc;
      room = i.room;
    }

    drops-Flow : Flow (record s { alive = false; queue = [] })
    drops-Flow = record {
      source = i.source;
      later = i.later;
      order = i.order;
      connected = λ h. cc;
      on_wire = i.on_wire;
      over = λ h k. cc;
      room = omega arith;
    }

    put-Flow :
        (m : WorkerToHostMessage lib.Value)
        → s.sending ≡ some m
        → s.running ≡ true
        → length s.queue < capacity
        → Flow (record s { sending = none; queue = s.queue ++ m ∷ [] })
    put-Flow m e runs space = record {
      source = i.source;
      later = i.later;
      order = i.order;
      connected = λ h.
          i.connected h
          ∙ ap (λ o. s.queue ++ (waiting o ++ i.source.coming)) e
          ∙ sym (append_assoc s.queue (m ∷ []) i.source.coming);
      on_wire = i.on_wire;
      over = λ h k. cc;
      room = omega (arith, space, length-append s.queue (m ∷ []));
    }

    refused-Flow : s.alive ≡ false → Flow (record s { sending = none; running = false })
    refused-Flow gone = record {
      source = i.source;
      later = i.later;
      order = i.order;
      connected = λ h. cc;
      on_wire = λ k. cc;
      over = λ h k. cc;
      room = i.room;
    }

    on_put-Flow :
        (o : Option (WorkerToHostMessage lib.Value))
        → s.sending ≡ o
        → Possible lib puts s
        → Flow (on_put lib s)
    on_put-Flow none e h = subst Flow (sym (on_put-none lib s e)) i
    on_put-Flow (some m) e h = elim (Bool-cases s.alive) [
      | inl a ↦ subst Flow (sym (on_put-alive lib s m e a)) (put-Flow m e h.0 (h.2 a))
      | inr a ↦ subst Flow (sym (on_put-gone lib s m e a)) (refused-Flow a)
    ]

    taken-Flow :
        (m : WorkerToHostMessage lib.Value) (rest : List (WorkerToHostMessage lib.Value))
        → s.queue ≡ m ∷ rest
        → s.alive ≡ true
        → Flow (record s { queue = rest; taken = s.taken ++ m ∷ [] })
    taken-Flow m rest e a = record {
      source = i.source;
      later = rest ++ (waiting s.sending ++ i.source.coming);
      order =
          append_assoc s.taken (m ∷ []) (rest ++ (waiting s.sending ++ i.source.coming))
          ∙ ap (λ q. s.taken ++ (q ++ (waiting s.sending ++ i.source.coming))) (sym e)
          ∙ ap (λ x. s.taken ++ x) (sym (i.connected a))
          ∙ i.order;
      connected = λ h. refl;
      on_wire = i.on_wire;
      over = i.over;
      room = omega (arith, i.room, ap length e);
    }

    on_receive-Flow :
        (q : List (WorkerToHostMessage lib.Value))
        → s.queue ≡ q
        → s.alive ≡ true
        → Flow (on_receive lib s)
    on_receive-Flow [] e a = subst Flow (sym (on_receive-nil lib s e)) i
    on_receive-Flow (m ∷ rest) e a =
        subst Flow (sym (on_receive-cons lib s m rest e)) (taken-Flow m rest e a)

    -- The next message was read.
    read-Flow :
        (f : Frame) (fs : List Frame) (m : WorkerToHostMessage lib.Value)
        (cs : List (WorkerToHostMessage lib.Value))
        → i.source.ahead ≡ f ∷ fs
        → i.source.coming ≡ m ∷ cs
        → All IsEncodable (f ∷ fs)
        → Parses lib (f ∷ fs) (m ∷ cs)
        → s.running ≡ true
        → s.sending ≡ none
        → unread (read_from lib p s.reader).1 ≡ stream fs
        → Flow (record s { reader = (read_from lib p s.reader).1; sending = some m })
    read-Flow f fs m cs e c v parses runs idle left = record {
      source = record { ahead = fs; coming = cs; encodable = v.1; parses = parses.3 };
      later = i.later;
      order = i.order;
      connected = λ h.
          i.connected h
          ∙ ap (λ o. s.queue ++ (waiting o ++ i.source.coming)) idle
          ∙ ap (λ x. s.queue ++ x) c;
      on_wire = λ h. left;
      over = λ h k. cc;
      room = i.room;
    }

    -- The socket is at its end.
    end-Flow :
        (i.source.coming ≡ [])
        → s.sending ≡ none
        → Flow (record s { reader = (read_from lib p s.reader).1; running = false })
    end-Flow c idle = record {
      source = i.source;
      later = i.later;
      order = i.order;
      connected = i.connected;
      on_wire = λ k. cc;
      over = λ h k. ap (λ o. waiting o ++ i.source.coming) idle ∙ c;
      room = i.room;
    }

    on_read-Flow :
        (fs : List Frame) (cs : List (WorkerToHostMessage lib.Value))
        → i.source.ahead ≡ fs
        → i.source.coming ≡ cs
        → All IsEncodable fs
        → Parses lib fs cs
        → s.running ≡ true
        → s.sending ≡ none
        → Flow (on_read lib p s)
    on_read-Flow [] [] e c v parses runs idle =
        let (error, q) =
          no_header lib unread exactly p s.reader
            (rw (i.on_wire runs ∙ ap stream e) (omega arith)) in
        subst Flow (sym (on_read-err lib s p (read_stream error) q)) (end-Flow c idle)
    on_read-Flow (f ∷ fs) (m ∷ cs) e c v parses runs idle =
        let (this, left) =
          read_from-encode lib unread exactly p f (stream fs) s.reader v.0
            (i.on_wire runs ∙ ap stream e) in
        subst Flow (sym (on_read-ok lib s p m (this ∙ read_content f m parses.0 parses.1 parses.2)))
          (read-Flow f fs m cs e c v parses runs idle left)
    on_read-Flow [] (m ∷ cs) e c v parses runs idle = elim parses [ ]
    on_read-Flow (f ∷ fs) [] e c v parses runs idle = elim parses [ ]

    pub handle-Flow : (e : Event) → Possible lib e s → Flow (handle lib p e s)
    unfolding handle
    handle-Flow reads h =
        on_read-Flow i.source.ahead i.source.coming refl refl i.source.encodable i.source.parses h.0
          h.1
    handle-Flow closes h = closes-Flow h.2
    handle-Flow puts h = on_put-Flow s.sending refl h
    handle-Flow receives h = on_receive-Flow s.queue refl h.0
    handle-Flow drops h = drops-Flow
