-- ===== src/Host/Channel/Progress.antt =====
-- No message is lost or overtaken between the reader task and the connection of src/connection.rs, and
-- whoever keeps receiving gets them all.
use js_sidecar.Prelude.{
  ℕ, ◌+◌, ◌*◌, ◌<◌, ◌≤◌, ◌≡◌, ◌≢◌, ◌⊎◌, inl, inr, refl, sym, ap, subst, ◌∙◌, true, Option, none,
  some, List, [], ◌∷◌, ◌++◌, append-nil, length, length-append, All, arith, Bool-cases,
}
use js_sidecar.Frame.{Frame, IsEncodable, stream}
use js_sidecar.Host.Messages.{WorkerToHostMessage}
use js_sidecar.Host.Libs.{Libs, Profile, ReadsExactly}
use js_sidecar.Host.Protocol.Read.{read_from-encode}
use js_sidecar.Host.Reader.{Parses}
use js_sidecar.Host.Channel.{
  capacity, Pipe, Event, reads, puts, receives, handle, Possible, Reachable, started, handled,
}
use js_sidecar.Host.Channel.Events.{on_put-alive, on_receive-cons, on_read-ok, read_content}
use js_sidecar.Host.Channel.Flow.{waiting, Flow, new_pipe-Flow, handle-Flow}

-- Every message is read, put into the channel, and taken out.
abbrev pub gain : {lib : Libs} → Pipe lib → ℕ
gain s = 3 * length s.taken + 2 * length s.queue + length (waiting s.sending)

module _ (lib : Libs) (unread : lib.Reader → List ℕ) (exactly : ReadsExactly lib unread)
    (p : Profile) (ms : List (WorkerToHostMessage lib.Value)) where
  Reachable-Flow :
      (fs : List Frame) (r : lib.Reader) (s : Pipe lib)
      → All IsEncodable fs
      → Parses lib fs ms
      → unread r ≡ stream fs
      → Reachable lib p r s
      → Flow lib unread exactly p ms s
  Reachable-Flow fs r s v parses q started = new_pipe-Flow lib unread exactly p ms fs r v parses q
  Reachable-Flow fs r s v parses q (handled {s = s'} e before possible) =
      handle-Flow lib unread exactly p ms s' (Reachable-Flow fs r s' v parses q before) e possible

  module _ (s : Pipe lib) (i : Flow lib unread exactly p ms s) (alive : s.alive ≡ true) where
    order_alive : s.taken ++ (s.queue ++ (waiting s.sending ++ i.source.coming)) ≡ ms
    order_alive = ap (λ x. s.taken ++ x) (sym (i.connected alive)) ∙ i.order

    gain_le : gain s ≤ 3 * length ms
    gain_le = omega (
      arith,
      ap length order_alive,
      length-append s.taken (s.queue ++ (waiting s.sending ++ i.source.coming)),
      length-append s.queue (waiting s.sending ++ i.source.coming),
      length-append (waiting s.sending) i.source.coming,
    )

    abbrev Gains : Type 0
    Gains = (e : Event) × Possible lib e s × (gain s < gain (handle lib p e s))

    runs_while : (waiting s.sending ++ i.source.coming ≢ []) → s.running ≡ true
    runs_while h = elim (Bool-cases s.running) [ inl e ↦ e | inr e ↦ absurd (h (i.over alive e)) ]

    receives-Gains :
        (m : WorkerToHostMessage lib.Value) (rest : List (WorkerToHostMessage lib.Value))
        → s.queue ≡ m ∷ rest
        → Gains
    unfolding handle
    receives-Gains m rest e = (
      receives,
      (alive, λ h. cc),
      rw (on_receive-cons lib s m rest e)
          (omega (arith, ap length e, length-append s.taken (m ∷ []))),
    )

    puts-Gains : (m : WorkerToHostMessage lib.Value) → s.queue ≡ [] → s.sending ≡ some m → Gains
    unfolding handle
    puts-Gains m q e = (
      puts,
      (
        runs_while (λ h. omega (
          arith,
          ap length h,
          length-append (waiting s.sending) i.source.coming,
          ap (λ o. length (waiting o)) e,
        )),
        (λ h. cc),
        λ h. rw q (omega arith),
      ),
      rw (on_put-alive lib s m e alive)
          (omega (arith, length-append s.queue (m ∷ []), ap (λ o. length (waiting o)) e)),
    )

    reads-Gains :
        (fs : List Frame) (m : WorkerToHostMessage lib.Value)
        (cs : List (WorkerToHostMessage lib.Value))
        → i.source.ahead ≡ fs
        → i.source.coming ≡ m ∷ cs
        → All IsEncodable fs
        → Parses lib fs (m ∷ cs)
        → s.sending ≡ none
        → Gains
    unfolding handle
    reads-Gains [] m cs a c v parses idle = elim parses [ ]
    reads-Gains (f ∷ fs) m cs a c v parses idle =
        let runs = runs_while (λ h.
          omega
            (arith, ap length h, length-append (waiting s.sending) i.source.coming, ap length c)) in
        let (this, left) =
          read_from-encode lib unread exactly p f (stream fs) s.reader v.0
            (i.on_wire runs ∙ ap stream a) in
        (
          reads,
          (runs, idle),
          rw (on_read-ok lib s p m (this ∙ read_content f m parses.0 parses.1 parses.2))
              (omega (arith, ap (λ o. length (waiting o)) idle)),
        )

    progress :
        (q : List (WorkerToHostMessage lib.Value)) (o : Option (WorkerToHostMessage lib.Value))
        (cs : List (WorkerToHostMessage lib.Value))
        → s.queue ≡ q
        → s.sending ≡ o
        → i.source.coming ≡ cs
        → (s.taken ≡ ms) ⊎ Gains
    progress (m ∷ rest) o cs q w c = inr (receives-Gains m rest q)
    progress [] (some m) cs q w c = inr (puts-Gains m q w)
    progress [] none (m ∷ cs) q w c = inr (
        reads-Gains i.source.ahead m cs refl c i.source.encodable
          (subst (Parses lib i.source.ahead) c i.source.parses) w)
    progress [] none [] q w c = inl (
        sym (append-nil s.taken)
        ∙ sym (ap (λ x. s.taken ++ x) (i.connected alive ∙ rw (q, w, c) refl))
        ∙ i.order)

  -- Whatever turns the reader task and the program take while the connection is not dropped, the
  -- channel holds at most 16 messages; what the program has received, what is in the channel, what the
  -- task holds, and what is still to come are the messages of the socket, in order, none lost and none
  -- twice; and until the program has received them all, the task can read or put the next message or
  -- the program can receive one, which can happen at most three times for each message.
  pub Reachable-progress :
      (fs : List Frame) (r : lib.Reader) (s : Pipe lib)
      → All IsEncodable fs
      → Parses lib fs ms
      → unread r ≡ stream fs
      → Reachable lib p r s
      → s.alive ≡ true
      → (length s.queue ≤ capacity)
        × ((coming : List (WorkerToHostMessage lib.Value)) × (s.taken
                ++ (s.queue ++ (waiting s.sending ++ coming))
              ≡ ms))
        × (gain s ≤ 3 * length ms)
        × ((s.taken ≡ ms) ⊎ ((e : Event) × Possible lib e s × (gain s < gain (handle lib p e s))))
  Reachable-progress fs r s v parses q reached alive =
      let i = Reachable-Flow fs r s v parses q reached in
      (
        i.room,
        (i.source.coming, order_alive s i alive),
        gain_le s i alive,
        progress s i alive s.queue s.sending i.source.coming refl refl refl,
      )
