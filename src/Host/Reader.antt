-- ===== src/Host/Reader.antt =====
-- The task that `Connection::new` of src/connection.rs spawns: it reads messages from the socket and
-- sends them into the channel of the connection.
use js_sidecar.Prelude.{
  ℕ, ◌≡◌, refl, sym, ap, ◌∙◌, Bool, true, List, [], ◌∷◌, ◌++◌, append-nil, append_assoc, All, arith,
  if◌then◌else◌,
}
use js_sidecar.Prelude.Outcome.{ok, err, panicked, pending, spent}
use js_sidecar.Frame.{Frame, IsEncodable, encode, stream}
use js_sidecar.Host.Messages.{WorkerToHostMessage}
use js_sidecar.Host.Libs.{Libs, Profile, ReadsExactly}
use js_sidecar.Host.Error.{Error, read_stream}
use js_sidecar.Host.Protocol.{read_from, parse_data}
use js_sidecar.Host.Protocol.Read.{with_content, read_from-encode}
use js_sidecar.Host.Protocol.Errors.{no_header}

-- Which branch of `select!` wins a round: a read, with whether the receiver still takes the message,
-- or the close channel.
pub data Branch : Type 0 where
  reads : Bool → Branch
  closes : Branch

-- Why the task stopped. `running` is no stop: the rounds of the model are used up.
pub data Stop (lib : Libs) : Type 0 where
  read_failed : Error lib → Stop lib
  receiver_gone told crashed stuck running : Stop lib

pub record Read (lib : Libs) : Type 0 where
  pub delivered : List (WorkerToHostMessage lib.Value)
  pub stop : Stop lib
  pub left : lib.Reader

-- A round for each frame in which the read wins and the message is taken, and then other rounds.
abbrev pub reads_all : List Frame → List Branch → List Branch
reads_all [] bs = bs
reads_all (f ∷ fs) bs = reads true ∷ reads_all fs bs

module _ (lib : Libs) where
  abbrev stops : Stop lib → lib.Reader → Read lib
  stops s r = record { delivered = []; stop = s; left = r }

  abbrev pub deliver : List (WorkerToHostMessage lib.Value) → Read lib → Read lib
  deliver ms read = record read { delivered = ms ++ read.delivered }

  unfoldable pub reader_task : Profile → List Branch → lib.Reader → Read lib
  reader_task p [] r = stops running r
  reader_task p (closes ∷ bs) r = stops told r
  reader_task p (reads taken ∷ bs) r =
      let (message, r') = read_from lib p r in
      let rest = reader_task p bs r' in
      elim message [
        | ok m ↦ if taken then deliver (m ∷ []) rest else stops receiver_gone r'
        | err e ↦ stops (read_failed e) r'
        | panicked ↦ stops crashed r'
        | pending ↦ stops stuck r'
        | spent ↦ stops stuck r'
      ]

  -- The frames are those of the messages: same IDs, and the data parses to the content.
  abbrev pub Parses : List Frame → List (WorkerToHostMessage lib.Value) → Type 0
  Parses [] [] = Unit
  Parses [] (m ∷ ms) = ⊥
  Parses (f ∷ fs) [] = ⊥
  Parses (f ∷ fs) (m ∷ ms) =
      (m.request_id ≡ f.request_id)
      × (m.message_id ≡ f.message_id)
      × (parse_data lib f.message_type f.body ≡ ok m.content)
      × Parses fs ms

  read_ok :
      (p : Profile) (r : lib.Reader) (bs : List Branch) (f : Frame)
      (m : WorkerToHostMessage lib.Value)
      → (read_from lib p r).0 ≡ with_content f (parse_data lib f.message_type f.body)
      → m.request_id ≡ f.request_id
      → m.message_id ≡ f.message_id
      → parse_data lib f.message_type f.body ≡ ok m.content
      → reader_task p (reads true ∷ bs) r
        ≡ deliver (m ∷ []) (reader_task p bs (read_from lib p r).1)
  unfolding reader_task
  read_ok p r bs f m e req id content = ground arith

  pub read_err :
      (p : Profile) (taken : Bool) (bs : List Branch) (r : lib.Reader) (e : Error lib)
      → (read_from lib p r).0 ≡ err e
      → ((reader_task p (reads taken ∷ bs) r).delivered ≡ [])
        × ((reader_task p (reads taken ∷ bs) r).stop ≡ read_failed e)
  unfolding reader_task
  read_err p taken bs r e h = ground arith

  module _ (unread : lib.Reader → List ℕ) (exactly : ReadsExactly lib unread) (p : Profile) where
    -- While the receiver takes them, the task delivers the messages of a stream of frames, in order,
    -- and has then consumed the frames and nothing else.
    pub reader_task-stream :
        (fs : List Frame) (ms : List (WorkerToHostMessage lib.Value)) (rest : List ℕ)
        (bs : List Branch) (r : lib.Reader)
        → All IsEncodable fs
        → Parses fs ms
        → unread r ≡ stream fs ++ rest
        → (r' : lib.Reader) × (unread r' ≡ rest)
          × (reader_task p (reads_all fs bs) r ≡ deliver ms (reader_task p bs r'))
    reader_task-stream [] [] rest bs r v parses q = (r, q, refl)
    reader_task-stream [] (m ∷ ms) rest bs r v parses q = elim parses [ ]
    reader_task-stream (f ∷ fs) [] rest bs r v parses q = elim parses [ ]
    reader_task-stream (f ∷ fs) (m ∷ ms) rest bs r v parses q =
        let (this, later) =
          read_from-encode lib unread exactly p f (stream fs ++ rest) r v.0
            (q ∙ append_assoc (encode f) (stream fs) rest) in
        let (r', left, run) =
          reader_task-stream fs ms rest bs (read_from lib p r).1 v.1 parses.3 later in
        (
          r',
          left,
          read_ok p r (reads_all fs bs) f m this parses.0 parses.1 parses.2
              ∙ ap (deliver (m ∷ [])) run,
        )

    -- At the end of the stream the next read fails and the task stops, so the channel is closed
    -- behind the messages.
    pub reader_task_end :
        (fs : List Frame) (ms : List (WorkerToHostMessage lib.Value)) (taken : Bool)
        (bs : List Branch) (r : lib.Reader)
        → All IsEncodable fs
        → Parses fs ms
        → unread r ≡ stream fs
        → (e : lib.IoError) × ((reader_task p (reads_all fs (reads taken ∷ bs)) r).delivered ≡ ms)
          × ((reader_task p (reads_all fs (reads taken ∷ bs)) r).stop ≡ read_failed (read_stream e))
    unfolding reader_task
    reader_task_end fs ms taken bs r v parses q =
        let (r', left, run) =
          reader_task-stream fs ms [] (reads taken ∷ bs) r v parses
            (q ∙ sym (append-nil (stream fs))) in
        let (e, cut) = no_header lib unread exactly p r' (rw left (omega arith)) in
        (e, ground (arith, run, append-nil ms), ground (arith, run))
