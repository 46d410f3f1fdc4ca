-- ===== src/Host/Channel/Events.antt =====
-- The events of the channel of src/connection.rs, by the branch that they take.
use js_sidecar.Prelude.{◌≡◌, sym, ap, ap₂, ◌∙◌, true, false, none, some, List, [], ◌∷◌, ◌++◌, arith}
use js_sidecar.Prelude.Outcome.{ok, err}
use js_sidecar.Frame.{Frame}
use js_sidecar.Host.Messages.{WorkerToHostMessage}
use js_sidecar.Host.Libs.{Libs, Profile}
use js_sidecar.Host.Protocol.{read_from, parse_data}
use js_sidecar.Host.Protocol.Read.{with_content}
use js_sidecar.Host.Error.{Error}
use js_sidecar.Host.Channel.{Pipe, on_read, on_put, on_receive}

-- The events, where it is known which branch they take.
module _ (lib : Libs) (s : Pipe lib) where
  pub on_put-none : s.sending ≡ none → on_put lib s ≡ s
  unfolding on_put
  on_put-none e = ground arith

  pub on_put-alive :
      (m : WorkerToHostMessage lib.Value)
      → s.sending ≡ some m
      → s.alive ≡ true
      → on_put lib s ≡ record s { sending = none; queue = s.queue ++ m ∷ [] }
  unfolding on_put
  on_put-alive m e a = ground arith

  pub on_put-gone :
      (m : WorkerToHostMessage lib.Value)
      → s.sending ≡ some m
      → s.alive ≡ false
      → on_put lib s ≡ record s { sending = none; running = false }
  unfolding on_put
  on_put-gone m e a = ground arith

  pub on_receive-nil : s.queue ≡ [] → on_receive lib s ≡ s
  unfolding on_receive
  on_receive-nil e = ground arith

  pub on_receive-cons :
      (m : WorkerToHostMessage lib.Value) (rest : List (WorkerToHostMessage lib.Value))
      → s.queue ≡ m ∷ rest
      → on_receive lib s ≡ record s { queue = rest; taken = s.taken ++ m ∷ [] }
  unfolding on_receive
  on_receive-cons m rest e = ground arith

  pub on_read-ok :
      (p : Profile) (m : WorkerToHostMessage lib.Value)
      → (read_from lib p s.reader).0 ≡ ok m
      → on_read lib p s ≡ record s { reader = (read_from lib p s.reader).1; sending = some m }
  unfolding on_read
  on_read-ok p m e = ground arith

  pub on_read-err :
      (p : Profile) (e : Error lib)
      → (read_from lib p s.reader).0 ≡ err e
      → on_read lib p s ≡ record s { reader = (read_from lib p s.reader).1; running = false }
  unfolding on_read
  on_read-err p e h = ground arith

-- A message from its frame.
pub read_content :
    {lib : Libs} (f : Frame) (m : WorkerToHostMessage lib.Value)
    → m.request_id ≡ f.request_id
    → m.message_id ≡ f.message_id
    → parse_data lib f.message_type f.body ≡ ok m.content
    → with_content f (parse_data lib f.message_type f.body) ≡ ok m
read_content f m request id content =
    ap (with_content f) content
    ∙ ap₂ (λ a b. ok (record { request_id = a; message_id = b; content = m.content })) (sym request)
        (sym id)
