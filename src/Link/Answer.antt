-- ===== src/Link/Answer.antt =====
-- `respond` and `error` of src/worker/src/protocol.ts, and `WorkerToHostMessage::read_from` of
-- src/protocol.rs on the frames that they write.
use js_sidecar.Prelude.{
  ℕ, ◌+◌, ◌<◌, ◌^◌, ◌≡◌, refl, ◌∙◌, Bool, Option, none, some, List, [], ◌∷◌, ◌++◌, String, length,
  arith,
}
use js_sidecar.Prelude.Outcome.{ok, err}
use js_sidecar.Frame.{IsEncodable, encode}
use js_sidecar.Json.{Json, string}
use js_sidecar.Host.Messages.{run_response as RunResponse, error as ErrorResponse}
use js_sidecar.Host.Libs.{Libs, Profile, ReadsExactly}
use js_sidecar.Host.Error.{json_serialize}
use js_sidecar.Host.Serde.{read_error}
use js_sidecar.Host.Protocol.{parse_data, read_from}
use js_sidecar.Host.Protocol.Read.{read_from-encode}
use js_sidecar.Host.Reader.{Branch, reads, read_failed, reader_task, read_err}
use js_sidecar.Worker.ApiTypes.{WorkerToHostMessage, run_response, error, worker_to_host_value}
use js_sidecar.Worker.Sender.{sent_frame, send_message-encode, value-IsU32}
use js_sidecar.Worker.Node.{Node, RunResponse as Response}
use js_sidecar.Worker.RunScript.{Session}
use js_sidecar.Worker.Handler.{send, respond, report}
use js_sidecar.Worker.Json.{error_document}
use js_sidecar.Link.Documents.{Replies}
use js_sidecar.Link.Replies.{as_response, read_response-response_document}

module _ (n : Node) (req_id : ℕ) (type : WorkerToHostMessage) (body : List ℕ) (s : Session n) where
  -- The connection after it has sent the frame.
  abbrev pub answered : Session n
  answered = record s {
    sender = record {
      id = s.sender.id + 1;
      sent = s.sender.sent ++ encode (sent_frame s.sender.id req_id type body);
    };
  }

  module _ (req_fits : req_id < 2 ^ 32) (id_fits : s.sender.id < 2 ^ 32)
      (fits : length body + 12 < 2 ^ 32) where
    answer_frame-IsEncodable : IsEncodable (sent_frame s.sender.id req_id type body)
    answer_frame-IsEncodable = omega (arith, value-IsU32 type)

    send-encode : send n req_id type body s ≡ (ok tt, answered)
    unfolding send
    send-encode = rw (send_message-encode s.sender req_id type body answer_frame-IsEncodable) refl

module _ {V : Type 0} (is_null : V → Bool) where
  abbrev strings : Option String → Option (Json V)
  strings none = none
  strings (some text) = some (string text)

  read_error-error_document :
      (message : String) (stack : Option String)
      → read_error is_null (error_document (some (string message)) (strings stack))
        ≡ some (record { message = message; stack = stack })
  unfolding read_error error_document
  read_error-error_document message none = refl
  read_error-error_document message (some text) = refl

  read_error_no_message :
      (stack : Option (Json V)) → read_error is_null (error_document none stack) ≡ none
  unfolding read_error error_document
  read_error_no_message none = refl
  read_error_no_message (some j) = refl

module _ (lib : Libs) (unread : lib.Reader → List ℕ) (exactly : ReadsExactly lib unread)
    (p : Profile) (n : Node) (json : Replies lib n) where
  open json use {to_json, is_null, message, stack}

  -- A response that can be put into JSON is sent as one frame, and where the host reads that frame next, it
  -- gets the response under its request ID, and has consumed the frame alone. Globals that JSON does not
  -- have are left out, and `null` is no return value.
  pub read_from-respond :
      (req_id : ℕ) (response : Response n.Value) (body : List ℕ) (s : Session n) (r : lib.Reader)
      (rest : List ℕ)
      → n.response_json (some response) ≡ ok body
      → req_id < 2 ^ 32
      → s.sender.id < 2 ^ 32
      → length body + 12 < 2 ^ 32
      → unread r ≡ encode (sent_frame s.sender.id req_id run_response body) ++ rest
      → (respond n req_id (some response) s ≡ (ok tt, answered n req_id run_response body s))
        × ((read_from lib p r).0
            ≡ ok (record {
              request_id = req_id;
              message_id = s.sender.id;
              content = RunResponse (as_response to_json is_null response);
            }))
        × (unread (read_from lib p r).1 ≡ rest)
  unfolding respond parse_data worker_to_host_value
  read_from-respond req_id response body s r rest e req_fits id_fits fits q =
      let (content, left) =
        read_from-encode lib unread exactly p (sent_frame s.sender.id req_id run_response body) rest
          r (answer_frame-IsEncodable n req_id run_response body s req_fits id_fits fits) q in
      (
        rw e (send-encode n req_id run_response body s req_fits id_fits fits),
        content
            ∙ rw
                (json.reads_response body _ _ (json.writes_response response body e)
                  (read_response-response_document to_json is_null response))
                refl,
        left,
      )

  -- An error with a message is sent as one frame, and where the host reads that frame next, it gets the
  -- message and the stack under the request ID, and has consumed the frame alone.
  pub read_from-report :
      (req_id : ℕ) (e : n.Thrown) (text : String) (trace : Option String) (body : List ℕ)
      (s : Session n) (r : lib.Reader) (rest : List ℕ)
      → n.error_json e ≡ ok body
      → message e ≡ some (string text)
      → stack e ≡ strings is_null trace
      → req_id < 2 ^ 32
      → s.sender.id < 2 ^ 32
      → length body + 12 < 2 ^ 32
      → unread r ≡ encode (sent_frame s.sender.id req_id error body) ++ rest
      → (report n req_id e s ≡ (ok tt, answered n req_id error body s))
        × ((read_from lib p r).0
            ≡ ok (record {
              request_id = req_id;
              message_id = s.sender.id;
              content = ErrorResponse (record { message = text; stack = trace });
            }))
        × (unread (read_from lib p r).1 ≡ rest)
  unfolding report parse_data worker_to_host_value
  read_from-report req_id e text trace body s r rest h m t req_fits id_fits fits q =
      let (content, left) =
        read_from-encode lib unread exactly p (sent_frame s.sender.id req_id error body) rest r
          (answer_frame-IsEncodable n req_id error body s req_fits id_fits fits) q in
      (
        rw h (send-encode n req_id error body s req_fits id_fits fits),
        content
            ∙ rw
                (json.reads_error body _ (record { message = text; stack = trace })
                  (json.writes_error e body h)
                  (rw (m, t) (read_error-error_document is_null text trace)))
                refl,
        left,
      )

  -- What a script throws need not have a message. Then the frame of the error is written all the same,
  -- but where the host's reader task reads it next, it cannot be parsed: nothing is delivered, and the
  -- task stops, whatever would have come behind it.
  pub reader_task-report :
      (req_id : ℕ) (e : n.Thrown) (body : List ℕ) (s : Session n) (r : lib.Reader) (rest : List ℕ)
      (taken : Bool) (rounds : List Branch)
      → n.error_json e ≡ ok body
      → message e ≡ none
      → req_id < 2 ^ 32
      → s.sender.id < 2 ^ 32
      → length body + 12 < 2 ^ 32
      → unread r ≡ encode (sent_frame s.sender.id req_id error body) ++ rest
      → (report n req_id e s ≡ (ok tt, answered n req_id error body s))
        × ((reader_task lib p (reads taken ∷ rounds) r).delivered ≡ [])
        × ((d : lib.JsonError) × ((reader_task lib p (reads taken ∷ rounds) r).stop
              ≡ read_failed (json_serialize d)))
  unfolding report parse_data worker_to_host_value
  reader_task-report req_id e body s r rest taken rounds h m req_fits id_fits fits q =
      let (d, refused) =
        json.refuses_error body _ (json.writes_error e body h)
          (rw m (read_error_no_message is_null (stack e))) in
      let (content, left) =
        read_from-encode lib unread exactly p (sent_frame s.sender.id req_id error body) rest r
          (answer_frame-IsEncodable n req_id error body s req_fits id_fits fits) q in
      let failed : (read_from lib p r).0 ≡ err (json_serialize d) = content ∙ rw refused refl in
      let stopped = read_err lib p taken rounds r (json_serialize d) failed in
      (rw h (send-encode n req_id error body s req_fits id_fits fits), stopped.0, (d, stopped.1))
