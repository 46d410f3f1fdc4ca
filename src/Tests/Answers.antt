-- ===== src/Tests/Answers.antt =====
-- Answers of a worker, on stand-ins with a text for one response of each value and for two errors.
use js_sidecar.Prelude.{
  ℕ, ◌≡◌, ◌⊎◌, inl, inr, refl, ap, ◌∙◌, subst, Bool, true, false, Option, none, some, List, [], ◌∷◌,
  ◌++◌, String, arith, ◌==◌, if◌then◌else◌,
}
use js_sidecar.Prelude.Outcome.{Outcome, ok, err}
use js_sidecar.Frame.{encode}
use js_sidecar.Json.{Json, string}
use js_sidecar.Host.Messages.{
  RunResponseData, ErrorResponseData, run_response as RunResponse, error as ErrorResponse,
}
use js_sidecar.Host.Libs.{Libs, ReadsExactly, debug, release}
use js_sidecar.Host.Error.{json_serialize}
use js_sidecar.Host.Serde.{read_response, read_error}
use js_sidecar.Host.Protocol.{read_from}
use js_sidecar.Host.Reader.{reads, closes, read_failed, reader_task}
use js_sidecar.Worker.ApiTypes.{run_response, error}
use js_sidecar.Worker.Sender.{new_sender, sent_frame}
use js_sidecar.Worker.Node.{Node, RunResponse as Response}
use js_sidecar.Worker.Json.{response_document, error_document}
use js_sidecar.Worker.RunScript.{Session}
use js_sidecar.Worker.Handler.{respond, report}
use js_sidecar.Link.Documents.{Replies}
use js_sidecar.Link.Replies.{as_response, read_response-response_document}
use js_sidecar.Link.Answer.{answered, read_from-respond, read_from-report, reader_task-report}
use js_sidecar.Tests.Toy.{toy, toy_reads}

abbrev null_or : ℕ → Option ℕ
null_or v = if v == 0 then none else some v

abbrev response_bytes : List ℕ → Outcome String (RunResponseData ℕ)
response_bytes (v ∷ []) = ok (record { globals = []; return_value = null_or v })
response_bytes bytes = ok (record { globals = []; return_value = none })

abbrev error_bytes : List ℕ → Outcome String ErrorResponseData
error_bytes (x ∷ b ∷ []) =
    if b == 1
    then ok (record { message = "failed"; stack = none })
    else err "missing field `message`"
error_bytes bytes = err "missing field `message`"

abbrev reader : Libs
reader = record toy { run_response_from_slice = response_bytes; error_from_slice = error_bytes }

reader_reads : ReadsExactly reader (λ r. r)
reader_reads = record {
  filled = toy_reads.filled;
  moved = toy_reads.moved;
  at_end = toy_reads.at_end;
}

abbrev responses : Option (Response ℕ) → Outcome Bool (List ℕ)
responses (some response) = elim response.globals [
  | some entries ↦ err true
  | none ↦ elim response.return_value [ none ↦ err true | some v ↦ ok (v ∷ []) ]
]
responses none = err true

abbrev flag : Bool → ℕ
flag b = if b then 1 else 0

-- What is thrown is an error, or a text, which has no message.
abbrev thrower : Node
thrower = record {
  Value = ℕ;
  Thrown = Bool;
  thrown = λ e. true;
  parse = λ bytes. err true;
  response_json = responses;
  error_json = λ e. ok (0 ∷ flag e ∷ []);
  Heap = Unit {0};
  Context = Unit {0};
  Module = Unit {0};
  Script = Unit {0};
  Data = Unit {0};
  create_context = λ globals heap. (tt, heap);
  set_key = λ context key value heap. heap;
  get_keys = λ context keys heap. [];
  compile_function = λ code params context cached heap. (ok 0, heap);
  source_text_module = λ code name context cached heap. (ok tt, heap);
  module_data = λ compiled. none;
  script = λ code name cached heap. (ok tt, heap);
  script_data = λ compiled. tt;
  run_in_context = λ compiled context timeout heap. (err false, [], heap);
  link = λ compiled modules heap. (ok tt, heap);
  evaluate = λ compiled heap. (ok tt, [], heap);
  Cache = Unit {0};
  get = λ key cache. (none, cache);
  set = λ key value cache. cache;
}

abbrev value_response : ℕ → Response ℕ
value_response v = record { globals = none; return_value = some v }

abbrev message_of : Bool → Option (Json ℕ)
message_of true = some (string "failed")
message_of false = none

abbrev Denotes : List ℕ → Json ℕ → Type 0
Denotes body j =
    ((v : ℕ) × (body ≡ v ∷ []) × (j ≡ response_document (λ w. some w) (value_response v)))
    ⊎ ((b : Bool) × (body ≡ 0 ∷ flag b ∷ []) × (j ≡ error_document (message_of b) none))

written_responses :
    (globals : Option (List (String × ℕ))) (value : Option ℕ) (body : List ℕ)
    → responses (some (record { globals = globals; return_value = value })) ≡ ok body
    → Denotes body
        (response_document (λ w. some w) (record { globals = globals; return_value = value }))
written_responses (some entries) value body h = cc h
written_responses none none body h = cc h
written_responses none (some v) body h = inl (v, cc h, refl)

module _ (body : List ℕ) (j : Json ℕ) where
  response_read :
      (d : RunResponseData ℕ)
      → Denotes body j
      → read_response (λ v. v == 0) j ≡ some d
      → response_bytes body ≡ ok d
  unfolding read_response error_document
  response_read d (inl (v, b, e)) h =
      let read =
        read_response-response_document (λ (w : ℕ). some w) (λ v. v == 0) (value_response v) in
      ap response_bytes b ∙ cc (read, h, e)
  response_read d (inr (true, b, e)) h =
      ap response_bytes b ∙ cc (subst (λ x. read_response (λ v. v == 0) x ≡ some d) e h)
  response_read d (inr (false, b, e)) h =
      ap response_bytes b ∙ cc (subst (λ x. read_response (λ v. v == 0) x ≡ some d) e h)

  error_read :
      (d : ErrorResponseData)
      → Denotes body j
      → read_error (λ v. v == 0) j ≡ some d
      → error_bytes body ≡ ok d
  unfolding read_error error_document response_document
  error_read d (inl (v, b, e)) h = cc (subst (λ x. read_error (λ v. v == 0) x ≡ some d) e h)
  error_read d (inr (true, b, e)) h =
      ap error_bytes b ∙ cc (subst (λ x. read_error (λ v. v == 0) x ≡ some d) e h)
  error_read d (inr (false, b, e)) h = cc (subst (λ x. read_error (λ v. v == 0) x ≡ some d) e h)

  error_refused :
      Denotes body j → read_error (λ v. v == 0) j ≡ none → (e : String) × (error_bytes body ≡ err e)
  unfolding read_error error_document response_document
  error_refused (inl (v, b, e)) h = ("missing field `message`", ap error_bytes b)
  error_refused (inr (true, b, e)) h = cc (subst (λ x. read_error (λ v. v == 0) x ≡ none) e h)
  error_refused (inr (false, b, e)) h = ("missing field `message`", ap error_bytes b)

abbrev replies : Replies reader thrower
replies = record {
  Denotes = Denotes;
  to_json = λ w. some w;
  is_null = λ v. v == 0;
  message = message_of;
  stack = λ e. none;
  writes_response = λ r body h. written_responses r.globals r.return_value body h;
  writes_error = λ e body h. inr (e, cc h, refl);
  reads_response = response_read;
  reads_error = error_read;
  refuses_error = error_refused;
}

abbrev session : Session thrower
session = record { sender = new_sender; run_ctx = none; heap = tt; code_cache = tt }

read_from-respond_example :
    let bytes = encode (sent_frame 0 5 run_response (3 ∷ [])) ++ 1 ∷ [] in
    (respond thrower 5 (some (value_response 3)) session
      ≡ (ok tt, answered thrower 5 run_response (3 ∷ []) session))
    × ((read_from reader release bytes).0
        ≡ ok (record {
          request_id = 5;
          message_id = 0;
          content = RunResponse (as_response (λ (w : ℕ). some w) (λ v. v == 0) (value_response 3));
        }))
    × ((read_from reader release bytes).1 ≡ 1 ∷ [])
read_from-respond_example =
    read_from-respond reader (λ r. r) reader_reads release thrower replies 5 (value_response 3)
      (3 ∷ []) session (encode (sent_frame 0 5 run_response (3 ∷ [])) ++ 1 ∷ []) (1 ∷ []) refl
      (omega arith) (omega arith) (omega arith) refl

read_from-report_example :
    let bytes = encode (sent_frame 0 5 error (0 ∷ 1 ∷ [])) ++ 1 ∷ [] in
    (report thrower 5 true session ≡ (ok tt, answered thrower 5 error (0 ∷ 1 ∷ []) session))
    × ((read_from reader debug bytes).0
        ≡ ok (record {
          request_id = 5;
          message_id = 0;
          content = ErrorResponse (record { message = "failed"; stack = none });
        }))
    × ((read_from reader debug bytes).1 ≡ 1 ∷ [])
read_from-report_example =
    read_from-report reader (λ r. r) reader_reads debug thrower replies 5 true "failed" none
      (0 ∷ 1 ∷ []) session (encode (sent_frame 0 5 error (0 ∷ 1 ∷ [])) ++ 1 ∷ []) (1 ∷ []) refl refl
      refl (omega arith) (omega arith) (omega arith) refl

reader_task-report_example :
    let bytes = encode (sent_frame 0 5 error (0 ∷ 0 ∷ [])) ++ 1 ∷ [] in
    (report thrower 5 false session ≡ (ok tt, answered thrower 5 error (0 ∷ 0 ∷ []) session))
    × ((reader_task reader debug (reads true ∷ closes ∷ []) bytes).delivered ≡ [])
    × ((d : String) × ((reader_task reader debug (reads true ∷ closes ∷ []) bytes).stop
          ≡ read_failed (json_serialize d)))
reader_task-report_example =
    reader_task-report reader (λ r. r) reader_reads debug thrower replies 5 false (0 ∷ 0 ∷ [])
      session (encode (sent_frame 0 5 error (0 ∷ 0 ∷ [])) ++ 1 ∷ []) (1 ∷ []) true (closes ∷ [])
      refl refl (omega arith) (omega arith) (omega arith) refl
