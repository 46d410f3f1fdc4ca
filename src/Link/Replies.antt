-- ===== src/Link/Replies.antt =====
-- From `respond` and `error` of src/worker/src/protocol.ts to `WorkerToHostMessage::read_from` of
-- src/protocol.rs.
use js_sidecar.Prelude.{
  ◌≡◌, refl, ◌∙◌, Bool, Option, none, some, List, [], ◌∷◌, map, String, if◌then◌else◌,
}
use js_sidecar.Json.{Json, members, find, pick, first, first-none, find-members}
use js_sidecar.Json.Read.{read_value, read_members, read_entries, optional}
use js_sidecar.Host.Messages.{RunResponseData}
use js_sidecar.Host.Serde.{read_log, read_response, read_nullable, or_default}
use js_sidecar.Worker.Node.{RunResponse}
use js_sidecar.Worker.Json.{
  written_value, written, written_globals, response_fields, response_document, log_document,
}

abbrev keep : {V : Type 0} → String → Option V → List (String × V) → List (String × V)
keep name none entries = entries
keep name (some v) entries = (name, v) ∷ entries

abbrev unless_null : {V : Type 0} → (V → Bool) → Option V → Option V
unless_null is_null none = none
unless_null is_null (some v) = if is_null v then none else some v

module _ {V W : Type 0} (to_json : W → Option V) where
  abbrev pub kept : List (String × W) → List (String × V)
  kept [] = []
  kept ((name, w) ∷ entries) = keep name (to_json w) (kept entries)

  abbrev kept_globals : Option (List (String × W)) → List (String × V)
  kept_globals none = []
  kept_globals (some entries) = kept entries

  read_members-keep :
      (name : String) (o : Option V) (fields : List (String × Option (Json V)))
      (entries : List (String × V))
      → read_members read_value (members fields) ≡ some entries
      → read_members read_value (members ((name, written_value o) ∷ fields))
        ≡ some (keep name o entries)
  read_members-keep name none fields entries h = h
  read_members-keep name (some v) fields entries h = rw h refl

  read_members-written :
      (entries : List (String × W))
      → read_members read_value (members (map (λ x. (x.0, written to_json (some x.1))) entries))
        ≡ some (kept entries)
  read_members-written [] = refl
  read_members-written ((name, w) ∷ entries) =
      read_members-keep name (to_json w) _ (kept entries) (read_members-written entries)

module _ {V W : Type 0} (to_json : W → Option V) (is_null : V → Bool) where
  abbrev returned : Option W → Option V
  returned none = none
  returned (some w) = unless_null is_null (to_json w)

  -- A response of a worker, for the host: values that JSON does not have are left out, and `null` is no
  -- return value.
  abbrev pub as_response : RunResponse W → RunResponseData V
  as_response r = record {
    globals = kept_globals to_json r.globals;
    return_value = returned r.return_value;
  }

  read_globals :
      (o : Option (List (String × W)))
      → (globals : Option (List (String × V))) × (optional
            (read_entries read_value)
            (written_globals to_json o)
          ≡ some globals)
        × (or_default [] globals ≡ kept_globals to_json o)
  read_globals none = (none, refl, refl)
  read_globals (some entries) =
      (some (kept to_json entries), rw (read_members-written to_json entries) refl, refl)

  read_value-written :
      (o : Option V)
      → (found : Option (Option V)) × (optional (read_nullable is_null) (written_value o)
          ≡ some found)
        × (or_default none found ≡ unless_null is_null o)
  read_value-written none = (none, refl, refl)
  read_value-written (some v) = (some (if is_null v then none else some v), refl, refl)

  read_returned :
      (o : Option W)
      → (found : Option (Option V)) × (optional (read_nullable is_null) (written to_json o)
          ≡ some found)
        × (or_default none found ≡ returned o)
  read_returned none = (none, refl, refl)
  read_returned (some w) = read_value-written (to_json w)

  -- What the host reads from the object that a worker responds with.
  pub read_response-response_document :
      (r : RunResponse W)
      → read_response is_null (response_document to_json r) ≡ some (as_response r)
  unfolding read_response response_document
  read_response-response_document r =
      let (globals, g, g_default) = read_globals r.globals in
      let (value_found, v, v_default) = read_returned r.return_value in
      rw
        (
          found "globals" (written_globals to_json r.globals) refl,
          found "returnValue" (written to_json r.return_value) refl,
          g,
          v,
          g_default,
          v_default,
        )
        refl
    where
      found :
          (name : String) (field : Option (Json V))
          → pick name (response_fields to_json r) ≡ first field none
          → find name (members (response_fields to_json r)) ≡ field
      found name field e = find-members name (response_fields to_json r) ∙ e ∙ first-none field

-- And from the object of a log line.
read_log-log_document :
    {V : Type 0} (level : String) (message : V)
    → read_log (log_document level message) ≡ some (record { level = level; message = message })
unfolding read_log log_document
read_log-log_document level message = refl
