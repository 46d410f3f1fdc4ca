-- ===== src/Host/Libs.antt =====
-- The crates that the host calls and does not implement (serde_json, byteorder, tokio, deadpool), as
-- a parameter, and what their documentation says of the calls, as hypotheses.
use js_sidecar.Prelude.{
  ℕ, ◌≤◌, ◌<◌, ◌≡◌, Option, none, some, List, [], ◌∷◌, ◌++◌, Bool, true, false, String, length,
  take, drop,
}
use js_sidecar.Prelude.Outcome.{Outcome, ok, err, Call}
use js_sidecar.Bytes.{IsU32, to_le_bytes}
use js_sidecar.Host.Messages.{
  RunScriptArgs, RunResponseData, ErrorResponseData, LogResponseData, WorkerToHostMessage,
}

-- The build: with overflow checks, or with arithmetic that wraps.
pub data Profile : Type 0 where
  debug release : Profile

-- What a receiver's `recv` comes to: it is answered, or it waits for ever.
pub data Polled (A : Type 0) : Type 0 where
  ready : A → Polled A
  waiting : Polled A

pub record Libs : Type 1 where
  -- serde_json
  pub Value : Type 0
  pub JsonError : Type 0
  pub to_vec : RunScriptArgs Value → Outcome JsonError (List ℕ)
  pub run_response_from_slice : List ℕ → Outcome JsonError (RunResponseData Value)
  pub log_from_slice : List ℕ → Outcome JsonError (LogResponseData Value)
  pub error_from_slice : List ℕ → Outcome JsonError ErrorResponseData
  -- std::io::Error, and byteorder's `write_u32::<LittleEndian>` on a `Vec<u8>`
  pub IoError : Type 0
  pub other : String → IoError
  pub write_u32_le : ℕ → Call (List ℕ) IoError (Unit {0})
  -- tokio's streams and channel
  pub Writer : Type 0
  pub write_all : List ℕ → Call Writer IoError (Unit {0})
  pub Reader : Type 0
  pub read_exact : ℕ → Call Reader IoError (List ℕ)
  pub Receiver : Type 0
  pub recv : Receiver → Polled (Option (WorkerToHostMessage Value)) × Receiver
  -- deadpool
  pub PoolError : Type 0
  pub BuildError : Type 0

module _ (lib : Libs) where
  open lib use {Value, IoError, write_u32_le, Writer, write_all, Reader, read_exact, Receiver, recv}

  -- Writing to a vector appends the four bytes and does not fail.
  pub record WritesWords : Type 0 where
    pub appends :
        (n : ℕ) (bytes : List ℕ) → IsU32 n → write_u32_le n bytes ≡ (ok tt, bytes ++ to_le_bytes n)

  -- `written` is all that went into the stream. A `write_all` that returns `Ok` has written the whole
  -- buffer.
  pub record WritesAll (written : Writer → List ℕ) : Type 0 where
    pub writes :
        (bytes : List ℕ) (w : Writer)
        → (write_all bytes w).0 ≡ ok tt
        → written (write_all bytes w).1 ≡ written w ++ bytes

  -- `unread` is all that the stream will still give before its end. `read_exact n` takes the next
  -- `n` bytes, however they arrive, and fails if there are fewer.
  pub record ReadsExactly (unread : Reader → List ℕ) : Type 0 where
    pub filled :
        (n : ℕ) (r : Reader) → n ≤ length (unread r) → (read_exact n r).0 ≡ ok (take n (unread r))
    pub moved :
        (n : ℕ) (r : Reader) → n ≤ length (unread r) → unread (read_exact n r).1 ≡ drop n (unread r)
    pub at_end :
        (n : ℕ) (r : Reader) → length (unread r) < n → (e : IoError) × ((read_exact n r).0 ≡ err e)

  -- `queued` is all that the channel will still deliver, in order, and `closed` says whether the
  -- sender is then dropped.
  pub record Delivers (queued : Receiver → List (WorkerToHostMessage Value))
      (closed : Receiver → Bool) : Type 0 where
    pub next :
        (r : Receiver) (m : WorkerToHostMessage Value) (ms : List (WorkerToHostMessage Value))
        → queued r ≡ m ∷ ms
        → ((recv r).0 ≡ ready (some m)) × (queued (recv r).1 ≡ ms) × (closed (recv r).1 ≡ closed r)
    pub end : (r : Receiver) → queued r ≡ [] → closed r ≡ true → (recv r).0 ≡ ready none
    pub open_end : (r : Receiver) → queued r ≡ [] → closed r ≡ false → (recv r).0 ≡ waiting
