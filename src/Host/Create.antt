-- ===== src/Host/Create.antt =====
-- `ConnectionManager::create` and `Connection::new` of src/connection.rs, and the counters of a connection
-- from there on.
use js_sidecar.Prelude.{ℕ, ◌<◌, ◌^◌, ◌≡◌, false, List, arith}
use js_sidecar.Prelude.Outcome.{
  Outcome, ok, err, panicked, pending, spent, Call, map_err, lift, call_map_err, after, ◌>>=◌,
}
use js_sidecar.Host.Libs.{Libs, Profile}
use js_sidecar.Host.Error.{Error, connect_worker}
use js_sidecar.Host.Os.{Os}
use js_sidecar.Host.Connection.{Connection, Managed}
use js_sidecar.Host.Connection.Bounds.{InRange, Operation, operate_all, operate_all-InRange}

-- A new connection, and the reading half of its socket, on which its reader task starts.
pub record Created (lib : Libs) : Type 0 where
  pub conn : Connection lib
  pub read_stream : lib.Reader

module _ {lib : Libs} (os : Os lib) where
  unfoldable pub new : os.Stream → Outcome (Error lib) (Created lib)
  new stream =
      let receiver = os.channel 16 in
      let (read_stream, write_stream) = os.into_split stream in
      ok (record {
        conn = record {
          stream = write_stream;
          receiver = receiver;
          next_id = 0;
          next_req_id = 0;
          recreate_context_on_next = false;
        };
        read_stream = read_stream;
      })

  unfoldable pub create : List ℕ → Call os.System (Error lib) (Created lib)
  create socket_path = do
    stream ← call_map_err connect_worker (os.connect socket_path)
    lift (new stream)

  connected-InRange :
      (stream : Outcome lib.IoError os.Stream) (s : os.System) (c : Created lib)
      → (after (map_err connect_worker stream) (λ x. lift (new x)) s).0 ≡ ok c
      → InRange lib c.conn
  unfolding new
  connected-InRange (ok x) s c h = grind arith
  connected-InRange (err x) s c h = cc h
  connected-InRange panicked s c h = cc h
  connected-InRange pending s c h = cc h
  connected-InRange spent s c h = cc h

  created-InRange :
      (socket_path : List ℕ) (s : os.System) (c : Created lib)
      → (create socket_path s).0 ≡ ok c
      → InRange lib c.conn
  unfolding create
  created-InRange socket_path s c h =
      let (stream, s') = os.connect socket_path s in connected-InRange stream s' c h

  -- Whatever is done with a connection from when it was created, in whatever order, and whether it
  -- succeeds, fails or panics: the message ID and the request ID that come next are equal, and a u32.
  pub create_in_range :
      (socket_path : List ℕ) (s : os.System) (c : Created lib) (p : Profile)
      (operations : List (Operation lib)) (calls successes : ℕ)
      → (create socket_path s).0 ≡ ok c
      → let m : Managed lib = record {
        recycle_calls = calls;
        recycle_success = successes;
        conn = c.conn;
      } in
        let after_all = (operate_all lib p operations m).conn in
        (after_all.next_id ≡ after_all.next_req_id) × (after_all.next_id < 2 ^ 32)
  create_in_range socket_path s c p operations calls successes h =
      operate_all-InRange lib p operations _ (created-InRange socket_path s c h)
