-- ===== src/Worker/Server/Exit.antt =====
-- When a worker of src/worker/src/worker.ts exits.
use js_sidecar.Prelude.{ℕ, ◌≡◌, ◌≢◌, true, false, none, some, [], arith}
use js_sidecar.Worker.Server.{
  Server, Event, message, signal, connects, ends, fails, exit_if_drained, shutdown, accept,
  end_connection, handle, Reachable, started, handled,
}

-- What holds of every state that can be reached.
pub record Orderly (s : Server) : Type 0 where
  pub clean : s.exit_code ≡ some 0 → (s.closing ≡ true) × (s.connections ≡ [])
  pub prompt : s.closing ≡ true → s.exit_code ≡ none → s.connections ≢ []

exit_if_drained-Orderly : (s : Server) → s.exit_code ≡ none → Orderly (exit_if_drained s)
unfolding exit_if_drained
exit_if_drained-Orderly s e = record { clean = ground (arith, e); prompt = ground (arith, e) }

accept-Orderly : (id : ℕ) (s : Server) → s.exit_code ≡ none → Orderly s → Orderly (accept id s)
unfolding accept
accept-Orderly id s running g = record {
  clean = ground (arith, g, running);
  prompt = ground (arith, g, running);
}

handle-Orderly : (e : Event) (s : Server) → s.exit_code ≡ none → Orderly s → Orderly (handle e s)
unfolding handle shutdown accept end_connection
handle-Orderly (message true) s running g = exit_if_drained-Orderly _ running
handle-Orderly (message false) s running g = g
handle-Orderly signal s running g = exit_if_drained-Orderly _ running
handle-Orderly (connects id) s running g = accept-Orderly id s running g
handle-Orderly (ends id) s running g = exit_if_drained-Orderly _ running
handle-Orderly fails s running g = record { clean = λ h. cc h; prompt = λ c h. cc h }

-- In every state that a worker can reach: it exits with code 0 only when it was told to shut down and
-- serves no connection, and from when it was told, it does so as soon as it serves none.
pub Reachable-Orderly : (s : Server) → Reachable s → Orderly s
Reachable-Orderly s started = record { clean = λ h. cc h; prompt = λ h. cc h }
Reachable-Orderly s (handled e r running possible) =
    handle-Orderly e _ running (Reachable-Orderly _ r)
