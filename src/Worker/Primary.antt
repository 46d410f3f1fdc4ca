-- ===== src/Worker/Primary.antt =====
-- The primary process of src/worker/src/index.ts: forking, restarting and shutting down the workers.
-- Workers are numbered in the order in which they are forked.
pub mod Shutdown
pub mod Options
pub mod CommandLine
use js_sidecar.Prelude.{
  ℕ, zero, suc, ◌+◌, ◌≡◌, Bool, true, false, not, ◌&&◌, ◌||◌, Option, none, some, List, [], ◌∷◌,
  ◌++◌, ◌==◌, if◌then◌else◌,
}

-- `workers` are the workers whose exit was not reported, and `leaving` those that have exited and are not
-- yet taken off `cluster.workers`, which has both. `told` and `killed` are the workers to which `shutdown`
-- was sent and those that were killed, and `exit_code` is the argument of `process.exit`.
pub record Primary : Type 0 where
  pub shutting_down : Bool
  pub workers : List ℕ
  pub leaving : List ℕ
  pub forked : ℕ
  pub told : List ℕ
  pub killed : List ℕ
  pub exit_code : Option ℕ

-- SIGTERM or SIGINT; a worker's message `ready`; a worker is online; a worker's exit, with whether the
-- script file then exists, and whether the worker has not disconnected; and that it disconnects after its
-- exit. node:cluster leaves the order of the two open, and takes a worker off `cluster.workers` before
-- it reports the last of them.
pub data Event : Type 0 where
  signal : Event
  ready online : ℕ → Event
  exits : ℕ → Bool → Bool → Event
  disconnects : ℕ → Event

unfoldable pub fork_worker : Primary → Primary
fork_worker p =
    if p.shutting_down
    then p
    else record p { workers = p.forked ∷ p.workers; forked = p.forked + 1 }

-- `if (msg === 'ready' && shuttingDown)`
unfoldable pub on_ready : ℕ → Primary → Primary
on_ready w p = if p.shutting_down then record p { told = w ∷ p.told } else p

unfoldable pub shutdown : Primary → Primary
shutdown p =
    if p.shutting_down
    then record p { exit_code = some 1 }
    else record p { shutting_down = true; told = (p.workers ++ p.leaving) ++ p.told }

unfoldable pub on_online : ℕ → Primary → Primary
on_online w p = if p.shutting_down then record p { killed = w ∷ p.killed } else p

abbrev pub is_member : ℕ → List ℕ → Bool
is_member w [] = false
is_member w (x ∷ xs) = w == x || is_member w xs

unfoldable pub remove : ℕ → List ℕ → List ℕ
remove w [] = []
remove w (x ∷ xs) = if w == x then xs else x ∷ remove w xs

unfoldable pub restart_or_stop : Primary → Primary
restart_or_stop p =
    if p.shutting_down
    then elim (p.workers ++ p.leaving) [ [] ↦ record p { exit_code = some 0 } | _ ∷ _ ↦ p ]
    else fork_worker p

unfoldable pub on_exit : ℕ → Bool → Bool → Primary → Primary
on_exit w file_exists connected p =
    let left : Primary = record p {
      workers = remove w p.workers;
      leaving = if connected then w ∷ p.leaving else p.leaving;
    } in
    restart_or_stop (if not p.shutting_down && not file_exists then shutdown left else left)

unfoldable pub handle : Event → Primary → Primary
handle signal p = shutdown p
handle (ready w) p = on_ready w p
handle (online w) p = on_online w p
handle (exits w file_exists connected) p = on_exit w file_exists connected p
handle (disconnects w) p = record p { leaving = remove w p.leaving }

-- `for (let i = 0; i < numWorkers; i++)`
unfoldable pub fork_all : ℕ → Primary → Primary
fork_all zero p = p
fork_all (suc n) p = fork_all n (fork_worker p)

abbrev pub new_primary : Primary
new_primary = record {
  shutting_down = false;
  workers = [];
  leaving = [];
  forked = 0;
  told = [];
  killed = [];
  exit_code = none;
}

-- A worker that exits was running, and one that disconnects has exited.
abbrev pub Possible : Event → Primary → Type 0
Possible (exits w file_exists connected) p = is_member w p.workers ≡ true
Possible (disconnects w) p = is_member w p.leaving ≡ true
Possible _ p = Unit

-- The states of a primary process with `n` workers, up to its exit.
pub data Reachable (n : ℕ) : Primary → Type 0 where
  started : Reachable n (fork_all n new_primary)
  handled :
      {p : Primary} (e : Event)
      → Reachable n p
      → p.exit_code ≡ none
      → Possible e p
      → Reachable n (handle e p)
