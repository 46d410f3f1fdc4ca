-- ===== src/Host/Sidecar/Stop.antt =====
-- `JsSidecar::close` and `Drop` of src/connection.rs.
use js_sidecar.Prelude.{
  ℕ, ◌≡◌, refl, ◌∙◌, inl, inr, Bool, true, false, not, ◌||◌, Option, Option-cases, none, some, ltb,
  lt→ltb, le→ltb_false, arith,
}
use native.Mathlib.Decide.{dec_lt}
use js_sidecar.Host.Libs.{Libs}
use js_sidecar.Host.Os.{Os, Processes}
use js_sidecar.Host.Sidecar.{JsSidecar, close_child, close_taken, close, drop_sidecar}

-- Whether a process has to be killed: by its ID, if it has one, and the seconds in which it exits once it
-- gets SIGTERM, if it does.
abbrev pub has_to_be_killed : Option ℕ → Option ℕ → Bool
has_to_be_killed none exits_in = false
has_to_be_killed (some pid) none = true
has_to_be_killed (some pid) (some k) = not (ltb k 5)

module _ {lib : Libs} (os : Os lib) (processes : Processes os) where
  open processes use {alive, forced, lost, exits_in, due}

  -- The process no longer runs, and was killed if it had to be.
  abbrev pub Ended : os.Child → os.System → os.System → Type 0
  Ended child s s' =
      (alive child s' ≡ false)
      × (forced child s' ≡ has_to_be_killed (os.id child s) (exits_in child s) || forced child s)

  close_child-Ended :
      (child : os.Child) (s : os.System)
      → lost child s ≡ false
      → Ended child s (close_child os child s)
  unfolding close_child
  close_child-Ended child s here = elim (Option-cases (os.id child s)) [
    | inl gone ↦ rw (close_child, gone) (processes.no_id child s gone, refl)
    | inr (pid, running) ↦
        let t = os.sigterm pid s in
        let (now_due, as_forced, as_lost) = processes.signalled pid child s running in
        let waits : lost child t ≡ false = as_lost ∙ here in
        elim (Option-cases (exits_in child s)) [
          | inl never ↦
              rw (close_child, running, never, processes.goes_on 5 child t waits (now_due ∙ never))
                (processes.killed child (os.wait 5 child t).1)
          | inr (k, soon) ↦ elim (dec_lt k 5) [
            | no long ↦
                rw
                  (
                    close_child,
                    running,
                    soon,
                    le→ltb_false k 5 (omega arith),
                    processes.too_late 5 k child t waits (now_due ∙ soon) (omega arith),
                  )
                  (processes.killed child (os.wait 5 child t).1)
            | yes in_time ↦
                let (status, exited, dead, by_itself) =
                  processes.in_time 5 k child t waits (now_due ∙ soon) in_time in
                rw (close_child, running, soon, lt→ltb k 5 in_time, exited)
                  (dead, by_itself ∙ as_forced)
          ]
        ]
  ]

  -- After `close`, a process that can be waited for no longer runs, and the sidecar has given it up: it
  -- was killed if it had an ID, which it has until it has been waited for, and does not exit within five
  -- seconds of SIGTERM, and else it was not.
  pub close_stops :
      (j : JsSidecar os) (child : os.Child) (s : os.System)
      → j.node_process ≡ some child
      → lost child (os.close_pool j.connections s) ≡ false
      → Ended child (os.close_pool j.connections s) (close os j s).1
        × ((close os j s).0.node_process ≡ none)
  unfolding close close_taken
  close_stops j child s e here =
      rw e (close_child-Ended child (os.close_pool j.connections s) here, refl)

module _ {lib : Libs} (os : Os lib) where
  -- What was closed is not closed again: dropping the sidecar later changes nothing, and another
  -- `close` closes the pool again and signals no process.
  pub drop_sidecar-close :
      (j : JsSidecar os) (s later : os.System)
      → let closed = (close os j s).0 in
        (drop_sidecar os closed later ≡ (closed, later))
        × (close os closed later ≡ (closed, os.close_pool closed.connections later))
  unfolding close close_taken drop_sidecar
  drop_sidecar-close j s later = ground arith
