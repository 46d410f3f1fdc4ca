-- ===== src/Worker/Primary/Shutdown.antt =====
-- The states that the primary process of src/worker/src/index.ts can reach.
use js_sidecar.Prelude.{
  ℕ, zero, suc, ◌+◌, ◌≤◌, ◌≡◌, refl, ap, ◌∙◌, map, if◌then◌else◌, subst, Bool, true, false, none,
  some, List, [], ◌∷◌, ◌++◌, length, All, arith,
}
use js_sidecar.Worker.Primary.{
  Primary, Event, signal, ready, online, exits, disconnects, fork_worker, on_ready, shutdown,
  on_online, is_member, remove, restart_or_stop, on_exit, handle, fork_all, new_primary, Possible,
  Reachable, started, handled,
}

-- All of the workers are in the list.
abbrev pub Among : List ℕ → List ℕ → Type 0
Among told = All (λ w. is_member w told ≡ true)

length-remove :
    (w : ℕ) (xs : List ℕ) → is_member w xs ≡ true → suc (length (remove w xs)) ≡ length xs
unfolding remove
length-remove w [] h = cc h
length-remove w (x ∷ xs) h = ground (arith, length-remove w xs)

length-remove_le : (w : ℕ) (xs : List ℕ) → length (remove w xs) ≤ length xs
unfolding remove
length-remove_le w [] = omega arith
length-remove_le w (x ∷ xs) = ground (arith, length-remove_le w xs)

Among-remove : (told : List ℕ) (w : ℕ) (xs : List ℕ) → Among told xs → Among told (remove w xs)
unfolding remove
Among-remove told w [] h = tt
Among-remove told w (x ∷ xs) h = ground (arith, Among-remove told w xs)

Among-cons : (t : ℕ) (told xs : List ℕ) → Among told xs → Among (t ∷ told) xs
Among-cons t told [] h = tt
Among-cons t told (x ∷ xs) h = (ground (arith, h.0), Among-cons t told xs h.1)

Among-append : (xs told : List ℕ) → Among (xs ++ told) xs
Among-append [] told = tt
Among-append (x ∷ xs) told = (ground arith, Among-cons x (xs ++ told) xs (Among-append xs told))

-- Those at the front of a list.
Among-front : (told xs ys : List ℕ) → Among told (xs ++ ys) → Among told xs
Among-front told [] ys h = tt
Among-front told (x ∷ xs) ys h = (h.0, Among-front told xs ys h.1)

-- Whoever is told by `shutdown`.
pub Among-workers : (p : Primary) → Among ((p.workers ++ p.leaving) ++ p.told) p.workers
Among-workers p =
    Among-front ((p.workers ++ p.leaving) ++ p.told) p.workers p.leaving
      (Among-append (p.workers ++ p.leaving) p.told)

nothing_left : (xs ys : List ℕ) → xs ++ ys ≡ [] → (xs ≡ []) × (ys ≡ [])
nothing_left [] ys e = (refl, e)
nothing_left (x ∷ xs) ys e = cc e

-- What holds of every state that can be reached.
pub record Good (n : ℕ) (p : Primary) : Type 0 where
  pub all_run : p.shutting_down ≡ false → length p.workers ≡ n
  pub all_told : p.shutting_down ≡ true → Among p.told p.workers
  pub clean_exit : p.exit_code ≡ some 0 → (p.shutting_down ≡ true) × (p.workers ≡ [])
  pub none_left : p.exit_code ≡ some 0 → p.leaving ≡ []

fork_all-Good :
    (n : ℕ) (p : Primary)
    → p.shutting_down ≡ false
    → p.exit_code ≡ none
    → Good (n + length p.workers) (fork_all n p)
unfolding fork_all fork_worker
fork_all-Good zero p s e = record {
  all_run = λ h. omega arith;
  all_told = λ h. cc (h, s);
  clean_exit = λ h. cc (h, e);
  none_left = λ h. cc (h, e);
}
fork_all-Good (suc n) p s e =
    let next : Primary = record p {
      shutting_down = false;
      workers = p.forked ∷ p.workers;
      forked = p.forked + 1;
    } in
    rw s (
      subst (λ k. Good k (fork_all n next)) {x = n + length next.workers}
        {y = suc n + length p.workers} (omega arith) (fork_all-Good n next refl e))

on_ready-Good : (n w : ℕ) (p : Primary) → Good n p → Good n (on_ready w p)
unfolding on_ready
on_ready-Good n w p g = ground (arith, g, Among-cons w p.told p.workers)

on_online-Good : (n w : ℕ) (p : Primary) → Good n p → Good n (on_online w p)
unfolding on_online
on_online-Good n w p g = ground (arith, g)

shutdown-Good : (n : ℕ) (p : Primary) → p.exit_code ≡ none → Good n p → Good n (shutdown p)
unfolding shutdown
shutdown-Good n p e g = ground (arith, e, g, Among-workers p)

restart_or_stop-Good :
    (n : ℕ) (p : Primary)
    → p.exit_code ≡ none
    → (p.shutting_down ≡ false → suc (length p.workers) ≡ n)
    → (p.shutting_down ≡ true → Among p.told p.workers)
    → Good n (restart_or_stop p)
unfolding restart_or_stop fork_worker
restart_or_stop-Good n p e run told = ground (arith, nothing_left p.workers p.leaving)

on_exit-Good :
    (n w : ℕ) (file_exists connected : Bool) (p : Primary)
    → p.exit_code ≡ none
    → is_member w p.workers ≡ true
    → Good n p
    → Good n (on_exit w file_exists connected p)
unfolding on_exit shutdown
on_exit-Good n w file_exists connected p e member g =
    let left : Primary = record p {
      workers = remove w p.workers;
      leaving = if connected then w ∷ p.leaving else p.leaving;
    } in
    restart_or_stop-Good n _ (ground (arith, e))
      (ground (arith, g, length-remove w p.workers member))
      (ground (arith, g, Among-remove p.told w p.workers, Among-workers left))

handle-Good :
    (n : ℕ) (e : Event) (p : Primary)
    → p.exit_code ≡ none
    → Possible e p
    → Good n p
    → Good n (handle e p)
unfolding handle
handle-Good n signal p running possible g = shutdown-Good n p running g
handle-Good n (ready w) p running possible g = on_ready-Good n w p g
handle-Good n (online w) p running possible g = on_online-Good n w p g
handle-Good n (exits w file_exists connected) p running possible g =
    on_exit-Good n w file_exists connected p running possible g
handle-Good n (disconnects w) p running possible g = record {
  all_run = g.all_run;
  all_told = g.all_told;
  clean_exit = g.clean_exit;
  none_left = λ h. cc (h, running);
}

-- In every state that the primary process can reach: until it shuts down, as many workers run as were
-- asked for, since each one that exits is replaced; when it shuts down, every worker that still runs
-- has been told; and it exits with code 0 only when it shuts down and no worker is left.
pub Reachable-Good : (n : ℕ) (p : Primary) → Reachable n p → Good n p
Reachable-Good n p started =
    subst (λ k. Good k (fork_all n new_primary)) {x = n + length new_primary.workers} {y = n}
      (omega arith) (fork_all-Good n new_primary refl refl)
Reachable-Good n p (handled e r running possible) =
    handle-Good n e _ running possible (Reachable-Good n _ r)

-- Once the primary process shuts down, no event makes it fork a worker or forget that it shuts down.
pub handle_shutting_down :
    (e : Event) (p : Primary)
    → p.shutting_down ≡ true
    → ((handle e p).shutting_down ≡ true)
      × ((handle e p).forked ≡ p.forked)
      × (length (handle e p).workers ≤ length p.workers)
unfolding handle shutdown on_ready on_online on_exit restart_or_stop fork_worker
handle_shutting_down signal p h = ground arith
handle_shutting_down (ready w) p h = ground arith
handle_shutting_down (online w) p h = ground arith
handle_shutting_down (disconnects w) p h = ground arith
handle_shutting_down (exits w file_exists connected) p h =
    ground (arith, length-remove_le w p.workers)

-- A worker leaves: its exit is reported first, or that it disconnects.
abbrev pub leaves : Bool → ℕ × Bool → Primary → Primary
leaves file_exists (w, exits_first) p =
    if exits_first
    then handle (disconnects w) (handle (exits w file_exists true) p)
    else handle (exits w file_exists false) p

-- The workers leave, one after the other.
abbrev pub all_leave : Bool → List (ℕ × Bool) → Primary → Primary
all_leave file_exists [] p = p
all_leave file_exists (x ∷ xs) p = all_leave file_exists xs (leaves file_exists x p)

-- Whether the exit of the last one is reported first.
abbrev pub last_exits_first : List (ℕ × Bool) → Bool
last_exits_first [] = true
last_exits_first (x ∷ []) = x.1
last_exits_first (x ∷ y ∷ ys) = last_exits_first (y ∷ ys)

leaves_last :
    (file_exists : Bool) (x : ℕ × Bool) (p : Primary)
    → p.shutting_down ≡ true
    → p.leaving ≡ []
    → p.workers ≡ x.0 ∷ []
    → (leaves file_exists x p).exit_code ≡ (if x.1 then p.exit_code else some 0)
unfolding handle on_exit restart_or_stop remove
leaves_last file_exists (w, true) p h l e = ground (arith, h, l, e)
leaves_last file_exists (w, false) p h l e = ground (arith, h, l, e)

leaves_next :
    (file_exists : Bool) (x : ℕ × Bool) (v : ℕ) (vs : List ℕ) (p : Primary)
    → p.shutting_down ≡ true
    → p.leaving ≡ []
    → p.workers ≡ x.0 ∷ v ∷ vs
    → leaves file_exists x p ≡ record p { workers = v ∷ vs }
unfolding handle on_exit restart_or_stop remove
leaves_next file_exists (w, true) v vs p h l e = ground (arith, h, l, e)
leaves_next file_exists (w, false) v vs p h l e = ground (arith, h, l, e)

-- When it shuts down and the workers leave, the primary process exits with code 0, unless the exit of
-- the last one is reported before it has disconnected: then no handler ends the process.
pub all_leave_stops :
    (file_exists : Bool) (x : ℕ × Bool) (xs : List (ℕ × Bool)) (p : Primary)
    → p.shutting_down ≡ true
    → p.leaving ≡ []
    → p.workers ≡ map (λ y. y.0) (x ∷ xs)
    → (all_leave file_exists (x ∷ xs) p).exit_code
      ≡ (if last_exits_first (x ∷ xs) then p.exit_code else some 0)
all_leave_stops file_exists x [] p h l e = leaves_last file_exists x p h l e
all_leave_stops file_exists x (y ∷ ys) p h l e =
    let next = leaves_next file_exists x y.0 (map (λ z. z.0) ys) p h l e in
    ap (λ q. (all_leave file_exists (y ∷ ys) q).exit_code) next
    ∙ all_leave_stops file_exists y ys (record p { workers = map (λ z. z.0) (y ∷ ys) }) h l refl
