-- ===== src/Host/Sidecar/Paths.antt =====
-- The socket paths of `JsSidecar::new` in src/connection.rs: "To ensure unique sockets per instance".
use js_sidecar.Prelude.{ℕ, zero, suc, ◌<◌, ◌^◌, ◌≡◌, refl, sym, ◌∙◌, List, [], ◌∷◌, ◌++◌, arith}
use js_sidecar.Prelude.Outcome.{Outcome, ok}
use js_sidecar.Text.{text, decimal, decimal-injective, decimal-IsDigit, digits-end}
use js_sidecar.Host.Libs.{Libs}
use js_sidecar.Host.Os.{Os}
use js_sidecar.Host.Error.{Error}
use js_sidecar.Host.Sidecar.{Program, join, socket_name, next_socket}

append-cancel : (xs ys zs : List ℕ) → xs ++ ys ≡ xs ++ zs → ys ≡ zs
append-cancel [] ys zs e = e
append-cancel (x ∷ xs) ys zs e = append-cancel xs ys zs (cc e)

-- The name gives the process and the counter.
socket_name-injective :
    (pid counter pid' counter' : ℕ)
    → socket_name pid counter ≡ socket_name pid' counter'
    → (pid ≡ pid') × (counter ≡ counter')
unfolding socket_name
socket_name-injective pid counter pid' counter' e =
    let (pids, rest) =
      digits-end (decimal pid) (decimal pid') 46 (decimal counter ++ text ".sock")
        (decimal counter' ++ text ".sock") (decimal-IsDigit pid) (decimal-IsDigit pid')
        (omega arith) (append-cancel (text "js_sidecar.") _ _ e) in
    let (counters, end) =
      digits-end (decimal counter) (decimal counter') 46 (text "sock") (text "sock")
        (decimal-IsDigit counter) (decimal-IsDigit counter') (omega arith) rest in
    (decimal-injective pid pid' pids, decimal-injective counter counter' counters)

module _ {lib : Libs} (os : Os lib) where
  -- The program after `n` more socket paths.
  abbrev pub named : ℕ → Program os → Program os
  named zero m = m
  named (suc n) m = (next_socket os (named n m)).1

  counter-named : (n : ℕ) (m : Program os) → m.counter ≡ 0 → n < 2 ^ 64 → (named n m).counter ≡ n
  unfolding next_socket
  counter-named zero m z h = z
  counter-named (suc n) m z h = rw (counter-named n m z (omega arith)) (omega arith)

  same_program :
      (n : ℕ) (m : Program os) → ((named n m).pid ≡ m.pid) × ((named n m).temp_dir ≡ m.temp_dir)
  unfolding next_socket
  same_program zero m = (refl, refl)
  same_program (suc n) m = same_program n m

  next_socket-named :
      (n : ℕ) (m : Program os)
      → m.counter ≡ 0
      → n < 2 ^ 64
      → (next_socket os (named n m)).0 ≡ ok (join m.temp_dir (socket_name m.pid n))
  unfolding next_socket
  next_socket-named n m z h = rw ((same_program n m).0, (same_program n m).1, counter-named n m z h)

  join-cancel :
      (dir : List ℕ) (name name' : List ℕ)
      → ◌≡◌ {A = Outcome (Error lib) (List ℕ)} (ok (join dir name)) (ok (join dir name'))
      → name ≡ name'
  join-cancel dir name name' e =
      append-cancel (text "/") name name'
        (append-cancel dir (text "/" ++ name) (text "/" ++ name') (cc e))

  -- Where processes with different IDs share a directory, all the sidecars that they start, up to
  -- 2 ^ 64 each, have different socket paths.
  pub next_socket-injective :
      (m m' : Program os) (i j : ℕ)
      → m.counter ≡ 0
      → m'.counter ≡ 0
      → m.temp_dir ≡ m'.temp_dir
      → i < 2 ^ 64
      → j < 2 ^ 64
      → (next_socket os (named i m)).0 ≡ (next_socket os (named j m')).0
      → (m.pid ≡ m'.pid) × (i ≡ j)
  next_socket-injective m m' i j z z' dir hi hj e = socket_name-injective m.pid i m'.pid j (
      join-cancel m.temp_dir _ _
        (sym (next_socket-named i m z hi) ∙ e ∙ rw dir (next_socket-named j m' z' hj)))
