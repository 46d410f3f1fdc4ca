-- ===== src/Prelude/Moves.antt =====
-- Calls on a mutable receiver that only move it along a transitive relation, whatever their outcome.
use js_sidecar.Prelude.Outcome.{Outcome, ok, err, panicked, pending, spent, Call, after, ◌>>=◌}

module _ {ℓ} {S : Type 0} {E : Type 0} (R : S → S → Type ℓ) where
  pub record Moves {A : Type 0} (call : Call S E A) : Type ℓ where
    pub moves : (s : S) → R s (call s).1

  module _ (trans : (a b c : S) → R a b → R b c → R a c) where
    pub after-Moves :
        {A B : Type 0} (r : Outcome E A) (f : A → Call S E B) (s x : S)
        → R x s
        → ((a : A) → Moves (f a))
        → R x (after r f s).1
    after-Moves (ok a) f s x p q = trans x s (f a s).1 p ((q a).moves s)
    after-Moves (err e) f s x p q = p
    after-Moves panicked f s x p q = p
    after-Moves pending f s x p q = p
    after-Moves spent f s x p q = p

    pub bind-Moves :
        {A B : Type 0} {c : Call S E A} {f : A → Call S E B}
        → Moves c
        → ((a : A) → Moves (f a))
        → Moves (c >>= f)
    bind-Moves {c = c} {f = f} p q = record {
      moves = λ s. after-Moves (c s).0 f (c s).1 s (p.moves s) q;
    }
