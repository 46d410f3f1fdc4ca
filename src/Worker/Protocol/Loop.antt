-- ===== src/Worker/Protocol/Loop.antt =====
-- The loop of `handleData`, in src/worker/src/protocol.ts: its fuel, and bytes that come later.
use js_sidecar.Prelude.{
  ℕ, zero, suc, ◌<◌, ◌≡◌, ◌≢◌, refl, sym, ap, ◌∙◌, List, [], ◌∷◌, append-nil, length, length-append,
  arith,
}
use native.Mathlib.Decide.{dec_lt}
use js_sidecar.Worker.Protocol.{
  Incoming, IncomingMessage, Turn, waits, throws, emits, turn, returned, threw, spent, ends,
  prepend, message_loop, feed, measure,
}
use js_sidecar.Worker.Protocol.Turns.{turn-feed, turn-measure, turn-feed_waits}

nonempty {ℓ} : {A : Type ℓ} (xs : List A) → 0 < length xs → (a : A) × (r : List A) × (xs ≡ a ∷ r)
nonempty [] h = elim h [ ]
nonempty (a ∷ r) h = (a, r, refl)

pub loop_empty :
    (f : ℕ) (s : Incoming) → length s.buffer ≡ 0 → message_loop (suc f) s ≡ ends s returned
unfolding message_loop
loop_empty f s h = grind arith

module _ (f : ℕ) (s : Incoming) (more : 0 < length s.buffer) where
  pub loop_waits : (s' : Incoming) → turn s ≡ waits s' → message_loop (suc f) s ≡ ends s' returned
  unfolding message_loop
  loop_waits s' e = ground (arith, nonempty s.buffer more)

  pub loop_throws : (s' : Incoming) → turn s ≡ throws s' → message_loop (suc f) s ≡ ends s' threw
  unfolding message_loop
  loop_throws s' e = ground (arith, nonempty s.buffer more)

  pub loop_emits :
      (m : IncomingMessage) (s' : Incoming)
      → turn s ≡ emits m s'
      → message_loop (suc f) s ≡ prepend (m ∷ []) (message_loop f s')
  unfolding message_loop
  loop_emits m s' e = ground (arith, nonempty s.buffer more)

-- The ways in which a round of the loop can go.
pub data Round (s : Incoming) : Type 0 where
  idle : length s.buffer ≡ 0 → Round s
  waited : 0 < length s.buffer → (s' : Incoming) → turn s ≡ waits s' → Round s
  failed : 0 < length s.buffer → (s' : Incoming) → turn s ≡ throws s' → Round s
  cut : 0 < length s.buffer → (m : IncomingMessage) (s' : Incoming) → turn s ≡ emits m s' → Round s

pub Round-cases : (s : Incoming) → Round s
Round-cases s = elim (dec_lt 0 (length s.buffer)) [
  | no e ↦ idle (omega arith)
  | yes more ↦ by_turn more (turn s) refl
]
  where
    by_turn : 0 < length s.buffer → (t : Turn) → turn s ≡ t → Round s
    by_turn more (waits s') e = waited more s' e
    by_turn more (throws s') e = failed more s' e
    by_turn more (emits m s') e = cut more m s' e

-- Fuel above the measure of the state is enough: more of it changes nothing.
pub loop-fuel :
    (f g : ℕ) (s : Incoming) → measure s < f → measure s < g → message_loop f s ≡ message_loop g s
loop-fuel zero g s h k = absurd (omega arith)
loop-fuel (suc f) zero s h k = absurd (omega arith)
loop-fuel (suc f) (suc g) s h k = elim (Round-cases s) [
  | idle z ↦ cc (loop_empty f s z, loop_empty g s z)
  | waited p s' e ↦ cc (loop_waits f s p s' e, loop_waits g s p s' e)
  | failed p s' e ↦ cc (loop_throws f s p s' e, loop_throws g s p s' e)
  | cut p m s' e ↦ ground (
    arith,
    loop_emits f s p m s' e,
    loop_emits g s p m s' e,
    turn-measure s s' m e,
    loop-fuel f g s',
  )
]

pub loop-ne-spent : (f : ℕ) (s : Incoming) → measure s < f → (message_loop f s).status ≢ spent
loop-ne-spent zero s h = absurd (omega arith)
loop-ne-spent (suc f) s h = elim (Round-cases s) [
  | idle z ↦ ground (arith, loop_empty f s z)
  | waited p s' e ↦ ground (arith, loop_waits f s p s' e)
  | failed p s' e ↦ ground (arith, loop_throws f s p s' e)
  | cut p m s' e ↦
      ground (arith, loop_emits f s p m s' e, turn-measure s s' m e, loop-ne-spent f s')
]

pub feed_nil : (s : Incoming) → feed s [] ≡ s
feed_nil s = ap (λ b. record s { buffer = b }) (append-nil s.buffer)

0-lt-feed : (s : Incoming) (d : List ℕ) → 0 < length s.buffer → 0 < length (feed s d).buffer
0-lt-feed s d h = omega (arith, length-append s.buffer d)

-- Where nothing more comes, a state that has waited waits again.
loop-waited_nil :
    (k : ℕ) (s s' : Incoming) → turn s ≡ waits s' → message_loop (suc k) s' ≡ ends s' returned
loop-waited_nil k s s' e = elim (dec_lt 0 (length s'.buffer)) [
  | no z ↦ loop_empty k s' (omega arith)
  | yes p ↦ loop_waits k s' p s' (rw (feed_nil s, feed_nil s', e) at again)
]
  where
    again : turn (feed s' []) ≡ turn (feed s [])
    again = sym (turn-feed_waits s s' [] e)

-- The loop over a state that has waited, with more bytes behind it.
loop-waited :
    (g k : ℕ) (s s' : Incoming) (d : List ℕ)
    → 0 < length s.buffer
    → turn s ≡ waits s'
    → measure (feed s d) < g
    → measure (feed s' d) < k
    → message_loop g (feed s d) ≡ message_loop k (feed s' d)
loop-waited zero k s s' d p e h l = absurd (omega arith)
loop-waited (suc g) zero s s' d p e h l = absurd (omega arith)
loop-waited (suc g) (suc k) s s' [] p e h l =
    rw (feed_nil s, feed_nil s') (loop_waits g s p s' e ∙ sym (loop-waited_nil k s s' e))
loop-waited (suc g) (suc k) s s' (x ∷ xs) p e h l = elim (Round-cases (feed s d)) [
  | idle z ↦ absurd (omega (arith, 0-lt-feed s d p))
  | waited q t r ↦ loop_waits g _ q t r ∙ sym (loop_waits k _ some_left t (same ∙ r))
  | failed q t r ↦ loop_throws g _ q t r ∙ sym (loop_throws k _ some_left t (same ∙ r))
  | cut q m t r ↦
      loop_emits g _ q m t r
      ∙ ap (prepend (m ∷ [])) (
          loop-fuel g k t (omega (arith, turn-measure _ t m r))
            (omega (arith, turn-measure _ t m (same ∙ r))))
      ∙ sym (loop_emits k _ some_left m t (same ∙ r))
]
  where
    d : List ℕ
    d = x ∷ xs

    same : turn (feed s' d) ≡ turn (feed s d)
    same = sym (turn-feed_waits s s' d e)

    some_left : 0 < length (feed s' d).buffer
    some_left = omega (arith, length-append s'.buffer d)

pub loop-feed :
    (f g k : ℕ) (s : Incoming) (d : List ℕ)
    → measure s < f
    → measure (feed s d) < g
    → measure (feed (message_loop f s).incoming d) < k
    → (message_loop f s).status ≡ returned
    → message_loop g (feed s d)
      ≡ prepend (message_loop f s).emitted (message_loop k (feed (message_loop f s).incoming d))
loop-feed zero g k s d h i j r = absurd (omega arith)
loop-feed (suc f) zero k s d h i j r = absurd (omega arith)
loop-feed (suc f) (suc g) k s d h i j r = elim (Round-cases s) [
  | idle z ↦ ground (arith, loop_empty f s z, loop-fuel (suc g) k (feed s d))
  | waited p s' e ↦ ground (arith, loop_waits f s p s' e, loop-waited (suc g) k s s' d p e)
  | failed p s' e ↦ ground (arith, loop_throws f s p s' e)
  | cut p m s' e ↦ ground (
    arith,
    loop_emits f s p m s' e,
    length-append s.buffer d,
    length-append s'.buffer d,
    loop_emits g (feed s d) (0-lt-feed s d p) m (feed s' d) (turn-feed s s' m d e),
    turn-measure s s' m e,
    loop-feed f g k s' d,
  )
]
