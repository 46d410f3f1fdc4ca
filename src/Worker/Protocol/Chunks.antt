-- ===== src/Worker/Protocol/Chunks.antt =====
-- `handleData` of src/worker/src/protocol.ts against the way its bytes are cut into events.
use js_sidecar.Prelude.{
  ℕ, suc, ◌≡◌, ◌≢◌, refl, sym, ap, ◌∙◌, List, [], ◌∷◌, ◌++◌, append-nil, append_assoc, ◌≡⟨◌⟩◌, ◌∎,
  arith,
}
use mathlib.Core.List.{flatten}
use js_sidecar.Worker.Protocol.{
  Incoming, fresh, Status, returned, threw, spent, Handled, prepend, message_loop, feed, measure,
  handle_data, handle_chunks,
}
use js_sidecar.Worker.Protocol.Loop.{loop-ne-spent, loop-feed}

feed-append : (s : Incoming) (d e : List ℕ) → feed s (d ++ e) ≡ feed (feed s d) e
feed-append s d e = ap (λ b. record s { buffer = b }) (sym (append_assoc s.buffer d e))

-- Each `data` event is handled in finitely many rounds, whatever the bytes are.
pub handle_data-ne-spent : (s : Incoming) (d : List ℕ) → (handle_data s d).status ≢ spent
unfolding handle_data
handle_data-ne-spent s d = loop-ne-spent _ (feed s d) (omega arith)

-- If the first of two pieces of input is handled without an exception, then the two pieces in two
-- events give the messages, the final state and the outcome that they give in one event.
pub handle_data-append :
    (s : Incoming) (d e : List ℕ)
    → (handle_data s d).status ≡ returned
    → handle_data s (d ++ e)
      ≡ prepend (handle_data s d).emitted (handle_data (handle_data s d).incoming e)
unfolding handle_data
handle_data-append s d e h =
    ap (λ t. message_loop (suc (measure t)) t) (feed-append s d e)
    ∙ loop-feed _ _ _ (feed s d) e (omega arith) (omega arith) (omega arith) h

chunks_step :
    (s : Incoming) (c : List ℕ) (cs : List (List ℕ))
    → (handle_data s c).status ≡ returned
    → handle_chunks s (c ∷ cs)
      ≡ prepend (handle_data s c).emitted (handle_chunks (handle_data s c).incoming cs)
unfolding handle_chunks
chunks_step s c cs e = ground arith

-- So events can be joined: a stream whose every front is handled without an exception gives the
-- same messages, state and outcome in whatever pieces it arrives.
pub handle_chunks-flatten :
    (a : List ℕ) (chunks : List (List ℕ))
    → ((d r : List ℕ) → d ++ r ≡ a ++ flatten chunks → (handle_data fresh d).status ≡ returned)
    → prepend (handle_data fresh a).emitted (handle_chunks (handle_data fresh a).incoming chunks)
      ≡ handle_data fresh (a ++ flatten chunks)
unfolding handle_chunks flatten
handle_chunks-flatten a [] fine =
    ground (arith, fine a [] refl, append-nil a, append-nil (handle_data fresh a).emitted)
handle_chunks-flatten a (c ∷ cs) fine =
    prepend A.emitted (handle_chunks A.incoming (c ∷ cs))
    ≡⟨ ap (prepend A.emitted) (chunks_step A.incoming c cs second) ⟩
      prepend A.emitted (prepend C.emitted (handle_chunks C.incoming cs))
    ≡⟨ ground
        (arith, joined, append_assoc A.emitted C.emitted (handle_chunks C.incoming cs).emitted) ⟩
      prepend (handle_data fresh (a ++ c)).emitted
        (handle_chunks (handle_data fresh (a ++ c)).incoming cs)
    ≡⟨ handle_chunks-flatten (a ++ c) cs (λ d r e. fine d r (e ∙ append_assoc a c (flatten cs))) ⟩
      handle_data fresh ((a ++ c) ++ flatten cs)
    ≡⟨ ap (handle_data fresh) (append_assoc a c (flatten cs)) ⟩
      handle_data fresh (a ++ flatten (c ∷ cs)) ∎
  where
    A : Handled
    A = handle_data fresh a

    C : Handled
    C = handle_data A.incoming c

    joined : handle_data fresh (a ++ c) ≡ prepend A.emitted C
    joined = handle_data-append fresh a c (fine a (c ++ flatten cs) refl)

    second : C.status ≡ returned
    second = cc (joined, fine (a ++ c) (flatten cs) (append_assoc a c (flatten cs)))

-- Where no event throws, the first did not.
not_thrown :
    (x : Status) (h more : Handled)
    → h.status ≡ x
    → (elim x as (λ y. Handled) [
      | returned ↦ prepend h.emitted more
      | threw ↦ h
      | spent ↦ h
    ]).status
      ≡ returned
    → x ≡ returned
not_thrown returned h more e fine = refl
not_thrown threw h more e fine = cc (e, fine)
not_thrown spent h more e fine = cc (e, fine)

chunks_head :
    (s : Incoming) (c : List ℕ) (cs : List (List ℕ))
    → (handle_chunks s (c ∷ cs)).status ≡ returned
    → (handle_data s c).status ≡ returned
unfolding handle_chunks
chunks_head s c cs fine =
    not_thrown (handle_data s c).status (handle_data s c)
      (handle_chunks (handle_data s c).incoming cs) refl fine

-- One more event, behind events that did not throw.
pub handle_chunks-last :
    (s : Incoming) (cs : List (List ℕ)) (b : List ℕ)
    → (handle_chunks s cs).status ≡ returned
    → (handle_data (handle_chunks s cs).incoming b).status ≡ returned
    → handle_chunks s (cs ++ b ∷ [])
      ≡ prepend (handle_chunks s cs).emitted (handle_data (handle_chunks s cs).incoming b)
unfolding handle_chunks
handle_chunks-last s [] b fine last =
    chunks_step s b [] last
    ∙ ap (λ ms. record { incoming = (handle_data s b).incoming; emitted = ms; status = returned })
        (append-nil (handle_data s b).emitted)
    ∙ ap
        (λ x. record {
          incoming = (handle_data s b).incoming;
          emitted = (handle_data s b).emitted;
          status = x;
        })
        (sym last)
handle_chunks-last s (c ∷ cs) b fine last =
    let first = chunks_head s c cs fine in
    let H = handle_data s c in
    let D = handle_data (handle_chunks H.incoming cs).incoming b in
    let step = chunks_step s c cs first in
    let rest =
      handle_chunks-last H.incoming cs b (ap (λ h. h.status) (sym step) ∙ fine)
        (ap (λ h. (handle_data h.incoming b).status) (sym step) ∙ last) in
    chunks_step s c (cs ++ b ∷ []) first
    ∙ ap (prepend H.emitted) rest
    ∙ ap (λ ms. record D { emitted = ms })
        (sym (append_assoc H.emitted (handle_chunks H.incoming cs).emitted D.emitted))
    ∙ ap (λ h. prepend h.emitted (handle_data h.incoming b)) (sym step)
