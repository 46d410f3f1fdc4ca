-- ===== src/Worker/RunScript/Keys.antt =====
-- The keys of the code cache in src/worker/src/run_script.ts.
use js_sidecar.Prelude.{
  ℕ, ◌≡◌, ◌≢◌, refl, Bool, true, false, List, [], ◌∷◌, ◌++◌, map, String, All, arith,
}
use js_sidecar.Text.{text}
use js_sidecar.Worker.RunScript.{joined, code_cache_key}

-- No character of a text is the separator.
abbrev pub HasNoNul : String → Type 0
HasNoNul s = All (λ c. c ≢ 0) (text s)

-- What follows a part of a key.
abbrev IsNext : List ℕ → Type 0
IsNext [] = Unit
IsNext (c ∷ us) = c ≡ 0

joined-IsNext : (ps : List String) → IsNext (joined ps)
joined-IsNext [] = tt
joined-IsNext (p ∷ ps) = refl

head : {x y : ℕ} {xs ys : List ℕ} → x ∷ xs ≡ y ∷ ys → x ≡ y
head e = cc e

-- A part ends at the separator, or with the key.
part-end :
    (xs ys us vs : List ℕ)
    → All (λ c. c ≢ 0) xs
    → All (λ c. c ≢ 0) ys
    → IsNext us
    → IsNext vs
    → xs ++ us ≡ ys ++ vs
    → (xs ≡ ys) × (us ≡ vs)
part-end [] [] us vs p q h k e = (refl, e)
part-end [] (y ∷ ys) [] vs p q h k e = cc e
part-end [] (y ∷ ys) (u ∷ us) vs p q h k e = absurd (q.0 (cc (head e, h)))
part-end (x ∷ xs) [] us [] p q h k e = cc e
part-end (x ∷ xs) [] us (v ∷ vs) p q h k e = absurd (p.0 (cc (head e, k)))
part-end (x ∷ xs) (y ∷ ys) us vs p q h k e =
    let (same, rest) = part-end xs ys us vs p.1 q.1 h k (cc e) in (cc (head e, same), rest)

joined-injective :
    (ps qs : List String)
    → All HasNoNul ps
    → All HasNoNul qs
    → joined ps ≡ joined qs
    → map text ps ≡ map text qs
joined-injective [] [] h k e = refl
joined-injective [] (q ∷ qs) h k e = cc e
joined-injective (p ∷ ps) [] h k e = cc e
joined-injective (p ∷ ps) (q ∷ qs) h k e =
    let (same, rest) =
      part-end (text p) (text q) (joined ps) (joined qs) h.0 k.0 (joined-IsNext ps)
        (joined-IsNext qs) (cc e) in
    cc (same, joined-injective ps qs h.1 k.1 rest)

parts-injective :
    (code other : String) (params others : List String)
    → HasNoNul code
    → HasNoNul other
    → All HasNoNul params
    → All HasNoNul others
    → text code ++ joined params ≡ text other ++ joined others
    → (text code ≡ text other) × (map text params ≡ map text others)
parts-injective code other params others h k hs ks e =
    let (same, rest) =
      part-end (text code) (text other) (joined params) (joined others) h k (joined-IsNext params)
        (joined-IsNext others) e in
    (same, joined-injective params others hs ks rest)

-- Where no code and no parameter has the character 0, two keys of the code cache are the same only if they
-- are made of the same flag, which says whether the code is a module, the same code and the same
-- parameters. An expression, and a function that has no parameter, have the same flag and no parameters.
pub code_cache_key-injective :
    (esm is_esm : Bool) (code other : String) (params others : List String)
    → HasNoNul code
    → HasNoNul other
    → All HasNoNul params
    → All HasNoNul others
    → code_cache_key esm code params ≡ code_cache_key is_esm other others
    → (esm ≡ is_esm) × (text code ≡ text other) × (map text params ≡ map text others)
unfolding code_cache_key
code_cache_key-injective true true code other params others h k hs ks e =
    let (code_same, params_same) = parts-injective code other params others h k hs ks (cc e) in
    (refl, code_same, params_same)
code_cache_key-injective true false code other params others h k hs ks e =
    absurd (omega (arith, head e))
code_cache_key-injective false true code other params others h k hs ks e =
    absurd (omega (arith, head e))
code_cache_key-injective false false code other params others h k hs ks e =
    let (code_same, params_same) = parts-injective code other params others h k hs ks (cc e) in
    (refl, code_same, params_same)
