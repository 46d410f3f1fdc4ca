-- ===== src/Tests/Keys.antt =====
-- The keys of two scripts of which one has a parameter.
use js_sidecar.Prelude.{◌≡◌, refl, false, [], ◌∷◌, map, arith}
use js_sidecar.Text.{text}
use js_sidecar.Worker.RunScript.Keys.{HasNoNul, code_cache_key-injective}

a_plus_b-HasNoNul : HasNoNul "a+b"
a_plus_b-HasNoNul = ground arith

b-HasNoNul : HasNoNul "b"
b-HasNoNul = ground arith

code_cache_key-injective_example :
    (false ≡ false) × (text "a+b" ≡ text "a+b") × (map text ("b" ∷ []) ≡ map text ("b" ∷ []))
code_cache_key-injective_example =
    code_cache_key-injective false false "a+b" "a+b" ("b" ∷ []) ("b" ∷ []) a_plus_b-HasNoNul
      a_plus_b-HasNoNul (b-HasNoNul, tt) (b-HasNoNul, tt) refl
