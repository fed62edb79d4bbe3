-- ===== src/Telemetry/Keys.antt =====
-- telemetry/telemetry.go: the zero characters keep the keys of the counters of two events apart.
use cliffhanger.Prelude.{String, ◌≡◌, refl, sym, ap, ◌∙◌, ◌≢◌}
use Prim.Native.Char.{Char}
use Prim.Native.String.{[], ◌∷◌, ◌++◌ as join}
use text.Mathlib.TextLemmas.{
  nil-append, cons-append, append_assoc, head-eq_of_cons-eq, tail-eq_of_cons-eq,
}
use cliffhanger.Telemetry.Emit.{nul, counter_prefix}

abbrev pub nul_char : Char
nul_char = "\0"

-- The text has no zero character.
abbrev pub IsNulFree : String → Type 0
IsNulFree [] = Unit
IsNulFree (c ∷ s) = (c ≢ nul_char) × IsNulFree s

nul-cons : (a : String) → join nul a ≡ nul_char ∷ a
nul-cons a = cons-append nul_char [] a ∙ ap (λ s. nul_char ∷ s) (nil-append a)

first_part :
    (s t a b : String)
    → IsNulFree s
    → IsNulFree t
    → join s (nul_char ∷ a) ≡ join t (nul_char ∷ b)
    → (s ≡ t) × (a ≡ b)
first_part [] [] a b h k q =
    (refl, tail-eq_of_cons-eq (sym (nil-append (nul_char ∷ a)) ∙ q ∙ nil-append (nul_char ∷ b)))
first_part [] (c ∷ t) a b h (n, k) q = absurd (
    n (
      sym (
        head-eq_of_cons-eq (sym (nil-append (nul_char ∷ a)) ∙ q ∙ cons-append c t (nul_char ∷ b)))))
first_part (c ∷ s) [] a b (n, h) k q =
    absurd (
      n (head-eq_of_cons-eq (sym (cons-append c s (nul_char ∷ a)) ∙ q ∙ nil-append (nul_char ∷ b))))
first_part (c ∷ s) (d ∷ t) a b (n, h) (m, k) q =
    let e = sym (cons-append c s (nul_char ∷ a)) ∙ q ∙ cons-append d t (nul_char ∷ b) in
    let (same, rest) = first_part s t a b h k (tail-eq_of_cons-eq e) in
    (ap (λ x. x ∷ s) (head-eq_of_cons-eq e) ∙ ap (λ u. d ∷ u) same, rest)

-- Two keys that begin alike are of the same domain and event.
pub counter_prefix-same :
    (d e domain event f r : String)
    → IsNulFree d
    → IsNulFree e
    → IsNulFree domain
    → IsNulFree event
    → join (counter_prefix domain event) r ≡ join (counter_prefix d e) f
    → (domain ≡ d) × (event ≡ e)
unfolding counter_prefix
counter_prefix-same d e domain event f r hd he hdomain hevent q =
    let (one, rest) =
      first_part domain d (join event (nul_char ∷ r)) (join e (nul_char ∷ f)) hdomain hd
        (sym (spread domain event r) ∙ q ∙ spread d e f) in
    (one, (first_part event e r f hevent he rest).0)
  where
    spread :
        (x y z : String)
        → join (join x (join nul (join y nul))) z ≡ join x (nul_char ∷ join y (nul_char ∷ z))
    spread x y z =
        append_assoc x (join nul (join y nul)) z
        ∙ ap (join x) (
            append_assoc nul (join y nul) z
            ∙ ap (join nul) (append_assoc y nul z ∙ ap (join y) (nul-cons z))
            ∙ nul-cons (join y (nul_char ∷ z)))
