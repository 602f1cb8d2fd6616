-- ===== src/Jks/ModifiedUtf8/Canonical.antt =====
-- Which bytes `decodeJavaModifiedUTF8` of internal/scanner/jks.go accepts.
use certfinder.Base.{
  ℕ, Bool, if◌then◌else◌, ◌+◌, ◌<◌, ◌≡◌, refl, true, false, ◌&&◌, List, [], ◌∷◌, ◌++◌, Bytes, All,
  Result, ok, err, ◌>>=◌, arith, and_left, and_right,
}
use certfinder.Jks.ModifiedUtf8.Masks.{
  is_two_lem, is_three_lem, is_next_lem, value_two_lem, value_three_lem,
}
use certfinder.Jks.ModifiedUtf8.RoundTrip.{encode_unit, encode_units}
use certfinder.Jks.ModifiedUtf8.{
  is_one, is_two, is_three, is_next, check_two, check_three, code_units,
}

-- What was accepted is what Java writes for the units that were read.
abbrev Accepts : Bytes → Result (List ℕ) → Type 0
Accepts s (ok us) = encode_units us ≡ s
Accepts s (err e) = Unit

module _ (o a b : ℕ) (ha : a < 256) (hb : b < 256) where
  encode-check_two :
      (v : ℕ)
      → is_two a ≡ true
      → is_next b ≡ true
      → check_two o a b ≡ ok v
      → encode_unit v ≡ a ∷ b ∷ []
  unfolding encode_unit check_two
  encode-check_two v h k e =
      ground (arith, is_two_lem a ha, is_next_lem b hb, value_two_lem a b ha hb)

  encode-check_three :
      (c v : ℕ)
      → c < 256
      → is_three a ≡ true
      → is_next b ≡ true
      → is_next c ≡ true
      → check_three o a b c ≡ ok v
      → encode_unit v ≡ a ∷ b ∷ c ∷ []
  unfolding encode_unit check_three
  encode-check_three c v hc h k l e =
      ground (
        arith,
        is_three_lem a ha,
        is_next_lem b hb,
        is_next_lem c hc,
        value_three_lem a b c ha hb hc,
      )

Accepts-cons :
    (v : ℕ) (pre s : Bytes) (r : Result (List ℕ))
    → encode_unit v ≡ pre
    → Accepts s r
    → Accepts (pre ++ s) (do us ← r; ok (v ∷ us))
Accepts-cons v pre s (ok us) e h = unfold encode_units in rw (e, h)
Accepts-cons v pre s (err _) e h = tt

-- A value that was checked, in front of units that were read.
Accepts-checked :
    (checked : Result ℕ) (pre s : Bytes) (r : Result (List ℕ))
    → ((v : ℕ) → checked ≡ ok v → encode_unit v ≡ pre)
    → Accepts s r
    → Accepts (pre ++ s) (do v ← checked; us ← r; ok (v ∷ us))
Accepts-checked (ok v) pre s r f h = Accepts-cons v pre s r (f v refl) h
Accepts-checked (err _) pre s r f h = tt

encode_unit-one : (a : ℕ) → is_one a ≡ true → encode_unit a ≡ a ∷ []
unfolding encode_unit
encode_unit-one a h = rw h

Accepts-if :
    (t : Bool) (s : Bytes) (x y : Result (List ℕ))
    → (t ≡ true → Accepts s x)
    → (t ≡ false → Accepts s y)
    → Accepts s (if t then x else y)
Accepts-if true s x y f g = f refl
Accepts-if false s x y f g = g refl

code_units-Accepts : (s : Bytes) (o : ℕ) → All (λ a. a < 256) s → Accepts s (code_units o s)
unfolding code_units
code_units-Accepts [] o h = unfold encode_units in refl
code_units-Accepts (a ∷ []) o h =
    Accepts-if (is_one a) _ _ _
      (λ one.
        Accepts-cons a (a ∷ []) [] (ok []) (encode_unit-one a one) (unfold encode_units in refl))
      λ _.
        Accepts-if (is_two a) _ _ _ (λ _. tt) λ _. Accepts-if (is_three a) _ _ _ (λ _. tt) λ _. tt
code_units-Accepts (a ∷ b ∷ []) o h =
    Accepts-if (is_one a) _ _ _
      (λ one.
        Accepts-cons a (a ∷ []) (b ∷ []) (code_units (o + 1) (b ∷ [])) (encode_unit-one a one)
          (code_units-Accepts (b ∷ []) (o + 1) h.1))
      λ _.
        Accepts-if (is_two a) _ _ _
          (λ two.
            Accepts-if (is_next b) _ _ _
              (λ next.
                Accepts-checked (check_two o a b) (a ∷ b ∷ []) [] (ok [])
                  (λ v. encode-check_two o a b h.0 h.1.0 v two next) (unfold encode_units in refl))
              (λ _. tt))
          λ _. Accepts-if (is_three a) _ _ _ (λ _. tt) λ _. tt
code_units-Accepts (a ∷ b ∷ c ∷ s) o h =
    Accepts-if (is_one a) _ _ _
      (λ one.
        Accepts-cons a (a ∷ []) (b ∷ c ∷ s) (code_units (o + 1) (b ∷ c ∷ s)) (encode_unit-one a one)
          (code_units-Accepts (b ∷ c ∷ s) (o + 1) h.1))
      λ _.
        Accepts-if (is_two a) _ _ _
          (λ two.
            Accepts-if (is_next b) _ _ _
              (λ next.
                Accepts-checked (check_two o a b) (a ∷ b ∷ []) (c ∷ s) (code_units (o + 2) (c ∷ s))
                  (λ v. encode-check_two o a b h.0 h.1.0 v two next)
                  (code_units-Accepts (c ∷ s) (o + 2) h.1.1))
              (λ _. tt))
          λ _.
            Accepts-if (is_three a) _ _ _
              (λ three.
                Accepts-if (is_next b && is_next c) _ _ _
                  (λ next.
                    Accepts-checked (check_three o a b c) (a ∷ b ∷ c ∷ []) s (code_units (o + 3) s)
                      (λ v.
                        encode-check_three o a b h.0 h.1.0 c v h.1.1.0 three (and_left _ _ next)
                          (and_right _ _ next))
                      (code_units-Accepts s (o + 3) h.1.1.1))
                  (λ _. tt))
              λ _. tt

-- If bytes are read as code units, then they are the encoding that Java writes for these units, with
-- no overlong form and with U+0000 as two bytes.
pub encode-code_units :
    (s : Bytes) (o : ℕ) (us : List ℕ)
    → All (λ a. a < 256) s
    → code_units o s ≡ ok us
    → encode_units us ≡ s
encode-code_units s o us h e = rw e at (code_units-Accepts s o h)
