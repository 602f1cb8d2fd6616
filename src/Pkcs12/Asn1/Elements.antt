-- ===== src/Pkcs12/Asn1/Elements.antt =====
-- The elements that `rawSequenceElements` of internal/scanner/pkcs12.go reads.
use certfinder.Base.{
  ℕ, zero, suc, ◌+◌, ◌≤◌, ◌≡◌, refl, ap, ◌∙◌, not, List, [], ◌∷◌, ◌++◌, Bytes, length, leb, Result,
  ok, err, Post, Post-bind, Post-if, Post-after, Post-ok, wrap_err, text, arith,
}
use certfinder.Pkcs12.Asn1.{
  RawValue, Asn1, unmarshal_exact, is_sequence, element_of, elements_from, elements_of,
  raw_sequence_elements,
}

abbrev pub joined : List RawValue → Bytes
joined [] = []
joined (v ∷ vs) = v.full_bytes ++ joined vs

module _ (asn1 : Asn1) where
  -- `asn1.Unmarshal` into a RawValue takes the front of its input and returns the rest.
  abbrev pub TakesFront : Type 0
  TakesFront =
      (encoded : Bytes) (p : RawValue × Bytes)
      → asn1.unmarshal_raw encoded ≡ ok p
      → p.0.full_bytes ++ p.1 ≡ encoded

  -- Elements that are all of `content`, in order, and no more than `maximum`
  pub record Partition (maximum : ℕ) (content : Bytes) (elements : List RawValue) : Type 0 where
    whole : joined elements ≡ content
    few : length elements ≤ maximum

  module _ (law : TakesFront) where
    element-Partition :
        (context : Bytes) (left count : ℕ) (rest : Bytes) (r : Result (RawValue × Bytes))
        (go : Bytes → Result (List RawValue))
        → asn1.unmarshal_raw rest ≡ r
        → ((remaining : Bytes) → Post (Partition left remaining) (go remaining))
        → Post (Partition (suc left) rest) (element_of asn1 context count rest r go)
    element-Partition context left count rest (err e) go h ih = tt
    element-Partition context left count rest (ok (element, remaining)) go h ih =
        Post-if (Partition (suc left) rest) (leb (length rest) (length remaining)) _ _ tt (
          Post-bind (Partition left remaining) (Partition (suc left) rest) (go remaining) _
            (ih remaining)
            (λ es p. record {
              whole = ap (λ t. element.full_bytes ++ t) p.whole ∙ law rest (element, remaining) h;
              few = omega (arith, p.few);
            }))

    elements_from-Partition :
        (context : Bytes) (maximum left count : ℕ) (rest : Bytes)
        → Post (Partition left rest) (elements_from asn1 context maximum left count rest)
    unfolding elements_from
    elements_from-Partition context maximum left count [] = record {
      whole = refl;
      few = omega arith;
    }
    elements_from-Partition context maximum zero count (b ∷ rest) = tt
    elements_from-Partition context maximum (suc left) count (b ∷ rest) =
        element-Partition context left count (b ∷ rest) (asn1.unmarshal_raw (b ∷ rest)) _ refl
          (λ remaining. elements_from-Partition context maximum left (count + 1) remaining)

    -- The bytes of a value that fills the input are exactly the bytes of the elements, one after
    -- the other, and these are no more than `maximum`, if `asn1.Unmarshal` takes the front of its input.
    pub raw_sequence_elements-Partition :
        (encoded context : Bytes) (maximum : ℕ) (v : RawValue) (elements : List RawValue)
        → asn1.unmarshal_raw encoded ≡ ok (v, [])
        → raw_sequence_elements asn1 encoded context maximum ≡ ok elements
        → Partition maximum v.bytes elements
    unfolding raw_sequence_elements elements_of
    raw_sequence_elements-Partition encoded context maximum v elements h e =
        Post-ok (Partition maximum v.bytes) (same_start h e) (
          Post-if (Partition maximum v.bytes) (not (is_sequence v)) _ _ tt
            (elements_from-Partition context maximum maximum 0 v.bytes))
      where
        same_start :
            asn1.unmarshal_raw encoded ≡ ok (v, [])
            → raw_sequence_elements asn1 encoded context maximum ≡ ok elements
            → elements_of asn1 context maximum v ≡ ok elements
        same_start h e = rw h at e

  -- Whatever `asn1.Unmarshal` does, there are no more elements than `maximum`.
  element-few :
      (context : Bytes) (left count : ℕ) (rest : Bytes) (r : Result (RawValue × Bytes))
      (go : Bytes → Result (List RawValue))
      → ((remaining : Bytes) → Post (λ es. length es ≤ left) (go remaining))
      → Post (λ es. length es ≤ suc left) (element_of asn1 context count rest r go)
  element-few context left count rest (err e) go ih = tt
  element-few context left count rest (ok (element, remaining)) go ih =
      Post-if (λ es. length es ≤ suc left) (leb (length rest) (length remaining)) _ _ tt
        (Post-bind (λ es. length es ≤ left) (λ es. length es ≤ suc left) (go remaining) _
          (ih remaining) (λ es p. omega arith))

  elements_from-few :
      (context : Bytes) (maximum left count : ℕ) (rest : Bytes)
      → Post (λ es. length es ≤ left) (elements_from asn1 context maximum left count rest)
  unfolding elements_from
  elements_from-few context maximum left count [] = omega arith
  elements_from-few context maximum zero count (b ∷ rest) = tt
  elements_from-few context maximum (suc left) count (b ∷ rest) =
      element-few context left count (b ∷ rest) (asn1.unmarshal_raw (b ∷ rest)) _
        (λ remaining. elements_from-few context maximum left (count + 1) remaining)

  pub raw_sequence_elements-few :
      (encoded context : Bytes) (maximum : ℕ)
      → Post (λ es. length es ≤ maximum) (raw_sequence_elements asn1 encoded context maximum)
  unfolding raw_sequence_elements elements_of
  raw_sequence_elements-few encoded context maximum =
      Post-after (λ es. length es ≤ maximum)
        (wrap_err "%s: %w" (text context ∷ []) (unmarshal_exact (asn1.unmarshal_raw encoded))) _
        (λ v.
          Post-if (λ es. length es ≤ maximum) (not (is_sequence v)) _ _ tt
            (elements_from-few context maximum maximum 0 v.bytes))
