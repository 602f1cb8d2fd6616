-- ===== src/Pkcs12/Asn1.antt =====
-- Reading ASN.1 values with encoding/asn1, which is the interface `Asn1`: `unmarshalExact`, `rawOID`,
-- `rawInteger`, `explicitOctets` and `rawSequenceElements` of internal/scanner/pkcs12.go.
pub mod Elements
use Prim.Native.String.{String}
use certfinder.Base.{
  ℕ, zero, suc, ◌+◌, Bool, true, false, ◌&&◌, not, List, [], ◌∷◌, Bytes, length, leb, ◌==◌,
  if◌then◌else◌, GoError, errorf, wrap_err, num, text, Result, ok, err, ◌>>=◌,
}
use certfinder.Base.Text.{codes}

-- asn1.RawValue
pub record RawValue : Type 0 where
  pub class : ℕ
  pub tag : ℕ
  pub is_compound : Bool
  pub bytes : Bytes
  pub full_bytes : Bytes

abbrev pub Oid : Type 0
Oid = List ℕ

-- An int, `below n` for one that is negative
pub data Integer : Type 0 where
  from : ℕ → Integer
  below : ℕ → Integer

-- `asn1.Unmarshal` at the types that the code reads: the value and the bytes behind it. `oid_text` is
-- the `String` of an ObjectIdentifier, `integer_text` the `%d` of an int.
pub record Asn1 : Type 0 where
  pub unmarshal_raw : Bytes → Result (RawValue × Bytes)
  pub unmarshal_oid : Bytes → Result (Oid × Bytes)
  pub unmarshal_integer : Bytes → Result (Integer × Bytes)
  pub unmarshal_octets : Bytes → Result (Bytes × Bytes)
  pub oid_text : Oid → Bytes
  pub integer_text : Integer → Bytes

abbrev pub no_rest : {A : Type 0} → A × Bytes → Result A
no_rest (a, []) = ok a
no_rest (a, b ∷ rest) = err (errorf "%d trailing bytes" (num (length (b ∷ rest)) ∷ []))

-- `unmarshalExact`, given what `asn1.Unmarshal` returned
abbrev pub unmarshal_exact : {A : Type 0} → Result (A × Bytes) → Result A
unmarshal_exact r = r >>= λ p. no_rest p

-- The classes and tags that are tested
abbrev pub is_sequence : RawValue → Bool
is_sequence v = v.class == 0 && v.tag == 16 && v.is_compound

abbrev pub is_set : RawValue → Bool
is_set v = v.class == 0 && v.tag == 17 && v.is_compound

-- `[0] EXPLICIT`
abbrev pub is_explicit : RawValue → Bool
is_explicit v = v.class == 2 && v.tag == 0 && v.is_compound

module _ (asn1 : Asn1) where
  unfoldable pub raw_oid : RawValue → Result Oid
  raw_oid v = unmarshal_exact (asn1.unmarshal_oid v.full_bytes)

  unfoldable pub raw_integer : RawValue → Result Integer
  raw_integer v = unmarshal_exact (asn1.unmarshal_integer v.full_bytes)

  unfoldable pub explicit_octets : RawValue → Result Bytes
  explicit_octets v = unmarshal_exact (asn1.unmarshal_octets v.bytes)

  -- One turn, given what `asn1.Unmarshal` returned for `rest`; `go` is the loop on what remains.
  abbrev pub element_of :
      Bytes
      → ℕ
      → Bytes
      → Result (RawValue × Bytes)
      → (Bytes → Result (List RawValue))
      → Result (List RawValue)
  element_of context count rest (err e) go =
      wrap_err "%s element %d: %w" (text context ∷ num count ∷ []) (err e)
  element_of context count rest (ok (element, remaining)) go =
      if leb (length rest) (length remaining)
      then err (errorf "%s element %d made no parsing progress" (text context ∷ num count ∷ []))
      else go remaining >>= λ elements. ok (element ∷ elements)

  -- The loop over the elements: `count` are read, and `left` more are allowed.
  unfoldable pub elements_from : Bytes → ℕ → ℕ → ℕ → Bytes → Result (List RawValue)
  elements_from context maximum left count [] = ok []
  elements_from context maximum zero count (b ∷ rest) =
      err (errorf "%s element count exceeds %d" (text context ∷ num maximum ∷ []))
  elements_from context maximum (suc left) count (b ∷ rest) =
      element_of context count (b ∷ rest) (asn1.unmarshal_raw (b ∷ rest))
        (λ remaining. elements_from context maximum left (count + 1) remaining)

  -- After the outer value is read
  abbrev pub elements_of : Bytes → ℕ → RawValue → Result (List RawValue)
  unfolding elements_from
  elements_of context maximum v =
      if not (is_sequence v)
      then err (errorf "%s is not a SEQUENCE" (text context ∷ []))
      else elements_from context maximum maximum 0 v.bytes

  unfoldable pub raw_sequence_elements : Bytes → Bytes → ℕ → Result (List RawValue)
  unfolding elements_from
  raw_sequence_elements encoded context maximum =
      wrap_err "%s: %w" (text context ∷ []) (unmarshal_exact (asn1.unmarshal_raw encoded)) >>= λ v.
      elements_of context maximum v
