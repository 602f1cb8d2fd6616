-- ===== src/Pkcs12/Contents/Tests.antt =====
-- A PKCS#12 file with one certificate, in a DER of one-byte lengths whose identifiers stand arc by arc.
use certfinder.Base.{
  ℕ, ◌-◌, ◌≡◌, refl, ap, Bool, true, false, ◌||◌, List, [], ◌∷◌, ◌++◌, Bytes, length, take, drop,
  take-append-drop, leb, ◌==◌, if◌then◌else◌, foreign, Result, ok, err, arith,
}
use certfinder.Base.Text.{codes}
use certfinder.Pkcs12.Asn1.Elements.{TakesFront, Partition, raw_sequence_elements-Partition}
use certfinder.Pkcs12.Asn1.{RawValue, Asn1, from, raw_sequence_elements}
use certfinder.Pkcs12.Contents.Bounds.{Extends, parse_safe_contents-Extends}
use certfinder.Pkcs12.Contents.Report.{IsReport, parse_pkcs12-IsReport}
use certfinder.Pkcs12.Contents.{new_parser, parse_safe_contents, parse_pkcs12}
use certfinder.Pkcs12.Detect.{detect_pkcs12}
use certfinder.Pkcs12.Oids.{oid_pkcs7_data, oid_pkcs12_cert_bag, oid_pkcs12_x509_certificate}

abbrev value_of : ℕ → ℕ → Bytes → RawValue
value_of t n s = record {
  class = if t == 0xa0 then 2 else 0;
  tag = if t == 0x30 then 16 else if t == 0xa0 then 0 else t;
  is_compound = t == 0x30 || t == 0xa0;
  bytes = take n s;
  full_bytes = t ∷ n ∷ take n s;
}

unfoldable short_value : Bytes → Result (RawValue × Bytes)
short_value (t ∷ n ∷ s) =
    if leb n (length s) then ok (value_of t n s, drop n s) else err (foreign [])
short_value _ = err (foreign [])

abbrev content_of : {A : Type 0} → (Bytes → A) → Result (RawValue × Bytes) → Result (A × Bytes)
content_of f (ok (v, rest)) = ok (f v.bytes, rest)
content_of f (err e) = err e

abbrev first_byte : Bytes → ℕ
first_byte [] = 0
first_byte (b ∷ s) = b

unfoldable short_lengths : Asn1
unfolding short_value
short_lengths = record {
  unmarshal_raw = short_value;
  unmarshal_oid = λ s. content_of (λ c. c) (short_value s);
  unmarshal_integer = λ s. content_of (λ c. from (first_byte c)) (short_value s);
  unmarshal_octets = λ s. content_of (λ c. c) (short_value s);
  oid_text = λ o. o;
  integer_text = λ n. [];
}

abbrev tlv : ℕ → Bytes → Bytes
tlv t s = t ∷ length s ∷ s

abbrev cert_bag : Bytes
cert_bag = tlv 0x30 (
    tlv 6 oid_pkcs12_cert_bag
    ++ tlv 0xa0 (tlv 0x30 (tlv 6 oid_pkcs12_x509_certificate ++ tlv 0xa0 (tlv 4 (7 ∷ 8 ∷ [])))))

abbrev bags : Bytes
bags = tlv 0x30 (cert_bag ++ cert_bag)

abbrev one_content : Bytes
one_content = tlv 0x30 (tlv 0x30 (tlv 6 oid_pkcs7_data ++ tlv 0xa0 (tlv 4 bags)))

abbrev pfx : Bytes
pfx = tlv 0x30 (tlv 2 (3 ∷ []) ++ tlv 0x30 (tlv 6 oid_pkcs7_data ++ tlv 0xa0 (tlv 4 one_content)))

abbrev accept : Bytes → Result Bytes
accept s = ok s

two_certificates : length (parse_pkcs12 short_lengths accept pfx).0 ≡ 2
unfolding parse_pkcs12 short_lengths
two_certificates = refl

parse_pkcs12-IsReport_example :
    (let q = parse_pkcs12 short_lengths accept pfx in IsReport short_lengths accept q.0 q.1 256)
parse_pkcs12-IsReport_example = parse_pkcs12-IsReport short_lengths accept pfx

-- With a parser that has read nothing yet
parse_safe_contents-Extends_example :
    Extends short_lengths accept [] [] 0
      (parse_safe_contents short_lengths accept 2 bags (new_parser short_lengths accept, 0)).1
parse_safe_contents-Extends_example =
    parse_safe_contents-Extends short_lengths accept 2 bags (new_parser short_lengths accept)
      (omega arith) (omega arith)

detected : detect_pkcs12 short_lengths pfx ≡ true
unfolding detect_pkcs12 short_lengths
detected = refl

short_value-front :
    (s : Bytes) (p : RawValue × Bytes) → short_value s ≡ ok p → p.0.full_bytes ++ p.1 ≡ s
unfolding short_value
short_value-front [] p h = absurd (cc)
short_value-front (t ∷ []) p h = absurd (cc)
short_value-front (t ∷ n ∷ s) p h = taken (leb n (length s)) h
  where
    taken :
        (b : Bool)
        → (if b then ok (value_of t n s, drop n s) else err (foreign [])) ≡ ok p
        → p.0.full_bytes ++ p.1 ≡ t ∷ n ∷ s
    taken true h =
        let e : (value_of t n s, drop n s) ≡ p = cc in
        rw (← e) (ap (λ q. t ∷ n ∷ q) (take-append-drop n s))
    taken false h = absurd (cc)

short_lengths-TakesFront : TakesFront short_lengths
unfolding short_lengths
short_lengths-TakesFront = short_value-front

abbrev two_bags : List RawValue
two_bags =
    value_of 0x30 (length cert_bag - 2) (drop 2 cert_bag)
    ∷ value_of 0x30 (length cert_bag - 2) (drop 2 cert_bag)
    ∷ []

outer_bags : short_value bags ≡ ok (value_of 0x30 (length bags - 2) (drop 2 bags), [])
unfolding short_value
outer_bags = refl

outer_bags_read :
    short_lengths.unmarshal_raw bags ≡ ok (value_of 0x30 (length bags - 2) (drop 2 bags), [])
unfolding short_lengths
outer_bags_read = outer_bags

bags_read : raw_sequence_elements short_lengths bags (codes "SafeContents") 10001 ≡ ok two_bags
unfolding raw_sequence_elements short_lengths
bags_read = refl

raw_sequence_elements-Partition_example :
    Partition short_lengths 10001 (take (length bags - 2) (drop 2 bags)) two_bags
raw_sequence_elements-Partition_example =
    raw_sequence_elements-Partition short_lengths short_lengths-TakesFront bags
      (codes "SafeContents") 10001 (value_of 0x30 (length bags - 2) (drop 2 bags)) two_bags
      outer_bags_read bags_read
