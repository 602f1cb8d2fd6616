-- ===== src/Pkcs12/Oids.antt =====
-- The object identifiers of internal/scanner/pkcs12.go and the names of encryption algorithms.
use certfinder.Base.Text.{codes, bytes_eq}
use certfinder.Base.{ℕ, Bool, [], ◌∷◌, Bytes, if◌then◌else◌}
use certfinder.Pkcs12.Asn1.{Oid}

-- `Equal` of an ObjectIdentifier
abbrev pub is_oid : Oid → Oid → Bool
unfolding bytes_eq
is_oid a b = bytes_eq a b

abbrev pub oid_pkcs7_data : Oid
oid_pkcs7_data = 1 ∷ 2 ∷ 840 ∷ 113549 ∷ 1 ∷ 7 ∷ 1 ∷ []

abbrev pub oid_pkcs7_signed_data : Oid
oid_pkcs7_signed_data = 1 ∷ 2 ∷ 840 ∷ 113549 ∷ 1 ∷ 7 ∷ 2 ∷ []

abbrev pub oid_pkcs7_encrypted_data : Oid
oid_pkcs7_encrypted_data = 1 ∷ 2 ∷ 840 ∷ 113549 ∷ 1 ∷ 7 ∷ 6 ∷ []

abbrev pub oid_pkcs12_key_bag : Oid
oid_pkcs12_key_bag = 1 ∷ 2 ∷ 840 ∷ 113549 ∷ 1 ∷ 12 ∷ 10 ∷ 1 ∷ 1 ∷ []

abbrev pub oid_pkcs12_shrouded_key_bag : Oid
oid_pkcs12_shrouded_key_bag = 1 ∷ 2 ∷ 840 ∷ 113549 ∷ 1 ∷ 12 ∷ 10 ∷ 1 ∷ 2 ∷ []

abbrev pub oid_pkcs12_cert_bag : Oid
oid_pkcs12_cert_bag = 1 ∷ 2 ∷ 840 ∷ 113549 ∷ 1 ∷ 12 ∷ 10 ∷ 1 ∷ 3 ∷ []

abbrev pub oid_pkcs12_secret_bag : Oid
oid_pkcs12_secret_bag = 1 ∷ 2 ∷ 840 ∷ 113549 ∷ 1 ∷ 12 ∷ 10 ∷ 1 ∷ 5 ∷ []

abbrev pub oid_pkcs12_safe_contents_bag : Oid
oid_pkcs12_safe_contents_bag = 1 ∷ 2 ∷ 840 ∷ 113549 ∷ 1 ∷ 12 ∷ 10 ∷ 1 ∷ 6 ∷ []

abbrev pub oid_pkcs12_x509_certificate : Oid
oid_pkcs12_x509_certificate = 1 ∷ 2 ∷ 840 ∷ 113549 ∷ 1 ∷ 9 ∷ 22 ∷ 1 ∷ []

abbrev pub oid_pkcs12_friendly_name : Oid
oid_pkcs12_friendly_name = 1 ∷ 2 ∷ 840 ∷ 113549 ∷ 1 ∷ 9 ∷ 20 ∷ []

abbrev pub oid_pbes2 : Oid
oid_pbes2 = 1 ∷ 2 ∷ 840 ∷ 113549 ∷ 1 ∷ 5 ∷ 13 ∷ []

-- `oidPBEWith...` of the last arc `n`
abbrev pub oid_pbe : ℕ → Oid
oid_pbe n = 1 ∷ 2 ∷ 840 ∷ 113549 ∷ 1 ∷ 12 ∷ 1 ∷ n ∷ []

unfoldable pub pkcs12_algorithm_name : Oid → Bytes
unfolding bytes_eq
pkcs12_algorithm_name oid =
    if is_oid oid oid_pbes2
    then codes "PBES2"
    else if is_oid oid (oid_pbe 1)
    then codes "pbeWithSHAAnd128BitRC4"
    else if is_oid oid (oid_pbe 2)
    then codes "pbeWithSHAAnd40BitRC4"
    else if is_oid oid (oid_pbe 3)
    then codes "pbeWithSHAAnd3-KeyTripleDES-CBC"
    else if is_oid oid (oid_pbe 4)
    then codes "pbeWithSHAAnd2-KeyTripleDES-CBC"
    else if is_oid oid (oid_pbe 5)
    then codes "pbeWithSHAAnd128BitRC2-CBC"
    else if is_oid oid (oid_pbe 6)
    then codes "pbeWithSHAAnd40BitRC2-CBC"
    else codes "unknown"
