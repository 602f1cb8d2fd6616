-- ===== src/Model/Sample.antt =====
-- A certificate for the tests.
use certfinder.Base.{ℕ, true, false, none, Option, [], Bytes}
use certfinder.Model.{Certificate}

abbrev pub sample : {X : Type 0} → Bytes → ℕ → Bytes → Option X → Certificate X
sample path index fingerprint parsed = record {
  path = path;
  index = index;
  subject = [];
  issuer = [];
  serial_number = [];
  is_ca = false;
  self_signed = false;
  sans = [];
  key_usage = [];
  extended_key_usage = [];
  extended_key_usage_unrestricted = true;
  public_key_algorithm = [];
  public_key_bits = 0;
  public_key_curve = [];
  signature_algorithm = [];
  sha1_fingerprint = [];
  sha256_fingerprint = fingerprint;
  spki_sha256_fingerprint = [];
  not_before = 0;
  not_after = 100;
  keystore = none;
  verification = none;
  archive_entries = [];
  dns_names = [];
  ip_addresses = [];
  parsed = parsed;
}
