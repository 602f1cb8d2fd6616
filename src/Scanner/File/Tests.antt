-- ===== src/Scanner/File/Tests.antt =====
-- A file of three bytes, of which two may be read.
use certfinder.Archive.Format.{ArchiveFormat}
use certfinder.Base.Text.{codes}
use certfinder.Base.{ℕ, ◌≡◌, refl, true, false, none, some, [], ◌∷◌, Bytes}
use certfinder.Model.Sample.{sample}
use certfinder.Scanner.Content.{Outcome, Parsers, empty_outcome}
use certfinder.Scanner.File.{File, scan_file_contents}
use certfinder.Scanner.File.Reads.{described, scan_file_contents-described}

abbrev no_parsers : Parsers ℕ
no_parsers = record {
  detect_java_keystore = λ b. false;
  parse_java_keystore = λ b. ([], none);
  detect_pkcs12 = λ b. false;
  parse_pkcs12 = λ b. ([], [], none);
  parse_pem = λ b. [];
  parse_der = λ b. some b;
  describe = λ path i x. sample path i [] (some x);
}

abbrev no_archive : Bytes → ArchiveFormat → Outcome ℕ
no_archive b f = empty_outcome

abbrev three_bytes : File
three_bytes = record {
  content = 7 ∷ 8 ∷ 9 ∷ [];
  failure = none;
  open_error = none;
  seek_error = none;
}

scan_file_contents-described_example :
    scan_file_contents no_parsers no_archive 2 true (codes "a") three_bytes
    ≡ described no_parsers no_archive 2 true (codes "a") three_bytes
scan_file_contents-described_example =
    scan_file_contents-described no_parsers no_archive 2 true (codes "a") three_bytes
      (record { opens = refl; seeks = refl; reads = refl })

three_bytes-capped :
    (scan_file_contents no_parsers no_archive 2 true (codes "a") three_bytes).capped ≡ true
unfolding scan_file_contents
three_bytes-capped = refl
