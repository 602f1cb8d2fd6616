-- ===== src/Archive/Scan/Tests.antt =====
-- A TAR archive with a file of one byte and a gzip archive of another, with limits that both reach.
use certfinder.Archive.Budget.{Stream, read_all, rounds}
use certfinder.Archive.Format.{format_tar}
use certfinder.Archive.Scan.{TarEntry, Readers, Limits}
use certfinder.Archive.Scan.Entry.{prefix_content, file_content, nested_archive, nested_data}
use certfinder.Archive.Scan.Found.{scan_archive_file-Named}
use certfinder.Archive.Scan.Kept.{Held}
use certfinder.Archive.Scan.Names.{Named, Leads}
use certfinder.Archive.Scan.Walk.{
  begin, merged, tar_entry, finished, gzip_closed, tar_end, gzip_name, scan_archive_file,
}
use certfinder.Archive.Scan.Whole.{scan_archive_file-Held}
use certfinder.Base.Text.{codes}
use certfinder.Base.{
  ℕ, ◌≡◌, refl, true, false, none, some, List, [], ◌∷◌, Bytes, ok, err, foreign, map,
}
use certfinder.Model.{Certificate}
use certfinder.Model.Sample.{sample}
use certfinder.Scanner.Content.{Parsers}

abbrev each_byte : Parsers ℕ
each_byte = record {
  detect_java_keystore = λ b. false;
  parse_java_keystore = λ b. ([], none);
  detect_pkcs12 = λ b. false;
  parse_pkcs12 = λ b. ([], [], none);
  parse_pem = λ b. b;
  parse_der = λ b. none;
  describe = λ path i x. sample path i [] (some x);
}

abbrev piece : Bytes → Stream
piece b = record { pieces = b ∷ []; failure = none }

abbrev two_entries : List TarEntry
two_entries =
    record { name = codes "a.pem"; is_regular = true; content = piece (7 ∷ []) }
    ∷ record { name = codes "b.gz"; is_regular = true; content = piece (0x1f ∷ 0x8b ∷ []) }
    ∷ []

abbrev readers : Readers
readers = record {
  zip = λ b. err (foreign []);
  tar = λ b. (two_entries, none);
  gzip = λ b. ok (record { name = codes "b"; content = piece (8 ∷ []); close_error = none });
  clean = λ n. n;
  file_base = λ n. n;
  path_base = λ n. n;
}

abbrev limits : Limits
limits = record {
  max_bytes = 10;
  archive_max_bytes = 4;
  archive_max_entries = 3;
  archive_max_depth = 2;
}

scan_archive_file-Held_example :
    Held limits 2 0 (scan_archive_file each_byte readers limits (codes "x.tar") [] format_tar)
scan_archive_file-Held_example =
    scan_archive_file-Held each_byte readers limits (codes "x.tar") [] format_tar

scan_archive_file-Named_example :
    Named
      (Leads readers (codes "x.tar") [] format_tar [])
      2
      []
      (scan_archive_file each_byte readers limits (codes "x.tar") [] format_tar).0
scan_archive_file-Named_example =
    scan_archive_file-Named each_byte readers limits (codes "x.tar") [] format_tar

abbrev origin : Certificate ℕ → List Bytes
origin c = c.archive_entries

found_in_both :
    (let (o, s) = scan_archive_file each_byte readers limits (codes "x.tar") [] format_tar in
      (map origin o.certificates ≡ (codes "a.pem" ∷ []) ∷ (codes "b.gz" ∷ codes "b" ∷ []) ∷ [])
      × (s.bytes_read ≡ 4))
unfolding scan_archive_file begin merged tar_entry prefix_content read_all rounds file_content
    finished nested_archive nested_data gzip_closed tar_end gzip_name
found_in_both = (refl, refl)
