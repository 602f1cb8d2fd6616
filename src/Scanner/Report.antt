-- ===== src/Scanner/Report.antt =====
-- The report of a scan: its order, `sortReport` of internal/scanner/scanner.go.
pub mod Order
mod Tests
use Prim.Native.Nat.{compare}
use certfinder.Base.Order.{compare_list}
use certfinder.Base.Order.Sort.{insert, sort}
use certfinder.Base.{ℕ, List, Bytes, GoError}
use certfinder.Model.{
  Certificate, Pkcs12EncryptedContent, Position, compare_position, certificate_position,
}

pub record FileError : Type 0 where
  pub path : Bytes
  pub error : GoError

pub record Report (X : Type 0) : Type 0 where
  pub certificates : List (Certificate X)
  pub errors : List FileError
  pub pkcs12_encrypted : List Pkcs12EncryptedContent

abbrev pub finding_position : Pkcs12EncryptedContent → Position
finding_position c = (c.path, (c.archive_entries, c.content_index))

abbrev pub error_path : FileError → Bytes
error_path e = e.path

unfoldable pub sort_report : {X : Type 0} → Report X → Report X
unfolding sort
sort_report r = record {
  certificates = sort certificate_position compare_position r.certificates;
  errors = sort error_path (compare_list compare) r.errors;
  pkcs12_encrypted = sort finding_position compare_position r.pkcs12_encrypted;
}
