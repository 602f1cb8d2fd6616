-- ===== src/Options/Hostname.antt =====
-- `-hostname`: `normalizeHostname` and `validateDNSName` of main.go. `parse_addr` stands for
-- `netip.ParseAddr` with `String()` of what it parses. A name is a list of ASCII characters.
pub mod Labels
use certfinder.Base.Text.{codes, bytes_eq}
use certfinder.Base.{
  ℕ, Bool, true, false, ◌||◌, ◌&&◌, not, Option, none, some, List, [], ◌∷◌, Bytes, length, leb, ltb,
  ◌==◌, if◌then◌else◌, GoError, errorf, wrap, text, num, Result, ok, err, ◌>>=◌, wrap_err, drop,
}
use certfinder.Options.Strings.{
  trim_space, trim_left, trim_right, contains_any, split_at, ends_with, but_last, has_prefix,
  member,
}

abbrev pub is_label_character : ℕ → Bool
is_label_character c =
    leb b'a' c && leb c b'z'
    || leb b'A' c && leb c b'Z'
    || leb b'0' c && leb c b'9'
    || c == b'-'
    || c == b'_'

-- The loop over the characters: the error of the first that is not supported.
unfoldable pub check_characters : Bytes → Option GoError
check_characters [] = none
check_characters (c ∷ s) =
    let rest = check_characters s in
    if is_label_character c
    then rest
    else some (errorf "DNS label contains unsupported character %q" (num c ∷ []))

unfoldable pub starts_with : Bytes → ℕ → Bool
starts_with [] d = false
starts_with (c ∷ s) d = c == d

-- One turn of the loop over the labels
unfoldable pub check_label : Bytes → Option GoError
unfolding check_characters ends_with starts_with
check_label label =
    if length label == 0 || ltb 63 (length label)
    then some (errorf "DNS labels must contain between 1 and 63 characters" [])
    else if starts_with label b'-' || ends_with label b'-'
    then some (errorf "DNS labels cannot start or end with a hyphen" [])
    else check_characters label

abbrev pub first_error : Option GoError → Option GoError → Option GoError
first_error (some e) rest = some e
first_error none rest = rest

unfoldable pub check_labels : List Bytes → Option GoError
unfolding check_label
check_labels [] = none
check_labels (l ∷ ls) = first_error (check_label l) (check_labels ls)

-- `strings.TrimSuffix(value, ".")`
unfoldable pub trim_dot : Bytes → Bytes
unfolding ends_with but_last
trim_dot value = if ends_with value b'.' then but_last value else value

unfoldable pub validate_dns_name : Bytes → Option GoError
unfolding check_labels split_at trim_dot
validate_dns_name value =
    let v = trim_dot value in
    if length v == 0 || ltb 253 (length v)
    then some (errorf "DNS name must contain between 1 and 253 characters" [])
    else check_labels (split_at b'.' v)

-- The value without its brackets, or none where a bracket stands elsewhere
unfoldable pub address_value : Bytes → Option Bytes
unfolding ends_with but_last contains_any starts_with
address_value value =
    if starts_with value b'[' && ends_with value b']'
    then some (but_last (drop 1 value))
    else if contains_any value (codes "[]")
    then none
    else some value

abbrev pub invalid_hostname : Bytes → GoError
invalid_hostname value = errorf "invalid hostname or IP address %q" (text value ∷ [])

abbrev pub as_dns_name : Bytes → Option GoError → Result Bytes
as_dns_name value none = ok value
as_dns_name value (some e) = err (wrap "invalid hostname or IP address %q: %w" (text value ∷ []) e)

abbrev pub as_address : Bytes → Option Bytes → Result Bytes
unfolding validate_dns_name
as_address value (some address) = ok address
as_address value none = as_dns_name value (validate_dns_name value)

abbrev pub as_hostname : (Bytes → Option Bytes) → Bytes → Option Bytes → Result Bytes
as_hostname parse_addr value none = err (invalid_hostname value)
as_hostname parse_addr value (some a) = as_address value (parse_addr a)

unfoldable pub normalize_hostname : (Bytes → Option Bytes) → Bytes → Result Bytes
unfolding address_value trim_left trim_right bytes_eq
normalize_hostname parse_addr value =
    if length value == 0
    then err (errorf "hostname cannot be empty" [])
    else if not (bytes_eq value (trim_space value))
    then err (invalid_hostname value)
    else as_hostname parse_addr value (address_value value)

-- `hostnameFlag.Set`: the flag's value and its error
abbrev pub stored : Bytes → Result Bytes → Bytes × Option GoError
stored old (ok v) = (v, none)
stored old (err e) = (old, some e)

unfoldable pub hostname_set : (Bytes → Option Bytes) → Bytes → Bytes → Bytes × Option GoError
unfolding normalize_hostname
hostname_set parse_addr old value = stored old (normalize_hostname parse_addr value)
