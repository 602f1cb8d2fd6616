-- ===== src/Jks/Parse/Slices.antt =====
-- What `parseJavaKeystore` of internal/scanner/jks.go returns for any bytes at all.
use mathlib.Core.List.{concat-ne-nil}
use certfinder.Base.{
  ℕ, ◌-◌, ◌≡◌, ◌≢◌, refl, Bool, true, false, not, Option, none, some, List, [], ◌∷◌, map, Bytes,
  All, All-mono, length, ltb, ◌==◌, if◌then◌else◌, GoError, Result, ok, err, Post,
  join_errors-ne-none, take, and_left, ==_iff,
}
use certfinder.Jks.Parse.Steps.{
  IsStored, IsUnmarked, IsTrusted, Inv, Safe, read_entries-Safe, read_header-Follows, Header,
}
use certfinder.Jks.Parse.{
  Scan, Flow, next, stop, JavaKeystoreCertificate, mark_truststore, finish, finish_flow, start,
  is_truststore, read_header, read_entries, parse_entries, parse_detected, parse_java_keystore,
  mac_size, minimum_file_bytes,
}
use certfinder.Jks.Reader.{Reader, remaining, detect_java_keystore}

length-map_nil : {A B : Type 0} (f : A → B) (xs : List A) → map f xs ≡ [] → (length xs == 0) ≡ true
length-map_nil f [] e = refl
length-map_nil f (x ∷ xs) e = cc

module _ {X : Type 0} (parse_certificate : Bytes → Result X) where
  -- A certificate of the result: its DER is a part of the file, and it is marked as one of a
  -- truststore only if it is a trusted entry.
  pub record IsSound (body : Bytes) (c : JavaKeystoreCertificate X) : Type 0 where
    pub stored : IsStored parse_certificate body c
    pub marked : c.keystore.truststore ≡ true → IsTrusted parse_certificate body c

  -- A result: sound certificates, and an error if there are none.
  abbrev pub IsReport : Bytes → List (JavaKeystoreCertificate X) × Option GoError → Type 0
  IsReport body (cs, e) = All (IsSound body) cs × (cs ≡ [] → e ≢ none)

  unmarked-IsSound :
      (body : Bytes) (c : JavaKeystoreCertificate X)
      → IsUnmarked parse_certificate body c
      → IsSound body c
  unmarked-IsSound body c h = record { stored = h.0; marked = λ e. cc (h.1) }

  mark_truststore-IsSound :
      (body : Bytes) (t : Bool) (cs : List (JavaKeystoreCertificate X))
      → All (IsUnmarked parse_certificate body) cs
      → (t ≡ true → All (IsTrusted parse_certificate body) cs)
      → All (IsSound body) (map (mark_truststore parse_certificate t) cs)
  mark_truststore-IsSound body t [] h k = tt
  mark_truststore-IsSound body t (c ∷ cs) h k = (
    record {
      stored = record {
        der = h.0.0.der;
        slice = h.0.0.slice;
        x = h.0.0.x;
        parsed = h.0.0.parsed;
        held = h.0.0.held;
      };
      marked = λ e. (k e).0;
    },
    mark_truststore-IsSound body t cs h.1 (λ e. (k e).1),
  )

  IsReport-if :
      (body : Bytes) (t : Bool) (x y : List (JavaKeystoreCertificate X) × Option GoError)
      → IsReport body x
      → IsReport body y
      → IsReport body (if t then x else y)
  IsReport-if body true x y h k = h
  IsReport-if body false x y h k = k

  finish-IsReport :
      (body format : Bytes) (s : Scan X)
      → Inv parse_certificate body s
      → IsReport body (finish parse_certificate format s)
  unfolding finish
  finish-IsReport body format s v =
      let private = s.private_key_entries == 0 in
      let noted = λ (e : GoError). join_errors-ne-none _ (concat-ne-nil e s.parse_errors) in
      IsReport-if body (not (remaining s.reader == 0)) _ _
        (All-mono s.certificates (unmarked-IsSound body) v.unmarked, λ _. noted _)
        (
          mark_truststore-IsSound body (is_truststore parse_certificate s) s.certificates v.unmarked
              (λ t. v.trusted ((==_iff s.private_key_entries 0).0 (and_left private _ t))),
          λ empty. rw (length-map_nil _ s.certificates empty) (noted _),
        )

  finish_flow-IsReport :
      (body format : Bytes) (m : Flow X)
      → Safe parse_certificate body m
      → IsReport body (finish_flow parse_certificate format m)
  unfolding finish_flow
  finish_flow-IsReport body format (next s) h = finish-IsReport body format s h
  finish_flow-IsReport body format (stop cs es) h =
      (All-mono cs (unmarked-IsSound body) h.0, λ _. join_errors-ne-none es h.1)

  entries-IsReport :
      (body format : Bytes) (m : Result (ℕ × ℕ × Reader))
      → Post (Header parse_certificate body (record { bytes = body; offset = 0 })) m
      → IsReport body (parse_entries parse_certificate format m)
  unfolding parse_entries
  entries-IsReport body format (err e) h = (tt, λ _. cc)
  entries-IsReport body format (ok (version, count, r)) h =
      finish_flow-IsReport body format
        (read_entries parse_certificate format version count 0 (start parse_certificate r))
        (read_entries-Safe parse_certificate body format version count 0 _
          (record { same = h.same_bytes; unmarked = tt; trusted = λ _. tt }))

  detected-IsReport :
      (bytes : Bytes) (f : Option Bytes)
      → IsReport (take (length bytes - mac_size) bytes) (parse_detected parse_certificate bytes f)
  unfolding parse_detected
  detected-IsReport bytes none = (tt, λ _. cc)
  detected-IsReport bytes (some format) =
      let body = take (length bytes - mac_size) bytes in
      let r : Reader = record { bytes = body; offset = 0 } in
      IsReport-if body (ltb (length bytes) minimum_file_bytes) _ _ (tt, λ _. cc)
        (entries-IsReport body format (read_header parse_certificate format r)
          (read_header-Follows parse_certificate body format r))

  -- For every file: each certificate that is returned was parsed from bytes that stand in the file
  -- in front of its last 20 (the integrity MAC, which is not read); one that is marked as belonging
  -- to a truststore comes from a trusted entry; and a result with no certificate has an error.
  pub parse_java_keystore-IsReport :
      (bytes : Bytes)
      → IsReport
          (take (length bytes - mac_size) bytes)
          (parse_java_keystore parse_certificate bytes)
  unfolding parse_java_keystore
  parse_java_keystore-IsReport bytes = detected-IsReport bytes (detect_java_keystore bytes)
