-- ===== src/Jks/Parse/Steps.antt =====
-- An invariant of the loop variables of `parseJavaKeystore` of internal/scanner/jks.go, step by step.
use mathlib.Core.Path.{subst}
use mathlib.Core.List.{concat-ne-nil}
use Prim.Native.String.{String}
use certfinder.Base.{
  ℕ, zero, suc, ◌+◌, ◌≡◌, refl, ◌==◌, Bool, true, false, Option, none, some, List, [], ◌∷◌, Bytes,
  Arg, GoError, Result, ok, err, wrap_err, wrap, Post, Post-bind, Post-mono, Post-if, Post-wrap,
  if◌then◌else◌, arith, ◌≢◌, All, All-append, Bool-cases, Result-cases, inl, inr, ◌∙◌,
}
use certfinder.Jks.ModifiedUtf8.{decode_java_modified_utf8}
use certfinder.Jks.Parse.{
  Scan, Flow, next, stop, JavaKeystoreCertificate, CertificateRead, read, unread, fail, or_fail,
  note, keep, certificate_parts, certificate_type, certificate_der, classify_certificate,
  certificate, add_certificate, info, read_chain, private_entry, dispatch, decode_alias, alias_of,
  read_entry, read_entries, read_header, check_version, x509_type, equal_fold, and_then,
  tag_private_key, tag_trusted, tag_secret_key, entry_private_key, entry_trusted_cert,
}
use certfinder.Jks.Reader.{Reader, uint32, length_prefixed_uint16, take_uint32, skip, skip_uint32}
use certfinder.Jks.Reader.Slices.{
  Slice, Follows, Follows-refl, Follows-trans, Moves, Cuts, uint32-Moves,
  length_prefixed_uint16-Moves, take_uint32-Slice, skip-Follows, skip_uint32-Follows,
}
use certfinder.Model.{KeystoreInfo}

after :
    {r r' r'' : Reader} {der : Bytes}
    → Follows r r'
    → Slice der r'.bytes × Follows r' r''
    → Slice der r.bytes × Follows r r''
after {r} {r'} {r''} {der} h k = (subst (Slice der) h.same_bytes k.0, Follows-trans h k.1)

Post-any : {A P : Type 0} (m : Result A) → P → Post (λ _. P) m
Post-any (ok a) p = p
Post-any (err e) p = tt

-- The DER is a part of the data, and the reader has moved on.
abbrev pub Parts : Reader → Bytes × Bytes × Reader → Type 0
Parts r (kind, der, r') = Slice der r.bytes × Follows r r'

certificate_type-Moves : (version : ℕ) (r : Reader) → Post (Moves r) (certificate_type version r)
unfolding certificate_type
certificate_type-Moves version r =
    Post-if (Moves r) (version == 2) _ (ok (x509_type, r))
      (Post-bind (Moves r) (Moves r) (wrap_err _ [] (length_prefixed_uint16 r)) _
        (Post-wrap (Moves r) _ [] (length_prefixed_uint16 r) (length_prefixed_uint16-Moves r))
        λ (encoded, r') h.
          Post-bind (λ _. Follows r r') (Moves r)
            (wrap_err _ [] (decode_java_modified_utf8 encoded)) _ (Post-any _ h) λ _ k. k)
      (Follows-refl r)

certificate_der-Slice : (r : Reader) → Post (Cuts r) (certificate_der r)
unfolding certificate_der
certificate_der-Slice r =
    Post-bind (Moves r) (Cuts r) (wrap_err _ [] (uint32 r)) _
      (Post-wrap (Moves r) _ [] (uint32 r) (uint32-Moves r))
      λ (n, r') h. Post-wrap (Cuts r) _ [] (take_uint32 n r') (
        Post-mono (Cuts r') (Cuts r) (take_uint32 n r') (λ (der, r'') k. after h k)
          (take_uint32-Slice r' n))

pub certificate_parts-Slice :
    (version : ℕ) (r : Reader) → Post (Parts r) (certificate_parts version r)
unfolding certificate_parts
certificate_parts-Slice version r =
    Post-bind (Moves r) (Parts r) (certificate_type version r) _ (certificate_type-Moves version r)
      λ (kind, r') h.
        Post-bind (Cuts r') (Parts r) (certificate_der r') _ (certificate_der-Slice r')
          λ (der, r'') k. after h k

module _ {X : Type 0} (parse_certificate : Bytes → Result X) (body : Bytes) where
  -- The entry holds a certificate whose DER is a part of the file.
  pub record IsStored (c : JavaKeystoreCertificate X) : Type 0 where
    pub der : Bytes
    pub slice : Slice der body
    pub x : X
    pub parsed : parse_certificate der ≡ ok x
    pub held : c.certificate ≡ some x

  abbrev pub IsUnmarked : JavaKeystoreCertificate X → Type 0
  IsUnmarked c = IsStored c × (c.keystore.truststore ≡ false)

  abbrev pub IsTrusted : JavaKeystoreCertificate X → Type 0
  IsTrusted c = c.keystore.entry_type ≡ entry_trusted_cert

  pub record Inv (s : Scan X) : Type 0 where
    pub same : s.reader.bytes ≡ body
    pub unmarked : All IsUnmarked s.certificates
    pub trusted : s.private_key_entries ≡ 0 → All IsTrusted s.certificates

  -- After a step on a certificate: the invariant and the same kind of entries, or a return.
  abbrev pub Adds : Scan X → Flow X → Type 0
  Adds s (next s') = Inv s' × (s'.private_key_entries ≡ s.private_key_entries)
  Adds s (stop cs es) = All IsUnmarked cs × (es ≢ [])

  keep-private :
      (s : Scan X) (c : JavaKeystoreCertificate X) (o : Option X)
      → (keep s c o).private_key_entries ≡ s.private_key_entries
  keep-private s c none = refl
  keep-private s c (some x) = refl

  -- After a step: the invariant, or a return that names an error.
  abbrev pub Safe : Flow X → Type 0
  Safe (next s) = Inv s
  Safe (stop cs es) = All IsUnmarked cs × (es ≢ [])

  fail-Safe : (s : Scan X) (e : GoError) → Inv s → Safe (fail s e)
  fail-Safe s e v = (v.unmarked, concat-ne-nil e s.parse_errors)

  move-Inv : (s : Scan X) (r : Reader) → Inv s → r.bytes ≡ body → Inv (record s { reader = r })
  move-Inv s r v h = record { same = h; unmarked = v.unmarked; trusted = v.trusted }

  note-Inv : (s : Scan X) (e : Option GoError) → Inv s → Inv (note s e)
  note-Inv s none v = v
  note-Inv s (some e) v = record { same = v.same; unmarked = v.unmarked; trusted = v.trusted }

  -- What a certificate must be to be kept: stored if it holds anything, and of the entry's kind.
  abbrev Fits : Scan X → JavaKeystoreCertificate X → Type 0
  Fits s c =
      ((x : X) → c.certificate ≡ some x → IsStored c)
      × (c.keystore.truststore ≡ false)
      × (s.private_key_entries ≡ 0 → IsTrusted c)

  keep-Inv :
      (s : Scan X) (c : JavaKeystoreCertificate X) (o : Option X)
      → c.certificate ≡ o
      → Inv s
      → Fits s c
      → Inv (keep s c o)
  keep-Inv s c none e v f = v
  keep-Inv s c (some x) e v f = record {
    same = v.same;
    unmarked = All-append IsUnmarked s.certificates (c ∷ []) v.unmarked ((f.0 x e, f.1), tt);
    trusted = λ p. All-append IsTrusted s.certificates (c ∷ []) (v.trusted p) (f.2 p, tt);
  }

  -- A certificate that `reader.certificate` returns.
  abbrev ReadFits : KeystoreInfo → CertificateRead X → Type 0
  ReadFits k (unread e) = Unit
  ReadFits k (read c e r) =
      (r.bytes ≡ body) × ((x : X) → c.certificate ≡ some x → IsStored c) × (c.keystore ≡ k)

  classify_certificate-Fits :
      (k : KeystoreInfo) (kind der : Bytes) (r : Reader)
      → Slice der body
      → r.bytes ≡ body
      → ReadFits k (classify_certificate parse_certificate k kind der r)
  unfolding classify_certificate
  classify_certificate-Fits k kind der r sl e = elim (Bool-cases (equal_fold kind x509_type)) [
    | inr other ↦ rw other (e, (λ x h. cc), refl)
    | inl same ↦ rw same (elim (Result-cases (parse_certificate der)) [
      | inl (x, p) ↦
          rw p (e, (λ y h. record { der = der; slice = sl; x = x; parsed = p; held = refl }), refl)
      | inr (bad, p) ↦ rw p (e, (λ x h. cc), refl)
    ])
  ]

  certificate-Fits :
      (version : ℕ) (k : KeystoreInfo) (r : Reader)
      → r.bytes ≡ body
      → ReadFits k (certificate parse_certificate version k r)
  unfolding certificate
  certificate-Fits version k r e =
      go (certificate_parts version r) (certificate_parts-Slice version r)
    where
      go :
          (m : Result (Bytes × Bytes × Reader))
          → Post (Parts r) m
          → ReadFits k (elim m [
            | ok (kind, der, r') ↦ classify_certificate parse_certificate k kind der r'
            | err bad ↦ unread bad
          ])
      go (ok (kind, der, r')) p =
          classify_certificate-Fits k kind der r' (subst (Slice der) e p.0) (p.1.same_bytes ∙ e)
      go (err bad) p = tt

  pub add_certificate-Adds :
      (context : String) (args : List Arg) (version : ℕ) (k : KeystoreInfo) (s : Scan X)
      → Inv s
      → k.truststore ≡ false
      → (s.private_key_entries ≡ 0 → k.entry_type ≡ entry_trusted_cert)
      → Adds s (add_certificate parse_certificate context args version k s)
  unfolding add_certificate
  add_certificate-Adds context args version k s v unmarked trusted =
      go (certificate parse_certificate version k s.reader)
        (certificate-Fits version k s.reader v.same)
    where
      fits :
          (c : JavaKeystoreCertificate X)
          → ((x : X) → c.certificate ≡ some x → IsStored c)
          → c.keystore ≡ k
          → Fits s c
      fits c f e = (f, rw e unmarked, rw e trusted)

      go :
          (m : CertificateRead X)
          → ReadFits k m
          → Adds s (elim m [
            | unread e ↦ fail s (wrap context args e)
            | read c none r ↦ next (keep (record s { reader = r }) c c.certificate)
            | read c (some e) r ↦
                next (
                  keep
                    (note (record s { reader = r }) (some (wrap context args e)))
                    c
                    c.certificate)
          ])
      go (unread e) h = fail-Safe s _ v
      go (read c none r) h = (
        keep-Inv (record s { reader = r }) c c.certificate refl (move-Inv s r v h.0)
            (fits c h.1 h.2),
        keep-private (record s { reader = r }) c c.certificate,
      )
      go (read c (some e) r) h = (
        keep-Inv (note (record s { reader = r }) (some (wrap context args e))) c c.certificate refl
            (note-Inv (record s { reader = r }) (some (wrap context args e)) (move-Inv s r v h.0))
            (fits c h.1 h.2),
        keep-private (note (record s { reader = r }) (some (wrap context args e))) c c.certificate,
      )

  Adds-Safe : (s : Scan X) (m : Flow X) → Adds s m → Safe m
  Adds-Safe s (next s') h = h.0
  Adds-Safe s (stop cs es) h = h

  Adds-and_then :
      (s : Scan X) (m : Flow X) (f : Scan X → Flow X)
      → Adds s m
      → ((s' : Scan X) → Inv s' → s'.private_key_entries ≡ s.private_key_entries → Safe (f s'))
      → Safe (and_then m f)
  Adds-and_then s (next s') f h k = k s' h.0 h.1
  Adds-and_then s (stop cs es) f h k = h

  and_then-Safe :
      (m : Flow X) (f : Scan X → Flow X)
      → Safe m
      → ((s : Scan X) → Inv s → Safe (f s))
      → Safe (and_then m f)
  and_then-Safe (next s) f h k = k s h
  and_then-Safe (stop cs es) f h k = h

  or_fail-Safe :
      {A : Type 0} (P : A → Type 0) (s : Scan X) (m : Result A) (f : A → Flow X)
      → Inv s
      → Post P m
      → ((a : A) → P a → Safe (f a))
      → Safe (or_fail s m f)
  or_fail-Safe P s (ok a) f v h k = k a h
  or_fail-Safe P s (err e) f v h k = fail-Safe s e v

  read_chain-Safe :
      (format : Bytes) (version index : ℕ) (alias : Bytes) (left k : ℕ) (s : Scan X)
      → s.private_key_entries ≢ 0
      → Inv s
      → Safe (read_chain parse_certificate format version index alias left k s)
  unfolding read_chain
  read_chain-Safe format version index alias zero k s p v = v
  read_chain-Safe format version index alias (suc left) k s p v =
      Adds-and_then s _ _
        (add_certificate-Adds _ _ version (info parse_certificate format alias entry_private_key k)
          s v refl (λ z. absurd (p z)))
        λ s' v' same. read_chain-Safe format version index alias left (k + 1) s' (rw same p) v'

  private_entry-Safe :
      (format : Bytes) (version index : ℕ) (alias : Bytes) (s : Scan X)
      → s.private_key_entries ≢ 0
      → Inv s
      → Safe (private_entry parse_certificate format version index alias s)
  unfolding private_entry
  private_entry-Safe format version index alias s p v =
      or_fail-Safe (Moves s.reader) s (wrap_err _ _ (uint32 s.reader)) _ v
        (Post-wrap (Moves s.reader) _ _ (uint32 s.reader) (uint32-Moves s.reader))
        λ (n, r₁) h₁.
          or_fail-Safe (Follows r₁) s (wrap_err _ _ (skip_uint32 n r₁)) _ v
            (Post-wrap (Follows r₁) _ _ (skip_uint32 n r₁) (skip_uint32-Follows r₁ n))
            λ r₂ h₂.
              or_fail-Safe (Moves r₂) s (wrap_err _ _ (uint32 r₂)) _ v
                (Post-wrap (Moves r₂) _ _ (uint32 r₂) (uint32-Moves r₂))
                λ (m, r₃) h₃.
                  read_chain-Safe format version index alias m 0 (record s { reader = r₃ }) p
                    (move-Inv s r₃ v (h₃.same_bytes ∙ h₂.same_bytes ∙ h₁.same_bytes ∙ v.same))

  Safe-if : (t : Bool) (m n : Flow X) → Safe m → Safe n → Safe (if t then m else n)
  Safe-if true m n h k = h
  Safe-if false m n h k = k

  dispatch-Safe :
      (format : Bytes) (version index tag : ℕ) (alias : Bytes) (s : Scan X)
      → Inv s
      → Safe (dispatch parse_certificate format version index tag alias s)
  unfolding dispatch
  dispatch-Safe format version index tag alias s v =
      let s₁ = record s { private_key_entries = s.private_key_entries + 1 } in
      let s₂ = record s { trusted_entries = s.trusted_entries + 1 } in
      Safe-if (tag == tag_private_key) _ _
        (private_entry-Safe format version index alias s₁ (omega arith)
          (record { same = v.same; unmarked = v.unmarked; trusted = λ z. absurd (omega arith) }))
        (Safe-if (tag == tag_trusted) _ _
          (Adds-Safe s₂ _ (
            add_certificate-Adds _ _ version
              (info parse_certificate format alias entry_trusted_cert 0) s₂
              (record { same = v.same; unmarked = v.unmarked; trusted = v.trusted }) refl
              (λ _. refl)))
          (Safe-if (tag == tag_secret_key) _ _ (fail-Safe s _ v) (fail-Safe s _ v)))

  alias_of-Inv :
      (index : ℕ) (raw : Bytes) (s : Scan X) (m : Result Bytes)
      → Inv s
      → Inv (alias_of parse_certificate index raw s m).1
  unfolding alias_of
  alias_of-Inv index raw s (ok alias) v = v
  alias_of-Inv index raw s (err e) v = note-Inv s (some _) v

  read_entry-Safe :
      (format : Bytes) (version index : ℕ) (s : Scan X)
      → Inv s
      → Safe (read_entry parse_certificate format version index s)
  unfolding read_entry
  read_entry-Safe format version index s v =
      or_fail-Safe (Moves s.reader) s (wrap_err _ _ (uint32 s.reader)) _ v
        (Post-wrap (Moves s.reader) _ _ (uint32 s.reader) (uint32-Moves s.reader))
        λ (tag, r₁) h₁.
          or_fail-Safe (Moves r₁) s (wrap_err _ _ (length_prefixed_uint16 r₁)) _ v
            (Post-wrap (Moves r₁) _ _ (length_prefixed_uint16 r₁) (length_prefixed_uint16-Moves r₁))
            λ (raw, r₂) h₂.
              let (alias, s') = decode_alias parse_certificate index raw s in
              let v' = alias_of-Inv index raw s (decode_java_modified_utf8 raw) v in
              or_fail-Safe (Follows r₂) s' (wrap_err _ _ (skip 8 r₂)) _ v'
                (Post-wrap (Follows r₂) _ _ (skip 8 r₂) (skip-Follows r₂ 8))
                λ r₃ h₃.
                  dispatch-Safe format version index tag alias (record s' { reader = r₃ })
                    (move-Inv s' r₃ v' (h₃.same_bytes ∙ h₂.same_bytes ∙ h₁.same_bytes ∙ v.same))

  pub read_entries-Safe :
      (format : Bytes) (version left index : ℕ) (s : Scan X)
      → Inv s
      → Safe (read_entries parse_certificate format version left index s)
  unfolding read_entries
  read_entries-Safe format version zero index s v = v
  read_entries-Safe format version (suc left) index s v =
      and_then-Safe _ _ (read_entry-Safe format version index s v)
        λ s' v'. read_entries-Safe format version left (index + 1) s' v'

  abbrev pub Header : Reader → ℕ × ℕ × Reader → Type 0
  Header r (version, count, r') = Follows r r'

  -- The header only moves the reader on.
  pub read_header-Follows :
      (format : Bytes) (r : Reader) → Post (Header r) (read_header parse_certificate format r)
  unfolding read_header
  read_header-Follows format r =
      Post-bind (Moves r) (Header r) (wrap_err _ _ (uint32 r)) _
        (Post-wrap (Moves r) _ _ (uint32 r) (uint32-Moves r))
        λ (magic, r₁) h₁.
          Post-bind (Moves r₁) (Header r) (wrap_err _ _ (uint32 r₁)) _
            (Post-wrap (Moves r₁) _ _ (uint32 r₁) (uint32-Moves r₁))
            λ (encoded, r₂) h₂.
              Post-bind (λ _. Unit {0}) (Header r) (check_version parse_certificate format encoded)
                _ (Post-any (check_version parse_certificate format encoded) tt)
                λ version _.
                  Post-bind (Moves r₂) (Header r) (wrap_err _ _ (uint32 r₂)) _
                    (Post-wrap (Moves r₂) _ _ (uint32 r₂) (uint32-Moves r₂))
                    λ (count, r₃) h₃.
                      Post-if (Header r) (count == 0) _ (ok (version, count, r₃)) tt
                        (Follows-trans h₁ (Follows-trans h₂ h₃))
