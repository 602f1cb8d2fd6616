-- ===== src/Display/Order.antt =====
-- The order of the calls of `Update` of progress.go, which the workers of a scan make in any order.
use mathlib.Core.List.{Permᴰ}
use certfinder.Base.{
  ℕ, max, Bool, true, false, ◌||◌, List, [], ◌∷◌, ◌≡◌, refl, ◌∙◌, sym, ap, arith, Bool-cases, inl,
  inr,
}
use certfinder.Display.{Progress, ProgressDisplay, merge_progress, update}

max_swap : (a b c : ℕ) → max (max a b) c ≡ max (max a c) b
max_swap a b c = omega arith

or_swap : (a b c : Bool) → (a || b) || c ≡ (a || c) || b
or_swap true b c = refl
or_swap false true true = refl
or_swap false true false = refl
or_swap false false c = ground arith

merge_progress_swap :
    (a p q : Progress)
    → merge_progress (merge_progress a p) q ≡ merge_progress (merge_progress a q) p
unfolding merge_progress
merge_progress_swap a p q = λ i. record {
  files_discovered = max_swap a.files_discovered p.files_discovered q.files_discovered i;
  files_scanned = max_swap a.files_scanned p.files_scanned q.files_scanned i;
  files_capped = max_swap a.files_capped p.files_capped q.files_capped i;
  archive_entries_discovered =
      max_swap a.archive_entries_discovered p.archive_entries_discovered
        q.archive_entries_discovered i;
  archive_entries_scanned =
      max_swap a.archive_entries_scanned p.archive_entries_scanned q.archive_entries_scanned i;
  archive_entries_capped =
      max_swap a.archive_entries_capped p.archive_entries_capped q.archive_entries_capped i;
  certificates_found = max_swap a.certificates_found p.certificates_found q.certificates_found i;
  pkcs12_encrypted = max_swap a.pkcs12_encrypted p.pkcs12_encrypted q.pkcs12_encrypted i;
  scan_errors = max_swap a.scan_errors p.scan_errors q.scan_errors i;
  discovery_complete = or_swap a.discovery_complete p.discovery_complete q.discovery_complete i;
}

module _ {R : Type 0} where
  update-stopped : (p : Progress) (d : ProgressDisplay R) → d.stopped ≡ true → update p d ≡ d
  unfolding update
  update-stopped p d h = rw h refl

  update-going :
      (p : Progress) (d : ProgressDisplay R)
      → d.stopped ≡ false
      → update p d ≡ record d { progress = merge_progress d.progress p }
  unfolding update
  update-going p d h = rw h refl

  update-going_twice :
      (p q : Progress) (d : ProgressDisplay R)
      → d.stopped ≡ false
      → update q (update p d)
        ≡ record d { progress = merge_progress (merge_progress d.progress p) q }
  update-going_twice p q d h =
      ap (update q) (update-going p d h)
      ∙ update-going q (record d { progress = merge_progress d.progress p }) h

  update_swap :
      (p q : Progress) (d : ProgressDisplay R) → update q (update p d) ≡ update p (update q d)
  update_swap p q d = elim (Bool-cases d.stopped) [
    | inl y ↦
        ap (update q) (update-stopped p d y)
        ∙ update-stopped q d y
        ∙ sym (ap (update p) (update-stopped q d y) ∙ update-stopped p d y)
    | inr z ↦
        update-going_twice p q d z
        ∙ ap (λ m. record d { progress = m }) (merge_progress_swap d.progress p q)
        ∙ sym (update-going_twice q p d z)
  ]

  unfoldable pub update_all : List Progress → ProgressDisplay R → ProgressDisplay R
  unfolding update
  update_all [] d = d
  update_all (p ∷ ps) d = update_all ps (update p d)

  -- Reports of progress that come in another order leave the same display.
  pub update_all-perm :
      {ps qs : List Progress} (d : ProgressDisplay R)
      → Permᴰ ps qs
      → update_all ps d ≡ update_all qs d
  unfolding update_all
  update_all-perm d Permᴰ.nil = refl
  update_all-perm d (Permᴰ.cons {a} {b} {l₁} {l₂} e h) = rw e (update_all-perm (update b d) h)
  update_all-perm d (Permᴰ.swap {a} {b} {a'} {b'} {l} e k) =
      rw (e, k) (ap (update_all l) (update_swap b' a' d))
  update_all-perm d (Permᴰ.trans h k) = update_all-perm d h ∙ update_all-perm d k
