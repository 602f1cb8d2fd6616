-- ===== src/Archive/Scan/Kept.antt =====
-- What the counters of an archive scan keep: `archiveScanner` of internal/scanner/archive.go through
-- `beginEntry`, `scanEntry` and `finishEntry`.
use certfinder.Archive.Outcomes.{begin_entry, finish_entry}
use certfinder.Archive.Scan.{Limits, ScanState, Scanned}
use certfinder.Base.{
  ℕ, ◌+◌, ◌≤◌, ◌<◌, ◌≡◌, ◌≢◌, refl, arith, Bool, Option, none, some, GoError, join_two,
}
use certfinder.Scanner.Content.{Outcome}

pub join_two-left : (a b : Option GoError) → a ≢ none → join_two a b ≢ none
join_two-left none b h e = h refl
join_two-left (some a) none h e = h e
join_two-left (some a) (some b) h e = cc

pub join_two-right : (a b : Option GoError) → b ≢ none → join_two a b ≢ none
join_two-right none b h e = h e
join_two-right (some a) none h e = h refl
join_two-right (some a) (some b) h e = cc

module _ (limits : Limits) where
  -- The counters, where `n` entries have begun and not ended, and up to `l` entries were refused
  pub record Kept (l n : ℕ) (s : ScanState) : Type 0 where
    pub within : s.bytes_read ≤ limits.archive_max_bytes
    pub delivered : s.delivered ≡ s.bytes_read
    pub told : s.counters.discovered ≡ s.counters.entries
    pub begun : s.counters.scanned + n ≤ s.counters.entries
    pub admitted : s.counters.scanned + n ≤ limits.archive_max_entries
    pub some_capped : s.counters.capped ≤ s.counters.scanned
    pub bounded : s.counters.entries ≤ limits.archive_max_entries + l

  -- A scan that was refused an entry has an error.
  pub record Held {X : Type 0} (l n : ℕ) (x : Scanned X) : Type 0 where
    pub kept : Kept l n x.1
    pub reported : limits.archive_max_entries < x.1.counters.entries → x.0.error ≢ none

  pub Kept-mono : (l k n m : ℕ) (s : ScanState) → l ≤ k → m ≤ n → Kept l n s → Kept k m s
  Kept-mono l k n m s h g r = record {
    within = r.within;
    delivered = r.delivered;
    told = r.told;
    begun = omega (arith, r.begun);
    admitted = omega (arith, r.admitted);
    some_capped = r.some_capped;
    bounded = omega (arith, r.bounded);
  }

  pub Kept-read :
      (l n : ℕ) (s : ScanState) (b m : ℕ)
      → b ≤ limits.archive_max_bytes
      → b ≡ s.bytes_read + m
      → Kept l n s
      → Kept l n (record s { bytes_read = b; delivered = s.delivered + m })
  Kept-read l n s b m h k r = record {
    within = h;
    delivered = omega (arith, r.delivered);
    told = r.told;
    begun = r.begun;
    admitted = r.admitted;
    some_capped = r.some_capped;
    bounded = r.bounded;
  }

  pub Kept-begin :
      (l n : ℕ) (s : ScanState)
      → Kept l n s
      → (s.counters.entries < limits.archive_max_entries)
      → Kept 0
          (n + 1)
          (record s { counters = (begin_entry limits.archive_max_entries s.counters).0 })
  unfolding begin_entry
  Kept-begin l n s r h = record {
    within = r.within;
    delivered = r.delivered;
    told = omega (arith, r.told);
    begun = omega (arith, r.begun);
    admitted = omega (arith, r.begun);
    some_capped = r.some_capped;
    bounded = omega arith;
  }

  pub Kept-refused :
      (l n : ℕ) (s : ScanState)
      → Kept l n s
      → Kept
          (l + 1)
          n
          (record s { counters = (begin_entry limits.archive_max_entries s.counters).0 })
  unfolding begin_entry
  Kept-refused l n s r = record {
    within = r.within;
    delivered = r.delivered;
    told = omega (arith, r.told);
    begun = omega (arith, r.begun);
    admitted = r.admitted;
    some_capped = r.some_capped;
    bounded = omega (arith, r.bounded);
  }

  pub Kept-finish :
      (l n : ℕ) (s : ScanState) (capped : Bool)
      → Kept l (n + 1) s
      → Kept l n (record s { counters = finish_entry capped s.counters })
  unfolding finish_entry
  Kept-finish l n s capped r = record {
    within = r.within;
    delivered = r.delivered;
    told = r.told;
    begun = omega (arith, r.begun);
    admitted = omega (arith, r.admitted);
    some_capped = ground (arith, r.some_capped);
    bounded = r.bounded;
  }

  -- Where no entry was refused there is nothing to report.
  pub Held-quiet :
      {X : Type 0} (l n : ℕ) (o : Outcome X) (s : ScanState) → Kept 0 n s → Held l n (o, s)
  Held-quiet l n o s r = record {
    kept = Kept-mono 0 l n n s (omega arith) (omega arith) r;
    reported = λ h. absurd (omega (arith, r.bounded));
  }

  pub Held-error :
      {X : Type 0} (l n : ℕ) (o p : Outcome X) (s : ScanState)
      → (o.error ≢ none → p.error ≢ none)
      → Held l n (o, s)
      → Held l n (p, s)
  Held-error l n o p s f h = record { kept = h.kept; reported = λ k. f (h.reported k) }
