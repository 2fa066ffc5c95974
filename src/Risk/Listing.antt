-- ===== src/Risk/Listing.antt =====
-- The sanctions check after `sanctions.load` has run at startup.
use skr_crypto.Exceptions.{Reply, returned, raised}
use skr_crypto.Sanctions
use skr_crypto.Sanctions.{Sources, member-parse, contains-load-ne-none}
use skr_crypto.Risk.Types.{ok, fail, skip, sanctions, passed}
use skr_crypto.Risk.Checks.{check_sanctions}
use skr_crypto.Prelude.{
  String, Bool, true, false, ◌&&◌, Option, none, some, List, ◌≡◌, ◌≢◌, arith, if◌then◌else◌,
}

-- After a download, the check fails exactly for the lines of the file that are neither blank nor
-- comments.
listed_after_download :
    (a : String) (s : Sources) (lines : List String)
    → s.refresh ≡ true
    → s.download ≡ returned lines
    → (check_sanctions a (Sanctions.load s).1).status
      ≡ (if Sanctions.member a lines && Sanctions.keeps_line a then fail else ok)
unfolding check_sanctions Sanctions.load Sanctions.contains
listed_after_download a s lines r d = ground (arith, member-parse a lines)

abbrev pub is_returned : {A : Type 0} → Reply A → Bool
is_returned (returned a) = true
is_returned (raised e) = false

abbrev pub has_cache : Option (Reply (List String)) → Bool
has_cache none = false
has_cache (some r) = is_returned r

-- Where the download is off or raises, and the cache file is missing or unreadable, every address
-- passes the sanctions check with status OK.
pub no_source_passes :
    (a : String) (s : Sources)
    → (s.refresh && is_returned s.download) ≡ false
    → has_cache s.cached ≡ false
    → check_sanctions a (Sanctions.load s).1 ≡ passed sanctions
unfolding check_sanctions Sanctions.load Sanctions.contains Sanctions.member
no_source_passes a s d c = ground arith

-- Once `load` has run, whatever it found, the check is never SKIP.
never_skipped : (a : String) (s : Sources) → (check_sanctions a (Sanctions.load s).1).status ≢ skip
unfolding check_sanctions
never_skipped a s = ground (arith, contains-load-ne-none a s)
