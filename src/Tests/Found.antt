-- ===== src/Tests/Found.antt =====
-- Runs of the release checker in internal/codexcli/releases.go.
use my_wio.Base.{◌≡◌, refl, true, false, ◌+◌, none, some, [], ◌∷◌, Bool, arith, String}
use my_wio.Text.{
  unsigned, trim_suffix, trim_left, strip_prefix, is_space, digits_from, atoi, add_to_first,
  trim_prefix, trim_space, split, has_prefix, codes,
}
use my_wio.CodexCli.Releases.{
  first_version, recent_npm, version_greater, newest, add_version, add_releases, collect,
  recent_git_hub, is_loaded, search_releases, remember, Release, loaded, ReleaseChecker, Pages,
  recent_stable, latest_stable, latest, stable_version, cache_ns,
}
use my_wio.CodexCli.Releases.Cached.{
  is_offer, has_offers, is_panic, recent_stable-is_offer, latest_stable-panics,
}
use my_wio.CodexCli.{
  parse_version, parse_reported_version, parse_parts, matches_strict, is_strict_part, is_newer,
  update_available, valid_target_version,
}
use my_wio.Store.Table.{insert_by, order_by}

abbrev fresh : ReleaseChecker
fresh = record {
  tag_prefix = codes "rust-v";
  has_registry = true;
  cache = [];
  cache_limit = 0;
  cache_until = 0;
}

abbrev release : String → Bool → Release
release tag preview = record { tag_name = codes tag; draft = false; prerelease = preview }

-- One page, with a version that is named twice and one that is not stable.
abbrev one_page : Pages
one_page page = some (
    release "rust-v0.9.0" false
    ∷ release "rust-v0.10.0" false
    ∷ release "rust-v0.11.0" true
    ∷ release "rust-v0.9.0" false
    ∷ release "v1.0.0" false
    ∷ [])

-- The newest come first, and are kept for five minutes.
recent_run : recent_stable one_page none 7 3 fresh ≡ (
    let found = codes "0.10.0" ∷ codes "0.9.0" ∷ [] in
    (record fresh { cache = found; cache_limit = 3; cache_until = 7 + cache_ns }, loaded found))
unfolding recent_stable remember search_releases is_loaded recent_git_hub collect add_releases
    add_version stable_version has_prefix valid_target_version split trim_space trim_prefix newest
    order_by version_greater update_available mathlib.Core.Option.bind recent_npm is_newer
    is_strict_part matches_strict parse_parts parse_reported_version parse_version insert_by
    add_to_first atoi digits_from is_space strip_prefix trim_left trim_suffix unsigned
recent_run = refl

-- Without GitHub the registry is asked.
registry_run :
    (latest_stable (λ page. none) (some (codes "1.2.3" ∷ codes "1.3.0-beta" ∷ [])) 7 fresh).1
    ≡ latest (codes "1.2.3")
unfolding latest_stable first_version recent_stable search_releases is_loaded recent_git_hub collect
    recent_npm newest valid_target_version split trim_space order_by
registry_run = refl

recent_stable-is_offer_example :
    (is_offer 2 (recent_stable one_page none 7 2 fresh).1 ≡ true)
    × (has_offers (recent_stable one_page none 7 2 fresh).0 ≡ true)
unfolding has_offers
recent_stable-is_offer_example = recent_stable-is_offer one_page none 7 fresh refl 2 (omega arith)

latest_stable-panics_example : is_panic (latest_stable one_page none 7 fresh).1 ≡ false
unfolding has_offers
latest_stable-panics_example = latest_stable-panics one_page none 7 fresh refl
