-- ===== src/CodexCli/Releases.antt =====
-- internal/codexcli/releases.go: the newest stable releases of a command line program, with their cache.
-- What the two servers answer is a parameter; times are nanoseconds.
pub mod Cached
use my_wio.Base.{
  ℕ, zero, suc, ◌+◌, ◌*◌, Bool, true, false, ◌&&◌, ◌||◌, not, Option, none, some, List, [], ◌∷◌,
  ltb, leb, ◌==◌, any, keep, length, take, if◌then◌else◌, ◌++◌,
}
use my_wio.Text.{Text, has_prefix, trim_prefix, text_eq}
use my_wio.Store.Table.{order_by}
use my_wio.CodexCli.{valid_target_version, update_available}

-- `githubRelease`.
pub record Release : Type 0 where
  pub tag_name : Text
  pub draft : Bool
  pub prerelease : Bool

-- What a request for releases gives; the last one stands for the errors of requests and of decoding.
pub data Loaded : Type 0 where
  loaded : List Text → Loaded
  no_stable_release : Loaded
  load_failed : Loaded

-- `ReleaseChecker`, of which the addresses are known only to the requests.
pub record ReleaseChecker : Type 0 where
  pub tag_prefix : Text
  pub has_registry : Bool
  pub cache : List Text
  pub cache_limit : ℕ
  pub cache_until : ℕ

abbrev pub release_page_size : ℕ
release_page_size = 10

abbrev pub release_max_pages : ℕ
release_max_pages = 5

abbrev pub cache_ns : ℕ
cache_ns = 5 * 60 * 1000000000

-- `versionGreater`.
unfoldable pub version_greater : Text → Text → Bool
version_greater left right = update_available right left

-- The version that a release names, unless the loop passes over it.
unfoldable pub stable_version : Text → Release → Option Text
stable_version prefix release =
    let version = trim_prefix release.tag_name prefix in
    if not release.draft
      && not release.prerelease
      && has_prefix release.tag_name prefix
      && valid_target_version version
    then some version
    else none

-- A version is added unless it is there.
unfoldable pub add_version : List Text → Option Text → List Text
add_version versions none = versions
add_version versions (some version) =
    if any (text_eq version) versions then versions else versions ++ (version ∷ [])

unfoldable pub add_releases : Text → List Release → List Text → List Text
add_releases prefix [] versions = versions
add_releases prefix (release ∷ releases) versions =
    add_releases prefix releases (add_version versions (stable_version prefix release))

-- `loadPage`, or `none` for an error.
abbrev pub Pages : Type 0
Pages = ℕ → Option (List Release)

-- The loop over the pages, from `page` on and at most `fuel` of them.
unfoldable pub collect : Pages → Text → ℕ → ℕ → ℕ → List Text → Option (List Text)
collect pages prefix limit zero page versions = some versions
collect pages prefix limit (suc fuel) page versions = elim (pages page) [
  | none ↦ none
  | some releases ↦
      let found = add_releases prefix releases versions in
      let rest = collect pages prefix limit fuel (page + 1) found in
      if leb limit (length found) || ltb (length releases) release_page_size
      then some found
      else rest
]

-- The end of both searches. The library's sort may order ties otherwise than this one.
unfoldable pub newest : ℕ → List Text → Loaded
newest limit versions =
    if length versions == 0
    then no_stable_release
    else loaded (take limit (order_by version_greater versions))

-- `recentGitHub`.
unfoldable pub recent_git_hub : Pages → Text → ℕ → Loaded
recent_git_hub pages prefix limit =
    if limit == 0 then loaded [] else elim (collect pages prefix limit release_max_pages 1 []) [
      | none ↦ load_failed
      | some versions ↦ newest limit versions
    ]

-- `recentNPM`; the registry's answer is the keys of its map of versions, or `none` for an error.
unfoldable pub recent_npm : Option (List Text) → ℕ → Loaded
recent_npm none limit = load_failed
recent_npm (some versions) limit = newest limit (keep valid_target_version versions)

unfoldable pub is_loaded : Loaded → Bool
is_loaded (loaded versions) = true
is_loaded no_stable_release = false
is_loaded load_failed = false

-- The search, and the registry behind it when that fails.
unfoldable pub search_releases : Pages → Option (List Text) → ReleaseChecker → ℕ → Loaded
search_releases pages registry c limit =
    let found = recent_git_hub pages c.tag_prefix limit in
    if not (is_loaded found) && c.has_registry then recent_npm registry limit else found

unfoldable pub remember : ℕ → ReleaseChecker → ℕ → Loaded → ReleaseChecker
remember now c limit (loaded versions) = record c {
  cache = versions;
  cache_limit = limit;
  cache_until = now + cache_ns;
}
remember now c limit no_stable_release = c
remember now c limit load_failed = c

-- `RecentStable`; a limit below one is 0.
unfoldable pub recent_stable :
    Pages → Option (List Text) → ℕ → ℕ → ReleaseChecker → ReleaseChecker × Loaded
recent_stable pages registry now limit c =
    if limit == 0
    then (c, loaded [])
    else if ltb now c.cache_until && leb limit c.cache_limit
    then (c, loaded (take limit c.cache))
    else (let found = search_releases pages registry c limit in (remember now c limit found, found))

-- `LatestStable`, whose access `versions[0]` panics on an empty list.
pub data Latest : Type 0 where
  latest : Text → Latest
  no_latest : Latest
  panics : Latest

unfoldable pub first_version : Loaded → Latest
first_version (loaded []) = panics
first_version (loaded (version ∷ versions)) = latest version
first_version no_stable_release = no_latest
first_version load_failed = no_latest

unfoldable pub latest_stable :
    Pages → Option (List Text) → ℕ → ReleaseChecker → ReleaseChecker × Latest
latest_stable pages registry now c =
    let found = recent_stable pages registry now 1 c in (found.0, first_version found.1)
