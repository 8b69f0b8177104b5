-- ===== src/CodexCli/Releases/Cached.antt =====
-- internal/codexcli/releases.go: what the release checker answers, from its cache or not.
use my_wio.Base.{
  ℕ, zero, suc, ◌+◌, ◌≤◌, ◌≡◌, refl, Bool, true, false, ◌&&◌, ◌||◌, Option, none, some, List, [],
  ◌∷◌, ltb, leb, ◌==◌, all, keep, length, take, arith, Option-cases, inl, inr, subst, ◌++◌,
  length-take_le,
}
use my_wio.Text.{Text}
use my_wio.Store.Table.{order_by, all-order_by, length-order_by, all-take, all-keep}
use my_wio.CodexCli.{valid_target_version}
use my_wio.CodexCli.Releases.{
  Release, Loaded, loaded, no_stable_release, load_failed, ReleaseChecker, release_max_pages,
  version_greater, stable_version, add_version, add_releases, Pages, collect, newest,
  recent_git_hub, recent_npm, search_releases, remember, recent_stable, Latest, latest, no_latest,
  panics, first_version, latest_stable,
}

-- Versions that may be offered: all valid, at least one and at most `limit`.
unfoldable pub are_offered : ℕ → List Text → Bool
are_offered limit versions =
    all valid_target_version versions && ltb 0 (length versions) && leb (length versions) limit

unfoldable pub is_offer : ℕ → Loaded → Bool
is_offer limit (loaded versions) = are_offered limit versions
is_offer limit no_stable_release = true
is_offer limit load_failed = true

-- The cache of a checker is empty, or what a search with its limit answered.
unfoldable pub has_offers : ReleaseChecker → Bool
has_offers c = c.cache_limit == 0 || are_offered c.cache_limit c.cache

unfoldable pub is_panic : Latest → Bool
is_panic (latest version) = false
is_panic no_latest = false
is_panic panics = true

all-snoc :
    (p : Text → Bool) (versions : List Text) (version : Text)
    → all p versions ≡ true
    → p version ≡ true
    → all p (versions ++ (version ∷ [])) ≡ true
all-snoc p [] version h k = ground (arith, k)
all-snoc p (v ∷ versions) version h k = ground (arith, all-snoc p versions version, k)

stable_version-valid :
    (prefix : Text) (release : Release) (version : Text)
    → stable_version prefix release ≡ some version
    → valid_target_version version ≡ true
unfolding stable_version
stable_version-valid prefix release version h = ground arith

add_version-all :
    (prefix : Text) (release : Release) (versions : List Text)
    → all valid_target_version versions ≡ true
    → all valid_target_version (add_version versions (stable_version prefix release)) ≡ true
unfolding add_version
add_version-all prefix release versions h = elim (Option-cases (stable_version prefix release)) [
  | inl e ↦ rw e h
  | inr (version, e) ↦
      let valid = stable_version-valid prefix release version e in
      rw e (ground (arith, all-snoc valid_target_version versions version h valid, h))
]

add_releases-all :
    (prefix : Text) (releases : List Release) (versions : List Text)
    → all valid_target_version versions ≡ true
    → all valid_target_version (add_releases prefix releases versions) ≡ true
unfolding add_releases
add_releases-all prefix [] versions h = h
add_releases-all prefix (release ∷ releases) versions h =
    add_releases-all prefix releases (add_version versions (stable_version prefix release))
      (add_version-all prefix release versions h)

are_valid : Option (List Text) → Bool
are_valid none = true
are_valid (some versions) = all valid_target_version versions

collect-are_valid :
    (pages : Pages) (prefix : Text) (limit fuel page : ℕ) (versions : List Text)
    → all valid_target_version versions ≡ true
    → are_valid (collect pages prefix limit fuel page versions) ≡ true
unfolding collect are_valid
collect-are_valid pages prefix limit zero page versions h = h
collect-are_valid pages prefix limit (suc fuel) page versions h = elim (Option-cases (pages page)) [
  | inl e ↦ rw (collect, e) refl
  | inr (releases, e) ↦
      let found = add_releases prefix releases versions in
      let valid = add_releases-all prefix releases versions h in
      let rest = collect-are_valid pages prefix limit fuel (page + 1) found valid in
      rw (collect, e) (ground (arith, valid, rest))
]

take_some :
    {A : Type 0} (limit : ℕ) (xs : List A) → 1 ≤ limit → 1 ≤ length xs → 1 ≤ length (take limit xs)
take_some zero xs h k = h
take_some (suc limit) [] h k = k
take_some (suc limit) (x ∷ xs) h k = omega arith

take-are_offered :
    (limit : ℕ) (versions : List Text)
    → 1 ≤ limit
    → 1 ≤ length versions
    → all valid_target_version versions ≡ true
    → are_offered limit (take limit versions) ≡ true
unfolding are_offered
take-are_offered limit versions h k valid = ground (
  arith,
  take_some limit versions h k,
  length-take_le limit versions,
  all-take valid_target_version limit versions valid,
)

newest-is_offer :
    (limit : ℕ) (versions : List Text)
    → 1 ≤ limit
    → all valid_target_version versions ≡ true
    → is_offer limit (newest limit versions) ≡ true
unfolding newest is_offer
newest-is_offer limit versions h valid =
    let sorted = order_by version_greater versions in
    let same = length-order_by version_greater versions in
    let offered = take-are_offered limit sorted h in
    ground (arith, same, offered, all-order_by valid_target_version version_greater versions, valid)

recent_git_hub-is_offer :
    (pages : Pages) (prefix : Text) (limit : ℕ)
    → 1 ≤ limit
    → is_offer limit (recent_git_hub pages prefix limit) ≡ true
unfolding recent_git_hub is_offer are_valid
recent_git_hub-is_offer pages prefix limit h =
    let collected = collect pages prefix limit release_max_pages 1 [] in
    let valid = collect-are_valid pages prefix limit release_max_pages 1 [] refl in
    elim (Option-cases collected) [
      | inl e ↦ ground (arith, e)
      | inr (versions, e) ↦
          let offered = newest-is_offer limit versions h in
          let chosen : all valid_target_version versions ≡ true =
            subst (λ o. are_valid o ≡ true) e valid in
          ground (arith, e, offered, chosen)
    ]

recent_npm-is_offer :
    (registry : Option (List Text)) (limit : ℕ)
    → 1 ≤ limit
    → is_offer limit (recent_npm registry limit) ≡ true
unfolding recent_npm is_offer
recent_npm-is_offer none limit h = refl
recent_npm-is_offer (some versions) limit h =
    newest-is_offer limit (keep valid_target_version versions) h
      (all-keep valid_target_version versions)

search_releases-is_offer :
    (pages : Pages) (registry : Option (List Text)) (c : ReleaseChecker) (limit : ℕ)
    → 1 ≤ limit
    → is_offer limit (search_releases pages registry c limit) ≡ true
unfolding search_releases
search_releases-is_offer pages registry c limit h =
    let searched = recent_git_hub-is_offer pages c.tag_prefix limit h in
    let registered = recent_npm-is_offer registry limit h in ground (arith, searched, registered)

remember-has_offers :
    (now : ℕ) (c : ReleaseChecker) (limit : ℕ) (found : Loaded)
    → has_offers c ≡ true
    → is_offer limit found ≡ true
    → has_offers (remember now c limit found) ≡ true
unfolding has_offers remember is_offer
remember-has_offers now c limit (loaded versions) h k = ground (arith, k)
remember-has_offers now c limit no_stable_release h k = h
remember-has_offers now c limit load_failed h k = h

cached-is_offer :
    (c : ReleaseChecker) (limit : ℕ)
    → 1 ≤ limit
    → has_offers c ≡ true
    → leb limit c.cache_limit ≡ true
    → are_offered limit (take limit c.cache) ≡ true
unfolding has_offers are_offered
cached-is_offer c limit h held short =
    let offered = take-are_offered limit c.cache h in ground (arith, offered, held)

module _ (pages : Pages) (registry : Option (List Text)) (now : ℕ) (c : ReleaseChecker)
    (h : has_offers c ≡ true) where
  -- Whatever the servers answer, a list of at least one and at most `limit` versions, all of them
  -- valid, is what a search for `limit` of them gives, or else an error; and the cache behind it
  -- holds such a list again.
  pub recent_stable-is_offer :
      (limit : ℕ)
      → 1 ≤ limit
      → (is_offer limit (recent_stable pages registry now limit c).1 ≡ true)
        × (has_offers (recent_stable pages registry now limit c).0 ≡ true)
  unfolding recent_stable is_offer
  recent_stable-is_offer limit some_limit =
      let found = search_releases-is_offer pages registry c limit some_limit in
      let kept = remember-has_offers now c limit (search_releases pages registry c limit) h found in
      let cached = cached-is_offer c limit some_limit h in
      (ground (arith, found, cached), ground (arith, kept, h))

  first_version-panics :
      (found : Loaded) → is_offer 1 found ≡ true → is_panic (first_version found) ≡ false
  unfolding is_offer are_offered first_version is_panic
  first_version-panics (loaded []) k = ground (arith, k)
  first_version-panics (loaded (version ∷ versions)) k = refl
  first_version-panics no_stable_release k = refl
  first_version-panics load_failed k = refl

  -- With such a cache, the access to the first of the versions that are found does not panic.
  pub latest_stable-panics : is_panic (latest_stable pages registry now c).1 ≡ false
  unfolding latest_stable
  latest_stable-panics =
      first_version-panics (recent_stable pages registry now 1 c).1
        (recent_stable-is_offer 1 (omega arith)).0
