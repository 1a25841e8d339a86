-- ===== src/Cloud/Access.antt =====
-- What connect_repository of backend/app/services/cloud_repo_service.py refuses.
use mathlib.Core.List.{Mem, mem-cons_self, mem-cons_of_mem}
use phodex.Base.{
  All, String, ◌≡◌, refl, Bool, true, false, Option, none, some, List, [], ◌∷◌, arith, str_eq,
  eq_iff, Bool-cases, Option-cases, inl, inr, ◌⊎◌,
}
use phodex.Models.{User, SyncedRepository}
use phodex.World.{World, Result, ok, err, conflict}
use phodex.Cloud.Url.{RepoSource, parse_repo_source, normalize_for_allowlist, url_error}
use phodex.Cloud.Setup.{Cloud}
use phodex.Cloud.{
  listed, is_restricted, demo_error, enforce_demo_allowlist, connect_source, connect_repository,
}

module _ (c : Cloud) (source : RepoSource) where
  -- the item names the repository of the source
  abbrev pub Names : String → Type 0
  Names item = normalize_for_allowlist c.texts item ≡ normalize_for_allowlist c.texts source.url

  listed-Names :
      (items : List String)
      → listed c source items ≡ true
      → (item : String) × Mem item items × Names item
  listed-Names [] h = absurd (cc)
  listed-Names (item ∷ items) h =
      let a = normalize_for_allowlist c.texts item in
      let b = normalize_for_allowlist c.texts source.url in
      elim (Bool-cases (str_eq a b)) [
        | inl same ↦ (item, mem-cons_self, (eq_iff a b).0 same)
        | inr other ↦
            let (found, there, names) = listed-Names items (ground arith) in
            (found, mem-cons_of_mem item there, names)
      ]

  unlisted :
      (items : List String) → listed c source items ≡ false → All (λ item. ¬ Names item) items
  unlisted [] h = tt
  unlisted (item ∷ items) h =
      let a = normalize_for_allowlist c.texts item in
      let b = normalize_for_allowlist c.texts source.url in
      elim (Bool-cases (str_eq a b)) [
        | inl same ↦ absurd (ground arith)
        | inr other ↦
            (λ (e : a ≡ b). absurd (ground (arith, eq_iff a b)), unlisted items (ground arith))
      ]

module _ (c : Cloud) (user : User) (raw_url : String) (branch token : Option String)
    (w : World) where
  abbrev allowlist : List String
  allowlist = c.demo_repo_allowlist_urls

  abbrev restricted : Bool
  restricted = is_restricted c w.settings.demo_account_email user

  abbrev connected : Result SyncedRepository × World
  connected = connect_repository c user raw_url branch token w

  allowed_cases :
      (source : RepoSource)
      → ((restricted ≡ true)
          × All (λ item. ¬ Names c source item) allowlist
          × (enforce_demo_allowlist c user source w ≡ (err demo_error, w)))
        ⊎ ((restricted ≡ true → (item : String) × Mem item allowlist × Names c source item)
            × (enforce_demo_allowlist c user source w ≡ (ok tt, w)))
  unfolding enforce_demo_allowlist
  allowed_cases source = elim (Bool-cases restricted) [
    | inr free ↦ inr (λ h. absurd (cc), rw free refl)
    | inl bound ↦ elim (Bool-cases (listed c source allowlist)) [
      | inl named ↦ inr (λ _. listed-Names c source allowlist named, rw (bound, named) refl)
      | inr missing ↦ inl (bound, unlisted c source allowlist missing, rw (bound, missing) refl)
    ]
  ]

  -- Connecting a repository, case by case: a url that is not understood is a conflict. For the demo
  -- account with an allowlist, a repository that no item of the list names is forbidden. In both cases
  -- nothing changes. Otherwise, and then an item of the list names the repository if the account is
  -- restricted so, it goes on to clone the source.
  pub connect_repository_outcome :
      ((parse_repo_source c.texts raw_url c.allow_local_git_urls ≡ none)
        × (connected ≡ (err (conflict url_error), w)))
      ⊎ ((source : RepoSource) × (parse_repo_source c.texts raw_url c.allow_local_git_urls
            ≡ some source)
          × (((restricted ≡ true)
                × All (λ item. ¬ Names c source item) allowlist
                × (connected ≡ (err demo_error, w)))
              ⊎ ((restricted ≡ true → (item : String) × Mem item allowlist × Names c source item)
                  × (connected ≡ connect_source c user source branch token w))))
  unfolding connect_repository
  connect_repository_outcome =
      elim (Option-cases (parse_repo_source c.texts raw_url c.allow_local_git_urls)) [
        | inl unknown ↦ inl (unknown, rw unknown refl)
        | inr (source, parsed) ↦ inr (
          source,
          parsed,
          elim (allowed_cases source) [
            | inl (bound, missing, refused) ↦ inl (bound, missing, rw parsed (rw refused refl))
            | inr (named, passed) ↦ inr (named, rw parsed (rw passed refl))
          ],
        )
      ]
