-- ===== src/Cloud/Spelling.antt =====
-- What the parser of repository urls accepts, and that what it returns is a url that it reads back.
use Prim.Native.String as S
use Prim.Native.Char.{Char, code}
use text.Mathlib.TextLemmas.{cons-append, nil-append, append_assoc, append_cancel_right}
use mathlib.Core.Path.{subst}
use phodex.Base.{
  is_empty-append, rstrip-append, rstrip-cons, lstrip-cons, rstrip_git, lstrip, rstrip, ◌≡◌, refl,
  ap, String, Bool, true, false, Option, none, some, arith, ◌==◌, inl, inr, if◌then◌else◌, or_else,
  Bool-cases, is_empty, strip, str_eq, eq_iff, drop_prefix, drop_prefix-append, remove_prefix,
}
use phodex.Cloud.Url.{
  RepoSource, Texts, is_name_char, ends, cons_name, repo_name, owner_part, github_url, source_of,
  behind_host, may_be_short, skip_scheme, owner_and_repo, match_github, match_short, find_source,
  parse_repo_source,
}

module _ (x : Texts) where
  abbrev AllNameChars : String → Type 0
  AllNameChars S.[] = Unit
  AllNameChars (S.◌∷◌ c s) = (is_name_char x c ≡ true) × AllNameChars s

  -- a text that is not empty, of word characters, dots and dashes
  pub record IsName (s : String) : Type 0 where
    pub full : is_empty s ≡ false
    pub chars : AllNameChars s

  abbrev Named : Option String → Type 0
  Named none = Unit
  Named (some n) = IsName n

  cons_name-Named :
      (c : Char) (found : Option String)
      → is_name_char x c ≡ true
      → Named found
      → Named (cons_name x c found)
  cons_name-Named c none h k = tt
  cons_name-Named c (some m) h k = record { full = refl; chars = (h, k.chars) }

  first-Named :
      (last : Bool) (c : Char) (found : Option String)
      → is_name_char x c ≡ true
      → Named found
      → Named (if last then some (S.◌∷◌ c S.[]) else cons_name x c found)
  first-Named true c found h k = record { full = refl; chars = (h, tt) }
  first-Named false c found h k = cons_name-Named c found h k

  repo_name-Named : (slash : Bool) (s : String) → Named (repo_name x slash s)
  repo_name-Named slash S.[] = tt
  repo_name-Named slash (S.◌∷◌ c s) = elim (Bool-cases (is_name_char x c)) [
    | inl h ↦
        rw h (first-Named (ends x slash s) c (repo_name x slash s) h (repo_name-Named slash s))
    | inr h ↦ rw h tt
  ]

  abbrev Owned : Option (String × String) → Type 0
  Owned none = Unit
  Owned (some (o, rest)) = AllNameChars o

  abbrev cons_owner : Char → Option (String × String) → Option (String × String)
  cons_owner c found = elim found [ none ↦ none | some (o, rest) ↦ some (S.◌∷◌ c o, rest) ]

  cons_owner-Owned :
      (c : Char) (found : Option (String × String))
      → is_name_char x c ≡ true
      → Owned found
      → Owned (cons_owner c found)
  cons_owner-Owned c none h k = tt
  cons_owner-Owned c (some (o, rest)) h k = (h, k)

  owner_part-Owned : (s : String) → Owned (owner_part x s)
  owner_part-Owned S.[] = tt
  owner_part-Owned (S.◌∷◌ c s) = elim (Bool-cases (code c == 47)) [
    | inl h ↦ rw h tt
    | inr h ↦ elim (Bool-cases (is_name_char x c)) [
      | inl k ↦ rw (h, k) (cons_owner-Owned c (owner_part x s) k (owner_part-Owned s))
      | inr k ↦ rw (h, k) tt
    ]
  ]

  -- the source is of GitHub, by its two names
  pub record IsGithub (source : RepoSource) : Type 0 where
    pub same_url : source.url ≡ github_url x source.owner source.name
    pub owner_name : IsName source.owner
    pub repo_name : IsName source.name

  abbrev Github : Option RepoSource → Type 0
  Github none = Unit
  Github (some source) = IsGithub source

  source_of-Github :
      (owner : String) (found : Option String)
      → AllNameChars owner
      → Named found
      → Github (source_of x owner found)
  source_of-Github owner none h k = tt
  source_of-Github owner (some name) h k = elim (Bool-cases (is_empty owner)) [
    | inl blank ↦ rw blank tt
    | inr full ↦
        rw full (record {
          same_url = refl;
          owner_name = record { full = full; chars = h };
          repo_name = k;
        })
  ]

  owner_and_repo-Github :
      (slash : Bool) (parts : Option (String × String))
      → Owned parts
      → Github (owner_and_repo x slash parts)
  owner_and_repo-Github slash none h = tt
  owner_and_repo-Github slash (some (o, rest)) h =
      source_of-Github o (repo_name x slash rest) h (repo_name-Named slash rest)

  behind_host-Github : (rest : Option String) → Github (behind_host x rest)
  behind_host-Github none = tt
  behind_host-Github (some rest) =
      owner_and_repo-Github true (owner_part x rest) (owner_part-Owned rest)

  or_else-Github : (a b : Option RepoSource) → Github a → Github b → Github (or_else a b)
  or_else-Github none b h k = k
  or_else-Github (some a) b h k = h

  short-Github : (b : Bool) (s : String) → Github (if b then match_short x s else none)
  unfolding match_short
  short-Github true s = owner_and_repo-Github false (owner_part x s) (owner_part-Owned s)
  short-Github false s = tt

  -- without local paths, what is accepted is of GitHub
  find_source-Github : (value : String) → Github (find_source x false value)
  unfolding find_source match_github
  find_source-Github value =
      or_else-Github (match_github x value) _
        (behind_host-Github
          (drop_prefix "github.com/" (remove_prefix "www." (skip_scheme x value))))
        (or_else-Github (if may_be_short x value then match_short x value else none) none
          (short-Github (may_be_short x value) value) tt)

abbrev ends_slash : String → Bool
ends_slash S.[] = false
ends_slash (S.◌∷◌ c s) = if is_empty s then code c == 47 else ends_slash s

ends_slash-append : (u t : String) → is_empty t ≡ false → ends_slash (S.◌++◌ u t) ≡ ends_slash t
ends_slash-append S.[] t full = rw nil-append refl
ends_slash-append (S.◌∷◌ c u) t full =
    rw cons-append (rw (is_empty-append u t full) (ends_slash-append u t full))

-- a text that does not end in a slash is not one that does
not_slashed : (s t : String) → ends_slash s ≡ false → ends_slash t ≡ true → str_eq s t ≡ false
not_slashed s t h k = elim (Bool-cases (str_eq s t)) [
  | inl same ↦ let e : s ≡ t = (eq_iff s t).0 same in absurd (cc (ap ends_slash e))
  | inr other ↦ other
]

not_suffix : (c : Char) (u : String) → str_eq (S.◌++◌ (S.◌∷◌ c u) ".git") ".git" ≡ false
not_suffix c u = elim (Bool-cases (str_eq (S.◌++◌ (S.◌∷◌ c u) ".git") ".git")) [
  | inl same ↦
      let e : S.◌++◌ (S.◌∷◌ c u) ".git" ≡ S.◌++◌ S.[] ".git" =
        (eq_iff (S.◌++◌ (S.◌∷◌ c u) ".git") ".git").0 same in
      absurd (cc (ap is_empty (append_cancel_right (S.◌∷◌ c u) S.[] ".git" e)))
  | inr other ↦ other
]

module _ (x : Texts) where
  -- behind a proper part of the name the text does not end
  not_yet : (u : String) → is_empty u ≡ false → ends x true (S.◌++◌ u ".git") ≡ false
  not_yet S.[] full = absurd (cc)
  not_yet (S.◌∷◌ c u) full =
      let s = S.◌++◌ (S.◌∷◌ c u) ".git" in
      let plain : ends_slash s ≡ false = ends_slash-append (S.◌∷◌ c u) ".git" refl in
      rw
        (
          is_empty-append (S.◌∷◌ c u) ".git" refl,
          not_suffix c u,
          not_slashed s "/" plain refl,
          not_slashed s ".git/" plain refl,
        )
        refl

  repo_name_git : (n : String) → IsName x n → repo_name x true (S.◌++◌ n ".git") ≡ some n
  repo_name_git S.[] h = absurd (cc (h.full))
  repo_name_git (S.◌∷◌ c S.[]) h = rw (cons-append, h.chars.0) refl
  repo_name_git (S.◌∷◌ c (S.◌∷◌ d n)) h =
      rw
        (
          cons-append,
          h.chars.0,
          not_yet (S.◌∷◌ d n) refl,
          repo_name_git (S.◌∷◌ d n) (record { full = refl; chars = h.chars.1 }),
        )
        refl

  no_slash : (c : Char) → is_name_char x c ≡ true → (code c == 47) ≡ false
  no_slash c h = ground arith

  owner_part-append :
      (o rest : String)
      → AllNameChars x o
      → owner_part x (S.◌++◌ o (S.◌∷◌ "/" rest)) ≡ some (o, rest)
  owner_part-append S.[] rest h = rw nil-append refl
  owner_part-append (S.◌∷◌ c o) rest h =
      rw (cons-append, no_slash c h.0, h.0, owner_part-append o rest h.1) refl

  module _ (o n : String) (owner : IsName x o) (name : IsName x n) where
    abbrev path : String
    path = S.◌++◌ o (S.◌∷◌ "/" (S.◌++◌ n ".git"))

    url_split : github_url x o n ≡ S.◌++◌ "https://" (S.◌++◌ "github.com/" path)
    url_split = append_assoc "https://" "github.com/" path

    host_split : S.◌++◌ "github.com/" path ≡ S.◌∷◌ "g" (S.◌++◌ "ithub.com/" path)
    host_split = cons-append "g" "ithub.com/" path

    skip_scheme-url : skip_scheme x (github_url x o n) ≡ S.◌++◌ "github.com/" path
    skip_scheme-url = rw (url_split, drop_prefix-append "https://" (S.◌++◌ "github.com/" path)) refl

    no_www : remove_prefix "www." (S.◌++◌ "github.com/" path) ≡ S.◌++◌ "github.com/" path
    no_www = rw host_split refl

    match_github-url :
        match_github x (github_url x o n)
        ≡ some (record { url = github_url x o n; owner = o; name = n })
    unfolding match_github
    match_github-url =
        rw
          (
            skip_scheme-url,
            no_www,
            drop_prefix-append "github.com/" path,
            owner_part-append o (S.◌++◌ n ".git") owner.chars,
            repo_name_git n name,
            owner.full,
          )
          refl

    lstrip-url : lstrip (github_url x o n) ≡ github_url x o n
    lstrip-url =
        rw (cons-append "h" "ttps://github.com/" path)
          (lstrip-cons "h" (S.◌++◌ "ttps://github.com/" path) (omega arith) (omega arith))

    strip-url : strip (github_url x o n) ≡ github_url x o n
    unfolding strip
    strip-url =
        let t = S.◌∷◌ "/" (S.◌++◌ n ".git") in
        let full : is_empty t ≡ false = refl in
        let tail : rstrip t ≡ t =
          rstrip-cons "/" (S.◌++◌ n ".git") (is_empty-append n ".git" refl)
            (rstrip-append n ".git" refl rstrip_git) in
        rw (lstrip-url) (
          rstrip-append "https://github.com/" path (is_empty-append o t full)
            (rstrip-append o t full tail))

    url_full : is_empty (github_url x o n) ≡ false
    url_full = is_empty-append "https://github.com/" path (is_empty-append o _ refl)

    reread :
        (allow_local : Bool)
        → parse_repo_source x (github_url x o n) allow_local
          ≡ some (record { url = github_url x o n; owner = o; name = n })
    unfolding parse_repo_source find_source
    reread allow_local = rw (strip-url, url_full, match_github-url) refl

  reread_source :
      (source : RepoSource)
      → IsGithub x source
      → (allow_local : Bool) → parse_repo_source x source.url allow_local ≡ some source
  reread_source source g allow_local =
      rw g.same_url (reread source.owner source.name g.owner_name g.repo_name allow_local)

  parsed-IsGithub :
      (raw : String) (source : RepoSource)
      → parse_repo_source x raw false ≡ some source
      → IsGithub x source
  unfolding parse_repo_source
  parsed-IsGithub raw source parsed = elim (Bool-cases (is_empty (strip raw))) [
    | inl blank ↦ absurd (cc (rw blank at parsed))
    | inr full ↦ subst (Github x) (rw full at parsed) (find_source-Github x (strip raw))
  ]

  -- Without local paths, what is accepted is the GitHub repository of two names of word characters,
  -- dots and dashes, and its url is `https://github.com/owner/name.git`; and this url, given to the
  -- parser again, yields the same source.
  pub parse_repo_source_lem :
      (raw : String) (source : RepoSource)
      → parse_repo_source x raw false ≡ some source
      → IsGithub x source
        × ((allow_local : Bool) → parse_repo_source x source.url allow_local ≡ some source)
  unfolding parse_repo_source find_source
  parse_repo_source_lem raw source parsed =
      let g : IsGithub x source = parsed-IsGithub raw source parsed in (g, reread_source source g)
